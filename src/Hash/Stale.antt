-- ===== src/Hash/Stale.antt =====
-- The table after a move that took entries from the copy of its obstack.
use yalibct.Base.{
  ℕ, ◌+◌, ◌<◌, ◌≡◌, ◌≢◌, refl, sym, ◌∙◌, Bool, true, false, List, ◌∷◌, Option, none, ◌==◌, arith,
  subst,
}
use yalibct.Hash.State.{ok, reused, ◌>>=◌, Env, HashTable}
use yalibct.Hash.Tuning.{is_crowded}
use yalibct.Hash.Keys.{IsLawful}
use yalibct.Hash.Buckets.{chain_of}
use yalibct.Hash.Rehash.{allocate_entry, hash_rehash}
use yalibct.Hash.Place.{InStep}
use yalibct.Hash.Resize.{Models, hash_rehash-Resized}
use yalibct.Hash.Lookup.{hash_find_entry-keep}
use yalibct.Hash.Balance.{hash_rehash-Balance, ok-inj}
use yalibct.Hash.Insert.{IsStale}
use yalibct.Hash.Operations.{grow_if_crowded, add_entry, hash_insert_if_absent}

module _ {F : Type 0} (env : Env F) (law : IsLawful env) where
  allocate_entry-IsStale : (t : HashTable F) → IsStale t → allocate_entry env t ≡ reused
  unfolding allocate_entry
  allocate_entry-IsStale t s =
      let a = s.none_free in let b = s.behind in ground (arith, law.alloc t.entry_stack)

  hash_insert_if_absent-IsStale :
      (f : ℕ → Option ℕ) (t : HashTable F) (e h : ℕ) (ds : List ℕ)
      → Models env f t
      → IsStale t
      → e ≢ 0
      → f e ≡ none
      → is_crowded env t ≡ false
      → chain_of env t.n_buckets t.bucket e ≡ h ∷ ds
      → hash_insert_if_absent env t e ≡ reused
  unfolding hash_insert_if_absent grow_if_crowded add_entry
  hash_insert_if_absent-IsStale f t e h ds v s entry absent calm o =
      let ne : (e == 0) ≡ false = ground arith in
      rw
        (
          hash_insert_if_absent,
          ne,
          hash_find_entry-keep env law t f v e,
          ◌>>=◌,
          absent,
          grow_if_crowded,
          calm,
          ◌>>=◌,
          add_entry,
          o,
          allocate_entry-IsStale t s,
        )
        refl

  -- Where a move needs more new entries than are free, since fewer buckets are in use after it, the
  -- obstack of the table stays behind, and as soon as no entry is free the insertion of a new entry into
  -- a bucket in use hands out an entry that is in use.
  pub hash_rehash-IsStale :
      (f : ℕ → Option ℕ) (t t' : HashTable F) (candidate e h : ℕ) (ds : List ℕ)
      → Models env f t
      → InStep t
      → hash_rehash env t candidate ≡ ok (true, t')
      → t.free_entry_list + t'.n_buckets_used < t.n_buckets_used
      → t'.free_entry_list ≡ 0
      → e ≢ 0
      → f e ≡ none
      → is_crowded env t' ≡ false
      → chain_of env t'.n_buckets t'.bucket e ≡ h ∷ ds
      → (t'.entry_stack < t'.made) × (hash_insert_if_absent env t' e ≡ reused)
  hash_rehash-IsStale f t t' candidate e h ds v step done fewer none_free entry absent calm o =
      let (balance, same_obstack) = hash_rehash-Balance env t t' candidate v.holds.busy done in
      let behind : t'.entry_stack < t'.made = omega (arith, balance, same_obstack, step, fewer) in
      let (flag, t'', q, z) = hash_rehash-Resized env law t f v candidate step in
      let same_table = ok-inj (sym q ∙ done) in
      let v' : Models env f t' =
        subst (λ (w : Bool × HashTable F). Models env f w.1) same_table z.models in
      (
        behind,
        hash_insert_if_absent-IsStale f t' e h ds v'
            (record { behind = behind; none_free = none_free }) entry absent calm o,
      )
