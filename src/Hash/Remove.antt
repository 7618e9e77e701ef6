-- ===== src/Hash/Remove.antt =====
-- `hash_remove` on a table that reads as `f`.
use yalibct.Base.{
  ℕ, ◌+◌, ◌-◌, ◌<◌, ◌≡◌, refl, sym, ap, ◌∙◌, [], Option, none, some, length, set, arith, Bool-cases,
  Option-cases, inl, inr, get_or-set_self,
}
use yalibct.Hash.State.{ok, ◌>>=◌, Env, HashTable}
use yalibct.Hash.Tuning.{check_tuning, checked, is_sparse, shrink_candidate}
use yalibct.Hash.Find.{same, unlink}
use yalibct.Hash.Keys.{IsLawful, filled}
use yalibct.Hash.Buckets.{chain_of, update, remove-Holds, reads-congr, occupied}
use yalibct.Hash.Place.{InStep, List-cases}
use yalibct.Hash.Resize.{Models, Resized, Holds-congr, Holds-counts, hash_rehash-Resized}
use yalibct.Hash.Lookup.{hash_find_entry-delete, hash_find_entry-absent}
use yalibct.Hash.Operations.{decrement, shrink_if_sparse, hash_remove}

abbrev pub found : Option ℕ → ℕ
found none = 0
found (some x) = 1

module _ {F : Type 0} (env : Env F) (law : IsLawful env) where
  shrink_if_sparse-Resized :
      (f : ℕ → Option ℕ) (t : HashTable F)
      → Models env f t
      → InStep t
      → (t' : HashTable F) × (shrink_if_sparse env t ≡ ok t') × Resized env f t t'
  unfolding shrink_if_sparse check_tuning
  shrink_if_sparse-Resized f t v step =
      let retuned : HashTable F = record t { tuning = (checked env t.tuning).0 } in
      let v' : Models env f retuned = record { wide = v.wide; holds = v.holds } in
      elim (Bool-cases (is_sparse env t)) [
        | inr e ↦ (
          t,
          rw (shrink_if_sparse, e) refl,
          record { models = v; entries = refl; obstack = refl },
        )
        | inl e ↦ elim (Bool-cases (is_sparse env retuned)) [
          | inr g ↦ (
            retuned,
            rw (shrink_if_sparse, e, g) refl,
            record { models = v'; entries = refl; obstack = refl },
          )
          | inl g ↦
              let (done, t', moved, z) =
                hash_rehash-Resized env law retuned f v' (shrink_candidate env retuned) step in
              (
                t',
                rw (shrink_if_sparse, e, g, moved) refl,
                record { models = z.models; entries = z.entries; obstack = z.obstack },
              )
        ]
      ]

  -- `hash_remove` returns the stored entry that is the same, or a null pointer, and leaves a table that
  -- reads as before but for what is the same as the argument.
  pub hash_remove_lem :
      (f : ℕ → Option ℕ) (t : HashTable F) (e : ℕ)
      → Models env f t
      → InStep t
      → (t' : HashTable F) × (hash_remove env t e ≡ ok (f e, t'))
        × Models env (update env f e none) t'
        × (t'.n_entries + found (f e) ≡ t.n_entries)
        × (t'.entry_stack ≡ t.entry_stack)
  unfolding hash_remove
  hash_remove_lem f t e v step = elim (Option-cases (f e)) [
    | inl absent ↦ (
      t,
      rw (hash_remove, hash_find_entry-absent env law t f v e absent, ◌>>=◌, absent) refl,
      record {
        wide = v.wide;
        holds =
            Holds-congr env
              (λ q. elim (Bool-cases (same env q e)) [
                | inl s ↦ rw s (reads-congr env law v.holds q e s ∙ absent)
                | inr s ↦ rw s refl
              ])
              v.holds;
      },
      rw absent (omega arith),
      refl,
    )
    | inr (x, there) ↦
        let (free, q) = hash_find_entry-delete env law t f v e x there in
        let (one_entry, one_bucket) = occupied env law v.holds v.wide e x there in
        let i = env.hasher e t.n_buckets in
        let c = unlink env e (chain_of env t.n_buckets t.bucket e) in
        let rest = remove-Holds env law v.holds v.wide e x there in
        let lt : i < length t.bucket =
          omega (arith, law.hasher-lt e t.n_buckets v.wide, v.holds.width) in
        let again = get_or-set_self t.bucket i c [] lt in
        let fewer : decrement t.n_entries ≡ t.n_entries - 1 = ground arith in
        let table : HashTable F = record t {
          bucket = set t.bucket i c;
          free_entry_list = free;
          n_entries = decrement t.n_entries;
        } in
        let less : decrement t.n_entries + found (f e) ≡ t.n_entries =
          rw there (omega (arith, fewer)) in
        elim (List-cases c) [
          | inr (h, ds, o) ↦ (
            table,
            rw (hash_remove, q, ◌>>=◌, again ∙ o) (ap (λ w. ok (w, table)) (sym there)),
            record {
              wide = v.wide;
              holds = Holds-counts env (sym fewer) (omega (arith, ap filled o)) rest;
            },
            less,
            refl,
          )
          | inl o ↦
              let emptied : HashTable F = record table {
                n_buckets_used = decrement t.n_buckets_used;
              } in
              let empty_bucket : t.n_buckets_used + filled c - 1 ≡ decrement t.n_buckets_used =
                rw o (ground arith) in
              let (t', shrunk, z) =
                shrink_if_sparse-Resized (update env f e none) emptied
                  (record { wide = v.wide; holds = Holds-counts env (sym fewer) empty_bucket rest })
                  step in
              (
                t',
                rw (hash_remove, q, ◌>>=◌, again ∙ o, shrunk, ◌>>=◌)
                    (ap (λ w. ok (w, t')) (sym there)),
                z.models,
                ap (λ k. k + found (f e)) z.entries ∙ less,
                z.obstack,
              )
        ]
  ]
