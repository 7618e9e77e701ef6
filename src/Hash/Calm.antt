-- ===== src/Hash/Calm.antt =====
-- `hash_remove` on a table that is not sparse keeps its number of buckets, its tuning and its obstack.
use yalibct.Base.{
  ℕ, ◌≡◌, refl, false, [], none, some, ◌∙◌, length, set, get_or-set_self, arith, Option-cases, inl,
  inr, ◌<◌, Option,
}
use yalibct.Hash.State.{ok, ◌>>=◌, Env, HashTable}
use yalibct.Hash.Tuning.{is_sparse}
use yalibct.Hash.Find.{unlink}
use yalibct.Hash.Keys.{IsLawful}
use yalibct.Hash.Buckets.{chain_of}
use yalibct.Hash.Place.{InStep, List-cases}
use yalibct.Hash.Resize.{Models}
use yalibct.Hash.Lookup.{hash_find_entry-delete, hash_find_entry-absent}
use yalibct.Hash.Insert.{SameShape}
use yalibct.Hash.Operations.{decrement, shrink_if_sparse, hash_remove}

module _ {F : Type 0} (env : Env F) (law : IsLawful env) where
  -- Where no table of the shape is sparse, the table that hash_remove leaves has the shape, and is in step.
  pub hash_remove-SameShape :
      (f : ℕ → Option ℕ) (t : HashTable F) (e : ℕ)
      → Models env f t
      → InStep t
      → ((u : HashTable F) → SameShape t u → is_sparse env u ≡ false)
      → (t' : HashTable F) × (r : Option ℕ) × (hash_remove env t e ≡ ok (r, t'))
        × InStep t'
        × SameShape t t'
  unfolding hash_remove shrink_if_sparse
  hash_remove-SameShape f t e v step dense = elim (Option-cases (f e)) [
    | inl absent ↦ (
      t,
      none,
      rw (hash_remove, hash_find_entry-absent env law t f v e absent, ◌>>=◌) refl,
      step,
      (refl, refl),
    )
    | inr (x, there) ↦
        let (free, q) = hash_find_entry-delete env law t f v e x there in
        let i = env.hasher e t.n_buckets in
        let c = unlink env e (chain_of env t.n_buckets t.bucket e) in
        let lt : i < length t.bucket =
          omega (arith, law.hasher-lt e t.n_buckets v.wide, v.holds.width) in
        let again = get_or-set_self t.bucket i c [] lt in
        let table : HashTable F = record t {
          bucket = set t.bucket i c;
          free_entry_list = free;
          n_entries = decrement t.n_entries;
        } in
        elim (List-cases c) [
          | inr (h, ds, o) ↦
              (table, some x, rw (hash_remove, q, ◌>>=◌, again ∙ o) refl, step, (refl, refl))
          | inl o ↦
              let emptied : HashTable F = record table {
                n_buckets_used = decrement t.n_buckets_used;
              } in
              (
                emptied,
                some x,
                rw
                    (
                      hash_remove,
                      q,
                      ◌>>=◌,
                      again ∙ o,
                      shrink_if_sparse,
                      dense emptied (refl, refl),
                      ◌>>=◌,
                    )
                    refl,
                step,
                (refl, refl),
              )
        ]
  ]
