-- ===== src/Hash/Lookup.antt =====
-- `hash_lookup` and `hash_find_entry` on a table that reads as `f`.
use yalibct.Base.{
  ℕ, ◌+◌, ◌≡◌, refl, ap, ◌∙◌, Bool, true, false, List, [], ◌∷◌, Option, none, some, set, arith,
}
use yalibct.Hash.State.{ok, ◌>>=◌, Env, HashTable}
use yalibct.Hash.Find.{scan, unlink, find_in_bucket, hash_find_entry, hash_lookup, free_entry}
use yalibct.Hash.Keys.{IsLawful}
use yalibct.Hash.Buckets.{chain_of}
use yalibct.Hash.Place.{safe_hasher-ok}
use yalibct.Hash.Resize.{Models}

module _ {F : Type 0} (env : Env F) where
  find_in_bucket-keep :
      (t : HashTable F) (e i : ℕ) (ds : List ℕ)
      → find_in_bucket env t e i false ds ≡ (scan env e ds, t)
  unfolding find_in_bucket scan
  find_in_bucket-keep t e i [] = refl
  find_in_bucket-keep t e i (d ∷ ds) = ground arith

  -- A scan that deletes takes the entry out of its chain and may free its record.
  find_in_bucket-delete :
      (t : HashTable F) (e i x : ℕ) (ds : List ℕ)
      → scan env e ds ≡ some x
      → (free : ℕ) × (find_in_bucket env t e i true ds ≡ (
        some x,
        record t { bucket = set t.bucket i (unlink env e ds); free_entry_list = free },
      ))
  unfolding find_in_bucket scan unlink free_entry
  find_in_bucket-delete t e i x [] h = absurd (ground arith)
  find_in_bucket-delete t e i x (d ∷ []) h = (t.free_entry_list, ground arith)
  find_in_bucket-delete t e i x (d ∷ d' ∷ ds) h = (t.free_entry_list + 1, ground arith)

  find_in_bucket-absent :
      (t : HashTable F) (e i : ℕ) (delete : Bool) (ds : List ℕ)
      → scan env e ds ≡ none
      → find_in_bucket env t e i delete ds ≡ (none, t)
  unfolding find_in_bucket scan
  find_in_bucket-absent t e i delete [] h = refl
  find_in_bucket-absent t e i delete (d ∷ ds) h = ground arith

module _ {F : Type 0} (env : Env F) (law : IsLawful env) (t : HashTable F) (f : ℕ → Option ℕ)
    (v : Models env f t) (e : ℕ) where
  -- `hash_lookup` returns the stored entry that is the same, and a null pointer if there is none.
  pub hash_lookup_lem : hash_lookup env t e ≡ ok (f e)
  unfolding hash_lookup
  hash_lookup_lem =
      rw (safe_hasher-ok env law t t.n_buckets e refl v.wide, ◌>>=◌) (ap ok (v.holds.reads e))

  pub hash_find_entry-keep : hash_find_entry env t e false ≡ ok (f e, env.hasher e t.n_buckets, t)
  unfolding hash_find_entry
  hash_find_entry-keep =
      rw
        (
          safe_hasher-ok env law t t.n_buckets e refl v.wide,
          ◌>>=◌,
          find_in_bucket-keep env t e (env.hasher e t.n_buckets)
              (chain_of env t.n_buckets t.bucket e),
        )
        (ap (λ o. ok (o, env.hasher e t.n_buckets, t)) (v.holds.reads e))

  module _ (x : ℕ) (there : f e ≡ some x) where
    -- The table without the entry; its counters are still as they were.
    pub hash_find_entry-delete :
        (free : ℕ) × (hash_find_entry env t e true
          ≡ ok (
            some x,
            env.hasher e t.n_buckets,
            record t {
              bucket =
                  set t.bucket
                    (env.hasher e t.n_buckets)
                    (unlink env e (chain_of env t.n_buckets t.bucket e));
              free_entry_list = free;
            },
          ))
    unfolding hash_find_entry
    hash_find_entry-delete =
        let (free, found) =
          find_in_bucket-delete env t e (env.hasher e t.n_buckets) x
            (chain_of env t.n_buckets t.bucket e) (v.holds.reads e ∙ there) in
        (free, rw (safe_hasher-ok env law t t.n_buckets e refl v.wide, ◌>>=◌, found) refl)

  pub hash_find_entry-absent :
      f e ≡ none → hash_find_entry env t e true ≡ ok (none, env.hasher e t.n_buckets, t)
  unfolding hash_find_entry
  hash_find_entry-absent absent =
      rw
        (
          safe_hasher-ok env law t t.n_buckets e refl v.wide,
          ◌>>=◌,
          find_in_bucket-absent env t e (env.hasher e t.n_buckets) true
              (chain_of env t.n_buckets t.bucket e) (v.holds.reads e ∙ absent),
        )
        refl
