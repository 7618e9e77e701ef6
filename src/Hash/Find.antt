-- ===== src/Hash/Find.antt =====
-- `safe_hasher`, `hash_find_entry` and `free_entry` of hash-common.h, and `hash_lookup`.
use yalibct.Base.{
  ℕ, ◌+◌, Bool, ◌||◌, List, [], ◌∷◌, Option, none, some, ltb, ◌==◌, get_or, set, if◌then◌else◌,
}
use yalibct.Hash.State.{Run, ok, ended, ◌>>=◌, Env, HashTable}

module _ {F : Type 0} (env : Env F) where
  -- The number of the bucket that `safe_hasher` returns a pointer to.
  unfoldable pub safe_hasher : HashTable F → ℕ → Run ℕ
  safe_hasher table key =
      let n = env.hasher key table.n_buckets in if ltb n table.n_buckets then ok n else ended

  -- `entry == data || table->comparator (entry, data)`
  unfoldable pub same : ℕ → ℕ → Bool
  same entry data_ = (entry == data_) || env.comparator entry data_

  -- The scan of a chain: the entry that it finds.
  unfoldable pub scan : ℕ → List ℕ → Option ℕ
  scan entry [] = none
  scan entry (d ∷ ds) = if same entry d then some d else scan entry ds

  -- The chain without the entry that the scan finds.
  unfoldable pub unlink : ℕ → List ℕ → List ℕ
  unlink entry [] = []
  unlink entry (d ∷ ds) = if same entry d then ds else d ∷ unlink entry ds

  -- The entry's record goes to the list of free ones.
  unfoldable pub free_entry : HashTable F → HashTable F
  free_entry table = record table { free_entry_list = table.free_entry_list + 1 }

  -- `hash_find_entry` in bucket number `i`, which holds the given entries.
  unfoldable pub find_in_bucket : HashTable F → ℕ → ℕ → Bool → List ℕ → Option ℕ × HashTable F
  find_in_bucket table entry i delete [] = (none, table)
  find_in_bucket table entry i delete (d ∷ ds) =
      let put = λ (c : List ℕ). record table { bucket = set table.bucket i c } in
      let at_head : HashTable F = elim ds [
        | [] ↦ put []
        | next ∷ more ↦ free_entry (put (next ∷ more))
      ] in
      let in_overflow : HashTable F = elim (scan entry ds) [
        | none ↦ table
        | some x ↦ free_entry (put (d ∷ unlink entry ds))
      ] in
      if same entry d
      then (some d, if delete then at_head else table)
      else (scan entry ds, if delete then in_overflow else table)

  -- What is found, the number of the bucket, and the table.
  unfoldable pub hash_find_entry : HashTable F → ℕ → Bool → Run (Option ℕ × ℕ × HashTable F)
  hash_find_entry table entry delete = do
    i ← safe_hasher table entry
    let (found, table') = find_in_bucket table entry i delete (get_or table.bucket i [])
    ok (found, i, table')

  unfoldable pub hash_lookup : HashTable F → ℕ → Run (Option ℕ)
  hash_lookup table entry = do
    i ← safe_hasher table entry
    ok (scan entry (get_or table.bucket i []))
