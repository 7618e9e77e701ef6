-- ===== src/Hash/Operations.antt =====
-- hash_initialize.h, hash_insert_if_absent.h, hash_insert.h, hash_remove.h and hash_free.h.
use Prim.Native.Nat.{bit_or}
use mathlib.Core.List.{flatten}
use yalibct.Base.{
  ℕ, ◌+◌, ◌-◌, ◌*◌, ◌/◌, ◌%◌, ◌^◌, Bool, true, false, not, ◌&&◌, ◌||◌, List, [], ◌∷◌, Option, none,
  some, ◌==◌, get_or, replicate, if◌then◌else◌,
}
use yalibct.Base.Int.{ℤ, pos, negsuc}
use yalibct.Hash.State.{Run, ok, ended, ◌>>=◌, TuningPointer, default_tuning, Env, HashTable}
use yalibct.Hash.Prime.{size_max}
use yalibct.Hash.Tuning.{
  check_tuning, tuning_of, compute_bucket_size, is_crowded, is_sparse, growth_candidate,
  shrink_candidate,
}
use yalibct.Hash.Find.{hash_find_entry}
use yalibct.Hash.Rehash.{allocate_entry, put_bucket, hash_rehash}

-- `--x` on a `size_t`
abbrev pub decrement : ℕ → ℕ
decrement x = if x == 0 then size_max else x - 1

unfoldable pub rotr_sz : ℕ → ℕ → ℕ
rotr_sz x n = bit_or (x / 2 ^ n) (x * 2 ^ (64 - n) % 2 ^ 64) % 2 ^ 64

unfoldable pub raw_hasher : ℕ → ℕ → ℕ
raw_hasher data_ n = rotr_sz data_ 3 % n

unfoldable pub raw_comparator : ℕ → ℕ → Bool
raw_comparator a b = a == b

module _ {F : Type 0} where
  unfoldable pub chosen_tuning : Option (TuningPointer F) → TuningPointer F
  chosen_tuning none = default_tuning
  chosen_tuning (some t) = t

  -- `malloc` is whether the table itself is allocated. The environment is that with the functions that
  -- the table stores.
  unfoldable pub hash_initialize :
      Env F
      → Bool
      → ℕ
      → Option (TuningPointer F)
      → Option (ℕ → ℕ → ℕ)
      → Option (ℕ → ℕ → Bool)
      → Option (Env F × HashTable F)
  hash_initialize env malloc candidate tuning hasher comparator =
      let env' = record env {
        hasher = elim hasher [ none ↦ raw_hasher | some f ↦ f ];
        comparator = elim comparator [ none ↦ raw_comparator | some f ↦ f ];
      } in
      let pointer = chosen_tuning tuning in
      let n_buckets = compute_bucket_size env candidate (tuning_of env pointer) in
      let table : HashTable F = record {
        bucket = replicate n_buckets [];
        n_buckets = n_buckets;
        n_buckets_used = 0;
        n_entries = 0;
        tuning = pointer;
        free_entry_list = 0;
        entry_stack = 0;
        made = 0;
      } in
      let (checked_table, valid) = check_tuning env table in
      if not malloc || not valid || (n_buckets == 0) || not (env.calloc n_buckets)
      then none
      else some (env', checked_table)

module _ {F : Type 0} (env : Env F) where
  -- The part under the second test for growth: whether the insertion goes on, the table, and the number
  -- of the bucket there.
  unfoldable pub grow : HashTable F → ℕ → Run (Bool × HashTable F × ℕ)
  grow table entry =
      let candidate = growth_candidate env table in
      let rehashed = (do
        (done, table') ← hash_rehash env table (env.floats.to_size candidate)
        elim done [
          | false ↦ ok (false, table', 0)
          | true ↦ do
            (found, i, _) ← hash_find_entry env table' entry false
            elim found [ none ↦ ok (true, table', i) | some d ↦ ended ]
        ]) in
      if env.floats.le (env.floats.of_size size_max) candidate
      then ok (false, table, 0)
      else rehashed

  unfoldable pub grow_if_crowded : HashTable F → ℕ → ℕ → Run (Bool × HashTable F × ℕ)
  grow_if_crowded table entry i =
      let (table', _) = check_tuning env table in
      if is_crowded env table
      then (if is_crowded env table' then grow table' entry else ok (true, table', i))
      else ok (true, table, i)

  -- "ENTRY is not matched, it should be inserted."
  unfoldable pub add_entry : HashTable F → ℕ → ℕ → Run (ℤ × Option ℕ × HashTable F)
  add_entry table i entry = elim (get_or table.bucket i []) [
    | [] ↦ ok (
      pos 1,
      none,
      record (put_bucket table i (entry ∷ [])) {
        n_entries = table.n_entries + 1;
        n_buckets_used = table.n_buckets_used + 1;
      },
    )
    | h ∷ ds ↦ do
      new ← allocate_entry env table
      ok (elim new [
        | none ↦ (negsuc 0, none, table)
        | some table' ↦ (
          pos 1,
          none,
          record (put_bucket table' i (h ∷ entry ∷ ds)) { n_entries = table.n_entries + 1 },
        )
      ])
  ]

  -- The value that is returned, what is stored through `matched_ent`, and the table.
  unfoldable pub hash_insert_if_absent : HashTable F → ℕ → Run (ℤ × Option ℕ × HashTable F)
  hash_insert_if_absent table entry =
      let insertion = (do
        (found, i, _) ← hash_find_entry env table entry false
        elim found [
          | some d ↦ ok (pos 0, some d, table)
          | none ↦ do
            (goes_on, table', i') ← grow_if_crowded table entry i
            if goes_on then add_entry table' i' entry else ok (negsuc 0, none, table')
        ]) in
      if entry == 0 then ended else insertion

  unfoldable pub hash_insert : HashTable F → ℕ → Run (Option ℕ × HashTable F)
  hash_insert table entry = do
    (err, matched_ent, table') ← hash_insert_if_absent table entry
    ok (elim err [
      | negsuc _ ↦ (none, table')
      | pos n ↦ if n == 0 then (matched_ent, table') else (some entry, table')
    ])

  -- The part for a bucket that has become empty.
  unfoldable pub shrink_if_sparse : HashTable F → Run (HashTable F)
  shrink_if_sparse table =
      let (table', _) = check_tuning env table in
      let rehashed = (do
        (_, table'') ← hash_rehash env table' (shrink_candidate env table')
        ok table'') in
      if is_sparse env table
      then (if is_sparse env table' then rehashed else ok table')
      else ok table

  unfoldable pub hash_remove : HashTable F → ℕ → Run (Option ℕ × HashTable F)
  hash_remove table entry = do
    (found, i, table₁) ← hash_find_entry env table entry true
    elim found [
      | none ↦ ok (none, table₁)
      | some d ↦
          let table₂ = record table₁ { n_entries = decrement table₁.n_entries } in
          elim (get_or table₂.bucket i []) [
            | [] ↦ do
              table₃ ←
                  shrink_if_sparse
                    (record table₂ { n_buckets_used = decrement table₂.n_buckets_used })
              ok (some d, table₃)
            | h ∷ ds ↦ ok (some d, table₂)
          ]
    ]

  -- The entries that `data_freer` is called with, if there is one.
  unfoldable pub hash_free : Bool → HashTable F → List ℕ
  hash_free data_freer table =
      if data_freer && not (table.n_entries == 0) then flatten table.bucket else []
