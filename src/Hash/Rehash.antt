-- ===== src/Hash/Rehash.antt =====
-- hash_rehash.h: entries from the list of free ones or the obstack, and the move of all entries into a
-- table of another size.
use yalibct.Base.{
  ℕ, ◌+◌, ◌-◌, Bool, true, false, not, List, [], ◌∷◌, Option, none, some, ltb, ◌==◌, get_or, set,
  replicate, if◌then◌else◌,
}
use yalibct.Hash.State.{Run, ok, ended, reused, ◌>>=◌, Env, HashTable}
use yalibct.Hash.Tuning.{tuning_of, compute_bucket_size}
use yalibct.Hash.Find.{safe_hasher, free_entry}

-- What `transfer_entries` returns: whether it moved everything, the buckets that it leaves in the source,
-- how many of them it emptied, and the destination.
pub record Moved (F : Type 0) : Type 0 where
  pub complete : Bool
  pub left : List (List ℕ)
  pub emptied : ℕ
  pub dst : HashTable F

abbrev pub put_bucket : {F : Type 0} → HashTable F → ℕ → List ℕ → HashTable F
put_bucket table i c = record table { bucket = set table.bucket i c }

module _ {F : Type 0} (env : Env F) where
  -- A new entry, or `none` for a null pointer.
  unfoldable pub allocate_entry : HashTable F → Run (Option (HashTable F))
  allocate_entry table =
      if not (table.free_entry_list == 0)
      then ok (some (record table { free_entry_list = table.free_entry_list - 1 }))
      else if not (env.obstack_alloc table.entry_stack)
      then ok none
      else if ltb table.entry_stack table.made
      then reused
      else ok (some (record table { entry_stack = table.entry_stack + 1; made = table.made + 1 }))

  -- An overflow entry is relinked, or freed where it becomes a head.
  unfoldable pub place_overflow : HashTable F → ℕ → Run (HashTable F)
  place_overflow dst d = do
    i ← safe_hasher env dst d
    ok (elim (get_or dst.bucket i []) [
      | [] ↦
          free_entry env
            (record (put_bucket dst i (d ∷ [])) { n_buckets_used = dst.n_buckets_used + 1 })
      | h ∷ ds ↦ put_bucket dst i (h ∷ d ∷ ds)
    ])

  unfoldable pub transfer_overflow : HashTable F → List ℕ → Run (HashTable F)
  transfer_overflow dst [] = ok dst
  transfer_overflow dst (d ∷ ds) = do dst' ← place_overflow dst d; transfer_overflow dst' ds

  -- A head stays a head or takes a new entry; `none` if there is no new entry.
  unfoldable pub place_head : HashTable F → ℕ → Run (Option (HashTable F))
  place_head dst d = do
    i ← safe_hasher env dst d
    elim (get_or dst.bucket i []) [
      | [] ↦
          ok (some (record (put_bucket dst i (d ∷ [])) { n_buckets_used = dst.n_buckets_used + 1 }))
      | h ∷ ds ↦ do
        new ← allocate_entry dst
        ok (elim new [ none ↦ none | some dst' ↦ some (put_bucket dst' i (h ∷ d ∷ ds)) ])
    ]

  -- The loop over the buckets of the source.
  unfoldable pub transfer_buckets : List (List ℕ) → Bool → HashTable F → Run (Moved F)
  transfer_buckets [] safe dst = ok (record { complete = true; left = []; emptied = 0; dst = dst })
  transfer_buckets ([] ∷ bs) safe dst = do
    m ← transfer_buckets bs safe dst
    ok (record m { left = [] ∷ m.left })
  transfer_buckets ((h ∷ ds) ∷ bs) true dst = do
    dst' ← transfer_overflow dst ds
    m ← transfer_buckets bs true dst'
    ok (record m { left = (h ∷ []) ∷ m.left })
  transfer_buckets ((h ∷ ds) ∷ bs) false dst = do
    dst' ← transfer_overflow dst ds
    placed ← place_head dst' h
    elim placed [
      | none ↦ ok (record { complete = false; left = (h ∷ []) ∷ bs; emptied = 0; dst = dst' })
      | some dst'' ↦ do
        m ← transfer_buckets bs false dst''
        ok (record m { left = [] ∷ m.left; emptied = m.emptied + 1 })
    ]

  -- What it returns, and both tables.
  unfoldable pub transfer_entries :
      HashTable F → HashTable F → Bool → Run (Bool × HashTable F × HashTable F)
  transfer_entries dst src safe = do
    m ← transfer_buckets src.bucket safe dst
    ok (
      m.complete,
      m.dst,
      record src { bucket = m.left; n_buckets_used = src.n_buckets_used - m.emptied },
    )

  -- The move back after a failure.
  unfoldable pub undo : HashTable F → HashTable F → Run (Bool × HashTable F)
  undo table new_table = do
    let table₀ = record table { free_entry_list = new_table.free_entry_list; made = new_table.made }
    (first, table₁, new₁) ← transfer_entries table₀ new_table true
    elim first [
      | false ↦ ended
      | true ↦ do
        (second, table₂, new₂) ← transfer_entries table₁ new₁ false
        if second then ok (false, table₂) else ended
    ]

  -- The new table starts with the free entries and a copy of the obstack. After a complete move the table
  -- takes the new buckets and the free entries back; its obstack is as it was.
  unfoldable pub hash_rehash : HashTable F → ℕ → Run (Bool × HashTable F)
  hash_rehash table candidate =
      let new_size = compute_bucket_size env candidate (tuning_of env table.tuning) in
      let new_table = record table {
        bucket = replicate new_size [];
        n_buckets = new_size;
        n_buckets_used = 0;
        n_entries = 0;
      } in
      let move = (do
        (complete, new, old) ← transfer_entries new_table table false
        let taken = record old {
          bucket = new.bucket;
          n_buckets = new.n_buckets;
          n_buckets_used = new.n_buckets_used;
          free_entry_list = new.free_entry_list;
          made = new.made;
        }
        if complete then ok (true, taken) else undo old new) in
      if new_size == 0
      then ok (false, table)
      else if new_size == table.n_buckets
      then ok (true, table)
      else if not (env.calloc new_size)
      then ok (false, table)
      else move
