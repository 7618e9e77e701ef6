-- ===== src/Active.antt =====
-- The exact check for cycles of directories, with FTS_TIGHT_CYCLE_CHECK or FTS_LOGICAL: AD_compare, AD_hash
-- setup_dir and free_dir of fts-common.h, and enter_dir and leave_dir of fts_read.h, on the hash table. A pointer
-- is a number, and the structures are a function of it.
use yalibct.Base.{List, ℕ, ◌%◌, Bool, true, false, ◌&&◌, Option, none, some, ◌==◌, if◌then◌else◌}
use yalibct.CycleCheck.{DevIno}
use yalibct.Hash.State.{Run, ok, ended, ◌>>=◌, Env, HashTable}
use yalibct.Hash.Operations.{hash_initialize, hash_insert, hash_remove, hash_free}
pub mod Entries
pub mod Memory
pub mod Enters
pub mod Walk
pub mod Exact
mod Tests

-- `struct Active_dir`
pub record ActiveDir : Type 0 where
  pub dev : ℕ
  pub ino : ℕ
  pub fts_ent : ℕ

unfoldable pub ad_compare : ActiveDir → ActiveDir → Bool
ad_compare ax ay = (ax.ino == ay.ino) && (ax.dev == ay.dev)

unfoldable pub ad_hash : ActiveDir → ℕ → ℕ
ad_hash ax table_size = ax.ino % table_size

-- A write of a structure
abbrev pub write_dir : (ℕ → ActiveDir) → ℕ → ActiveDir → ℕ → ActiveDir
write_dir at p ad q = if q == p then ad else at q

module _ {F : Type 0} (base : Env F) where
  -- The functions of the table, which read the memory.
  abbrev pub active_env : (ℕ → ActiveDir) → Env F
  active_env at = record base {
    hasher = λ p n. ad_hash (at p) n;
    comparator = λ p q. ad_compare (at p) (at q);
  }

  unfoldable pub setup_active_dirs : (ℕ → ActiveDir) → Bool → Option (Env F × HashTable F)
  setup_active_dirs at malloc =
      hash_initialize base malloc 31 none (some (λ p n. ad_hash (at p) n))
        (some (λ p q. ad_compare (at p) (at q)))

  -- What is returned, the `fts_cycle` of a directory that is marked FTS_DC, the memory and the table.
  unfoldable pub enter_active_dir :
      (ℕ → ActiveDir)
      → HashTable F
      → Option ℕ
      → DevIno
      → ℕ
      → Run (Bool × Option ℕ × (ℕ → ActiveDir) × HashTable F)
  enter_active_dir at table none st ent = ok (false, none, at, table)
  enter_active_dir at table (some ad) st ent = do
    let at' = write_dir at ad (record { dev = st.st_dev; ino = st.st_ino; fts_ent = ent })
    (from_table, table') ← hash_insert (active_env at') table ad
    ok (elim from_table [
      | none ↦ (false, none, at', table')
      | some p ↦
          if p == ad then (true, none, at', table') else (true, some (at' p).fts_ent, at', table')
    ])

  -- `obj` is the address of the local structure, whose third field is not set. The pointer that is freed,
  -- the memory and the table.
  unfoldable pub leave_active_dir :
      (ℕ → ActiveDir) → HashTable F → ℕ → DevIno → Run (ℕ × (ℕ → ActiveDir) × HashTable F)
  leave_active_dir at table obj st = do
    let at' = write_dir at obj (record (at obj) { dev = st.st_dev; ino = st.st_ino })
    (found, table') ← hash_remove (active_env at') table obj
    elim found [ none ↦ ended | some p ↦ ok (p, at', table') ]

  -- The structures that free_dir frees.
  unfoldable pub free_active_dirs : (ℕ → ActiveDir) → HashTable F → List ℕ
  free_active_dirs at table = hash_free (active_env at) true table
