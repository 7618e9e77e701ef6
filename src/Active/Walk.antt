-- ===== src/Active/Walk.antt =====
-- Walks over a hierarchy with the exact check, as fts_read.h makes them with `enter_dir` and `leave_dir`, and
-- the directories that they ought to mark.
use yalibct.Base.{
  ℕ, ◌<◌, ◌≢◌, Bool, true, false, List, [], ◌∷◌, Option, none, some, length, if◌then◌else◌,
}
use yalibct.CycleCheck.{DevIno}
use yalibct.Hash.State.{Run, ok, ◌>>=◌, Env, HashTable}
use yalibct.Active.{ActiveDir, enter_active_dir, leave_active_dir}
use yalibct.Active.Entries.{Entry, is_alike, IsFresh}

-- `enter` is an entry for a directory, with the address that malloc gives; `leave` the way up from the last
-- one, with the address of the local structure.
pub data Step : Type 0 where
  enter : ℕ → ℕ → DevIno → Step
  leave : ℕ → Step

-- The status of the directories from the last one up to the root. One that is marked is not descended into.
unfoldable pub descended : DevIno → List DevIno → Option ℕ → List DevIno
descended st path none = st ∷ path
descended st path (some cycle) = path

module _ {F : Type 0} (base : Env F) where
  -- Whether no step fails, and the `fts_cycle` of each directory that is entered.
  unfoldable pub walk :
      List Step → List DevIno → (ℕ → ActiveDir) → HashTable F → Run (Bool × List (Option ℕ))
  walk [] path at table = ok (true, [])
  walk (enter ad ent st ∷ steps) path at table = do
    (fine, cycle, at', table') ← enter_active_dir base at table (some ad) st ent
    elim fine [
      | false ↦ ok (false, [])
      | true ↦ do
        (done, rest) ← walk steps (descended st path cycle) at' table'
        ok (done, cycle ∷ rest)
    ]
  walk (leave obj ∷ steps) [] at table = walk steps [] at table
  walk (leave obj ∷ steps) (st ∷ path) at table = do
    (freed, at', table') ← leave_active_dir base at table obj st
    walk steps path at' table'

-- The entry of the active directory with the same device and inode number.
unfoldable pub cycle_of : ActiveDir → List Entry → Option ℕ
cycle_of k [] = none
cycle_of k (e ∷ es) = if is_alike k e.dir then some e.dir.fts_ent else cycle_of k es

abbrev pub dir_of : ℕ → DevIno → ActiveDir
dir_of ent st = record { dev = st.st_dev; ino = st.st_ino; fts_ent = ent }

unfoldable pub joined : Entry → List Entry → Option ℕ → List Entry
joined e es none = e ∷ es
joined e es (some cycle) = es

-- The active directories behind a step, and what it ought to mark.
unfoldable pub next : Step → List Entry → List Entry
next (enter ad ent st) es =
    joined (record { pointer = ad; dir = dir_of ent st }) es (cycle_of (dir_of ent st) es)
next (leave obj) [] = []
next (leave obj) (e ∷ es) = es

unfoldable pub marks : List Step → List Entry → List (Option ℕ)
marks [] es = []
marks (enter ad ent st ∷ steps) es =
    cycle_of (dir_of ent st) es ∷ marks steps (next (enter ad ent st) es)
marks (leave obj ∷ steps) es = marks steps (next (leave obj) es)

-- Addresses are fresh, and fewer directories than a bound are active where one is entered.
unfoldable pub IsAllowed : ℕ → Step → List Entry → Type 0
IsAllowed k (enter ad ent st) es = (ad ≢ 0) × IsFresh ad es × (length es < k)
IsAllowed k (leave obj) es = IsFresh obj es

unfoldable pub IsWalk : ℕ → List Step → List Entry → Type 0
IsWalk k [] es = Unit
IsWalk k (step ∷ steps) es = IsAllowed k step es × IsWalk k steps (next step es)
