-- ===== src/CycleCheck/Walk.antt =====
-- Walks over a hierarchy, as fts_read.h makes them with `enter_dir` and `leave_dir`.
use yalibct.Base.{
  ℕ, ◌+◌, Bool, true, false, not, ◌&&◌, ◌||◌, List, [], ◌∷◌, ◌++◌, Option, none, some,
  if◌then◌else◌,
}
use yalibct.CycleCheck.{DevIno, CycleCheckState, same_inode, enter_dir, leave_dir, setup_dir}

-- `enter` is a directory that `fts_read` enters, `leave` its way up from the last one.
pub data Step : Type 0 where
  enter : DevIno → Step
  leave : Step

-- A directory that was entered: the directories from it up to the root then, and whether it was marked.
pub record Entered : Type 0 where
  pub dir : DevIno
  pub above : List DevIno
  pub is_marked : Bool

-- The next state of a walk, with its path from the last directory up to the root, and what is entered.
-- The first directory of a walk is a root, for which the check is set up again. One that is marked is not
-- descended into.
unfoldable pub walk_step :
    Step → List DevIno → CycleCheckState → Option (List Entered × List DevIno × CycleCheckState)
walk_step leave [] state = some ([], [], state)
walk_step leave (d ∷ []) state = elim (leave_dir state none d) [
  | none ↦ none
  | some state' ↦ some ([], [], state')
]
walk_step leave (d ∷ parent ∷ path) state = elim (leave_dir state (some parent) d) [
  | none ↦ none
  | some state' ↦ some ([], parent ∷ path, state')
]
walk_step (enter d) path state =
    let start : CycleCheckState = elim path [ [] ↦ setup_dir state | a ∷ more ↦ state ] in
    elim (enter_dir start d) [
      | none ↦ none
      | some (found, state') ↦ some (
        record { dir = d; above = path; is_marked = found } ∷ [],
        if found then path else d ∷ path,
        state',
      )
    ]

-- What is entered in a walk, or `none` if the program ends.
unfoldable pub walk : List Step → List DevIno → CycleCheckState → Option (List Entered)
walk [] path state = some []
walk (step ∷ steps) path state = elim (walk_step step path state) [
  | none ↦ none
  | some (seen, path', state') ↦ elim (walk steps path' state') [
    | none ↦ none
    | some rest ↦ some (seen ++ rest)
  ]
]

unfoldable pub length : List Step → ℕ
length [] = 0
length (step ∷ steps) = length steps + 1

unfoldable pub is_on : DevIno → List DevIno → Bool
is_on d [] = false
is_on d (a ∷ path) = same_inode d a || is_on d path

-- Every marked directory is one of those above it.
unfoldable pub all_cycles : List Entered → Bool
all_cycles [] = true
all_cycles (e ∷ es) = (not e.is_marked || is_on e.dir e.above) && all_cycles es
