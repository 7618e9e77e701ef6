-- ===== src/CycleCheck.antt =====
-- The lazy check for cycles of directories: cycle_check.h, cycle_check_init.h, cycle_check_state.h,
-- cycle-check-common.h, CYCLE_CHECK_REFLECT_CHDIR_UP.h, SAME_INODE.h and dev_ino.h, and the calls of it
-- in `setup_dir`, `enter_dir` and `leave_dir` of the fts functions.
use Prim.Native.Nat.{bit_and}
use yalibct.Base.{
  ℕ, ◌+◌, ◌-◌, ◌%◌, ◌^◌, Bool, true, false, not, ◌&&◌, List, [], ◌∷◌, Option, none, some, ◌==◌,
  if◌then◌else◌,
}
pub mod Power
pub mod Finds
pub mod Walk
pub mod Path
pub mod Tests

abbrev pub cc_magic : ℕ
cc_magic = 9827862

-- The two fields of a `struct stat` that are looked at are these too.
pub record DevIno : Type 0 where
  pub st_ino : ℕ
  pub st_dev : ℕ

pub record CycleCheckState : Type 0 where
  pub dev_ino : DevIno
  pub chdir_counter : ℕ
  pub magic : ℕ

unfoldable pub same_inode : DevIno → DevIno → Bool
same_inode a b = (a.st_ino == b.st_ino) && (a.st_dev == b.st_dev)

unfoldable pub is_zero_or_power_of_two : ℕ → Bool
is_zero_or_power_of_two i = bit_and i ((i + (2 ^ 64 - 1)) % 2 ^ 64) == 0

unfoldable pub cycle_check_init : CycleCheckState → CycleCheckState
cycle_check_init state = record state { chdir_counter = 0; magic = cc_magic }

-- What is returned, and the state; `none` where `assure` ends the program.
unfoldable pub cycle_check : CycleCheckState → DevIno → Option (Bool × CycleCheckState)
cycle_check state sb =
    let counter = (state.chdir_counter + 1) % 2 ^ 64 in
    let counted = record state { chdir_counter = counter } in
    let next : Bool × CycleCheckState =
      if is_zero_or_power_of_two counter
      then (if counter == 0 then (true, counted) else (false, record counted { dev_ino = sb }))
      else (false, counted) in
    if not (state.magic == cc_magic)
    then none
    else if not (state.chdir_counter == 0) && same_inode sb state.dev_ino
    then some (true, state)
    else some next

-- `none` is the call of `abort`.
unfoldable pub cycle_check_reflect_chdir_up :
    CycleCheckState → DevIno → DevIno → Option CycleCheckState
cycle_check_reflect_chdir_up state sb_dir sb_subdir =
    if state.chdir_counter == 0
    then none
    else some
        (if same_inode state.dev_ino sb_subdir then record state { dev_ino = sb_dir } else state)

-- The three functions without FTS_TIGHT_CYCLE_CHECK and FTS_LOGICAL, where the `malloc` of `setup_dir`
-- succeeds: it gives a state with any contents.
unfoldable pub setup_dir : CycleCheckState → CycleCheckState
setup_dir fresh = cycle_check_init fresh

-- What is returned is whether the directory is marked FTS_DC.
unfoldable pub enter_dir : CycleCheckState → DevIno → Option (Bool × CycleCheckState)
enter_dir state ent = cycle_check state ent

-- The directory's parent is `none` at the level of the roots.
unfoldable pub leave_dir : CycleCheckState → Option DevIno → DevIno → Option CycleCheckState
leave_dir state none ent = some state
leave_dir state (some parent) ent = cycle_check_reflect_chdir_up state parent ent
