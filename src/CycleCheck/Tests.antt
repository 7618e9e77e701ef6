-- ===== src/CycleCheck/Tests.antt =====
-- Runs of the check for cycles, and its theorems at concrete walks.
use native.Mathlib.Omega.{arith}
use yalibct.Base.{ℕ, ◌%◌, ◌^◌, ◌<◌, ◌≡◌, ◌↔◌, ◌⊎◌, refl, Bool, true, false, List, [], ◌∷◌, some, ap}
use yalibct.CycleCheck.{
  DevIno, CycleCheckState, is_zero_or_power_of_two, setup_dir, cycle_check, cycle_check_init,
  enter_dir, leave_dir, cycle_check_reflect_chdir_up, same_inode,
}
use yalibct.CycleCheck.Power.{is_zero_or_power_of_two_lem}
use yalibct.CycleCheck.Finds.{descend, descend_lem}
use yalibct.CycleCheck.Walk.{Step, enter, leave, Entered, walk, walk_step, length, all_cycles}
use yalibct.CycleCheck.Path.{walk_lem}

abbrev fresh : CycleCheckState
fresh = record { dev_ino = record { st_ino = 9; st_dev = 9 }; chdir_counter = 5; magic = 0 }

-- Three directories, the last of which contains the first.
abbrev ring : ℕ → DevIno
ring n = record { st_ino = n % 3; st_dev = 5 }

descend_lem_example : descend 7 ring 0 (setup_dir fresh) ≡ some true
descend_lem_example =
    descend_lem ring 0 3 2 (λ n _. ap (λ i. record { st_ino = i; st_dev = 5 }) (omega arith))
      (omega arith) (omega arith) (omega arith) (omega arith) fresh

-- The recorded directory is left, and its parent takes its place, before the way into a cycle.
abbrev tour : List Step
tour =
    enter (ring 0)
    ∷ enter (ring 1)
    ∷ leave
    ∷ enter (ring 2)
    ∷ enter (ring 0)
    ∷ leave
    ∷ leave
    ∷ enter (ring 0)
    ∷ []

abbrev entry : DevIno → List DevIno → Bool → Entered
entry d path m = record { dir = d; above = path; is_marked = m }

tour_marks :
    walk tour [] fresh
    ≡ some (
        entry (ring 0) [] false
        ∷ entry (ring 1) (ring 0 ∷ []) false
        ∷ entry (ring 2) (ring 0 ∷ []) false
        ∷ entry (ring 0) (ring 2 ∷ ring 0 ∷ []) true
        ∷ entry (ring 0) [] false
        ∷ [])
unfolding walk walk_step setup_dir cycle_check_init cycle_check enter_dir leave_dir
    cycle_check_reflect_chdir_up same_inode is_zero_or_power_of_two
tour_marks = refl

tour_short : length tour < 2 ^ 64
unfolding length
tour_short = omega arith

walk_lem_example : (es : List Entered) × (walk tour [] fresh ≡ some es) × (all_cycles es ≡ true)
walk_lem_example = walk_lem tour fresh tour_short

is_zero_or_power_of_two_lem_example :
    (is_zero_or_power_of_two 48 ≡ true) ↔ ((◌≡◌ {A = ℕ} 48 0) ⊎ (j : ℕ) × (◌≡◌ {A = ℕ} 48 (2 ^ j)))
is_zero_or_power_of_two_lem_example = is_zero_or_power_of_two_lem 48 (omega arith)
