-- ===== src/Harness/Z88dk/Tests.antt =====
-- Runs of suites.
use yalibct.Base.{true, ◌+◌, ◌≡◌, refl, List, [], ◌∷◌, some, arith}
use yalibct.Harness.Z88dk.{
  Outcome, returned, jumped, Suite, in_setup, failure, Tally, suite_run, run_from, run_test,
  count_report, main,
}
use yalibct.Harness.Z88dk.Counts.{main_lem}

abbrev two_of_three : List Outcome
two_of_three = returned ∷ jumped ∷ returned ∷ []

main_lem_example :
    (t : Tally) × (main two_of_three ≡ some (t, 1)) × (t.failed ≡ 1) × (t.passed + 1 ≡ 3)
main_lem_example = main_lem two_of_three (omega arith)

-- A set-up that jumps fails each test, with the teardown's own failure beside it.
abbrev broken : Suite
broken = record { tests = two_of_three; num_tests = 3; setup = some jumped; teardown = some jumped }

broken_runs : suite_run broken ≡ (
  record {
    passed = 0;
    failed = 3;
    printed = failure in_setup true ∷ failure in_setup true ∷ failure in_setup true ∷ [];
  },
  1,
)
unfolding suite_run run_from run_test count_report
broken_runs = refl
