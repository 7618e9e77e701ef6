-- ===== src/Harness/Z88dk.antt =====
-- include/test-deps/z88dk.h: a suite is an array of test functions, each run under `setjmp`, and a
-- failing assertion leaves its test by `longjmp`.
pub mod Counts
mod Tests
use yalibct.Base.{
  ℕ, zero, suc, ◌+◌, Bool, true, false, List, [], ◌∷◌, ◌++◌, Option, none, some, ◌==◌, ltb, length,
  if◌then◌else◌,
}
use yalibct.Base.Int.{ℤ, pos, negsuc}

-- How a call of a test, set-up or teardown function ends.
pub data Outcome : Type 0 where
  returned : Outcome
  jumped : Outcome

-- `Assert_real`: an assertion whose value is 0 jumps. The message that it keeps is only printed.
unfoldable pub assert_real : ℤ → Outcome
assert_real (pos zero) = jumped
assert_real (pos (suc n)) = returned
assert_real (negsuc n) = returned

-- `MAX_TESTS`
abbrev pub max_tests : ℕ
max_tests = 300

-- `Suite`. A function is given by how its call ends; `none` is a null pointer.
pub record Suite : Type 0 where
  pub tests : List Outcome
  pub num_tests : ℕ
  pub setup : Option Outcome
  pub teardown : Option Outcome

pub suite_setup : Suite
suite_setup = record { tests = []; num_tests = 0; setup = none; teardown = none }

-- `suite_add_test_real`: `none` is a write past the end of the arrays.
pub suite_add_test : Suite → Outcome → Option Suite
suite_add_test s test =
    if ltb s.num_tests max_tests
    then some (record s { tests = s.tests ++ test ∷ []; num_tests = s.num_tests + 1 })
    else none

-- The run of `suite_add_test` calls of a `main`.
pub add_all : Suite → List Outcome → Option Suite
add_all s [] = some s
add_all s (t ∷ ts) = elim (suite_add_test s t) [ none ↦ none | some s' ↦ add_all s' ts ]

-- Where a test failed: `stage` when the jump came.
pub data Stage : Type 0 where
  in_setup in_test in_teardown : Stage

-- What `suite_run` prints of a test; the Boolean says that the teardown failed as well.
pub data Report : Type 0 where
  pass : Report
  failure : Stage → Bool → Report

abbrev pub call : Option Outcome → Outcome
call none = returned
call (some o) = o

-- The handler of a jump: it runs the teardown under a `setjmp` of its own, unless that is what failed.
abbrev pub clean_up : Suite → Stage → Report
clean_up s in_teardown = failure in_teardown false
clean_up s st = failure st (elim (call s.teardown) [ returned ↦ false | jumped ↦ true ])

pub run_test : Suite → Outcome → Report
run_test s test = elim (call s.setup) [
  | jumped ↦ clean_up s in_setup
  | returned ↦ elim test [
    | jumped ↦ clean_up s in_test
    | returned ↦ elim (call s.teardown) [ jumped ↦ clean_up s in_teardown | returned ↦ pass ]
  ]
]

-- The counters `passed` and `failed`, and what was printed of the failures.
pub record Tally : Type 0 where
  pub passed : ℕ
  pub failed : ℕ
  pub printed : List Report

pub count_report : Report → Tally → Tally
count_report pass t = record t { passed = t.passed + 1 }
count_report (failure st b) t = record t {
  failed = t.failed + 1;
  printed = t.printed ++ failure st b ∷ [];
}

pub run_from : Suite → List Outcome → Tally → Tally
run_from s [] t = t
run_from s (test ∷ tests) t = run_from s tests (count_report (run_test s test) t)

-- The final counters, and the value that `suite_run` returns for `main` to exit with.
pub suite_run : Suite → Tally × ℕ
suite_run s =
    let t = run_from s s.tests (record { passed = 0; failed = 0; printed = [] }) in
    (t, if t.failed == 0 then 0 else 1)

-- A `main` that adds these tests and returns `suite_run ()`.
pub main : List Outcome → Option (Tally × ℕ)
main os = elim (add_all suite_setup os) [ none ↦ none | some s ↦ some (suite_run s) ]
