-- ===== src/Harness/Z88dk/Counts.antt =====
-- What the counters of `suite_run` say, and when its exit value is 0.
use yalibct.Base.{
  ℕ, suc, ◌+◌, ◌≤◌, ◌<◌, ◌≡◌, refl, ◌∙◌, ap, false, List, [], ◌∷◌, ◌++◌, none, some, arith, length,
  append_assoc, append-nil, lt→ltb, ◌==◌, if◌then◌else◌,
}
use yalibct.Harness.Z88dk.{
  Outcome, returned, jumped, max_tests, Suite, suite_setup, suite_add_test, add_all, Report, pass,
  failure, in_test, run_test, Tally, count_report, run_from, suite_run, main,
}

-- How many of the outcomes are jumps.
abbrev pub jumps : List Outcome → ℕ
jumps [] = 0
jumps (jumped ∷ os) = suc (jumps os)
jumps (returned ∷ os) = jumps os

count_report-total :
    (r : Report) (t : Tally)
    → (count_report r t).passed + (count_report r t).failed ≡ suc (t.passed + t.failed)
unfolding count_report
count_report-total pass t = omega arith
count_report-total (failure st b) t = omega arith

run_from-total :
    (s : Suite) (ts : List Outcome) (t : Tally)
    → (run_from s ts t).passed + (run_from s ts t).failed ≡ t.passed + t.failed + length ts
unfolding run_from
run_from-total s [] t = omega arith
run_from-total s (x ∷ ts) t = omega (
  arith,
  run_from-total s ts (count_report (run_test s x) t),
  count_report-total (run_test s x) t,
)

module _ (s : Suite) (no_setup : s.setup ≡ none) (no_teardown : s.teardown ≡ none) where
  -- Without set-up and teardown functions a test fails exactly by its own jump.
  run_test-plain :
      (o : Outcome) → run_test s o ≡ (elim o [ returned ↦ pass | jumped ↦ failure in_test false ])
  unfolding run_test
  run_test-plain returned = rw (no_setup, no_teardown, run_test)
  run_test-plain jumped = rw (no_setup, no_teardown, run_test)

  run_from-failed : (ts : List Outcome) (t : Tally) → (run_from s ts t).failed ≡ t.failed + jumps ts
  unfolding run_from count_report
  run_from-failed [] t = omega arith
  run_from-failed (returned ∷ ts) t =
      ap (λ r. (run_from s ts (count_report r t)).failed) (run_test-plain returned)
      ∙ run_from-failed ts (count_report pass t)
  run_from-failed (jumped ∷ ts) t = omega (
    arith,
    ap (λ r. (run_from s ts (count_report r t)).failed) (run_test-plain jumped),
    run_from-failed ts (count_report (failure in_test false) t),
  )

suite_add_test-some :
    (s : Suite) (t : Outcome)
    → s.num_tests < max_tests
    → suite_add_test s t
      ≡ some (record s { tests = s.tests ++ t ∷ []; num_tests = s.num_tests + 1 })
unfolding suite_add_test
suite_add_test-some s t h = rw (lt→ltb s.num_tests max_tests h)

add_all_lem :
    (ts : List Outcome) (s : Suite)
    → s.num_tests + length ts ≤ max_tests
    → add_all s ts ≡ some (record s { tests = s.tests ++ ts; num_tests = s.num_tests + length ts })
unfolding add_all
add_all_lem [] s h =
    let e : s.num_tests + 0 ≡ s.num_tests = omega arith in rw (e, append-nil s.tests)
add_all_lem (t ∷ ts) s h =
    let e : s.num_tests + 1 + length ts ≡ s.num_tests + suc (length ts) = omega arith in
    rw (suite_add_test-some s t (omega arith), add_all)
      (rw (← e, ← append_assoc s.tests (t ∷ []) ts) (add_all_lem ts _ (omega arith)))

-- A program with at most 300 tests writes inside the arrays, counts every jump as a failure and
-- every return as a pass, and exits with 0 exactly if no test jumps.
pub main_lem :
    (os : List Outcome)
    → length os ≤ max_tests
    → (t : Tally) × (main os ≡ some (t, if jumps os == 0 then 0 else 1))
      × (t.failed ≡ jumps os)
      × (t.passed + jumps os ≡ length os)
unfolding main suite_run suite_setup
main_lem os h =
    let s : Suite = record suite_setup { tests = os; num_tests = 0 + length os } in
    let zero_tally : Tally = record { passed = 0; failed = 0; printed = [] } in
    let t = run_from s os zero_tally in
    let f : t.failed ≡ jumps os = omega (arith, run_from-failed s refl refl os zero_tally) in
    (
      t,
      rw (add_all_lem os suite_setup (omega arith), main) (rw f),
      f,
      omega (arith, run_from-total s os zero_tally),
    )
