-- ===== src/Ctype/Complete.antt =====
-- Which functions the programs accept.
use yalibct.Base.{
  ℕ, zero, suc, ◌+◌, ◌≤◌, ◌<◌, ◌≡◌, refl, ◌↔◌, Bool, not, List, Option, some, map, if◌then◌else◌,
  arith, length, length-map, ◌==◌, ℕ_discrete, subst, ◌∙◌,
}
use yalibct.Base.Int.{ℤ, pos}
use yalibct.Harness.Z88dk.{assert_real, Tally, main, max_tests}
use yalibct.Harness.Z88dk.Counts.{jumps, main_lem}
use yalibct.Ctype.{Check, outcome, is_zero, table, is_alpha_ascii, is_digit_ascii}
use yalibct.Ctype.Isalpha.{isalpha_tests, isalpha_tests-table}
use yalibct.Ctype.Isdigit.{isdigit_tests, isdigit_tests-table}

-- The program ends, and with exit value 0.
abbrev pub Accepts : Option (Tally × ℕ) → Type 0
Accepts o = (t : Tally) × (o ≡ some (t, 0))

module _ (cls : ℕ → Bool) (f : ℤ → ℤ) where
  -- `f` answers as the class does at the values from `c` up to `c + n`.
  abbrev pub Agrees : ℕ → ℕ → Type 0
  Agrees n c = (j : ℕ) → c ≤ j → j < c + n → is_zero (f (pos j)) ≡ not (cls j)

  -- How many of the `n` values from `c` on `f` answers wrongly.
  unfoldable pub wrong : ℕ → ℕ → ℕ
  wrong zero c = 0
  wrong (suc n) c =
      if is_zero (f (pos c))
      then (if cls c then 1 + wrong n (suc c) else wrong n (suc c))
      else (if cls c then wrong n (suc c) else 1 + wrong n (suc c))

  length-table : (n c : ℕ) → length (table cls n c) ≡ n
  length-table zero c = refl
  length-table (suc n) c = omega (arith, length-table n (suc c))

  jumps-table : (n c : ℕ) → jumps (map (outcome f) (table cls n c)) ≡ wrong n c
  unfolding outcome assert_real wrong
  jumps-table zero c = refl
  jumps-table (suc n) c = ground (arith, jumps-table n (suc c))

  wrong-suc :
      (n c : ℕ) → wrong (suc n) c ≡ 0 → (is_zero (f (pos c)) ≡ not (cls c)) × (wrong n (suc c) ≡ 0)
  unfolding wrong
  wrong-suc n c e = ground arith

  pub wrong→Agrees : (n c : ℕ) → wrong n c ≡ 0 → Agrees n c
  wrong→Agrees zero c e j lo hi = absurd (omega arith)
  wrong→Agrees (suc n) c e j lo hi =
      let (here, later) = wrong-suc n c e in
      let ih = wrong→Agrees n (suc c) later j in
      elim (ℕ_discrete c j) [
        | yes p ↦ subst (λ k. is_zero (f (pos k)) ≡ not (cls k)) p here
        | no ne ↦ ih (omega arith) (omega arith)
      ]

  pub Agrees→wrong : (n c : ℕ) → Agrees n c → wrong n c ≡ 0
  unfolding wrong
  Agrees→wrong zero c a = refl
  Agrees→wrong (suc n) c a =
      let ih = Agrees→wrong n (suc c) (λ j lo hi. a j (omega arith) (omega arith)) in
      ground (arith, a c (omega arith) (omega arith))

exit_value :
    (o : Option (Tally × ℕ)) (t : Tally) (k : ℕ)
    → o ≡ some (t, if k == 0 then 0 else 1)
    → Accepts o ↔ (k ≡ 0)
exit_value o t k e = (λ (t', e'). ground arith, λ z. (t, ground arith))

module _ (cls : ℕ → Bool) (f : ℤ → ℤ) (n : ℕ) (short : n ≤ max_tests) where
  main-table :
      (t : Tally) × (main (map (outcome f) (table cls n 0))
        ≡ some (t, if wrong cls f n 0 == 0 then 0 else 1))
      × (t.failed ≡ wrong cls f n 0)
  main-table =
      let os = map (outcome f) (table cls n 0) in
      let fits = length-map (table cls n 0) (outcome f) ∙ length-table cls f n 0 in
      let (t, runs, failed, rest) = main_lem os (omega arith) in
      let total = jumps-table cls f n 0 in (t, rw (← total) runs, failed ∙ total)

  -- The program over the checks of the class below `n` counts each wrong answer as a failed test, and
  -- exits with 0 exactly for the functions that answer as the class does there.
  pub table_exact :
      (cks : List Check)
      → cks ≡ table cls n 0
      → (Accepts (main (map (outcome f) cks)) ↔ Agrees cls f n 0)
        × ((t : Tally) × (e : ℕ) × (main (map (outcome f) cks) ≡ some (t, e))
            × (t.failed ≡ wrong cls f n 0))
  table_exact cks same =
      let (t, runs, failed) = main-table in
      let (to, from) =
        exit_value (main (map (outcome f) (table cls n 0))) t (wrong cls f n 0) runs in
      rw same (
        (λ h. wrong→Agrees cls f n 0 (to h), λ a. from (Agrees→wrong cls f n 0 a)),
        (t, _, runs, failed),
      )

-- tests/isalpha/z88dk-test.c exits with 0 exactly if the function under test tells letters from all
-- else at each of the 256 byte values, and it counts each wrong answer as one failed test.
pub isalpha_exact :
    (f : ℤ → ℤ)
    → (Accepts (main (map (outcome f) isalpha_tests)) ↔ Agrees is_alpha_ascii f 256 0)
      × ((t : Tally) × (e : ℕ) × (main (map (outcome f) isalpha_tests) ≡ some (t, e))
          × (t.failed ≡ wrong is_alpha_ascii f 256 0))
isalpha_exact f = table_exact is_alpha_ascii f 256 (omega arith) isalpha_tests isalpha_tests-table

-- tests/isdigit/z88dk.c exits with 0 exactly if the function under test tells digits from all else at
-- each of the 256 byte values, and it counts each wrong answer as one failed test.
pub isdigit_exact :
    (f : ℤ → ℤ)
    → (Accepts (main (map (outcome f) isdigit_tests)) ↔ Agrees is_digit_ascii f 256 0)
      × ((t : Tally) × (e : ℕ) × (main (map (outcome f) isdigit_tests) ≡ some (t, e))
          × (t.failed ≡ wrong is_digit_ascii f 256 0))
isdigit_exact f = table_exact is_digit_ascii f 256 (omega arith) isdigit_tests isdigit_tests-table
