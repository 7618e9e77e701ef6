-- ===== src/Ctype/Compare.antt =====
-- What the smaller programs of tests/isalpha and tests/isdigit accept, beside the z88dk tables.
use yalibct.Base.{
  ℕ, zero, suc, ◌<◌, ◌≡◌, refl, ◌↔◌, Bool, true, List, ◌∷◌, none, some, map, if◌then◌else◌, arith,
  ◌==◌,
}
use yalibct.Base.Int.{ℤ, negsuc}
use yalibct.Harness.Z88dk.{main}
use yalibct.Ctype.{outcome, is_zero, table, is_alpha_ascii, is_digit_ascii}
use yalibct.Ctype.Isalpha.{isalpha_tests}
use yalibct.Ctype.Isdigit.{isdigit_tests}
use yalibct.Ctype.Complete.{
  Accepts, Agrees, wrong, wrong→Agrees, Agrees→wrong, isalpha_exact, isdigit_exact,
}
use yalibct.Ctype.Programs.{
  expect_all, llvm_main, class_at, avr_loop, count_up, avr_isalpha_main, avr_isdigit_main,
  test_results, pdclib_isalpha_main, pdclib_isdigit_main,
}

module _ (cls : ℕ → Bool) (f : ℤ → ℤ) where
  expect_all-table :
      (n c : ℕ) → expect_all f (table cls n c) ≡ (if wrong cls f n c == 0 then some 0 else none)
  unfolding expect_all wrong
  expect_all-table zero c = refl
  expect_all-table (suc n) c = ground (arith, expect_all-table n (suc c))

  avr_loop-cons :
      (missed extra : ℕ) (i : ℤ) (is : List ℤ)
      → avr_loop cls f missed extra (i ∷ is) ≡ (
          if class_at cls i
          then (if is_zero (f i) then missed else avr_loop cls f missed extra is)
          else (if is_zero (f i) then avr_loop cls f missed extra is else extra))
  unfolding avr_loop
  avr_loop-cons missed extra i is = refl

  avr_loop-count_up :
      (missed extra n c : ℕ)
      → 0 < missed
      → 0 < extra
      → (avr_loop cls f missed extra (count_up n c) ≡ 0) ↔ (wrong cls f n c ≡ 0)
  unfolding avr_loop wrong
  avr_loop-count_up missed extra zero c a b = (λ e. refl, λ e. refl)
  avr_loop-count_up missed extra (suc n) c a b =
      let (to, from) = avr_loop-count_up missed extra n (suc c) a b in (ground arith, ground arith)

  expect_all-exact : (n : ℕ) → (expect_all f (table cls n 0) ≡ some 0) ↔ Agrees cls f n 0
  expect_all-exact n =
      let e = expect_all-table n 0 in
      (
        λ h. wrong→Agrees cls f n 0 (ground arith),
        λ a. let z = Agrees→wrong cls f n 0 a in rw e (rw z),
      )

  -- The loop of llvm-project-test.c accepts exactly the functions that answer as the class does at
  -- 0 to 254: it never tries 255, and so no answer there can make it fail.
  pub llvm_exact : (llvm_main cls f ≡ some 0) ↔ Agrees cls f 255 0
  unfolding llvm_main
  llvm_exact = expect_all-exact 255

  avr_exact :
      (missed extra n : ℕ)
      → 0 < missed
      → 0 < extra
      → (avr_loop cls f missed extra (negsuc 0 ∷ count_up n 0) ≡ 0)
        ↔ ((is_zero (f (negsuc 0)) ≡ true) × Agrees cls f n 0)
  avr_exact missed extra n a b =
      let (to, from) = avr_loop-count_up missed extra n 0 a b in
      let first = avr_loop-cons missed extra (negsuc 0) (count_up n 0) in
      (
        λ e. (ground arith, wrong→Agrees cls f n 0 (to (ground arith))),
        λ (z, a). let w = from (Agrees→wrong cls f n 0 a) in ground arith,
      )

-- The class that a function has to answer as, for every program of one directory.
module _ (f : ℤ → ℤ) where
  -- A function that satisfies tests/isalpha/z88dk-test.c and denies -1 satisfies the avr-libc, llvm
  -- and pdclib programs of the directory, and the avr-libc program accepts no others.
  pub isalpha_programs :
      ((avr_isalpha_main f ≡ 0)
        ↔ ((is_zero (f (negsuc 0)) ≡ true) × Accepts (main (map (outcome f) isalpha_tests))))
      × (Accepts (main (map (outcome f) isalpha_tests)) → llvm_main is_alpha_ascii f ≡ some 0)
      × (Accepts (main (map (outcome f) isalpha_tests)) → pdclib_isalpha_main f ≡ 0)
  unfolding avr_isalpha_main pdclib_isalpha_main test_results is_alpha_ascii
  isalpha_programs =
      let (to, from) = (isalpha_exact f).0 in
      let (avr_to, avr_from) = avr_exact is_alpha_ascii f 62 67 256 (omega arith) (omega arith) in
      (
        (λ e. let (z, a) = avr_to e in (z, from a), λ (z, h). avr_from (z, to h)),
        λ h. (llvm_exact is_alpha_ascii f).1 (λ j lo hi. to h j lo (omega arith)),
        λ h.
            let at = λ (c : ℕ) (p : c < 256). to h c (omega arith) p in
            rw (
              at b'a' (omega arith),
              at b'z' (omega arith),
              at b' ' (omega arith),
              at b'1' (omega arith),
              at b'@' (omega arith),
            ),
      )

  -- A function that satisfies tests/isdigit/z88dk.c and denies -1 satisfies the avr-libc, llvm
  -- and pdclib programs of the directory, and the avr-libc program accepts no others.
  pub isdigit_programs :
      ((avr_isdigit_main f ≡ 0)
        ↔ ((is_zero (f (negsuc 0)) ≡ true) × Accepts (main (map (outcome f) isdigit_tests))))
      × (Accepts (main (map (outcome f) isdigit_tests)) → llvm_main is_digit_ascii f ≡ some 0)
      × (Accepts (main (map (outcome f) isdigit_tests)) → pdclib_isdigit_main f ≡ 0)
  unfolding avr_isdigit_main pdclib_isdigit_main test_results is_digit_ascii
  isdigit_programs =
      let (to, from) = (isdigit_exact f).0 in
      let (avr_to, avr_from) = avr_exact is_digit_ascii f 63 68 256 (omega arith) (omega arith) in
      (
        (λ e. let (z, a) = avr_to e in (z, from a), λ (z, h). avr_from (z, to h)),
        λ h. (llvm_exact is_digit_ascii f).1 (λ j lo hi. to h j lo (omega arith)),
        λ h.
            let at = λ (c : ℕ) (p : c < 256). to h c (omega arith) p in
            rw (
              at b'0' (omega arith),
              at b'9' (omega arith),
              at b' ' (omega arith),
              at b'a' (omega arith),
              at b'@' (omega arith),
            ),
      )
