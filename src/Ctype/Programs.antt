-- ===== src/Ctype/Programs.antt =====
-- The other programs of tests/isalpha and tests/isdigit: llvm-project-test.c, avr-libc-1.c and
-- pdclib.c, which differ in the values that they try and in what they exit with.
use yalibct.Base.{
  ℕ, zero, suc, ◌+◌, Bool, false, List, [], ◌∷◌, ◌++◌, Option, none, some, if◌then◌else◌,
}
use yalibct.Base.Int.{ℤ, pos, negsuc}
use yalibct.Ctype.{Check, holds, is_zero, zeros, nonzeros, table, is_alpha_ascii, is_digit_ascii}

-- A run of `EXPECT_EQ` and `EXPECT_NE`: `none` is the abort of an assertion that fails.
unfoldable pub expect_all : (ℤ → ℤ) → List Check → Option ℕ
expect_all f [] = some 0
expect_all f (c ∷ cs) = let rest = expect_all f cs in if holds f c then rest else none

-- `for (int ch = 0; ch < 255; ++ch)`
unfoldable pub llvm_main : (ℕ → Bool) → (ℤ → ℤ) → Option ℕ
llvm_main cls f = expect_all f (table cls 255 0)

-- The class at an `int`, false below 0.
abbrev pub class_at : (ℕ → Bool) → ℤ → Bool
class_at cls (pos c) = cls c
class_at cls (negsuc n) = false

-- `EXIT (__LINE__)` at the first wrong answer: line `missed` where a member is denied, line `extra`
-- where another value is accepted.
unfoldable pub avr_loop : (ℕ → Bool) → (ℤ → ℤ) → ℕ → ℕ → List ℤ → ℕ
avr_loop cls f missed extra [] = 0
avr_loop cls f missed extra (i ∷ is) =
    let rest = avr_loop cls f missed extra is in
    if class_at cls i
    then (if is_zero (f i) then missed else rest)
    else (if is_zero (f i) then rest else extra)

abbrev pub count_up : ℕ → ℕ → List ℤ
count_up zero c = []
count_up (suc n) c = pos c ∷ count_up n (suc c)

-- `for (i = -1; i < 256; i++)`
unfoldable pub avr_isalpha_main : (ℤ → ℤ) → ℕ
avr_isalpha_main f = avr_loop is_alpha_ascii f 62 67 (negsuc 0 ∷ count_up 256 0)

unfoldable pub avr_isdigit_main : (ℤ → ℤ) → ℕ
avr_isdigit_main f = avr_loop is_digit_ascii f 63 68 (negsuc 0 ∷ count_up 256 0)

-- `TEST_RESULTS` after a run of `TESTCASE`.
unfoldable pub test_results : (ℤ → ℤ) → List Check → ℕ
test_results f [] = 0
test_results f (c ∷ cs) = if holds f c then test_results f cs else test_results f cs + 1

unfoldable pub pdclib_isalpha_main : (ℤ → ℤ) → ℕ
pdclib_isalpha_main f =
    test_results f (nonzeros (b'a' ∷ b'z' ∷ []) ++ zeros (b' ' ∷ b'1' ∷ b'@' ∷ []))

unfoldable pub pdclib_isdigit_main : (ℤ → ℤ) → ℕ
pdclib_isdigit_main f =
    test_results f (nonzeros (b'0' ∷ b'9' ∷ []) ++ zeros (b' ' ∷ b'a' ∷ b'@' ∷ []))
