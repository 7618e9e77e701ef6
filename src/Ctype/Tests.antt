-- ===== src/Ctype/Tests.antt =====
-- Runs of the programs, and the theorems at functions that they are meant for.
use yalibct.Base.{ℕ, ◌≡◌, ◌↔◌, true, some, map, if◌then◌else◌}
use yalibct.Base.Int.{ℤ, pos, negsuc}
use yalibct.Harness.Z88dk.{Tally, main}
use yalibct.Ctype.{outcome, is_zero, is_alpha_ascii, is_digit_ascii}
use yalibct.Ctype.Isalpha.{isalpha_tests}
use yalibct.Ctype.Isdigit.{isdigit_tests}
use yalibct.Ctype.Complete.{Accepts, Agrees, wrong, isalpha_exact, isdigit_exact}
use yalibct.Ctype.Programs.{
  llvm_main, avr_isalpha_main, avr_isdigit_main, pdclib_isalpha_main, pdclib_isdigit_main,
}
use yalibct.Ctype.Compare.{llvm_exact, isalpha_programs, isdigit_programs}

-- A function for each class, with the nonzero values that a table of flags gives.
abbrev ascii_isalpha : ℤ → ℤ
unfolding is_alpha_ascii
ascii_isalpha (pos c) = if is_alpha_ascii c then pos 1024 else pos 0
ascii_isalpha (negsuc n) = pos 0

abbrev ascii_isdigit : ℤ → ℤ
unfolding is_digit_ascii
ascii_isdigit (pos c) = if is_digit_ascii c then pos 2048 else pos 0
ascii_isdigit (negsuc n) = pos 0

isalpha_exact_example :
    (Accepts (main (map (outcome ascii_isalpha) isalpha_tests))
      ↔ Agrees is_alpha_ascii ascii_isalpha 256 0)
    × ((t : Tally) × (e : ℕ) × (main (map (outcome ascii_isalpha) isalpha_tests) ≡ some (t, e))
        × (t.failed ≡ wrong is_alpha_ascii ascii_isalpha 256 0))
isalpha_exact_example = isalpha_exact ascii_isalpha

isdigit_exact_example :
    (Accepts (main (map (outcome ascii_isdigit) isdigit_tests))
      ↔ Agrees is_digit_ascii ascii_isdigit 256 0)
    × ((t : Tally) × (e : ℕ) × (main (map (outcome ascii_isdigit) isdigit_tests) ≡ some (t, e))
        × (t.failed ≡ wrong is_digit_ascii ascii_isdigit 256 0))
isdigit_exact_example = isdigit_exact ascii_isdigit

llvm_exact_example :
    (llvm_main is_digit_ascii ascii_isdigit ≡ some 0) ↔ Agrees is_digit_ascii ascii_isdigit 255 0
llvm_exact_example = llvm_exact is_digit_ascii ascii_isdigit

isalpha_programs_example :
    ((avr_isalpha_main ascii_isalpha ≡ 0) ↔ (
      (is_zero (ascii_isalpha (negsuc 0)) ≡ true)
      × Accepts (main (map (outcome ascii_isalpha) isalpha_tests))))
    × (Accepts (main (map (outcome ascii_isalpha) isalpha_tests))
        → llvm_main is_alpha_ascii ascii_isalpha ≡ some 0)
    × (Accepts (main (map (outcome ascii_isalpha) isalpha_tests))
        → pdclib_isalpha_main ascii_isalpha ≡ 0)
isalpha_programs_example = isalpha_programs ascii_isalpha

isdigit_programs_example :
    ((avr_isdigit_main ascii_isdigit ≡ 0) ↔ (
      (is_zero (ascii_isdigit (negsuc 0)) ≡ true)
      × Accepts (main (map (outcome ascii_isdigit) isdigit_tests))))
    × (Accepts (main (map (outcome ascii_isdigit) isdigit_tests))
        → llvm_main is_digit_ascii ascii_isdigit ≡ some 0)
    × (Accepts (main (map (outcome ascii_isdigit) isdigit_tests))
        → pdclib_isdigit_main ascii_isdigit ≡ 0)
isdigit_programs_example = isdigit_programs ascii_isdigit
