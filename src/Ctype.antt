-- ===== src/Ctype.antt =====
-- tests/isalpha and tests/isdigit: programs that call one character class function, `f` below, on
-- many values and compare the answers with a table.
pub mod Isalpha
pub mod Isdigit
pub mod Programs
pub mod Complete
pub mod Compare
mod Tests
use yalibct.Base.{
  ℕ, zero, suc, ◌+◌, Bool, true, false, not, ◌&&◌, ◌||◌, List, [], ◌∷◌, leb, if◌then◌else◌, map,
}
use yalibct.Base.Int.{ℤ, pos, negsuc}
use yalibct.Harness.Z88dk.{Outcome, assert_real}

-- `Assert(f(c) == 0, …)` and `Assert(f(c), …)`, or what the other programs write for them.
pub data Check : Type 0 where
  zero_at : ℤ → Check
  nonzero_at : ℤ → Check

abbrev pub zeros : List ℕ → List Check
zeros = map (λ c. zero_at (pos c))

abbrev pub nonzeros : List ℕ → List Check
nonzeros = map (λ c. nonzero_at (pos c))

abbrev pub is_zero : ℤ → Bool
is_zero (pos zero) = true
is_zero (pos (suc n)) = false
is_zero (negsuc n) = false

-- How the test function that makes the check ends, for the function `f` under test.
pub outcome : (ℤ → ℤ) → Check → Outcome
outcome f (zero_at c) = assert_real (if is_zero (f c) then pos 1 else pos 0)
outcome f (nonzero_at c) = assert_real (f c)

-- Whether the check holds of `f`.
abbrev pub holds : (ℤ → ℤ) → Check → Bool
holds f (zero_at c) = is_zero (f c)
holds f (nonzero_at c) = not (is_zero (f c))

-- The letters and the digits of ASCII.
unfoldable pub is_alpha_ascii : ℕ → Bool
is_alpha_ascii c = (leb b'A' c && leb c b'Z') || (leb b'a' c && leb c b'z')

unfoldable pub is_digit_ascii : ℕ → Bool
is_digit_ascii c = leb b'0' c && leb c b'9'

-- The check that a class asks for at `c`.
abbrev pub expect : (ℕ → Bool) → ℕ → Check
expect cls c = if cls c then nonzero_at (pos c) else zero_at (pos c)

-- The checks of a class at the `n` values from `c` on.
abbrev pub table : (ℕ → Bool) → ℕ → ℕ → List Check
table cls zero c = []
table cls (suc n) c = expect cls c ∷ table cls n (suc c)
