-- ===== src/Base/Bits.antt =====
-- The lowest digit of `bit_and`, and the masks that clear the lowest digits.
use Prim.Native.Nat.{bit_and, digits, bit_and-bitwise}
use native.Mathlib.Nat.{two-pow-succ, pow-zero, pow-le-pow_right}
use yalibct.Base.{
  ℕ, zero, suc, ◌+◌, ◌-◌, ◌*◌, ◌/◌, ◌%◌, ◌^◌, ◌≤◌, ◌<◌, min, ◌≡◌, refl, ap, subst, arith,
}

-- The count of digits makes no difference where it is large enough.
counts_agree :
    (a b k l : ℕ) → a ≤ k → a ≤ l → digits (λ x. zero) min k a b ≡ digits (λ x. zero) min l a b
counts_agree zero b zero zero le le' = refl
counts_agree zero b zero (suc l) le le' = refl
counts_agree zero b (suc k) zero le le' = refl
counts_agree zero b (suc k) (suc l) le le' = refl
counts_agree (suc a) b zero l le le' = absurd (omega arith)
counts_agree (suc a) b (suc k) zero le le' = absurd (omega arith)
counts_agree (suc a) b (suc k) (suc l) le le' =
    omega (arith, counts_agree (suc a / 2) (b / 2) k l (omega arith) (omega arith))

pub bit_and-digit : (a b : ℕ) → bit_and a b ≡ bit_and (a / 2) (b / 2) * 2 + min (a % 2) (b % 2)
bit_and-digit zero b = omega (arith, bit_and-bitwise 0 b, bit_and-bitwise 0 (b / 2))
bit_and-digit (suc a) b = omega (
  arith,
  bit_and-bitwise (suc a) b,
  bit_and-bitwise (suc a / 2) (b / 2),
  counts_agree (suc a / 2) (b / 2) a (suc a / 2) (omega arith) (omega arith),
)

pub two_pow_pos : (j : ℕ) → 1 ≤ 2 ^ j
two_pow_pos zero = omega (arith, pow-zero 2)
two_pow_pos (suc j) = omega (arith, two-pow-succ j, two_pow_pos j)

bit_and-ones : (w x : ℕ) → x < 2 ^ w → bit_and x (2 ^ w - 1) ≡ x
bit_and-ones zero x lt =
    subst (λ n. bit_and n 0 ≡ n) (none_left x (omega (arith, lt, pow-zero 2))) refl
  where
    none_left : (n : ℕ) → n < 1 → 0 ≡ n
    none_left n lt' = omega (arith, lt')
bit_and-ones (suc w) x lt = omega (
  arith,
  bit_and-digit x (2 ^ suc w - 1),
  ap (bit_and (x / 2)) halves,
  bit_and-ones w (x / 2) (omega (arith, two-pow-succ w, lt)),
  two-pow-succ w,
  two_pow_pos w,
)
  where
    halves : (2 ^ suc w - 1) / 2 ≡ 2 ^ w - 1
    halves = omega (arith, two-pow-succ w, two_pow_pos w)

-- A mask of ones above the lowest `k` digits clears these.
pub bit_and-mask :
    (k w x : ℕ)
    → k ≤ w
    → x < 2 ^ w
    → (bit_and x (2 ^ w - 2 ^ k) ≤ x)
      × (x < bit_and x (2 ^ w - 2 ^ k) + 2 ^ k)
      × (q : ℕ) × (bit_and x (2 ^ w - 2 ^ k) ≡ q * 2 ^ k)
bit_and-mask zero w x le lt =
    let whole = bit_and-ones w x lt in
    (omega (arith, whole), omega (arith, whole, pow-zero 2), x, omega (arith, whole, pow-zero 2))
bit_and-mask (suc k) zero x le lt = absurd (omega (arith, le))
bit_and-mask (suc k) (suc w) x le lt =
    let (below, above, q, multiple) =
      bit_and-mask k w (x / 2) (omega (arith, le)) (omega (arith, two-pow-succ w, lt)) in
    let digit = bit_and-digit x (2 ^ suc w - 2 ^ suc k) in
    let half = ap (bit_and (x / 2)) halves in
    (
      omega (arith, below, digit, half, even),
      omega (arith, above, digit, half, even, two-pow-succ k),
      q,
      omega (arith, multiple, digit, half, even, twice q),
    )
  where
    twice : (n : ℕ) → n * 2 ^ suc k ≡ n * 2 ^ k + n * 2 ^ k
    twice n = rw (two-pow-succ k) (omega arith)

    grows : 2 ^ k ≤ 2 ^ w
    grows = pow-le-pow_right {n = 2} (omega arith) (omega (arith, le))

    halves : (2 ^ suc w - 2 ^ suc k) / 2 ≡ 2 ^ w - 2 ^ k
    halves = omega (arith, two-pow-succ w, two-pow-succ k, grows)

    even : (2 ^ suc w - 2 ^ suc k) % 2 ≡ 0
    even = omega (arith, two-pow-succ w, two-pow-succ k, grows)
