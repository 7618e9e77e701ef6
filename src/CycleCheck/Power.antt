-- ===== src/CycleCheck/Power.antt =====
-- The test for powers of two on a counter of 64 bits.
use Prim.Native.Nat.{bit_and}
use native.Mathlib.Nat.{two-pow-succ, pow-zero}
use yalibct.Base.{
  ℕ, zero, suc, ◌+◌, ◌-◌, ◌*◌, ◌/◌, ◌%◌, ◌^◌, ◌≤◌, ◌<◌, ◌≡◌, refl, ap, subst, sym, ◌∙◌, ◌↔◌, ◌⊎◌,
  inl, inr, true, ◌==◌, ==_iff, arith, dec_lt,
}
use yalibct.Base.Bits.{bit_and-digit, two_pow_pos}
use yalibct.CycleCheck.{is_zero_or_power_of_two}

bit_and_self-below : (k a : ℕ) → a ≤ k → bit_and a a ≡ a
bit_and_self-below zero zero le = refl
bit_and_self-below zero (suc a) le = absurd (omega arith)
bit_and_self-below (suc k) zero le = refl
bit_and_self-below (suc k) (suc a) le =
    omega (arith, bit_and-digit (suc a) (suc a), bit_and_self-below k (suc a / 2) (omega arith))

bit_and_self : (a : ℕ) → bit_and a a ≡ a
bit_and_self a = bit_and_self-below a a (omega arith)

-- An even number keeps its lowest one bit, and of an odd one all the others stay.
bit_and_pred-even :
    (i : ℕ) → i % 2 ≡ 0 → 0 < i → bit_and i (i - 1) ≡ bit_and (i / 2) (i / 2 - 1) * 2
bit_and_pred-even i even positive =
    omega (arith, bit_and-digit i (i - 1), ap (bit_and (i / 2)) halves)
  where
    halves : (i - 1) / 2 ≡ i / 2 - 1
    halves = omega arith

bit_and_pred-odd : (i : ℕ) → i % 2 ≡ 1 → bit_and i (i - 1) ≡ i - 1
bit_and_pred-odd i odd =
    omega (arith, bit_and-digit i (i - 1), ap (bit_and (i / 2)) halves, bit_and_self (i / 2))
  where
    halves : (i - 1) / 2 ≡ i / 2
    halves = omega arith

parity : (i : ℕ) → (i % 2 ≡ 0) ⊎ (i % 2 ≡ 1)
parity i = elim (dec_lt (i % 2) 1) [ yes lt ↦ inl (omega arith) | no ge ↦ inr (omega arith) ]

bit_and_pred : (j i : ℕ) → 2 ^ j ≤ i → i < 2 ^ suc j → (bit_and i (i - 1) ≡ 0) ↔ (i ≡ 2 ^ j)
bit_and_pred zero i lo hi =
    subst (λ n. (bit_and n (n - 1) ≡ 0) ↔ (n ≡ 2 ^ 0)) one (λ _. refl, λ _. refl)
  where
    one : 1 ≡ i
    one = omega (arith, pow-zero 2, two-pow-succ 0)
bit_and_pred (suc j) i lo hi = elim (parity i) [
  | inl even ↦
      let half =
        bit_and_pred j (i / 2) (omega (arith, two-pow-succ j))
          (omega (arith, two-pow-succ (suc j))) in
      let step = bit_and_pred-even i even (omega arith) in
      (
        λ z. omega (arith, half.0 (omega arith), two-pow-succ j),
        λ e. omega (arith, half.1 (omega (arith, two-pow-succ j))),
      )
  | inr odd ↦
      let step = bit_and_pred-odd i odd in
      let p = two-pow-succ j in let q = two_pow_pos j in (λ z. omega arith, λ e. omega arith)
]

-- The test on a counter that is not 0, between two powers of two.
pub is_power :
    (j i : ℕ) → 2 ^ j ≤ i → i < 2 ^ suc j → i < 2 ^ 64 → is_zero_or_power_of_two i ≡ (i == 2 ^ j)
unfolding is_zero_or_power_of_two
is_power j i lo hi wide =
    let test = bit_and_pred j i lo hi in let q = two_pow_pos j in rw (pred) (ground (arith, test))
  where
    pred : (i + (2 ^ 64 - 1)) % 2 ^ 64 ≡ i - 1
    pred = omega (arith, two_pow_pos j)

-- Each number but 0 is between two powers of two, the lower one included.
between_powers : (k i : ℕ) → 0 < i → i ≤ k → (j : ℕ) × (2 ^ j ≤ i) × (i < 2 ^ suc j)
between_powers zero i positive le = absurd (omega arith)
between_powers (suc k) i positive le = elim (dec_lt i 2) [
  | yes lt ↦
      (0, omega (arith, pow-zero 2, two-pow-succ 0), omega (arith, pow-zero 2, two-pow-succ 0))
  | no ge ↦
      let (j, lo, hi) = between_powers k (i / 2) (omega arith) (omega arith) in
      (suc j, omega (arith, two-pow-succ j), omega (arith, two-pow-succ (suc j)))
]

zero_passes : is_zero_or_power_of_two 0 ≡ true
unfolding is_zero_or_power_of_two
zero_passes = refl

power-is_power : (k i : ℕ) → i ≡ 2 ^ k → i < 2 ^ 64 → is_zero_or_power_of_two i ≡ true
power-is_power k i e wide =
    is_power k i (omega arith) (omega (arith, two-pow-succ k, two_pow_pos k)) wide
    ∙ (==_iff i (2 ^ k)).1 e

-- On a counter of 64 bits, the test is true of 0 and of the powers of two, and of nothing else.
pub is_zero_or_power_of_two_lem :
    (i : ℕ) → i < 2 ^ 64 → (is_zero_or_power_of_two i ≡ true) ↔ ((i ≡ 0) ⊎ (j : ℕ) × (i ≡ 2 ^ j))
is_zero_or_power_of_two_lem i wide = (to, from)
  where
    to : is_zero_or_power_of_two i ≡ true → (i ≡ 0) ⊎ (j : ℕ) × (i ≡ 2 ^ j)
    to h = elim (dec_lt 0 i) [
      | yes positive ↦
          let (j, lo, hi) = between_powers i i positive (omega arith) in
          inr (j, (==_iff i (2 ^ j)).0 (sym (is_power j i lo hi wide) ∙ h))
      | no zero_ ↦ inl (omega arith)
    ]

    from : (i ≡ 0) ⊎ (j : ℕ) × (i ≡ 2 ^ j) → is_zero_or_power_of_two i ≡ true
    from (inl e) = subst (λ n. is_zero_or_power_of_two n ≡ true) (sym e) zero_passes
    from (inr (j, e)) = power-is_power j i e wide
