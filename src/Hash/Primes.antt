-- ===== src/Hash/Primes.antt =====
-- `is_prime` decides whether an odd number is prime.
use yalibct.Base.{
  ℕ, zero, suc, ◌+◌, ◌*◌, ◌/◌, ◌%◌, ◌^◌, ◌≤◌, ◌<◌, ◌≡◌, ◌≢◌, ◌↔◌, refl, sym, ap, ◌∙◌, true, ltb,
  ◌==◌, arith, Bool-cases, inl, inr, dec_lt, ◌⊎◌, subst, ℕ_discrete, ltb→lt, ltb→ge, ==→ne,
}
use native.Mathlib.Nat.{mul_assoc, mul_comm}
use yalibct.Hash.Prime.{prime_loop, is_prime}

-- A prime number, by its factors.
abbrev pub IsPrime : ℕ → Type 0
IsPrime n = (1 < n) × ((a b : ℕ) → a * b ≡ n → 1 < a → 1 < b → ⊥)

-- Where the loop ends: the first odd number from 3 on that divides the candidate or has a square that is
-- not below it.
pub record Ends (c d : ℕ) : Type 0 where
  pub low : 3 ≤ d
  pub odd : d % 2 ≡ 1
  pub none_below : (e : ℕ) → 3 ≤ e → e < d → e % 2 ≡ 1 → c % e ≢ 0
  pub stops : (c ≤ d * d) ⊎ (c % d ≡ 0)
  pub inside : d < c

-- No square wraps around up to this bound.
abbrev pub square_limit : ℕ
square_limit = 2 ^ 62

module _ (c : ℕ) (odd_c : c % 2 ≡ 1) (low_c : 11 ≤ c) (small : c < square_limit) where
  prime_loop-Ends :
      (fuel d : ℕ)
      → 3 ≤ d
      → d % 2 ≡ 1
      → d < c
      → ((e : ℕ) → 3 ≤ e → e < d → e % 2 ≡ 1 → c % e ≢ 0)
      → c ≤ fuel + d
      → Ends c (prime_loop fuel c d (d * d))
  unfolding prime_loop
  prime_loop-Ends zero d low odd lt below enough = absurd (omega arith)
  prime_loop-Ends (suc fuel) d low odd lt below enough = elim (Bool-cases (ltb (d * d) c)) [
    | inr big ↦ rw big (record {
      low = low;
      odd = odd;
      none_below = below;
      stops = inl (ltb→ge (d * d) c big);
      inside = lt;
    })
    | inl below_root ↦ elim (Bool-cases (c % d == 0)) [
      | inl divides ↦
          rw (below_root, divides)
            (record {
              low = low;
              odd = odd;
              none_below = below;
              stops = inr (ground arith);
              inside = lt;
            })
      | inr no_divisor ↦
          let root : d * d < c = ltb→lt (d * d) c below_root in
          let triple : 3 * d ≤ d * d = grind arith in
          let square : (d + 2) * (d + 2) ≡ d * d + 4 * (d + 1) = grind arith in
          let even : (d + 1) % 2 ^ 64 ≡ d + 1 = omega arith in
          let next : (d + 1 + 1) % 2 ^ 64 ≡ d + 2 = omega arith in
          let squared : (d * d + 4 * (d + 1)) % 2 ^ 64 ≡ (d + 2) * (d + 2) = omega arith in
          let below' : (e : ℕ) → 3 ≤ e → e < d + 2 → e % 2 ≡ 1 → c % e ≢ 0 = λ e lo hi od.
            elim (ℕ_discrete e d) [
              | yes same ↦ rw same (==→ne (c % d) 0 no_divisor)
              | no other ↦ below e lo (omega arith) od
            ] in
          let ih =
            prime_loop-Ends fuel (d + 2) (omega arith) (omega arith) (omega arith) below'
              (omega arith) in
          rw (below_root, no_divisor, even, next, squared) ih
    ]
  ]

mod-mul_self : (a b : ℕ) → 0 < a → (a * b) % a ≡ 0
mod-mul_self a b h = grind arith

odd_factor : (a b : ℕ) → (a * b) % 2 ≡ 1 → a % 2 ≡ 1
odd_factor a b h = elim (ℕ_discrete (a % 2) 1) [
  | yes odd ↦ odd
  | no not_odd ↦
      let half : a ≡ 2 * (a / 2) = omega arith in
      let product : a * b ≡ 2 * (a / 2 * b) = ap (λ (t : ℕ). t * b) half ∙ mul_assoc 2 (a / 2) b in
      absurd (omega (arith, product))
]

factor_above :
    (c d a b : ℕ) → Ends c d → c % 2 ≡ 1 → c % d ≢ 0 → c ≤ d * d → a * b ≡ c → 1 < a → 1 < b → d < a
factor_above c d a b e odd rest root product one_a one_b = elim (dec_lt d a) [
  | yes above ↦ above
  | no not_above ↦
      let odd_a : a % 2 ≡ 1 = odd_factor a b (ap (λ (t : ℕ). t % 2) product ∙ odd) in
      let divides : c % a ≡ 0 =
        ap (λ (t : ℕ). t % a) (sym product) ∙ mod-mul_self a b (omega arith) in
      elim (ℕ_discrete a d) [
        | yes same ↦ absurd (rest (subst (λ k. c % k ≡ 0) same divides))
        | no other ↦ absurd (e.none_below a (omega arith) (omega arith) odd_a divides)
      ]
]

exact-product : (d c : ℕ) → 0 < d → c % d ≡ 0 → d * (c / d) ≡ c
exact-product d c h e = grind arith

quotient-above : (d q c : ℕ) → d * q ≡ c → d < c → 1 < q
quotient-above d zero c e h = absurd (grind arith)
quotient-above d (suc zero) c e h = absurd (grind arith)
quotient-above d (suc (suc q)) c e h = omega arith

-- For an odd candidate from 11 on, as the source asks for, and below 2 ^ 62, so that no square wraps
-- around, `is_prime` returns true exactly for the prime numbers.
pub is_prime_lem : (c : ℕ) → c % 2 ≡ 1 → 11 ≤ c → c < square_limit → (is_prime c ≡ true) ↔ IsPrime c
unfolding is_prime
is_prime_lem c odd low small =
    let d = prime_loop c c 3 9 in
    let ends =
      prime_loop-Ends c odd low small c 3 (omega arith) refl (omega arith)
        (λ e lo hi. absurd (omega arith)) (omega arith) in
    (
      λ p.
          let rest : c % d ≢ 0 = ==→ne (c % d) 0 (ground arith) in
          let root : c ≤ d * d = elim ends.stops [ inl r ↦ r | inr z ↦ absurd (rest z) ] in
          (
            omega arith,
            λ a b product one_a one_b.
                let above_a = factor_above c d a b ends odd rest root product one_a one_b in
                let above_b =
                  factor_above c d b a ends odd rest root (mul_comm b a ∙ product) one_b one_a in
                absurd (grind arith),
          ),
      λ p. elim (Bool-cases (c % d == 0)) [
        | inr e ↦ rw e refl
        | inl e ↦
            let divides : c % d ≡ 0 = ground arith in
            let low_d = ends.low in
            let inside = ends.inside in
            let product : d * (c / d) ≡ c = exact-product d c (omega arith) divides in
            absurd (p.1 d (c / d) product (omega arith) (quotient-above d (c / d) c product inside))
      ],
    )
