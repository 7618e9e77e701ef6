-- ===== src/Hash/NextPrime.antt =====
-- `next_prime` ends, at the first odd number from the candidate on that passes `is_prime`.
use yalibct.Base.{
  ℕ, zero, suc, ◌+◌, ◌*◌, ◌%◌, ◌^◌, ◌≤◌, ◌<◌, ◌≡◌, true, false, ◌==◌, max, if◌then◌else◌, arith,
  Bool-cases, inl, inr, ltb, ◌⊎◌, ℕ_discrete, ==→ne,
}
use yalibct.Hash.Prime.{size_max, is_prime, next_prime_loop, next_prime, make_odd}

-- What stands at the end of the search from `from` on.
pub record IsNext (from p : ℕ) : Type 0 where
  pub odd : p % 2 ≡ 1
  pub not_below : from ≤ p
  pub in_range : p ≤ size_max
  pub passes : (p ≡ size_max) ⊎ (is_prime p ≡ true)
  pub first : (k : ℕ) → from ≤ k → k < p → k % 2 ≡ 1 → is_prime k ≡ false

next_prime_loop-IsNext :
    (fuel c : ℕ)
    → c % 2 ≡ 1
    → c ≤ size_max
    → size_max ≤ c + 2 * fuel
    → IsNext c (next_prime_loop fuel c)
unfolding next_prime_loop
next_prime_loop-IsNext zero c odd top enough = record {
  odd = odd;
  not_below = omega arith;
  in_range = top;
  passes = inl (omega arith);
  first = λ k lo hi. absurd (omega arith);
}
next_prime_loop-IsNext (suc fuel) c odd top enough = elim (Bool-cases (c == size_max)) [
  | inl e ↦ rw e (record {
    odd = odd;
    not_below = omega arith;
    in_range = top;
    passes = inl (ground arith);
    first = λ k lo hi. absurd (omega arith);
  })
  | inr e ↦ elim (Bool-cases (is_prime c)) [
    | inl p ↦
        rw (e, p)
          (record {
            odd = odd;
            not_below = omega arith;
            in_range = top;
            passes = inr p;
            first = λ k lo hi. absurd (omega arith);
          })
    | inr p ↦
        let below : c + 2 ≤ size_max = omega (arith, ==→ne c size_max e) in
        let step : (c + 2) % 2 ^ 64 ≡ c + 2 = omega arith in
        let ih = next_prime_loop-IsNext fuel (c + 2) (omega arith) below (omega arith) in
        let lower = ih.not_below in
        rw (e, p, step)
          (record {
            odd = ih.odd;
            not_below = omega (arith, lower);
            in_range = ih.in_range;
            passes = ih.passes;
            first = λ k lo hi od. elim (ℕ_discrete k c) [
              | yes same ↦ rw same p
              | no other ↦ ih.first k (omega arith) hi od
            ];
          })
  ]
]

-- `next_prime` returns the first odd number, from the candidate and from 11 on, that `is_prime` accepts, or
-- SIZE_MAX if there is none before.
pub next_prime_lem :
    (candidate : ℕ) → candidate ≤ size_max → IsNext (max candidate 11) (next_prime candidate)
unfolding next_prime
next_prime_lem candidate top =
    let start = make_odd (if ltb candidate 10 then 10 else candidate) in
    let odd : start % 2 ≡ 1 = ground arith in
    let s = next_prime_loop-IsNext (2 ^ 63) start odd (ground arith) (omega arith) in
    let above : max candidate 11 ≤ start = ground arith in
    record {
      odd = s.odd;
      not_below = omega (arith, above, s.not_below);
      in_range = s.in_range;
      passes = s.passes;
      first = λ k lo hi od. s.first k (ground arith) hi od;
    }
