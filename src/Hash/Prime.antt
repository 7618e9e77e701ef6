-- ===== src/Hash/Prime.antt =====
-- `is_prime` and `next_prime` of hash-common.h, with the wrap-around of `size_t`.
use yalibct.Base.{ℕ, zero, suc, ◌+◌, ◌-◌, ◌*◌, ◌%◌, ◌^◌, Bool, not, ◌&&◌, ltb, ◌==◌, if◌then◌else◌}

abbrev pub size_max : ℕ
size_max = 2 ^ 64 - 1

-- The loop of `is_prime`, with the divisor that it ends at. The divisor grows in each round and the
-- loop ends at a divisor of the candidate, so that as many rounds as the candidate are enough.
unfoldable pub prime_loop : ℕ → ℕ → ℕ → ℕ → ℕ
prime_loop zero candidate divisor square = divisor
prime_loop (suc fuel) candidate divisor square =
    let even = (divisor + 1) % 2 ^ 64 in
    let rest = prime_loop fuel candidate ((even + 1) % 2 ^ 64) ((square + 4 * even) % 2 ^ 64) in
    if ltb square candidate && not (candidate % divisor == 0) then rest else divisor

unfoldable pub is_prime : ℕ → Bool
unfolding prime_loop
is_prime candidate = not (candidate % prime_loop candidate candidate 3 9 == 0)

-- The loop of `next_prime`.
unfoldable pub next_prime_loop : ℕ → ℕ → ℕ
next_prime_loop zero candidate = candidate
next_prime_loop (suc fuel) candidate =
    let rest = next_prime_loop fuel ((candidate + 2) % 2 ^ 64) in
    if not (candidate == size_max) && not (is_prime candidate) then rest else candidate

-- `candidate |= 1`
abbrev pub make_odd : ℕ → ℕ
make_odd candidate = candidate + (1 - candidate % 2)

-- An odd number reaches SIZE_MAX in less than 2 ^ 63 steps of two.
unfoldable pub next_prime : ℕ → ℕ
next_prime candidate =
    next_prime_loop (2 ^ 63) (make_odd (if ltb candidate 10 then 10 else candidate))
