-- ===== src/Bytes/Search.antt =====
-- `strnlen` is the length of the string, or the limit.
use yalibct.Base.{
  ℕ, zero, suc, ◌+◌, ◌≤◌, ◌<◌, ◌≡◌, ◌⊎◌, List, [], ◌∷◌, none, some, ◌==◌, ltb, min, length,
  if◌then◌else◌, arith,
}
use yalibct.Bytes.{ok, memchr_from, memchr, strnlen}

-- The number of bytes before the first null byte, or before the end of the object.
abbrev pub c_len : List ℕ → ℕ
c_len [] = 0
c_len (b ∷ mem) = if b == 0 then 0 else suc (c_len mem)

-- The search for the null byte ends there, at the limit, or at the end of the object.
memchr_from-zero :
    (mem : List ℕ) (n at : ℕ)
    → (n ≤ length mem) ⊎ (c_len mem < length mem)
    → memchr_from mem 0 n at ≡ ok (if ltb (c_len mem) n then some (at + c_len mem) else none)
unfolding memchr_from
memchr_from-zero mem zero at h = ground arith
memchr_from-zero [] (suc n) at h = absurd (omega arith)
memchr_from-zero (b ∷ mem) (suc n) at h = ground (arith, memchr_from-zero mem n (at + 1))

-- Where the object holds `max_length` bytes or a null byte, `strnlen` reads inside it and returns the
-- number of bytes before the null byte, or `max_length` if that is less.
pub strnlen_lem :
    (mem : List ℕ) (max_length : ℕ)
    → (max_length ≤ length mem) ⊎ (c_len mem < length mem)
    → strnlen mem max_length ≡ ok (min max_length (c_len mem))
unfolding strnlen memchr
strnlen_lem mem max_length h = ground (arith, memchr_from-zero mem max_length 0)
