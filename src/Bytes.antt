-- ===== src/Bytes.antt =====
-- include/test-lib/portable-symbols: memchr.h, strnlen.h and memchr_inv.h, the searches over bytes.
-- A pointer is the list of the bytes from it to the end of its object; a read past the end is a fault.
pub mod Search
pub mod Inverse
mod Tests
use Prim.Native.Nat.{bit_or}
use yalibct.Base.{
  ℕ, zero, suc, ◌+◌, ◌-◌, ◌*◌, ◌/◌, ◌%◌, ◌^◌, List, [], ◌∷◌, Option, none, some, ◌==◌, leb, ltb,
  length, drop, if◌then◌else◌,
}

pub data Run {ℓ} (A : Type ℓ) : Type ℓ where
  ok : A → Run A
  fault : Run A

-- The loop of `memchr`, with the index that it has come to.
pub memchr_from : List ℕ → ℕ → ℕ → ℕ → Run (Option ℕ)
memchr_from mem c zero at = ok none
memchr_from [] c (suc n) at = fault
memchr_from (b ∷ mem) c (suc n) at =
    let rest = memchr_from mem c n (at + 1) in if b == c % 256 then ok (some at) else rest

-- The index of the byte that `memchr` returns a pointer to.
pub memchr : List ℕ → ℕ → ℕ → Run (Option ℕ)
memchr mem character len = memchr_from mem character len 0

pub strnlen : List ℕ → ℕ → Run ℕ
strnlen string max_length = elim (memchr string 0 max_length) [
  | fault ↦ fault
  | ok r ↦ elim r [ none ↦ ok max_length | some i ↦ ok i ]
]

-- `__real_memchr_inv_check_bytes8`: the first byte that is not `value`.
pub check_bytes8 : List ℕ → ℕ → ℕ → ℕ → Run (Option ℕ)
check_bytes8 mem value zero at = ok none
check_bytes8 [] value (suc n) at = fault
check_bytes8 (b ∷ mem) value (suc n) at =
    let rest = check_bytes8 mem value n (at + 1) in if b == value then rest else ok (some at)

-- The number that `n` bytes stand for, the lowest first: `*(uint64_t *)start` at `n` equal to 8.
pub load_le : ℕ → List ℕ → Run ℕ
load_le zero mem = ok 0
load_le (suc n) [] = fault
load_le (suc n) (b ∷ mem) = elim (load_le n mem) [ fault ↦ fault | ok w ↦ ok (b + 256 * w) ]

-- The byte in each of the eight places. `BITS_PER_LONG` is not defined where the header tests it.
pub value64_of : ℕ → ℕ
value64_of value = let v = value * 0x01010101 % 2 ^ 64 in bit_or v (v * 2 ^ 32 % 2 ^ 64)

-- The loop over whole words, and the check of the bytes after them.
pub check_words : ℕ → List ℕ → ℕ → ℕ → ℕ → Run (Option ℕ)
check_words zero mem value tail at = check_bytes8 mem value tail at
check_words (suc words) mem value tail at =
    let rest = check_words words (drop 8 mem) value tail (at + 8) in
    elim (load_le 8 mem) [
      | fault ↦ fault
      | ok w ↦ if w == value64_of value then rest else check_bytes8 mem value 8 at
    ]

-- The part from `words = bytes / 8` on; `words` is an `unsigned int`.
pub check_aligned : List ℕ → ℕ → ℕ → ℕ → Run (Option ℕ)
check_aligned mem value bytes at = check_words (bytes / 8 % 2 ^ 32) mem value (bytes % 8) at

-- `__real_memchr_inv` at the address `start`, with `value` the low byte of `c`.
pub memchr_inv : ℕ → List ℕ → ℕ → ℕ → Run (Option ℕ)
memchr_inv start mem c bytes =
    let value = c % 256 in
    let prefix = 8 - start % 8 in
    if leb bytes 16
    then check_bytes8 mem value bytes 0
    else if start % 8 == 0
    then check_aligned mem value bytes 0
    else (elim (check_bytes8 mem value prefix 0) [
      | fault ↦ fault
      | ok r ↦ elim r [
        | some i ↦ ok (some i)
        | none ↦ check_aligned (drop prefix mem) value (bytes - prefix) prefix
      ]
    ])
