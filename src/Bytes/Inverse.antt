-- ===== src/Bytes/Inverse.antt =====
-- `memchr_inv` reads eight bytes at a time and finds what a search byte by byte finds.
use yalibct.Base.{
  ℕ, zero, suc, ◌+◌, ◌-◌, ◌*◌, ◌/◌, ◌%◌, ◌^◌, ◌≤◌, ◌<◌, ◌≡◌, ◌≢◌, refl, ap, Bool, true, ◌&&◌, ◌⊎◌,
  inl, inr, List, [], ◌∷◌, Option, none, some, ◌==◌, leb, length, drop, length-drop, arith,
  Bool-cases, ==_iff, ℕ_discrete, get_elem?,
}
use yalibct.Bytes.{
  Run, ok, fault, check_bytes8, load_le, value64_of, check_words, check_aligned, memchr_inv,
}

-- Every element is a byte.
abbrev pub AllBytes : List ℕ → Type 0
AllBytes [] = Unit {0}
AllBytes (b ∷ mem) = (b < 256) × AllBytes mem

-- What follows a search that found nothing.
abbrev after : Run (Option ℕ) → Run (Option ℕ) → Run (Option ℕ)
after fault next = fault
after (ok none) next = next
after (ok (some i)) next = ok (some i)

-- A search is one over its first part and one over the rest.
check_bytes8-add :
    (k n m : ℕ) (mem : List ℕ) (v at : ℕ)
    → m ≡ k + n
    → check_bytes8 mem v m at
      ≡ after (check_bytes8 mem v k at) (check_bytes8 (drop k mem) v n (at + k))
unfolding check_bytes8
check_bytes8-add zero n m mem v at e =
    let p : m ≡ n = omega arith in let q : at + 0 ≡ at = omega arith in rw (p, q)
check_bytes8-add (suc k) n zero mem v at e = absurd (omega arith)
check_bytes8-add (suc k) n (suc m) [] v at e = refl
check_bytes8-add (suc k) n (suc m) (b ∷ mem) v at e =
    let p : at + suc k ≡ at + 1 + k = omega arith in
    rw p (ground (arith, check_bytes8-add k n m mem v (at + 1)))

-- The number that `n` bytes of value `v` stand for.
repeated : ℕ → ℕ → ℕ
repeated v zero = 0
repeated v (suc n) = v + 256 * repeated v n

all_below : ℕ → (ℕ → Bool) → Bool
all_below zero p = true
all_below (suc n) p = p n && all_below n p

all_below-eq_true : (n : ℕ) (p : ℕ → Bool) (x : ℕ) → all_below n p ≡ true → x < n → p x ≡ true
unfolding all_below
all_below-eq_true zero p x h lt = absurd (omega arith)
all_below-eq_true (suc n) p x h lt = ground (arith, all_below-eq_true n p x)

value64_table : all_below 256 (λ v. value64_of v == repeated v 8) ≡ true
unfolding all_below value64_of repeated
value64_table = refl

value64-repeated : (v : ℕ) → v < 256 → value64_of v ≡ repeated v 8
value64-repeated v h =
    (==_iff _ _).0 (all_below-eq_true 256 (λ v. value64_of v == repeated v 8) v value64_table h)

-- A load agrees with the search over the bytes that it reads.
load-check :
    (n : ℕ) (mem : List ℕ) (v at : ℕ)
    → AllBytes mem
    → v < 256
    → n ≤ length mem
    → (w : ℕ) × (load_le n mem ≡ ok w)
      × (w ≡ repeated v n → check_bytes8 mem v n at ≡ ok none)
      × (w ≢ repeated v n → (i : ℕ) × (check_bytes8 mem v n at ≡ ok (some i)))
unfolding load_le check_bytes8 repeated
load-check zero mem v at a hv h = (0, refl, λ e. refl, λ ne. absurd (ne refl))
load-check (suc n) [] v at a hv h = absurd (omega arith)
load-check (suc n) (b ∷ mem) v at (hb, a) hv h =
    let (w, loads, same, other) = load-check n mem v (at + 1) a hv (omega arith) in
    (
      b + 256 * w,
      rw loads,
      λ e.
          let here : b ≡ v = omega arith in
          let later : w ≡ repeated v n = omega arith in ground (arith, same later),
      λ ne. elim (ℕ_discrete b v) [
        | yes here ↦ let (i, found) = other (λ p. ne (omega arith)) in (i, ground arith)
        | no differs ↦ (at, ground arith)
      ],
    )

AllBytes-drop : (k : ℕ) (mem : List ℕ) → AllBytes mem → AllBytes (drop k mem)
AllBytes-drop zero mem a = a
AllBytes-drop (suc k) [] a = a
AllBytes-drop (suc k) (b ∷ mem) (_, a) = AllBytes-drop k mem a

module _ (v : ℕ) (small : v < 256) where
  -- The loop over words is the search over all their bytes and the tail.
  check_words-eq :
      (words tail n : ℕ) (mem : List ℕ) (at : ℕ)
      → AllBytes mem
      → n ≡ 8 * words + tail
      → n ≤ length mem
      → check_words words mem v tail at ≡ check_bytes8 mem v n at
  unfolding check_words
  check_words-eq zero tail n mem at a e h = let p : n ≡ tail = omega arith in rw p
  check_words-eq (suc words) tail n mem at a e h =
      let (w, loads, same, other) = load-check 8 mem v at a small (omega arith) in
      let split = check_bytes8-add 8 (n - 8) n mem v at (omega arith) in
      let ih =
        check_words-eq words tail (n - 8) (drop 8 mem) (at + 8) (AllBytes-drop 8 mem a)
          (omega arith) (omega (arith, length-drop 8 mem)) in
      let word = value64-repeated v small in
      elim (ℕ_discrete w (repeated v 8)) [
        | yes p ↦ let nothing = same p in ground arith
        | no p ↦ let (i, found) = other p in ground arith
      ]

  check_aligned-eq :
      (bytes : ℕ) (mem : List ℕ) (at : ℕ)
      → AllBytes mem
      → bytes < 2 ^ 35
      → bytes ≤ length mem
      → check_aligned mem v bytes at ≡ check_bytes8 mem v bytes at
  unfolding check_aligned
  check_aligned-eq bytes mem at a h l =
      check_words-eq (bytes / 8 % 2 ^ 32) (bytes % 8) bytes mem at a (omega arith) l

-- At every address and alignment, for an object of at least `bytes` bytes and fewer than 2 ^ 35 of
-- them, `memchr_inv` is the search byte by byte.
pub memchr_inv-eq-check_bytes8 :
    (start : ℕ) (mem : List ℕ) (c bytes : ℕ)
    → AllBytes mem
    → bytes < 2 ^ 35
    → bytes ≤ length mem
    → memchr_inv start mem c bytes ≡ check_bytes8 mem (c % 256) bytes 0
unfolding memchr_inv
memchr_inv-eq-check_bytes8 start mem c bytes a h l =
    let v = c % 256 in
    let prefix = 8 - start % 8 in
    let split = λ (p : prefix ≤ bytes).
      check_bytes8-add prefix (bytes - prefix) bytes mem v 0 (omega arith) in
    let whole = check_aligned-eq v (omega arith) bytes mem 0 a h l in
    let rest =
      check_aligned-eq v (omega arith) (bytes - prefix) (drop prefix mem) prefix
        (AllBytes-drop prefix mem a) (omega arith) (omega (arith, length-drop prefix mem)) in
    elim (Bool-cases (leb bytes 16)) [
      | inl e ↦ rw e
      | inr e ↦
          let s = split (ground arith) in let z : 0 + prefix ≡ prefix = omega arith in ground arith
    ]

-- What a search for a byte other than `v` among the first `n` bytes has to return.
abbrev pub FirstOther : List ℕ → ℕ → ℕ → Run (Option ℕ) → ℕ → Type 0
FirstOther mem v n r at =
    ((r ≡ ok none) × ((j : ℕ) → j < n → get_elem? mem j ≡ some v))
    ⊎ ((i : ℕ) × (r ≡ ok (some (at + i)))
        × (i < n)
        × ((b : ℕ) × (get_elem? mem i ≡ some b) × (b ≢ v))
        × ((j : ℕ) → j < i → get_elem? mem j ≡ some v))

check_bytes8-FirstOther :
    (n : ℕ) (mem : List ℕ) (v at : ℕ)
    → n ≤ length mem
    → FirstOther mem v n (check_bytes8 mem v n at) at
unfolding check_bytes8
check_bytes8-FirstOther zero mem v at l = inl (refl, λ j h. absurd (omega arith))
check_bytes8-FirstOther (suc n) [] v at l = absurd (omega arith)
check_bytes8-FirstOther (suc n) (b ∷ mem) v at l =
    let ih = check_bytes8-FirstOther n mem v (at + 1) (omega arith) in
    elim (ℕ_discrete b v) [
      | no d ↦
          let z : at + 0 ≡ at = omega arith in
          inr (0, ground arith, omega arith, (b, refl, d), λ j h. absurd (omega arith))
      | yes p ↦ elim ih [
        | inl (e, all) ↦
            inl (ground arith, elim [ zero ↦ λ h. ap some p | suc j ↦ λ h. all j (omega arith) ])
        | inr (i, e, lt, other, all) ↦
            let z : at + suc i ≡ at + 1 + i = omega arith in
            inr (
              suc i,
              ground arith,
              omega arith,
              other,
              elim [ zero ↦ λ h. ap some p | suc j ↦ λ h. all j (omega arith) ],
            )
      ]
    ]

-- For an object of at least `bytes` bytes and fewer than 2 ^ 35 of them, at every address,
-- `memchr_inv` returns the first of the `bytes` bytes that is not the low byte of `c`, and a null
-- pointer exactly if there is none.
pub memchr_inv-FirstOther :
    (start : ℕ) (mem : List ℕ) (c bytes : ℕ)
    → AllBytes mem
    → bytes < 2 ^ 35
    → bytes ≤ length mem
    → FirstOther mem (c % 256) bytes (memchr_inv start mem c bytes) 0
memchr_inv-FirstOther start mem c bytes a h l =
    rw (memchr_inv-eq-check_bytes8 start mem c bytes a h l)
      (check_bytes8-FirstOther bytes mem (c % 256) 0 l)
