-- ===== src/TempName/Drawn.antt =====
-- The letters that the random numbers stand for, apart from the arrays that they are written to.
use native.Mathlib.Nat.{div-div-eq-div-mul, pow-suc}
use yalibct.Base.{
  ℕ, zero, suc, ◌+◌, ◌-◌, ◌*◌, ◌/◌, ◌%◌, ◌^◌, ◌<◌, ◌≡◌, refl, ap, sym, ◌∙◌, true, ◌&&◌, ◌||◌, Bool,
  List, [], ◌∷◌, none, some, leb, length, arith, dec_lt,
}
use yalibct.TempName.Letters.{Entropy, letters, Digits, draw}

unfoldable pub is_letter : ℕ → Bool
is_letter c = (leb 97 c && leb c 122) || (leb 65 c && leb c 90) || (leb 48 c && leb c 57)

unfoldable pub all_letters : List ℕ → Bool
all_letters [] = true
all_letters (c ∷ cs) = is_letter c && all_letters cs

letters-is_letter : (i : ℕ) → i < 62 → is_letter (letters i) ≡ true
unfolding letters is_letter
letters-is_letter i small = ground (arith, small)

module _ (e : Entropy) (fuel : ℕ) where
  -- The value behind a number of draws, with the number of calls that were made.
  unfoldable pub drawn : ℕ → ℕ × ℕ
  drawn zero = (0, 0)
  drawn (suc q) =
      let (v, calls) = drawn q in elim (draw e fuel calls v) [ none ↦ (v, calls) | some r ↦ r ]

  -- The letter of a number: each value that is drawn has ten digits to the base 62, the lowest one first.
  unfoldable pub letter_at : ℕ → ℕ
  letter_at m = letters ((drawn (suc (m / 10))).0 / 62 ^ (m % 10) % 62)

  unfoldable pub word : ℕ → ℕ → List ℕ
  word m zero = []
  word m (suc n) = letter_at m ∷ word (suc m) n

  -- The letters of the attempt of a number, in which `x` are written.
  unfoldable pub letters_of : ℕ → ℕ → List ℕ
  letters_of x i = word (i * x) x

  length-word : (m n : ℕ) → length (word m n) ≡ n
  unfolding word
  length-word m zero = refl
  length-word m (suc n) = omega (arith, length-word (suc m) n)

  word-all_letters : (m n : ℕ) → all_letters (word m n) ≡ true
  unfolding word all_letters letter_at
  word-all_letters m zero = refl
  word-all_letters m (suc n) =
      rw (letters-is_letter ((drawn (suc (m / 10))).0 / 62 ^ (m % 10) % 62) (omega arith))
        (word-all_letters (suc m) n)

  pub length-letters_of : (x i : ℕ) → length (letters_of x i) ≡ x
  unfolding letters_of
  length-letters_of x i = length-word (i * x) x

  pub letters_of-all_letters : (x i : ℕ) → all_letters (letters_of x i) ≡ true
  unfolding letters_of
  letters_of-all_letters x i = word-all_letters (i * x) x

  -- The digits that are kept where `m` letters have been written: what is left of a value, or nothing.
  pub data Holds (m : ℕ) (d : Digits) : Type 0 where
    spent : (q : ℕ) → m ≡ 10 * q → d.vdigits ≡ 0 → (d.v, d.calls) ≡ drawn q → Holds m d
    rest :
        (q k : ℕ)
        → m ≡ 10 * q + k
        → 0 < k
        → k < 10
        → d.vdigits ≡ 10 - k
        → d.vdigbuf ≡ (drawn (suc q)).0 / 62 ^ k
        → (d.v, d.calls) ≡ drawn (suc q)
        → Holds m d

  -- The same where a letter is there to be written.
  pub record Ready (m : ℕ) (d : Digits) : Type 0 where
    pub draws : ℕ
    pub used : ℕ
    pub number : m ≡ 10 * draws + used
    pub few : used < 10
    pub left : d.vdigits ≡ 10 - used
    pub digits : d.vdigbuf ≡ (drawn (suc draws)).0 / 62 ^ used
    pub state : (d.v, d.calls) ≡ drawn (suc draws)

  pub Ready-letter : (m : ℕ) (d : Digits) → Ready m d → letters (d.vdigbuf % 62) ≡ letter_at m
  unfolding letter_at
  Ready-letter m d r =
      let which : m / 10 ≡ r.draws = omega (arith, r.number, r.few) in
      let place : m % 10 ≡ r.used = omega (arith, r.number, r.few) in
      rw (which, place) (ap (λ n. letters (n % 62)) r.digits)

  pub Ready-next :
      (m : ℕ) (d : Digits)
      → Ready m d
      → Holds (suc m) (record d { vdigbuf = d.vdigbuf / 62; vdigits = d.vdigits - 1 })
  Ready-next m d r = elim (dec_lt (suc r.used) 10) [
    | yes more ↦
        rest r.draws (suc r.used) (omega (arith, r.number)) (omega arith) more
          (omega (arith, r.left, more))
          (ap (λ n. n / 62) r.digits
            ∙ div-div-eq-div-mul (drawn (suc r.draws)).0 (62 ^ r.used) 62
            ∙ ap (λ n. (drawn (suc r.draws)).0 / n) (sym (pow-suc 62 r.used)))
          r.state
    | no last ↦
        spent (suc r.draws) (omega (arith, r.number, r.few, last))
          (omega (arith, r.left, r.few, last)) r.state
  ]
