-- ===== src/Wide/Order.antt =====
-- The order of wide strings, whole and up to a length.
use yalibct.Base.{
  ℕ, zero, suc, ◌+◌, ◌<◌, ◌≡◌, ◌≢◌, ◌↔◌, refl, ap, ap₂, sym, ◌∙◌, subst, true, false, List, [], ◌∷◌,
  ◌++◌, Option, some, take, take_all, drop, length, arith, Bool-cases, inl, inr,
}
use yalibct.Base.Int.{ℤ, pos, negsuc}
use mathlib.Core.Bool.{true≢false}
use yalibct.Wide.{same_char, compare_chars, wcscmp, wcsncmp}

-- A string with its null character and what is behind it in the object.
abbrev pub stored : List ℤ → List ℤ → List ℤ
stored s behind = s ++ (pos 0 ∷ behind)

abbrev pub NoNull : List ℤ → Type 0
NoNull [] = Unit
NoNull (c ∷ s) = (same_char c (pos 0) ≡ false) × NoNull s

abbrev pub negate : ℤ → ℤ
negate (pos zero) = pos 0
negate (pos (suc n)) = negsuc n
negate (negsuc n) = pos (suc n)

same_char-eq : (x y : ℤ) → same_char x y ≡ true → x ≡ y
unfolding same_char
same_char-eq (pos x) (pos y) h = ap pos (ground (arith, h))
same_char-eq (pos x) (negsuc y) h = ground (arith, h)
same_char-eq (negsuc x) (pos y) h = ground (arith, h)
same_char-eq (negsuc x) (negsuc y) h = ap negsuc (ground (arith, h))

same_char_refl : (x : ℤ) → same_char x x ≡ true
unfolding same_char
same_char_refl x = ground arith

same_char_comm : (x y : ℤ) → same_char x y ≡ same_char y x
unfolding same_char
same_char_comm x y = ground arith

compare_chars_swap : (x y : ℤ) → compare_chars y x ≡ negate (compare_chars x y)
unfolding compare_chars
compare_chars_swap x y = ground arith

compare_chars_ne : (x y : ℤ) → same_char x y ≡ false → compare_chars x y ≢ pos 0
unfolding compare_chars same_char
compare_chars_ne (pos x) (pos y) h e = ground (arith, h, e)
compare_chars_ne (pos x) (negsuc y) h e = ground (arith, h, e)
compare_chars_ne (negsuc x) (pos y) h e = ground (arith, h, e)
compare_chars_ne (negsuc x) (negsuc y) h e = ground (arith, h, e)

-- What a comparison gives, and the one with the arguments exchanged, where equal ones are the given lists.
pub record IsOrder (s t : List ℤ) (there back : Option ℤ) : Type 0 where
  pub sign : ℤ
  pub value : there ≡ some sign
  pub mirrored : back ≡ some (negate sign)
  pub equal : (sign ≡ pos 0) ↔ (s ≡ t)

-- Two characters that differ decide a comparison.
decided :
    (x y : ℤ) (s t : List ℤ) (there back : Option ℤ)
    → same_char x y ≡ false
    → s ≢ t
    → there ≡ some (compare_chars x y)
    → back ≡ some (compare_chars y x)
    → IsOrder s t there back
decided x y s t there back apart ne h k = record {
  sign = compare_chars x y;
  value = h;
  mirrored = k ∙ ap some (compare_chars_swap x y);
  equal = (λ e. absurd (compare_chars_ne x y apart e), λ e. absurd (ne e));
}

head_or : ℤ → List ℤ → ℤ
head_or d [] = d
head_or d (x ∷ s) = x

heads_differ : (x y : ℤ) (s t : List ℤ) → same_char x y ≡ false → x ∷ s ≢ y ∷ t
unfolding head_or
heads_differ x y s t apart e =
    true≢false
      (sym (subst (λ z. same_char x z ≡ true) (ap (head_or x) e) (same_char_refl x)) ∙ apart)

nil_differs : (y : ℤ) (t : List ℤ) → [] ≢ y ∷ t
nil_differs y t e = omega (arith, ap (λ (l : List ℤ). length l) e)

module _ (b1 b2 : List ℤ) where
  -- Of two strings that are stored with a null character, wcsncmp reads nothing behind it, gives the
  -- opposite sign with its arguments exchanged, and 0 exactly where the first `n` characters, or all of a
  -- string that is shorter, are equal.
  pub wcsncmp-IsOrder :
      (n : ℕ) (s t : List ℤ)
      → NoNull s
      → NoNull t
      → IsOrder
          (take n s)
          (take n t)
          (wcsncmp (stored s b1) (stored t b2) n)
          (wcsncmp (stored t b2) (stored s b1) n)
  unfolding wcsncmp
  wcsncmp-IsOrder zero s t p q = record {
    sign = pos 0;
    value = refl;
    mirrored = refl;
    equal = (λ _. refl, λ _. refl);
  }
  wcsncmp-IsOrder (suc n) [] [] p q = record {
    sign = pos 0;
    value = rw (wcsncmp, same_char_refl (pos 0)) refl;
    mirrored = rw (wcsncmp, same_char_refl (pos 0)) refl;
    equal = (λ _. refl, λ _. refl);
  }
  wcsncmp-IsOrder (suc n) [] (y ∷ t) p q =
      let apart = same_char_comm (pos 0) y ∙ q.0 in
      decided (pos 0) y [] (take (suc n) (y ∷ t)) _ _ apart (nil_differs y (take n t))
        (rw (wcsncmp, apart) refl) (rw (wcsncmp, q.0) refl)
  wcsncmp-IsOrder (suc n) (x ∷ s) [] p q =
      decided x (pos 0) (take (suc n) (x ∷ s)) [] _ _ p.0 (λ e. nil_differs x (take n s) (sym e))
        (rw (wcsncmp, p.0) refl) (rw (wcsncmp, same_char_comm (pos 0) x ∙ p.0) refl)
  wcsncmp-IsOrder (suc n) (x ∷ s) (y ∷ t) p q = elim (Bool-cases (same_char x y)) [
    | inr apart ↦
        decided x y (take (suc n) (x ∷ s)) (take (suc n) (y ∷ t)) _ _ apart
          (heads_differ x y (take n s) (take n t) apart) (rw (wcsncmp, apart) refl)
          (rw (wcsncmp, same_char_comm y x ∙ apart) refl)
    | inl same ↦
        let rest = wcsncmp-IsOrder n s t p.1 q.1 in
        record {
          sign = rest.sign;
          value = rw (wcsncmp, same, p.0) rest.value;
          mirrored = rw (wcsncmp, same_char_comm y x ∙ same, q.0) rest.mirrored;
          equal = (
            λ e. ap₂ ◌∷◌ (same_char-eq x y same) (rest.equal.0 e),
            λ e. rest.equal.1 (ap (λ (l : List ℤ). drop 1 l) e),
          );
        }
  ]

  -- With a length above that of the first string, the two functions are the same.
  wcscmp-wcsncmp :
      (n : ℕ) (s t : List ℤ)
      → NoNull s
      → NoNull t
      → length s < n
      → wcscmp (stored s b1) (stored t b2) ≡ wcsncmp (stored s b1) (stored t b2) n
  unfolding wcscmp wcsncmp
  wcscmp-wcsncmp zero s t p q long = absurd (omega arith)
  wcscmp-wcsncmp (suc n) [] [] p q long = rw (wcscmp, wcsncmp, same_char_refl (pos 0)) refl
  wcscmp-wcsncmp (suc n) [] (y ∷ t) p q long =
      rw (wcscmp, wcsncmp, same_char_comm (pos 0) y ∙ q.0) refl
  wcscmp-wcsncmp (suc n) (x ∷ s) [] p q long = rw (wcscmp, wcsncmp, p.0) refl
  wcscmp-wcsncmp (suc n) (x ∷ s) (y ∷ t) p q long = elim (Bool-cases (same_char x y)) [
    | inl same ↦
        rw (wcscmp, wcsncmp, same, p.0) (wcscmp-wcsncmp n s t p.1 q.1 (omega (arith, long)))
    | inr apart ↦ rw (wcscmp, wcsncmp, apart) refl
  ]

-- Of two strings that are stored with a null character, wcscmp reads nothing behind it, gives the opposite
-- sign with its arguments exchanged, and 0 exactly for equal strings.
pub wcscmp-IsOrder :
    (b1 b2 s t : List ℤ)
    → NoNull s
    → NoNull t
    → IsOrder s t (wcscmp (stored s b1) (stored t b2)) (wcscmp (stored t b2) (stored s b1))
wcscmp-IsOrder b1 b2 s t p q =
    let n = suc (length s + length t) in
    let order = wcsncmp-IsOrder b1 b2 n s t p q in
    let whole_s = take_all n s (omega arith) in
    let whole_t = take_all n t (omega arith) in
    record {
      sign = order.sign;
      value = wcscmp-wcsncmp b1 b2 n s t p q (omega arith) ∙ order.value;
      mirrored = wcscmp-wcsncmp b2 b1 n t s q p (omega arith) ∙ order.mirrored;
      equal =
          (λ e. sym whole_s ∙ order.equal.0 e ∙ whole_t, λ e. order.equal.1 (ap (λ l. take n l) e));
    }
