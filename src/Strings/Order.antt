-- ===== src/Strings/Order.antt =====
-- `strcasecmp` tells strings apart that differ in more than case, and orders them.
use yalibct.Base.{
  ℕ, zero, suc, ◌≡◌, ◌≢◌, ◌↔◌, refl, ap, Bool, true, false, List, [], ◌∷◌, ◌++◌, Option, some, ◌==◌,
  drop, arith, map, Bool-cases, inl, inr,
}
use yalibct.Base.Int.{ℤ, pos, negsuc}
use yalibct.Strings.{difference, compare_bytes, strcasecmp}

-- A string with its null byte and what is behind it in the object.
abbrev pub stored : List ℕ → List ℕ → List ℕ
stored s behind = s ++ (0 ∷ behind)

abbrev pub NoNull : List ℕ → Type 0
NoNull [] = Unit
NoNull (c ∷ s) = (c ≢ 0) × NoNull s

abbrev pub negate : ℤ → ℤ
negate (pos zero) = pos 0
negate (pos (suc n)) = negsuc n
negate (negsuc n) = pos (suc n)

difference_swap : (a b : ℕ) → difference b a ≡ negate (difference a b)
unfolding difference
difference_swap a b = ground arith

difference_zero : (a b : ℕ) → difference a b ≡ pos 0 → a ≡ b
unfolding difference
difference_zero a b h = ground arith

list_cons : (a b : ℕ) (s t : List ℕ) → a ≡ b → s ≡ t → a ∷ s ≡ b ∷ t
list_cons a b s t e h = rw (e, h) refl

list_tail : {a b : ℕ} {s t : List ℕ} → a ∷ s ≡ b ∷ t → s ≡ t
list_tail {a} {b} {s} {t} e = ap (λ (w : List ℕ). drop 1 w) e

-- What a comparison of `s` and `t` gives, and the one with the arguments exchanged.
pub record IsOrder (tolower_of : ℕ → ℕ) (s t : List ℕ) (there back : Option ℤ) : Type 0 where
  pub sign : ℤ
  pub value : there ≡ some sign
  pub mirrored : back ≡ some (negate sign)
  pub equal : (sign ≡ pos 0) ↔ (map tolower_of s ≡ map tolower_of t)

module _ (f : ℕ → ℕ) (z : f 0 ≡ 0) (nz : (c : ℕ) → f c ≡ 0 → c ≡ 0) (b1 b2 : List ℕ) where
  compare_bytes-IsOrder :
      (s t : List ℕ)
      → NoNull s
      → NoNull t
      → IsOrder f s t
          (compare_bytes f (stored s b1) (stored t b2))
          (compare_bytes f (stored t b2) (stored s b1))
  unfolding compare_bytes
  compare_bytes-IsOrder [] [] p q =
      let d0 : difference 0 0 ≡ pos 0 = unfold difference in refl in
      record {
        sign = pos 0;
        value = ground (arith, z, d0);
        mirrored = ground (arith, z, d0);
        equal = (λ _. refl, λ _. refl);
      }
  compare_bytes-IsOrder [] (y ∷ t) p q =
      let ne : f y ≢ 0 = λ e. q.0 (nz y e) in
      record {
        sign = difference 0 (f y);
        value = ground (arith, z);
        mirrored = ground (arith, z, difference_swap 0 (f y));
        equal =
            (λ e. absurd (ground (arith, difference_zero 0 (f y) e)), λ e. absurd (ground arith));
      }
  compare_bytes-IsOrder (x ∷ s) [] p q =
      let ne : f x ≢ 0 = λ e. p.0 (nz x e) in
      record {
        sign = difference (f x) 0;
        value = ground (arith, z);
        mirrored = ground (arith, z, difference_swap (f x) 0);
        equal =
            (λ e. absurd (ground (arith, difference_zero (f x) 0 e)), λ e. absurd (ground arith));
      }
  compare_bytes-IsOrder (x ∷ s) (y ∷ t) p q =
      let nx : f x ≢ 0 = λ e. p.0 (nz x e) in
      let ny : f y ≢ 0 = λ e. q.0 (nz y e) in
      let ih = compare_bytes-IsOrder s t p.1 q.1 in
      let ih_value = ih.value in
      let ih_mirrored = ih.mirrored in
      elim (Bool-cases (f x == f y)) [
        | inl e ↦ record {
          sign = ih.sign;
          value = ground arith;
          mirrored = ground arith;
          equal = (
            λ h. list_cons (f x) (f y) _ _ (ground arith) (ih.equal.0 h),
            λ h. ih.equal.1 (list_tail h),
          );
        }
        | inr e ↦ record {
          sign = difference (f x) (f y);
          value = ground arith;
          mirrored = ground (arith, difference_swap (f x) (f y));
          equal = (
            λ h. absurd (ground (arith, difference_zero (f x) (f y) h)),
            λ h. absurd (ground arith),
          );
        }
      ]

-- For a TOLOWER that gives 0 for the null character only, `strcasecmp` of two strings reads inside
-- their objects and returns 0 exactly if the strings are equal in lower case, and with its arguments
-- exchanged it returns the negated value. Equal pointers point to one string.
pub strcasecmp_lem :
    (tolower_of : ℕ → ℕ)
    → tolower_of 0 ≡ 0
    → ((c : ℕ) → tolower_of c ≡ 0 → c ≡ 0)
    → (same : Bool) (s t b1 b2 : List ℕ) → (same ≡ true → s ≡ t)
    → NoNull s
    → NoNull t
    → IsOrder tolower_of s t
        (strcasecmp tolower_of same (stored s b1) (stored t b2))
        (strcasecmp tolower_of same (stored t b2) (stored s b1))
unfolding strcasecmp
strcasecmp_lem f z nz true s t b1 b2 h p q = record {
  sign = pos 0;
  value = refl;
  mirrored = refl;
  equal = (λ _. ap (map f) (h refl), λ _. refl);
}
strcasecmp_lem f z nz false s t b1 b2 h p q = compare_bytes-IsOrder f z nz b1 b2 s t p q
