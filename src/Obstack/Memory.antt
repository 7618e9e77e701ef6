-- ===== src/Obstack/Memory.antt =====
-- What `read` and `write` do to cells of memory. A cell that was never written holds anything.
use yalibct.Base.{
  ℕ, zero, suc, ◌+◌, ◌≤◌, ◌<◌, ◌≡◌, refl, ap, sym, ◌∙◌, ◌⊎◌, inl, inr, false, List, [], ◌∷◌, ◌++◌,
  map, Option, none, some, ◌==◌, length, replicate, arith, Bool-cases, ==_refl, subst,
}
use yalibct.Obstack.{read, write}

unfoldable pub Holds : (ℕ → ℕ) → ℕ → List (Option ℕ) → Type 0
Holds m a [] = Unit
Holds m a (none ∷ cells) = Holds m (suc a) cells
Holds m a (some b ∷ cells) = (m a ≡ b) × Holds m (suc a) cells

-- The same bytes stand at `b` as at `a`.
unfoldable pub IsCopy : (ℕ → ℕ) → ℕ → (ℕ → ℕ) → ℕ → ℕ → Type 0
IsCopy m a m' b n = (j : ℕ) → j < n → m' (b + j) ≡ m (a + j)

IsCopy-head : (m m' : ℕ → ℕ) (a b n : ℕ) → IsCopy m a m' b (suc n) → m' b ≡ m a
unfolding IsCopy
IsCopy-head m m' a b n same = ap m' (omega arith) ∙ same 0 (omega arith) ∙ ap m (omega arith)

IsCopy-tail : (m m' : ℕ → ℕ) (a b n : ℕ) → IsCopy m a m' b (suc n) → IsCopy m (suc a) m' (suc b) n
unfolding IsCopy
IsCopy-tail m m' a b n same j lt =
    ap m' (shift b) ∙ same (suc j) (omega (arith, lt)) ∙ ap m (sym (shift a))
  where
    shift : (c : ℕ) → suc c + j ≡ c + suc j
    shift c = omega arith

pub Holds-copy :
    (m m' : ℕ → ℕ) (a b : ℕ) (cells : List (Option ℕ))
    → IsCopy m a m' b (length cells)
    → Holds m a cells
    → Holds m' b cells
unfolding Holds IsCopy
Holds-copy m m' a b [] same h = tt
Holds-copy m m' a b (none ∷ cells) same h =
    Holds-copy m m' (suc a) (suc b) cells (IsCopy-tail m m' a b (length cells) same) h
Holds-copy m m' a b (some x ∷ cells) same h = (
  IsCopy-head m m' a b (length cells) same ∙ h.0,
  Holds-copy m m' (suc a) (suc b) cells (IsCopy-tail m m' a b (length cells) same) h.1,
)

pub Holds-append :
    (m : ℕ → ℕ) (a b : ℕ) (xs ys : List (Option ℕ))
    → b ≡ a + length xs
    → Holds m a xs
    → Holds m b ys
    → Holds m a (xs ++ ys)
unfolding Holds
Holds-append m a b [] ys e h k = subst (λ c. Holds m c ys) (omega (arith, e)) k
Holds-append m a b (none ∷ xs) ys e h k = Holds-append m (suc a) b xs ys (omega (arith, e)) h k
Holds-append m a b (some x ∷ xs) ys e h k =
    (h.0, Holds-append m (suc a) b xs ys (omega (arith, e)) h.1 k)

pub Holds-blank : (m : ℕ → ℕ) (a n : ℕ) → Holds m a (replicate n none)
unfolding Holds
Holds-blank m a zero = tt
Holds-blank m a (suc n) = Holds-blank m (suc a) n

pub write-outside :
    (m : ℕ → ℕ) (a : ℕ) (xs : List ℕ) (i : ℕ) → (i < a) ⊎ (a + length xs ≤ i) → write m a xs i ≡ m i
unfolding write
write-outside m a [] i out = refl
write-outside m a (x ∷ xs) i out = elim (Bool-cases (i == a)) [
  | inl here ↦ absurd (ground (arith, out, here))
  | inr there ↦ rw there (write-outside m (suc a) xs i (ground (arith, out, there)))
]

behind :
    (m : ℕ → ℕ) (a x : ℕ) (xs : List ℕ) (i : ℕ)
    → a < i
    → write m a (x ∷ xs) i ≡ write m (suc a) xs i
unfolding write
behind m a x xs i lt = rw (off) refl
  where
    off : (i == a) ≡ false
    off = ground (arith, lt)

-- A write elsewhere changes no cell.
pub Holds-write :
    (m : ℕ → ℕ) (p : ℕ) (xs : List ℕ) (a : ℕ) (cells : List (Option ℕ))
    → (a + length cells ≤ p) ⊎ (p + length xs ≤ a)
    → Holds m a cells
    → Holds (write m p xs) a cells
unfolding IsCopy
Holds-write m p xs a cells out h =
    Holds-copy m (write m p xs) a a cells
      (λ j lt. write-outside m p xs (a + j) (elim out [
        | inl below ↦ inl (omega (arith, below, lt))
        | inr above ↦ inr (omega (arith, above))
      ]))
      h

pub write-Holds : (m : ℕ → ℕ) (a : ℕ) (xs : List ℕ) → Holds (write m a xs) a (map some xs)
unfolding Holds write IsCopy
write-Holds m a [] = tt
write-Holds m a (x ∷ xs) = (
  rw (write, ==_refl a) refl,
  Holds-copy (write m (suc a) xs) (write m a (x ∷ xs)) (suc a) (suc a) (map some xs)
      (λ j lt. behind m a x xs (suc a + j) (omega arith)) (write-Holds m (suc a) xs),
)

none_more : (c : ℕ) → c + 0 ≡ c
none_more c = omega arith

-- A copy of cells to another place, as `memcpy` makes it.
pub write-read : (m m' : ℕ → ℕ) (a b n : ℕ) → IsCopy m a (write m' b (read m a n)) b n
unfolding write read IsCopy
write-read m m' a b zero j lt = absurd (omega (arith, lt))
write-read m m' a b (suc n) zero lt =
    ap (write m' b (m a ∷ read m (suc a) n)) (none_more b)
    ∙ rw (write, ==_refl b) (ap m (sym (none_more a)))
write-read m m' a b (suc n) (suc j) lt =
    behind m' b (m a) (read m (suc a) n) (b + suc j) (omega arith)
    ∙ ap (write m' (suc b) (read m (suc a) n)) (shift b)
    ∙ write-read m m' (suc a) (suc b) n j (omega (arith, lt))
    ∙ ap m (sym (shift a))
  where
    shift : (c : ℕ) → c + suc j ≡ suc c + j
    shift c = omega arith

pub length-read : (m : ℕ → ℕ) (a n : ℕ) → length (read m a n) ≡ n
unfolding read
length-read m a zero = refl
length-read m a (suc n) = ap suc (length-read m (suc a) n)
