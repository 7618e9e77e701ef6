-- ===== src/TempName/Buffer.antt =====
-- Arrays of characters that are written from an offset on.
use yalibct.Base.{
  ℕ, zero, suc, ◌+◌, ◌≤◌, ◌≡◌, refl, ap, ◌∙◌, List, [], ◌∷◌, ◌++◌, Option, none, some, length, drop,
  length-drop, arith,
}

-- The array after a write, or `none` where it goes outside.
unfoldable pub write_at : List ℕ → ℕ → List ℕ → Option (List ℕ)
write_at buffer zero [] = some buffer
write_at [] zero (x ∷ xs) = none
write_at (b ∷ buffer) zero (x ∷ xs) = elim (write_at buffer zero xs) [
  | none ↦ none
  | some rest ↦ some (x ∷ rest)
]
write_at [] (suc i) xs = none
write_at (b ∷ buffer) (suc i) xs = elim (write_at buffer i xs) [
  | none ↦ none
  | some rest ↦ some (b ∷ rest)
]

pub write_at-zero :
    (buffer xs : List ℕ)
    → length xs ≤ length buffer
    → write_at buffer 0 xs ≡ some (xs ++ drop (length xs) buffer)
unfolding write_at
write_at-zero buffer [] fits = refl
write_at-zero [] (x ∷ xs) fits = absurd (omega arith)
write_at-zero (b ∷ buffer) (x ∷ xs) fits = rw (write_at, write_at-zero buffer xs (omega arith)) refl

pub write_at-append :
    (start buffer xs : List ℕ)
    → length xs ≤ length buffer
    → write_at (start ++ buffer) (length start) xs ≡ some (start ++ xs ++ drop (length xs) buffer)
unfolding write_at
write_at-append [] buffer xs fits = write_at-zero buffer xs fits
write_at-append (s ∷ start) buffer xs fits =
    rw (write_at, write_at-append start buffer xs fits) refl

drop-drop : (m n k : ℕ) (xs : List ℕ) → k ≡ n + m → drop m (drop n xs) ≡ drop k xs
drop-drop m zero k xs sum = ap (λ i. drop i xs) (omega (arith, sum))
drop-drop m (suc n) zero xs sum = absurd (omega (arith, sum))
drop-drop zero (suc n) (suc k) [] sum = refl
drop-drop (suc m) (suc n) (suc k) [] sum = refl
drop-drop m (suc n) (suc k) (x ∷ xs) sum = drop-drop m n k xs (omega (arith, sum))

-- A string, and then another one behind it.
pub write_at_twice :
    (buffer first second : List ℕ)
    → length first + length second ≤ length buffer
    → (middle : List ℕ) × (write_at buffer 0 first ≡ some middle)
      × (write_at middle (length first) second
          ≡ some (first ++ second ++ drop (length first + length second) buffer))
write_at_twice buffer first second fits = (
  first ++ drop (length first) buffer,
  write_at-zero buffer first (omega arith),
  write_at-append first (drop (length first) buffer) second
        (omega (arith, length-drop (length first) buffer))
      ∙ ap (λ rest. some (first ++ second ++ rest))
          (drop-drop (length second) (length first) (length first + length second) buffer refl),
)
