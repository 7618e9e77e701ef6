-- ===== src/Ring/Stack.antt =====
-- What a client sees of the ring: a stack that keeps its four newest elements.
use yalibct.Base.{List, [], ◌∷◌, Option, none, some, get_or, take}
use yalibct.Base.Int.{ℤ}

-- Beside the new stack, the element that is dropped, or `d`.
unfoldable pub push : ℤ → ℤ → List ℤ → ℤ × List ℤ
push d v xs = (get_or xs 3 d, take 4 (v ∷ xs))

unfoldable pub pop : List ℤ → Option (ℤ × List ℤ)
pop [] = none
pop (x ∷ xs) = some (x, xs)

pub data Op : Type 0 where
  add : ℤ → Op
  remove : Op

-- What each call returns, up to a `pop` of nothing, which ends the program.
unfoldable pub run : ℤ → List ℤ → List Op → List (Option ℤ)
run d xs [] = []
run d xs (add v ∷ ops) = let (old, ys) = push d v xs in some old ∷ run d ys ops
run d xs (remove ∷ ops) = elim (pop xs) [ none ↦ none ∷ [] | some (x, ys) ↦ some x ∷ run d ys ops ]
