-- ===== src/Wide/Tests.antt =====
-- Runs of the wide string comparisons, and their theorems at concrete strings.
use yalibct.Base.{◌≡◌, refl, List, [], ◌∷◌, some, take}
use yalibct.Base.Int.{ℤ, pos, negsuc}
use yalibct.Wide.{same_char, compare_chars, wcscmp, wcsncmp}
use yalibct.Wide.Order.{stored, NoNull, IsOrder, wcscmp-IsOrder, wcsncmp-IsOrder}

-- They differ in the last character, which is negative in the second one.
abbrev first : List ℤ
first = pos 97 ∷ pos 98 ∷ pos 1 ∷ []

abbrev second : List ℤ
second = pos 97 ∷ pos 98 ∷ negsuc 4 ∷ []

wcscmp_negative : wcscmp (stored first []) (stored second []) ≡ some (pos 1)
unfolding wcscmp same_char compare_chars
wcscmp_negative = refl

wcsncmp_two : wcsncmp (stored first []) (stored second []) 2 ≡ some (pos 0)
unfolding wcsncmp same_char compare_chars
wcsncmp_two = refl

first-NoNull : NoNull first
unfolding same_char
first-NoNull = (refl, (refl, (refl, tt)))

second-NoNull : NoNull second
unfolding same_char
second-NoNull = (refl, (refl, (refl, tt)))

wcscmp-IsOrder_example :
    IsOrder first second
      (wcscmp (stored first []) (stored second (pos 7 ∷ [])))
      (wcscmp (stored second (pos 7 ∷ [])) (stored first []))
wcscmp-IsOrder_example = wcscmp-IsOrder [] (pos 7 ∷ []) first second first-NoNull second-NoNull

wcsncmp-IsOrder_example :
    IsOrder
      (take 2 first)
      (take 2 second)
      (wcsncmp (stored first []) (stored second (pos 7 ∷ [])) 2)
      (wcsncmp (stored second (pos 7 ∷ [])) (stored first []) 2)
wcsncmp-IsOrder_example = wcsncmp-IsOrder [] (pos 7 ∷ []) 2 first second first-NoNull second-NoNull
