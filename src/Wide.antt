-- ===== src/Wide.antt =====
-- wcscmp.h and wcsncmp.h in include/test-lib/portable-symbols. A string is the list of the wide
-- characters of its object from its start on.
use yalibct.Base.{
  ℕ, zero, suc, Bool, true, false, ◌&&◌, List, [], ◌∷◌, Option, none, some, ◌==◌, if◌then◌else◌,
}
use yalibct.Base.Int.{ℤ, pos, negsuc, pos_part, neg_part, ltb_ℤ}
pub mod Order
pub mod Tests

-- `wchar_t` is an integer type, which may have a sign. This is the test for equality.
unfoldable pub same_char : ℤ → ℤ → Bool
same_char x y = (pos_part x == pos_part y) && (neg_part x == neg_part y)

-- `(x < y) ? -1 : (x > y)`
unfoldable pub compare_chars : ℤ → ℤ → ℤ
compare_chars x y = if ltb_ℤ x y then negsuc 0 else if ltb_ℤ y x then pos 1 else pos 0

-- `none` is a read behind an object.
unfoldable pub wcscmp : List ℤ → List ℤ → Option ℤ
wcscmp [] string2 = none
wcscmp (x ∷ string1) [] = none
wcscmp (x ∷ string1) (y ∷ string2) =
    let rest = wcscmp string1 string2 in
    if same_char x y
    then (if same_char x (pos 0) then some (pos 0) else rest)
    else some (compare_chars x y)

unfoldable pub wcsncmp : List ℤ → List ℤ → ℕ → Option ℤ
wcsncmp string1 string2 zero = some (pos 0)
wcsncmp [] string2 (suc n) = none
wcsncmp (x ∷ string1) [] (suc n) = none
wcsncmp (x ∷ string1) (y ∷ string2) (suc n) =
    let rest = wcsncmp string1 string2 n in
    if same_char x y
    then (if same_char x (pos 0) then some (pos 0) else rest)
    else some (compare_chars x y)
