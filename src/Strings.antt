-- ===== src/Strings.antt =====
-- include/test-lib/portable-symbols/strcasecmp.h. A string is the list of the bytes of its object from
-- its start on. `tolower_of` is the macro TOLOWER, from `isupper` and `tolower` of the C library.
mod Order
mod Tests
use yalibct.Base.{ℕ, ◌-◌, Bool, List, [], ◌∷◌, Option, none, some, ltb, ◌==◌, if◌then◌else◌}
use yalibct.Base.Int.{ℤ, pos, negsuc}

-- `c1 - c2`
unfoldable pub difference : ℕ → ℕ → ℤ
difference a b = if ltb a b then negsuc (b - a - 1) else pos (a - b)

-- The `do` loop; `none` is a read behind an object.
unfoldable pub compare_bytes : (ℕ → ℕ) → List ℕ → List ℕ → Option ℤ
compare_bytes tolower_of [] p2 = none
compare_bytes tolower_of (x ∷ p1) [] = none
compare_bytes tolower_of (x ∷ p1) (y ∷ p2) =
    let c1 = tolower_of x in
    let c2 = tolower_of y in
    let rest = compare_bytes tolower_of p1 p2 in
    if c1 == 0 then some (difference c1 c2) else if c1 == c2 then rest else some (difference c1 c2)

-- `same` is whether the two pointers are equal.
unfoldable pub strcasecmp : (ℕ → ℕ) → Bool → List ℕ → List ℕ → Option ℤ
strcasecmp tolower_of same s1 s2 = if same then some (pos 0) else compare_bytes tolower_of s1 s2
