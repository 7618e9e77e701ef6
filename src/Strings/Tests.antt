-- ===== src/Strings/Tests.antt =====
-- `strcasecmp` on concrete strings.
use yalibct.Base.{ℕ, ◌+◌, ◌≡◌, refl, false, List, [], ◌∷◌, some, leb, ◌&&◌, if◌then◌else◌, arith}
use yalibct.Base.Int.{negsuc}
use yalibct.Strings.{strcasecmp, compare_bytes, difference}
use yalibct.Strings.Order.{stored, IsOrder, strcasecmp_lem}

-- TOLOWER of the C locale.
abbrev ascii_lower : ℕ → ℕ
ascii_lower c = if leb 65 c && leb c 90 then c + 32 else c

lower_zero : (c : ℕ) → ascii_lower c ≡ 0 → c ≡ 0
lower_zero c h = ground arith

abbrev upper : List ℕ
upper = b'A' ∷ b'B' ∷ []

abbrev lower : List ℕ
lower = b'a' ∷ b'c' ∷ []

sample_run : strcasecmp ascii_lower false (stored upper []) (stored lower []) ≡ some (negsuc 0)
unfolding strcasecmp compare_bytes difference
sample_run = refl

strcasecmp_lem_example :
    IsOrder ascii_lower upper lower
      (strcasecmp ascii_lower false (stored upper []) (stored lower (7 ∷ [])))
      (strcasecmp ascii_lower false (stored lower (7 ∷ [])) (stored upper []))
strcasecmp_lem_example =
    strcasecmp_lem ascii_lower refl lower_zero false upper lower [] (7 ∷ [])
      (λ e. absurd (grind arith)) (λ e. omega arith, (λ e. omega arith, tt))
      (λ e. omega arith, (λ e. omega arith, tt))
