-- ===== src/Obstack/Align.antt =====
-- What `__PTR_ALIGN` gives.
use Prim.Native.Nat.{bit_and}
use native.Mathlib.Nat.{pow-le-pow_right}
use yalibct.Base.{ℕ, ◌+◌, ◌-◌, ◌*◌, ◌%◌, ◌^◌, ◌≤◌, ◌<◌, ◌≡◌, ap, ap₂, ◌∙◌, arith}
use yalibct.Base.Bits.{bit_and-mask, two_pow_pos}
use yalibct.Obstack.{ptr_align}

-- A mask of ones in the lowest digits, and the multiples of the number above it.
unfoldable pub IsMask : ℕ → Type 0
IsMask a = (k : ℕ) × (k < 60) × (a ≡ 2 ^ k - 1)

unfoldable pub IsAligned : ℕ → ℕ → Type 0
IsAligned a p = (q : ℕ) × (p ≡ q * (a + 1))

pub mask_small : (a : ℕ) → IsMask a → a < 2 ^ 60
unfolding IsMask
mask_small a (k, lt, e) = omega (arith, e, grows, two_pow_pos k)
  where
    grows : 2 ^ k ≤ 2 ^ 60
    grows = pow-le-pow_right {n = 2} (omega arith) {j = 60} (omega (arith, lt))

pub ptr_align_lem :
    (a p : ℕ)
    → IsMask a
    → p < 2 ^ 63
    → (p ≤ ptr_align p a) × (ptr_align p a ≤ p + a) × IsAligned a (ptr_align p a)
unfolding ptr_align IsMask IsAligned
ptr_align_lem a p (k, lt, e) low =
    let (below, above, q, multiple) =
      bit_and-mask k 64 (p + a) (omega (arith, lt)) (omega (arith, low, mask_small a (k, lt, e))) in
    (
      omega (arith, same, above, e, two_pow_pos k),
      omega (arith, same, below),
      (q, same ∙ multiple ∙ ap (λ n. q * n) unit),
    )
  where
    wide : p + a < 2 ^ 64
    wide = omega (arith, low, mask_small a (k, lt, e))

    same : bit_and ((p + a) % 2 ^ 64) (2 ^ 64 - 1 - a) ≡ bit_and (p + a) (2 ^ 64 - 2 ^ k)
    same = ap₂ bit_and (omega (arith, wide)) (omega (arith, e, two_pow_pos k))

    unit : 2 ^ k ≡ a + 1
    unit = omega (arith, e, two_pow_pos k)
