-- ===== src/Hash/Members.antt =====
-- The entries that stand in a chain.
use mathlib.Core.List.{Memᴰ}
use mathlib.Core.List.Memᴰ.{head, tail}
use yalibct.Base.{
  ℕ, ◌≤◌, ◌≡◌, refl, ap, sym, ◌∙◌, true, List, [], ◌∷◌, Option, some, get_or, arith, Bool-cases,
  inl, inr, ℕ_discrete,
}
use yalibct.Hash.State.{Env}
use yalibct.Hash.Find.{same, scan}
use yalibct.Hash.Keys.{IsLawful, one, count, same_refl, same_congr}
use yalibct.Hash.Buckets.{Holds}

module _ {F : Type 0} (env : Env F) where
  pub count-Memᴰ : (q : ℕ) {x : ℕ} {b : List ℕ} → same env q x ≡ true → Memᴰ x b → 1 ≤ count env q b
  unfolding count
  count-Memᴰ q s (head e) = omega (arith, ap one (ap (λ y. same env q y) (sym e) ∙ s))
  count-Memᴰ q s (tail m) = omega (arith, count-Memᴰ q s m)

  pub scan-Memᴰ : (q x : ℕ) (b : List ℕ) → scan env q b ≡ some x → Memᴰ x b
  unfolding scan
  scan-Memᴰ q x [] h = absurd (ground arith)
  scan-Memᴰ q x (d ∷ ds) h = elim (Bool-cases (same env q d)) [
    | inl s ↦ head (ground (arith, s))
    | inr s ↦ tail (scan-Memᴰ q x ds (ground (arith, s)))
  ]

  pub scan_self : (x : ℕ) (b : List ℕ) → Memᴰ x b → count env x b ≤ 1 → scan env x b ≡ some x
  unfolding scan count
  scan_self x [] m once = elim m [ ]
  scan_self x (d ∷ ds) (head e) once = rw (sym e, same_refl env x) refl
  scan_self x (d ∷ ds) (tail m) once = elim (Bool-cases (same env x d)) [
    | inl s ↦ absurd (omega (arith, ap one s, once, count-Memᴰ x (same_refl env x) m))
    | inr s ↦ rw (s) (scan_self x ds m (omega (arith, once)))
  ]

module _ {F : Type 0} (env : Env F) (law : IsLawful env) where
  pub count-congr : (a b : ℕ) (ds : List ℕ) → same env a b ≡ true → count env a ds ≡ count env b ds
  unfolding count
  count-congr a b [] h = refl
  count-congr a b (d ∷ ds) h = rw (same_congr env law a b d h, count-congr a b ds h) refl

  -- An entry stands in the bucket of its hash, and is what the table has for itself.
  pub self-Holds :
      {n total used : ℕ} {f : ℕ → Option ℕ} {bs : List (List ℕ)}
      → Holds env n total used f bs
      → (x i : ℕ) → Memᴰ x (get_or bs i [])
      → (env.hasher x n ≡ i) × (f x ≡ some x)
  self-Holds {n} {bs = bs} t x i m = elim (ℕ_discrete (env.hasher x n) i) [
    | yes e ↦ (
      e,
      sym (t.reads x)
          ∙ ap (λ j. scan env x (get_or bs j [])) e
          ∙ scan_self env x (get_or bs i []) m (t.once x i),
    )
    | no ne ↦ absurd (omega (arith, count-Memᴰ env x (same_refl env x) m, t.at_home x i ne))
  ]
