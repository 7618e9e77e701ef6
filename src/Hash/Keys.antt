-- ===== src/Hash/Keys.antt =====
-- What a table relies on: entries that are the same go to the same bucket, and the hasher stays below the
-- number of buckets. Then facts about one chain.
use yalibct.Base.{
  ℕ, ◌+◌, ◌≤◌, ◌<◌, ◌≡◌, refl, Bool, true, false, List, [], ◌∷◌, none, some, ==_refl, length,
  Bool-cases, inl, inr, if◌then◌else◌, arith,
}
use yalibct.Hash.State.{Env}
use yalibct.Hash.Find.{same, scan, unlink}

-- The documented duties of the hasher and the comparator, and of `obstack_alloc`, which does not return
-- a null pointer.
pub record IsLawful {F : Type 0} (env : Env F) : Type 0 where
  pub same_sym : (a b : ℕ) → same env a b ≡ true → same env b a ≡ true
  pub same_trans : (a b c : ℕ) → same env a b ≡ true → same env b c ≡ true → same env a c ≡ true
  pub hasher-same : (a b n : ℕ) → same env a b ≡ true → env.hasher a n ≡ env.hasher b n
  pub hasher-lt : (a n : ℕ) → 0 < n → env.hasher a n < n
  pub alloc : (k : ℕ) → env.obstack_alloc k ≡ true

abbrev pub one : Bool → ℕ
one true = 1
one false = 0

abbrev pub filled : List ℕ → ℕ
filled [] = 0
filled (x ∷ xs) = 1

module _ {F : Type 0} (env : Env F) where
  -- How many entries of a chain are the same as `q`.
  unfoldable pub count : ℕ → List ℕ → ℕ
  count q [] = 0
  count q (d ∷ ds) = one (same env q d) + count q ds

  pub same_refl : (a : ℕ) → same env a a ≡ true
  unfolding same
  same_refl a = ground (arith, ==_refl a)

module _ {F : Type 0} (env : Env F) (law : IsLawful env) where
  pub same_congr : (a b x : ℕ) → same env a b ≡ true → same env a x ≡ same env b x
  same_congr a b x h =
      let back = law.same_sym a b h in
      elim (Bool-cases (same env a x)) [
        | inl e ↦ rw (e, law.same_trans b a x back e) refl
        | inr e ↦ elim (Bool-cases (same env b x)) [
          | inl f ↦ absurd (ground (arith, law.same_trans a b x h f))
          | inr f ↦ rw (e, f) refl
        ]
      ]

  pub scan-congr : (a b : ℕ) (ds : List ℕ) → same env a b ≡ true → scan env a ds ≡ scan env b ds
  unfolding scan
  scan-congr a b [] h = refl
  scan-congr a b (d ∷ ds) h = ground (arith, same_congr a b d h, scan-congr a b ds h)

  pub scan-eq-none : (q : ℕ) (ds : List ℕ) → count env q ds ≡ 0 → scan env q ds ≡ none
  unfolding scan count
  scan-eq-none q [] h = refl
  scan-eq-none q (d ∷ ds) h = ground (arith, scan-eq-none q ds)

  pub count-eq-zero :
      (q e : ℕ) (ds : List ℕ) → same env q e ≡ true → scan env e ds ≡ none → count env q ds ≡ 0
  unfolding scan count
  count-eq-zero q e [] h s = refl
  count-eq-zero q e (d ∷ ds) h s = ground (arith, same_congr q e d h, count-eq-zero q e ds)

  -- The entry that is found is the same as the one that was looked for.
  pub scan-same : (q x : ℕ) (ds : List ℕ) → scan env q ds ≡ some x → same env q x ≡ true
  unfolding scan
  scan-same q x [] h = absurd (ground arith)
  scan-same q x (d ∷ ds) h = ground (arith, scan-same q x ds)

  -- A new entry behind the head.
  pub scan-second :
      (q e h : ℕ) (ds : List ℕ)
      → scan env e (h ∷ ds) ≡ none
      → scan env q (h ∷ e ∷ ds) ≡ (if same env q e then some e else scan env q (h ∷ ds))
  unfolding scan
  scan-second q e h ds s = elim (Bool-cases (same env q e)) [
    | inl f ↦ ground (arith, same_congr q e h f)
    | inr f ↦ ground arith
  ]

  pub scan-unlink :
      (q e : ℕ) (ds : List ℕ)
      → count env q ds ≤ 1
      → scan env q (unlink env e ds) ≡ (if same env q e then none else scan env q ds)
  unfolding scan unlink count
  scan-unlink q e [] h = ground arith
  scan-unlink q e (d ∷ ds) h = elim (Bool-cases (same env q e)) [
    | inl f ↦ ground (arith, same_congr q e d f, scan-unlink q e ds, scan-eq-none q ds)
    | inr f ↦ elim (Bool-cases (same env e d)) [
      | inl g ↦ elim (Bool-cases (same env q d)) [
        | inl k ↦ absurd (ground (arith, law.same_trans q d e k (law.same_sym e d g)))
        | inr k ↦ ground arith
      ]
      | inr g ↦ ground (arith, scan-unlink q e ds)
    ]
  ]

  pub count-unlink : (q e : ℕ) (ds : List ℕ) → count env q (unlink env e ds) ≤ count env q ds
  unfolding unlink count
  count-unlink q e [] = omega arith
  count-unlink q e (d ∷ ds) = ground (arith, count-unlink q e ds)

  pub length-unlink :
      (e x : ℕ) (ds : List ℕ) → scan env e ds ≡ some x → length (unlink env e ds) + 1 ≡ length ds
  unfolding unlink scan
  length-unlink e x [] h = absurd (ground arith)
  length-unlink e x (d ∷ ds) h = ground (arith, length-unlink e x ds)
