-- ===== src/Hash/Buckets.antt =====
-- What an array of buckets means: a partial function from entries to the entry that is stored for them.
use mathlib.Core.List.{flatten}
use yalibct.Base.{
  ℕ, zero, suc, ◌+◌, ◌-◌, ◌≤◌, ◌<◌, ◌≡◌, ◌≢◌, refl, sym, ap, ◌∙◌, Bool, true, false, List, [], ◌∷◌,
  Option, none, some, length, length-set, get_or, set, replicate, max, if◌then◌else◌, arith,
  length-append, length-replicate, get_or-set_self, get_or-set_ne, ℕ_discrete, Bool-cases, inl, inr,
  ◌⊎◌,
}
use yalibct.Hash.State.{Env}
use yalibct.Hash.Find.{same, scan, unlink}
use yalibct.Hash.Keys.{
  IsLawful, one, filled, count, scan-congr, count-eq-zero, scan-second, scan-unlink, count-unlink,
  length-unlink,
}

-- The number of buckets in use.
unfoldable pub in_use : List (List ℕ) → ℕ
in_use [] = 0
in_use (b ∷ bs) = filled b + in_use bs

-- The writes of the operations stay inside the array.
length-flatten-set :
    (table : List (List ℕ)) (at : ℕ) (chain : List ℕ)
    → at < length table
    → length (get_or table at []) + length (flatten (set table at chain))
      ≡ length chain + length (flatten table)
unfolding flatten
length-flatten-set [] at chain inside = absurd (omega arith)
length-flatten-set (here ∷ table) zero chain inside =
    omega (arith, length-append chain (flatten table), length-append here (flatten table))
length-flatten-set (here ∷ table) (suc at) chain inside = omega (
  arith,
  length-append here (flatten (set table at chain)),
  length-append here (flatten table),
  length-flatten-set table at chain (omega arith),
)

in_use-set :
    (bs : List (List ℕ)) (i : ℕ) (c : List ℕ)
    → i < length bs
    → in_use (set bs i c) + filled (get_or bs i []) ≡ in_use bs + filled c
unfolding in_use
in_use-set [] i c h = absurd (omega arith)
in_use-set (b ∷ bs) zero c h = omega arith
in_use-set (b ∷ bs) (suc i) c h = omega (arith, in_use-set bs i c (omega arith))

flatten-replicate : (n : ℕ) → flatten {A = ℕ} (replicate n []) ≡ []
unfolding flatten
flatten-replicate zero = refl
flatten-replicate (suc n) = flatten-replicate n

in_use-replicate : (n : ℕ) → in_use (replicate n []) ≡ 0
unfolding in_use
in_use-replicate zero = refl
in_use-replicate (suc n) = omega (arith, in_use-replicate n)

-- An empty bucket, and what is read behind the last one.
get_or-any : (n i : ℕ) → get_or {A = List ℕ} (replicate n []) i [] ≡ []
get_or-any zero i = refl
get_or-any (suc n) zero = refl
get_or-any (suc n) (suc i) = get_or-any n i

one-le : (b : Bool) → one b ≤ 1
one-le true = omega arith
one-le false = omega arith

filled-length : (ds : List ℕ) → 0 < length ds → filled ds ≡ 1
filled-length [] h = absurd (omega arith)
filled-length (d ∷ ds) h = refl

module _ {F : Type 0} (env : Env F) where
  abbrev pub chain_of : ℕ → List (List ℕ) → ℕ → List ℕ
  chain_of n bs q = get_or bs (env.hasher q n) []

  -- The entry that is stored for `q`.
  abbrev pub view : ℕ → List (List ℕ) → ℕ → Option ℕ
  view n bs q = scan env q (chain_of n bs q)

  abbrev pub update : (ℕ → Option ℕ) → ℕ → Option ℕ → ℕ → Option ℕ
  update f e v q = if same env q e then v else f q

  -- `n` buckets, of which `used` are in hold `total` entries, no two of them the same and each in the
  -- bucket of its hash, and read as `f`.
  pub record Holds (n total used : ℕ) (f : ℕ → Option ℕ) (bs : List (List ℕ)) : Type 0 where
    pub width : length bs ≡ n
    pub entries : length (flatten bs) ≡ total
    pub busy : in_use bs ≡ used
    pub once : (q i : ℕ) → count env q (get_or bs i []) ≤ 1
    pub at_home : (q i : ℕ) → env.hasher q n ≢ i → count env q (get_or bs i []) ≡ 0
    pub reads : (q : ℕ) → view n bs q ≡ f q

  pub replicate-Holds : (n : ℕ) → Holds n 0 0 (λ q. none) (replicate n [])
  unfolding count scan
  replicate-Holds n = record {
    width = length-replicate n [];
    entries = ap length (flatten-replicate n);
    busy = in_use-replicate n;
    once = λ q i. rw (get_or-any n i) (omega arith);
    at_home = λ q i h. rw (get_or-any n i) refl;
    reads = λ q. rw (get_or-any n (env.hasher q n)) refl;
  }

module _ {F : Type 0} (env : Env F) (law : IsLawful env) where
  -- A write of `c` to the bucket of `e`, where `c` differs from what was there in what is the same as `e`.
  pub set-Holds :
      {n total used : ℕ} {f : ℕ → Option ℕ} {bs : List (List ℕ)}
      → Holds env n total used f bs
      → 0 < n
      → (e total' used' : ℕ) (v : Option ℕ) (c : List ℕ)
      → total' + length (chain_of env n bs e) ≡ total + length c
      → used' + filled (chain_of env n bs e) ≡ used + filled c
      → ((q : ℕ) → count env q c ≤ max (one (same env q e)) (count env q (chain_of env n bs e)))
      → ((q : ℕ) → scan env q c ≡ (if same env q e then v else scan env q (chain_of env n bs e)))
      → Holds env n total' used' (update env f e v) (set bs (env.hasher e n) c)
  set-Holds {n} {total} {used} {f} {bs} t pos e total' used' v c size busy few now =
      let w = t.width in
      let i = env.hasher e n in
      let lt : i < length bs = omega (arith, law.hasher-lt e n pos) in
      record {
        width = length-set bs i c ∙ w;
        entries = omega (arith, length-flatten-set bs i c lt, t.entries);
        busy = omega (arith, in_use-set bs i c lt, t.busy);
        once = λ q j. elim (ℕ_discrete i j) [
          | yes p ↦
              rw (sym p, get_or-set_self bs i c [] lt)
                (omega (arith, few q, t.once q i, one-le (same env q e)))
          | no p ↦ rw (get_or-set_ne bs i j c [] p) (t.once q j)
        ];
        at_home = λ q j away. elim (ℕ_discrete i j) [
          | yes p ↦
              rw (sym p, get_or-set_self bs i c [] lt)
                (elim (Bool-cases (same env q e)) [
                  | inl s ↦ absurd (away (law.hasher-same q e n s ∙ p))
                  | inr s ↦ omega (arith, few q, ap one s, t.at_home q i (λ h. away (h ∙ p)))
                ])
          | no p ↦ rw (get_or-set_ne bs i j c [] p) (t.at_home q j away)
        ];
        reads = λ q. elim (ℕ_discrete i (env.hasher q n)) [
          | yes p ↦
              rw (sym p, get_or-set_self bs i c [] lt)
                (now q
                  ∙ ap (λ w. if same env q e then v else w)
                      (ap (λ k. scan env q (get_or bs k [])) p ∙ t.reads q))
          | no p ↦
              rw (get_or-set_ne bs i (env.hasher q n) c [] p) (elim (Bool-cases (same env q e)) [
                | inl s ↦ absurd (p (sym (law.hasher-same q e n s)))
                | inr s ↦ rw s (t.reads q)
              ])
        ];
      }

  -- A new entry in its bucket: the only one, or the first behind the head.
  pub insert-Holds :
      {n total used : ℕ} {f : ℕ → Option ℕ} {bs : List (List ℕ)}
      → Holds env n total used f bs
      → 0 < n
      → (e : ℕ) → f e ≡ none
      → (c : List ℕ)
      → ((c ≡ e ∷ []) × (chain_of env n bs e ≡ []))
        ⊎ ((h : ℕ) × (ds : List ℕ) × (c ≡ h ∷ e ∷ ds) × (chain_of env n bs e ≡ h ∷ ds))
      → Holds env n
          (total + 1)
          (used + (1 - filled (chain_of env n bs e)))
          (update env f e (some e))
          (set bs (env.hasher e n) c)
  unfolding count scan
  insert-Holds {n} {total} {used} {f} {bs} t pos e fresh c (inl (p, o)) =
      set-Holds t pos e (total + 1) (used + (1 - filled (chain_of env n bs e))) (some e) c
        (rw (p, o) (omega arith)) (rw (p, o) (omega arith)) (λ q. rw (p, o) (omega arith))
        (λ q. rw (p, o) refl)
  insert-Holds {n} {total} {used} {f} {bs} t pos e fresh c (inr (h, ds, p, o)) =
      let absent : scan env e (h ∷ ds) ≡ none =
        ap (λ w. scan env e w) (sym o) ∙ t.reads e ∙ fresh in
      set-Holds t pos e (total + 1) (used + (1 - filled (chain_of env n bs e))) (some e) c
        (rw (p, o) (omega arith)) (rw (p, o) (omega arith))
        (λ q.
          rw (p, o)
            (elim (Bool-cases (same env q e)) [
              | inl s ↦ omega (arith, count-eq-zero env law q e (h ∷ ds) s absent)
              | inr s ↦ omega (arith, ap one s)
            ]))
        (λ q. rw (p, o) (scan-second env law q e h ds absent))

  -- The chain of `e` without the entry that is the same.
  pub remove-Holds :
      {n total used : ℕ} {f : ℕ → Option ℕ} {bs : List (List ℕ)}
      → Holds env n total used f bs
      → 0 < n
      → (e x : ℕ) → f e ≡ some x
      → Holds env n
          (total - 1)
          (used + filled (unlink env e (chain_of env n bs e)) - 1)
          (update env f e none)
          (set bs (env.hasher e n) (unlink env e (chain_of env n bs e)))
  remove-Holds {n} {total} {used} {f} {bs} t pos e x there =
      let old = chain_of env n bs e in
      let lt : env.hasher e n < length bs = omega (arith, law.hasher-lt e n pos, t.width) in
      let shorter = length-unlink env law e x old (t.reads e ∙ there) in
      set-Holds t pos e (total - 1) (used + filled (unlink env e old) - 1) none (unlink env e old)
        (omega (arith, shorter, length-flatten-set bs (env.hasher e n) [] lt, t.entries))
        (omega (
          arith,
          in_use-set bs (env.hasher e n) [] lt,
          t.busy,
          filled-length old (omega (arith, shorter)),
        ))
        (λ q. omega (arith, count-unlink env law q e old))
        (λ q. scan-unlink env law q e old (t.once q (env.hasher e n)))

  module _ {n total used : ℕ} {f : ℕ → Option ℕ} {bs : List (List ℕ)}
      (t : Holds env n total used f bs) where
    -- What is the same reads as the same.
    pub reads-congr : (a b : ℕ) → same env a b ≡ true → f a ≡ f b
    reads-congr a b s =
        sym (t.reads a)
        ∙ ap (λ i. scan env a (get_or bs i [])) (law.hasher-same a b n s)
        ∙ scan-congr env law a b (chain_of env n bs b) s
        ∙ t.reads b

    -- A table that holds something has an entry and a bucket in use.
    pub occupied : 0 < n → (e x : ℕ) → f e ≡ some x → (1 ≤ total) × (1 ≤ used)
    occupied pos e x there =
        let lt : env.hasher e n < length bs = omega (arith, law.hasher-lt e n pos, t.width) in
        let old = chain_of env n bs e in
        let shorter = length-unlink env law e x old (t.reads e ∙ there) in
        (
          omega (arith, shorter, length-flatten-set bs (env.hasher e n) [] lt, t.entries),
          omega (
            arith,
            in_use-set bs (env.hasher e n) [] lt,
            t.busy,
            filled-length old (omega (arith, shorter)),
          ),
        )
