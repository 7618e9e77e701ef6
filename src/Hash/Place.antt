-- ===== src/Hash/Place.antt =====
-- The move of one entry, of a chain and of all buckets into a table.
use yalibct.Base.{
  ℕ, ◌+◌, ◌-◌, ◌<◌, ◌≡◌, refl, List, [], ◌∷◌, Option, none, some, ◌==◌, set, arith, Bool-cases, inl,
  inr, ◌⊎◌, subst, lt→ltb,
}
use yalibct.Hash.State.{ok, ◌>>=◌, Env, HashTable}
use yalibct.Hash.Find.{safe_hasher, free_entry}
use yalibct.Hash.Keys.{IsLawful, filled}
use yalibct.Hash.Buckets.{chain_of, update, Holds, insert-Holds}
use yalibct.Hash.Rehash.{put_bucket, allocate_entry, place_overflow, place_head}

pub List-cases {ℓ} :
    {A : Type ℓ} (xs : List A) → (xs ≡ []) ⊎ ((h : A) × (ds : List A) × (xs ≡ h ∷ ds))
List-cases [] = inl refl
List-cases (x ∷ xs) = inr (x, xs, refl)

-- The obstack of the table gives entries that were never given out before.
abbrev pub InStep : {F : Type 0} → HashTable F → Type 0
InStep t = t.entry_stack ≡ t.made

-- The whole of a table reads as `f`, with a number of entries that is given apart.
pub record Reads {F : Type 0} (env : Env F) (n total : ℕ) (f : ℕ → Option ℕ) (t : HashTable F)
    : Type 0 where
  pub size : t.n_buckets ≡ n
  pub holds : Holds env n total t.n_buckets_used f t.bucket

module _ {F : Type 0} (env : Env F) (law : IsLawful env) where
  pub safe_hasher-ok :
      (t : HashTable F) (n e : ℕ)
      → t.n_buckets ≡ n
      → 0 < n
      → safe_hasher env t e ≡ ok (env.hasher e n)
  unfolding safe_hasher
  safe_hasher-ok t n e s pos = rw s (rw (lt→ltb (env.hasher e n) n (law.hasher-lt e n pos)) refl)

  pub allocate_entry-ok :
      (t : HashTable F)
      → InStep t
      → (free stack made : ℕ) × (allocate_entry env t
          ≡ ok (some (record t { free_entry_list = free; entry_stack = stack; made = made })))
        × (stack ≡ made)
  unfolding allocate_entry
  allocate_entry-ok t step = elim (Bool-cases (t.free_entry_list == 0)) [
    | inl e ↦ (
      t.free_entry_list,
      t.entry_stack + 1,
      t.made + 1,
      ground (arith, law.alloc t.entry_stack),
      omega arith,
    )
    | inr e ↦ (t.free_entry_list - 1, t.entry_stack, t.made, ground arith, step)
  ]

  -- `insert-Holds` in the two forms that the code has.
  pub insert_head-Holds :
      (n total used d : ℕ) (f : ℕ → Option ℕ) (bs : List (List ℕ))
      → 0 < n
      → Holds env n total used f bs
      → f d ≡ none
      → chain_of env n bs d ≡ []
      → Holds env n
          (total + 1)
          (used + 1)
          (update env f d (some d))
          (set bs (env.hasher d n) (d ∷ []))
  insert_head-Holds n total used d f bs pos t fresh o =
      let step : used + (1 - filled (chain_of env n bs d)) ≡ used + 1 = rw o (omega arith) in
      subst
        (λ k.
          Holds env n (total + 1) k (update env f d (some d)) (set bs (env.hasher d n) (d ∷ [])))
        step (insert-Holds env law t pos d fresh (d ∷ []) (inl (refl, o)))

  pub insert_second-Holds :
      (n total used d h : ℕ) (ds : List ℕ) (f : ℕ → Option ℕ) (bs : List (List ℕ))
      → 0 < n
      → Holds env n total used f bs
      → f d ≡ none
      → chain_of env n bs d ≡ h ∷ ds
      → Holds env n
          (total + 1)
          used
          (update env f d (some d))
          (set bs (env.hasher d n) (h ∷ d ∷ ds))
  insert_second-Holds n total used d h ds f bs pos t fresh o =
      let step : used + (1 - filled (chain_of env n bs d)) ≡ used = rw o (omega arith) in
      subst
        (λ k.
          Holds env n (total + 1) k (update env f d (some d))
            (set bs (env.hasher d n) (h ∷ d ∷ ds)))
        step (insert-Holds env law t pos d fresh (h ∷ d ∷ ds) (inr (h, ds, refl, o)))

  pub place_overflow-Reads :
      (n total d : ℕ) (f : ℕ → Option ℕ) (t : HashTable F)
      → 0 < n
      → Reads env n total f t
      → InStep t
      → f d ≡ none
      → (t' : HashTable F) × (place_overflow env t d ≡ ok t')
        × Reads env n (total + 1) (update env f d (some d)) t'
        × InStep t'
  unfolding place_overflow free_entry
  place_overflow-Reads n total d f t pos r step fresh =
      let hashed = safe_hasher-ok t n d r.size pos in
      elim (List-cases (chain_of env n t.bucket d)) [
        | inl o ↦ (
          free_entry env (record (put_bucket t (env.hasher d n) (d ∷ [])) {
            n_buckets_used = t.n_buckets_used + 1;
          }),
          rw (place_overflow, hashed, o) refl,
          record {
            size = r.size;
            holds = insert_head-Holds n total t.n_buckets_used d f t.bucket pos r.holds fresh o;
          },
          step,
        )
        | inr (h, ds, o) ↦ (
          put_bucket t (env.hasher d n) (h ∷ d ∷ ds),
          rw (place_overflow, hashed, o) refl,
          record {
            size = r.size;
            holds =
                insert_second-Holds n total t.n_buckets_used d h ds f t.bucket pos r.holds fresh o;
          },
          step,
        )
      ]

  pub place_head-Reads :
      (n total d : ℕ) (f : ℕ → Option ℕ) (t : HashTable F)
      → 0 < n
      → Reads env n total f t
      → InStep t
      → f d ≡ none
      → (t' : HashTable F) × (place_head env t d ≡ ok (some t'))
        × Reads env n (total + 1) (update env f d (some d)) t'
        × InStep t'
  unfolding place_head
  place_head-Reads n total d f t pos r step fresh =
      let hashed = safe_hasher-ok t n d r.size pos in
      elim (List-cases (chain_of env n t.bucket d)) [
        | inl o ↦ (
          record (put_bucket t (env.hasher d n) (d ∷ [])) { n_buckets_used = t.n_buckets_used + 1 },
          rw (place_head, hashed, ◌>>=◌, o) refl,
          record {
            size = r.size;
            holds = insert_head-Holds n total t.n_buckets_used d f t.bucket pos r.holds fresh o;
          },
          step,
        )
        | inr (h, ds, o) ↦
            let (free, stack, made, given, step') = allocate_entry-ok t step in
            (
              put_bucket (record t { free_entry_list = free; entry_stack = stack; made = made })
                  (env.hasher d n) (h ∷ d ∷ ds),
              rw (place_head, hashed, ◌>>=◌, o, given) refl,
              record {
                size = r.size;
                holds =
                    insert_second-Holds n total t.n_buckets_used d h ds f t.bucket pos r.holds fresh
                      o;
              },
              step',
            )
      ]
