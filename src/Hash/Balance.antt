-- ===== src/Hash/Balance.antt =====
-- The entries that a move takes from the obstack, and the obstack of the table after it.
use yalibct.Base.{
  ℕ, ◌+◌, ◌-◌, ◌≡◌, ◌≢◌, refl, sym, ap, ◌∙◌, Bool, true, false, List, [], ◌∷◌, some, ◌==◌, get_or,
  arith, Bool-cases, Option-cases, inl, inr, subst, replicate,
}
use yalibct.Hash.State.{Run, ok, ended, reused, ◌>>=◌, Env, HashTable}
use yalibct.Hash.Tuning.{tuning_of, compute_bucket_size}
use yalibct.Hash.Find.{safe_hasher, free_entry}
use yalibct.Hash.Buckets.{in_use}
use yalibct.Hash.Rehash.{
  Moved, allocate_entry, place_overflow, transfer_overflow, place_head, transfer_buckets,
  transfer_entries, undo, hash_rehash,
}
use yalibct.Hash.Place.{List-cases}

-- A chain of steps that ends well has steps that end well.
parts_of_ok :
    {A B : Type 0} {y : B} (run : Run A) (next_step : A → Run B)
    → (run >>= next_step) ≡ ok y
    → (x : A) × (run ≡ ok x) × (next_step x ≡ ok y)
parts_of_ok ended next_step h = cc
parts_of_ok reused next_step h = cc
parts_of_ok (ok x) next_step h = (x, refl, h)

pub ok-inj : {A : Type 0} {a b : A} → ok a ≡ ok b → a ≡ b
ok-inj h = cc

pub some-inj {ℓ} : {A : Type ℓ} {a b : A} → some a ≡ some b → a ≡ b
some-inj h = cc

-- `k` buckets came into use with neither a free entry nor a new one given to them, or the other way round.
abbrev pub Balance : {F : Type 0} → ℕ → HashTable F → HashTable F → Type 0
Balance k t t' =
    t'.free_entry_list + t.made + t.n_buckets_used + k
    ≡ t.free_entry_list + t'.made + t'.n_buckets_used

module _ {F : Type 0} (env : Env F) where
  allocate_entry-Balance :
      (t t' : HashTable F)
      → allocate_entry env t ≡ ok (some t')
      → (t'.free_entry_list + t.made + 1 ≡ t.free_entry_list + t'.made)
        × (t'.n_buckets_used ≡ t.n_buckets_used)
  unfolding allocate_entry
  allocate_entry-Balance t t' h = ground arith

  place_overflow-Balance :
      (t t' : HashTable F) (d : ℕ) → place_overflow env t d ≡ ok t' → Balance 0 t t'
  unfolding place_overflow free_entry
  place_overflow-Balance t t' d h =
      let (i, p, q) = parts_of_ok (safe_hasher env t d) _ h in
      elim (List-cases (get_or t.bucket i [])) [
        | inl o ↦ subst (λ w. Balance 0 t w) (ok-inj (rw o at q)) (omega arith)
        | inr (x, ds, o) ↦ subst (λ w. Balance 0 t w) (ok-inj (rw o at q)) (omega arith)
      ]

  transfer_overflow-Balance :
      (ds : List ℕ) (t t' : HashTable F) → transfer_overflow env t ds ≡ ok t' → Balance 0 t t'
  unfolding transfer_overflow
  transfer_overflow-Balance [] t t' h = subst (λ w. Balance 0 t w) (ok-inj h) (omega arith)
  transfer_overflow-Balance (d ∷ ds) t t' h =
      let (t₁, p, q) = parts_of_ok (place_overflow env t d) _ h in
      omega (arith, place_overflow-Balance t t₁ d p, transfer_overflow-Balance ds t₁ t' q)

  place_head-Balance :
      (t t' : HashTable F) (d : ℕ) → place_head env t d ≡ ok (some t') → Balance 1 t t'
  unfolding place_head
  place_head-Balance t t' d h =
      let (i, p, q) = parts_of_ok (safe_hasher env t d) _ h in
      elim (List-cases (get_or t.bucket i [])) [
        | inl o ↦ subst (λ w. Balance 1 t w) (some-inj (ok-inj (rw o at q))) (omega arith)
        | inr (x, ds, o) ↦
            let (new, a, b) = parts_of_ok (allocate_entry env t) _ (rw o at q) in
            elim (Option-cases new) [
              | inl none_new ↦ absurd (ground (arith, b, none_new))
              | inr (t₁, e) ↦
                  let (moved, same_used) = allocate_entry-Balance t t₁ (a ∙ ap ok e) in
                  subst (λ w. Balance 1 t w) (some-inj (ok-inj (rw e at b)))
                    (omega (arith, moved, same_used))
            ]
      ]

  transfer_buckets-Balance :
      (bs : List (List ℕ)) (t : HashTable F) (m : Moved F)
      → transfer_buckets env bs false t ≡ ok m
      → m.complete ≡ true
      → Balance (in_use bs) t m.dst
  unfolding transfer_buckets in_use
  transfer_buckets-Balance [] t m h c =
      subst (λ (w : Moved F). Balance 0 t w.dst) (ok-inj h) (omega arith)
  transfer_buckets-Balance ([] ∷ bs) t m h c =
      let (m₁, p, q) = parts_of_ok (transfer_buckets env bs false t) _ h in
      let e = ok-inj q in
      subst (λ (w : Moved F). Balance (0 + in_use bs) t w.dst) e
        (omega (arith, transfer_buckets-Balance bs t m₁ p (ap (λ (w : Moved F). w.complete) e ∙ c)))
  transfer_buckets-Balance ((x ∷ ds) ∷ bs) t m h c =
      let (t₁, p, q) = parts_of_ok (transfer_overflow env t ds) _ h in
      let (placed, a, b) = parts_of_ok (place_head env t₁ x) _ q in
      elim (Option-cases placed) [
        | inl e ↦ absurd (ground (arith, ap (λ (w : Moved F). w.complete) (ok-inj (rw e at b))))
        | inr (t₂, e) ↦
            let (m₁, u, w) = parts_of_ok (transfer_buckets env bs false t₂) _ (rw e at b) in
            let z = ok-inj w in
            subst (λ (w : Moved F). Balance (1 + in_use bs) t w.dst) z
              (omega (
                arith,
                transfer_overflow-Balance ds t t₁ p,
                place_head-Balance t₁ t₂ x (a ∙ ap ok e),
                transfer_buckets-Balance bs t₂ m₁ u (ap (λ (w : Moved F). w.complete) z ∙ c),
              ))
      ]

  -- After a move that goes through, the obstack of the table is that before the move.
  module _ (t t' : HashTable F) (candidate : ℕ) (busy : in_use t.bucket ≡ t.n_buckets_used) where
    abbrev Grown : HashTable F → Type 0
    Grown w =
        (w.free_entry_list + t.made + t.n_buckets_used
          ≡ t.free_entry_list + w.made + w.n_buckets_used)
        × (w.entry_stack ≡ t.entry_stack)

    not-done : ◌≢◌ {A = Run (Bool × HashTable F)} (ok (false, t)) (ok (true, t'))
    not-done h = cc

    ended-ne : ◌≢◌ {A = Run (Bool × HashTable F)} ended (ok (true, t'))
    ended-ne h = cc

    undone-ne :
        (x : HashTable F) → ◌≢◌ {A = Run (Bool × HashTable F)} (ok (false, x)) (ok (true, t'))
    undone-ne x h = cc

    not-undone : (old new : HashTable F) → undo env old new ≢ ok (true, t')
    unfolding undo
    not-undone old new h =
        let (a, p, q) =
          parts_of_ok
            (transfer_entries env
              (record old { free_entry_list = new.free_entry_list; made = new.made }) new true)
            _ h in
        elim (Bool-cases a.0) [
          | inr e ↦ ended-ne (rw e at q)
          | inl e ↦
              let (b, u, w) = parts_of_ok (transfer_entries env a.1 a.2 false) _ (rw e at q) in
              elim (Bool-cases b.0) [
                | inr g ↦ ended-ne (rw g at w)
                | inl g ↦ undone-ne b.1 (rw g at w)
              ]
        ]

    pub hash_rehash-Balance :
        hash_rehash env t candidate ≡ ok (true, t')
        → (t'.free_entry_list + t.made + t.n_buckets_used
            ≡ t.free_entry_list + t'.made + t'.n_buckets_used)
          × (t'.entry_stack ≡ t.entry_stack)
    unfolding hash_rehash transfer_entries undo
    hash_rehash-Balance h =
        let n = compute_bucket_size env candidate (tuning_of env t.tuning) in
        let empty : HashTable F = record t {
          bucket = replicate n [];
          n_buckets = n;
          n_buckets_used = 0;
          n_entries = 0;
        } in
        elim (Bool-cases (n == 0)) [
          | inl e ↦ absurd (not-done (rw (hash_rehash, e) at h))
          | inr e ↦ elim (Bool-cases (n == t.n_buckets)) [
            | inl g ↦
                subst (λ (w : Bool × HashTable F). Grown w.1) (ok-inj (rw (hash_rehash, e, g) at h))
                  (omega arith, refl)
            | inr g ↦ elim (Bool-cases (env.calloc n)) [
              | inr c ↦ absurd (not-done (rw (hash_rehash, e, g, c) at h))
              | inl c ↦
                  let (moved, p, q) =
                    parts_of_ok (transfer_entries env empty t false) _
                      (rw (hash_rehash, e, g, c) at h) in
                  let (m, u, w) = parts_of_ok (transfer_buckets env t.bucket false empty) _ p in
                  let z = ok-inj w in
                  elim (Bool-cases m.complete) [
                    | inr part ↦ absurd (
                        not-undone
                          (record t {
                            bucket = m.left;
                            n_buckets_used = t.n_buckets_used - m.emptied;
                          })
                          m.dst (rw (sym z, part) at q))
                    | inl whole ↦
                        let moved_all = transfer_buckets-Balance t.bucket empty m u whole in
                        subst (λ (w : Bool × HashTable F). Grown w.1)
                          (ok-inj (rw (sym z, whole) at q)) (omega (arith, moved_all), refl)
                  ]
            ]
          ]
        ]
