-- ===== src/Hash/Create.antt =====
-- `hash_initialize` gives an empty table, and `hash_free` gives each entry to the freer once.
use mathlib.Core.List.{flatten}
use yalibct.Base.{
  ℕ, ◌≤◌, ◌<◌, ◌≡◌, ◌≢◌, ◌⊎◌, refl, sym, ap, ◌∙◌, Bool, true, false, not, ◌||◌, List, [], ◌∷◌,
  Option, none, some, ◌==◌, ==_iff, replicate, if◌then◌else◌, length, arith, Bool-cases, inl, inr,
  subst,
}
use mathlib.Core.Bool.{true≢false}
use yalibct.Hash.State.{TuningPointer, Env, HashTable, default_tuning, user_tuning}
use yalibct.Hash.Find.{scan}
use yalibct.Hash.Keys.{IsLawful, count}
use yalibct.Hash.Buckets.{replicate-Holds}
use yalibct.Hash.Place.{InStep}
use yalibct.Hash.Move.{turn, order, count-append}
use yalibct.Hash.Order.{count-turn, order-Holds}
use yalibct.Hash.Resize.{Models}
use yalibct.Hash.Remove.{found}
use yalibct.Hash.Tuning.{tuning_of, compute_bucket_size, check_tuning, checked, is_reasonable}
use yalibct.Hash.Operations.{raw_hasher, raw_comparator, chosen_tuning, hash_initialize, hash_free}

length-eq-zero : (xs : List ℕ) → length xs ≡ 0 → xs ≡ []
length-eq-zero [] h = refl
length-eq-zero (x ∷ xs) h = absurd (omega arith)

pub none-ne {ℓ} : {A : Type ℓ} {a : A} → ◌≢◌ {A = Option A} none (some a)
none-ne h = cc

unfoldable pub or_else : {A : Type 0} → A → Option A → A
or_else default_ none = default_
or_else default_ (some a) = a

-- The functions of a table: those that are given, or their defaults.
unfoldable pub with_functions :
    {F : Type 0} → Env F → Option (ℕ → ℕ → ℕ) → Option (ℕ → ℕ → Bool) → Env F
with_functions env hasher comparator = record env {
  hasher = or_else raw_hasher hasher;
  comparator = or_else raw_comparator comparator;
}

-- The default tuning is valid, and one of the user where its values are reasonable.
unfoldable pub is_valid_tuning : {F : Type 0} → Env F → TuningPointer F → Bool
is_valid_tuning env default_tuning = true
is_valid_tuning env (user_tuning t) = is_reasonable env t

checked-is_valid_tuning :
    {F : Type 0} (env : Env F) (p : TuningPointer F) (b : Bool)
    → is_valid_tuning env p ≡ b
    → ((checked env p).1 ≡ b) × (b ≡ true → (checked env p).0 ≡ p)
unfolding is_valid_tuning checked
checked-is_valid_tuning env default_tuning b h = (h, λ _. refl)
checked-is_valid_tuning env (user_tuning t) true h = rw h (refl, λ _. refl)
checked-is_valid_tuning env (user_tuning t) false h = rw h (refl, λ e. absurd (true≢false (sym e)))

-- What a call comes to with the functions of a table, a number of buckets and a tuning.
module _ {F : Type 0} (env functions : Env F) where
  unfoldable pub Initializes : Bool → ℕ → TuningPointer F → Option (Env F × HashTable F) → Type 0
  Initializes malloc n pointer r =
      ((r ≡ none)
        × ((malloc ≡ false)
            ⊎ ((is_valid_tuning env pointer ≡ false) ⊎ ((n ≡ 0) ⊎ (env.calloc n ≡ false)))))
      ⊎ ((t : HashTable F) × (r ≡ some (functions, t))
          × ((malloc ≡ true) × (is_valid_tuning env pointer ≡ true) × (env.calloc n ≡ true))
          × Models functions (λ q. none) t
          × InStep t
          × (t.n_entries ≡ 0)
          × (t.n_buckets ≡ n)
          × (t.tuning ≡ pointer))

  abbrev fresh : ℕ → TuningPointer F → HashTable F
  fresh n pointer = record {
    bucket = replicate n [];
    n_buckets = n;
    n_buckets_used = 0;
    n_entries = 0;
    tuning = pointer;
    free_entry_list = 0;
    entry_stack = 0;
    made = 0;
  }

  made-Initializes :
      (malloc : Bool) (n : ℕ) (pointer : TuningPointer F)
      → Initializes malloc n pointer (
          if not malloc || not (checked env pointer).1 || (n == 0) || not (env.calloc n)
          then none
          else some (functions, fresh n (checked env pointer).0))
  unfolding Initializes
  made-Initializes false n pointer = inl (refl, inl refl)
  made-Initializes true n pointer = elim (Bool-cases (is_valid_tuning env pointer)) [
    | inr e ↦ rw ((checked-is_valid_tuning env pointer false e).0) (inl (refl, inr (inl e)))
    | inl e ↦
        let (valid, kept) = checked-is_valid_tuning env pointer true e in
        elim (Bool-cases (n == 0)) [
          | inl f ↦ rw (valid, f) (inl (refl, inr (inr (inl ((==_iff n 0).0 f)))))
          | inr f ↦ elim (Bool-cases (env.calloc n)) [
            | inr c ↦ rw (valid, f, c) (inl (refl, inr (inr (inr refl))))
            | inl c ↦
                let wide : 0 < n = ground (arith, f) in
                rw (valid, f, c)
                  (inr (
                    fresh n (checked env pointer).0,
                    refl,
                    (refl, e, refl),
                    record { wide = wide; holds = replicate-Holds functions n },
                    refl,
                    refl,
                    refl,
                    kept refl,
                  ))
          ]
        ]
  ]

same_functions :
    {F : Type 0} (env : Env F) (hasher : Option (ℕ → ℕ → ℕ)) (comparator : Option (ℕ → ℕ → Bool))
    → record env {
      hasher = elim hasher [ none ↦ raw_hasher | some f ↦ f ];
      comparator = elim comparator [ none ↦ raw_comparator | some f ↦ f ];
    }
      ≡ with_functions env hasher comparator
unfolding with_functions or_else
same_functions env none none = refl
same_functions env none (some c) = refl
same_functions env (some h) none = refl
same_functions env (some h) (some c) = refl

module _ {F : Type 0} (env : Env F) (candidate : ℕ) (tuning : Option (TuningPointer F))
    (hasher : Option (ℕ → ℕ → ℕ)) (comparator : Option (ℕ → ℕ → Bool)) where
  -- A call returns a null pointer just where there is no memory for the table, the tuning of the user is not
  -- reasonable, the number of buckets comes to 0, or there is no memory for them. Otherwise it returns an
  -- empty table of that many buckets, with the tuning that was given or the default one, the functions that
  -- were given or their defaults, and the obstack in step.
  pub hash_initialize_lem :
      (malloc : Bool)
      → Initializes env
          (with_functions env hasher comparator)
          malloc
          (compute_bucket_size env candidate (tuning_of env (chosen_tuning tuning)))
          (chosen_tuning tuning)
          (hash_initialize env malloc candidate tuning hasher comparator)
  unfolding hash_initialize check_tuning
  hash_initialize_lem malloc =
      let n = compute_bucket_size env candidate (tuning_of env (chosen_tuning tuning)) in
      subst
        (λ w.
          Initializes env w malloc n (chosen_tuning tuning)
            (hash_initialize env malloc candidate tuning hasher comparator))
        (same_functions env hasher comparator)
        (made-Initializes env _ malloc n (chosen_tuning tuning))

module _ {F : Type 0} (env : Env F) (law : IsLawful env) where
  count-order : (q : ℕ) (bs : List (List ℕ)) → count env q (order bs) ≡ count env q (flatten bs)
  unfolding order flatten count
  count-order q [] = refl
  count-order q (b ∷ bs) = omega (
    arith,
    count-append env q (turn b) (order bs),
    count-append env q b (flatten bs),
    count-turn env law q b,
    count-order q bs,
  )

  count-found : (q : ℕ) (ds : List ℕ) → count env q ds ≤ 1 → count env q ds ≡ found (scan env q ds)
  unfolding count scan
  count-found q [] h = refl
  count-found q (d ∷ ds) h = ground (arith, count-found q ds)

  -- `hash_free` with a freer calls it once for each entry: for as many entries as are counted, and for
  -- each key with the one entry that is the same as it, if there is one.
  pub hash_free_lem :
      (f : ℕ → Option ℕ) (t : HashTable F)
      → Models env f t
      → (length (hash_free env true t) ≡ t.n_entries)
        × ((q : ℕ) → count env q (hash_free env true t) ≡ found (f q))
  unfolding hash_free
  hash_free_lem f t v =
      let counted : (q : ℕ) → count env q (flatten t.bucket) ≡ found (f q) = λ q.
        sym (count-order q t.bucket)
        ∙ count-found q (order t.bucket) (order-Holds env law v.holds q).0
        ∙ ap found (order-Holds env law v.holds q).1 in
      elim (Bool-cases (t.n_entries == 0)) [
        | inr e ↦ rw (hash_free, e) (v.holds.entries, counted)
        | inl e ↦
            let nothing = length-eq-zero (flatten t.bucket) (v.holds.entries ∙ ground arith) in
            rw (hash_free, e) (ground arith, λ q. rw nothing at (counted q))
      ]
