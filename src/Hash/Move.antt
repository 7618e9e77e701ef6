-- ===== src/Hash/Move.antt =====
-- The move of chains and of all buckets: the entries arrive one after the other.
use mathlib.Core.Option.{or_else}
use yalibct.Base.{
  ℕ, ◌+◌, ◌≤◌, ◌<◌, ◌≡◌, refl, ap, true, false, List, [], ◌∷◌, ◌++◌, Option, none, some, length,
  arith, Bool-cases, inl, inr, subst, length-append,
}
use yalibct.Hash.State.{ok, ◌>>=◌, Env, HashTable}
use yalibct.Hash.Find.{same, scan}
use yalibct.Hash.Keys.{IsLawful, one, count, same_refl, scan-eq-none}
use yalibct.Hash.Buckets.{update}
use yalibct.Hash.Rehash.{Moved, transfer_overflow, place_head, transfer_buckets}
use yalibct.Hash.Place.{InStep, Reads, place_overflow-Reads, place_head-Reads}

-- The order in which the entries of a bucket, and of all buckets, are moved.
unfoldable pub turn : List ℕ → List ℕ
turn [] = []
turn (h ∷ ds) = ds ++ h ∷ []

unfoldable pub order : List (List ℕ) → List ℕ
order [] = []
order (b ∷ bs) = turn b ++ order bs

module _ {F : Type 0} (env : Env F) where
  -- The function that a table reads as after these arrivals.
  unfoldable pub updates : (ℕ → Option ℕ) → List ℕ → ℕ → Option ℕ
  updates f [] = f
  updates f (d ∷ ds) = updates (update env f d (some d)) ds

  -- No entry arrives that is the same as one that is there.
  abbrev pub AllFresh : (ℕ → Option ℕ) → List ℕ → Type 0
  AllFresh f [] = Unit {0}
  AllFresh f (d ∷ ds) = (f d ≡ none) × AllFresh (update env f d (some d)) ds

  updates-append :
      (f : ℕ → Option ℕ) (xs ys : List ℕ) → updates f (xs ++ ys) ≡ updates (updates f xs) ys
  unfolding updates
  updates-append f [] ys = refl
  updates-append f (x ∷ xs) ys = updates-append (update env f x (some x)) xs ys

  AllFresh-append :
      (f : ℕ → Option ℕ) (xs ys : List ℕ)
      → AllFresh f (xs ++ ys)
      → AllFresh f xs × AllFresh (updates f xs) ys
  unfolding updates
  AllFresh-append f [] ys h = (tt, h)
  AllFresh-append f (x ∷ xs) ys h =
      let (a, b) = AllFresh-append (update env f x (some x)) xs ys h.1 in ((h.0, a), b)

  pub count-append :
      (q : ℕ) (xs ys : List ℕ) → count env q (xs ++ ys) ≡ count env q xs + count env q ys
  unfolding count
  count-append q [] ys = omega arith
  count-append q (x ∷ xs) ys = omega (arith, count-append q xs ys)

  pub scan-append :
      (q : ℕ) (xs ys : List ℕ) → scan env q (xs ++ ys) ≡ or_else (scan env q xs) (scan env q ys)
  unfolding scan or_else
  scan-append q [] ys = refl
  scan-append q (x ∷ xs) ys = ground (arith, scan-append q xs ys)

  Reads-total :
      {n a b : ℕ} {f : ℕ → Option ℕ} {t : HashTable F}
      → a ≡ b
      → Reads env n a f t
      → Reads env n b f t
  Reads-total {n} {a} {b} {f} {t} e r = subst (λ k. Reads env n k f t) e r

module _ {F : Type 0} (env : Env F) (law : IsLawful env) where
  pub updates_lem :
      (f : ℕ → Option ℕ) (q : ℕ) (ds : List ℕ)
      → count env q ds ≤ 1
      → updates env f ds q ≡ or_else (scan env q ds) (f q)
  unfolding updates scan count or_else
  updates_lem f q [] h = refl
  updates_lem f q (d ∷ ds) h =
      ground (arith, updates_lem (update env f d (some d)) q ds, scan-eq-none env law q ds)

  pub AllFresh_lem :
      (f : ℕ → Option ℕ) (ds : List ℕ)
      → ((q : ℕ) → count env q ds ≤ 1)
      → ((q : ℕ) → 1 ≤ count env q ds → f q ≡ none)
      → AllFresh env f ds
  unfolding count
  AllFresh_lem f [] h k = tt
  AllFresh_lem f (d ∷ ds) h k = (
    k d (omega (arith, ap one (same_refl env d))),
    AllFresh_lem (update env f d (some d)) ds (λ q. omega (arith, h q))
        (λ q m. elim (Bool-cases (same env q d)) [
          | inl s ↦ absurd (omega (arith, h q, ap one s))
          | inr s ↦ rw s (k q (omega (arith, m)))
        ]),
  )

  transfer_overflow-Reads :
      (n total : ℕ) (ds : List ℕ) (f : ℕ → Option ℕ) (t : HashTable F)
      → 0 < n
      → Reads env n total f t
      → InStep t
      → AllFresh env f ds
      → (t' : HashTable F) × (transfer_overflow env t ds ≡ ok t')
        × Reads env n (total + length ds) (updates env f ds) t'
        × InStep t'
  unfolding transfer_overflow updates
  transfer_overflow-Reads n total [] f t pos r step h =
      (t, refl, Reads-total env (omega arith) r, step)
  transfer_overflow-Reads n total (d ∷ ds) f t pos r step h =
      let (t₁, e₁, r₁, s₁) = place_overflow-Reads env law n total d f t pos r step h.0 in
      let (t₂, e₂, r₂, s₂) =
        transfer_overflow-Reads n (total + 1) ds (update env f d (some d)) t₁ pos r₁ s₁ h.1 in
      (t₂, rw (e₁, ◌>>=◌, e₂) refl, Reads-total env (omega arith) r₂, s₂)

  -- The moves of a chain and of the head before it.
  transfer_chain-Reads :
      (n total h : ℕ) (ds : List ℕ) (f : ℕ → Option ℕ) (t : HashTable F)
      → 0 < n
      → Reads env n total f t
      → InStep t
      → AllFresh env f (ds ++ h ∷ [])
      → (t₁ t₂ : HashTable F) × (transfer_overflow env t ds ≡ ok t₁)
        × (place_head env t₁ h ≡ ok (some t₂))
        × Reads env n (total + length (ds ++ h ∷ [])) (updates env f (ds ++ h ∷ [])) t₂
        × InStep t₂
  unfolding updates
  transfer_chain-Reads n total h ds f t pos r step fresh =
      let (a, b) = AllFresh-append env f ds (h ∷ []) fresh in
      let (t₁, e₁, r₁, s₁) = transfer_overflow-Reads n total ds f t pos r step a in
      let (t₂, e₂, r₂, s₂) =
        place_head-Reads env law n (total + length ds) h (updates env f ds) t₁ pos r₁ s₁ b.0 in
      let whole = Reads-total env (omega (arith, length-append ds (h ∷ []))) r₂ in
      (t₁, t₂, e₁, e₂, rw (updates-append env f ds (h ∷ [])) whole, s₂)

  pub transfer_buckets-Reads :
      (n total : ℕ) (bs : List (List ℕ)) (f : ℕ → Option ℕ) (t : HashTable F)
      → 0 < n
      → Reads env n total f t
      → InStep t
      → AllFresh env f (order bs)
      → (m : Moved F) × (transfer_buckets env bs false t ≡ ok m)
        × (m.complete ≡ true)
        × Reads env n (total + length (order bs)) (updates env f (order bs)) m.dst
        × InStep m.dst
  unfolding transfer_buckets order turn updates
  transfer_buckets-Reads n total [] f t pos r step h = (
    record { complete = true; left = []; emptied = 0; dst = t },
    refl,
    refl,
    Reads-total env (omega arith) r,
    step,
  )
  transfer_buckets-Reads n total ([] ∷ bs) f t pos r step h =
      let (m, e, c, r', s') = transfer_buckets-Reads n total bs f t pos r step h in
      (record m { left = [] ∷ m.left }, rw e refl, c, r', s')
  transfer_buckets-Reads n total ((h ∷ ds) ∷ bs) f t pos r step fresh =
      let (a, b) = AllFresh-append env f (ds ++ h ∷ []) (order bs) fresh in
      let (t₁, t₂, e₁, e₂, r₂, s₂) = transfer_chain-Reads n total h ds f t pos r step a in
      let (m, e, c, r', s') =
        transfer_buckets-Reads n (total + length (ds ++ h ∷ [])) bs (updates env f (ds ++ h ∷ []))
          t₂ pos r₂ s₂ b in
      let whole = Reads-total env (omega (arith, length-append (ds ++ h ∷ []) (order bs))) r' in
      (
        record m { left = [] ∷ m.left; emptied = m.emptied + 1 },
        rw (e₁, ◌>>=◌, e₂, ◌>>=◌, e) refl,
        c,
        rw (updates-append env f (ds ++ h ∷ []) (order bs)) whole,
        s',
      )
