-- ===== src/Hash/Order.antt =====
-- The entries in the order of their move are those that the table reads as.
use mathlib.Core.List.{flatten}
use mathlib.Core.Option.{or_else}
use yalibct.Base.{
  ℕ, zero, suc, ◌≤◌, ◌≡◌, ◌≢◌, refl, sym, ◌∙◌, List, [], ◌∷◌, Option, none, length, get_or, arith,
  length-append,
}
use yalibct.Hash.State.{Env}
use yalibct.Hash.Find.{scan}
use yalibct.Hash.Keys.{IsLawful, count, scan-eq-none}
use yalibct.Hash.Buckets.{Holds}
use yalibct.Hash.Move.{
  turn, order, count-append, scan-append, updates, AllFresh, updates_lem, AllFresh_lem,
}

length-turn : (b : List ℕ) → length (turn b) ≡ length b
unfolding turn
length-turn [] = refl
length-turn (h ∷ ds) = omega (arith, length-append ds (h ∷ []))

pub length-order : (bs : List (List ℕ)) → length (order bs) ≡ length (flatten bs)
unfolding order flatten
length-order [] = refl
length-order (b ∷ bs) = omega (
  arith,
  length-append (turn b) (order bs),
  length-append b (flatten bs),
  length-turn b,
  length-order bs,
)

module _ {F : Type 0} (env : Env F) (law : IsLawful env) where
  pub count-turn : (q : ℕ) (b : List ℕ) → count env q (turn b) ≡ count env q b
  unfolding turn count
  count-turn q [] = refl
  count-turn q (h ∷ ds) = omega (arith, count-append env q ds (h ∷ []))

  scan-turn : (q : ℕ) (b : List ℕ) → count env q b ≤ 1 → scan env q (turn b) ≡ scan env q b
  unfolding turn count scan or_else
  scan-turn q [] h = refl
  scan-turn q (d ∷ ds) h = scan-append env q ds (d ∷ []) ∙ ground (arith, scan-eq-none env law q ds)

  order_nowhere :
      (q : ℕ) (bs : List (List ℕ))
      → ((i : ℕ) → count env q (get_or bs i []) ≡ 0)
      → count env q (order bs) ≡ 0
  unfolding order count
  order_nowhere q [] h = refl
  order_nowhere q (b ∷ bs) h = omega (
    arith,
    count-append env q (turn b) (order bs),
    count-turn q b,
    h 0,
    order_nowhere q bs (λ i. h (suc i)),
  )

  order_only :
      (q : ℕ) (bs : List (List ℕ)) (j : ℕ)
      → ((i : ℕ) → i ≢ j → count env q (get_or bs i []) ≡ 0)
      → count env q (get_or bs j []) ≤ 1
      → (count env q (order bs) ≡ count env q (get_or bs j []))
        × (scan env q (order bs) ≡ scan env q (get_or bs j []))
  unfolding order count scan or_else
  order_only q [] j h k = (refl, refl)
  order_only q (b ∷ bs) zero h k =
      let rest = order_nowhere q bs (λ i. h (suc i) (omega arith)) in
      (
        omega (arith, count-append env q (turn b) (order bs), count-turn q b, rest),
        scan-append env q (turn b) (order bs)
            ∙ ground (arith, scan-turn q b k, scan-eq-none env law q (order bs) rest),
      )
  order_only q (b ∷ bs) (suc j) h k =
      let here = h 0 (omega arith) in
      let (counted, found) = order_only q bs j (λ i n. h (suc i) (omega arith)) k in
      (
        omega (arith, count-append env q (turn b) (order bs), count-turn q b, here, counted),
        scan-append env q (turn b) (order bs)
            ∙ ground (arith, scan-eq-none env law q (turn b) (count-turn q b ∙ here), found),
      )

  module _ {n total used : ℕ} {f : ℕ → Option ℕ} {bs : List (List ℕ)}
      (t : Holds env n total used f bs) where
    pub order-Holds : (q : ℕ) → (count env q (order bs) ≤ 1) × (scan env q (order bs) ≡ f q)
    order-Holds q =
        let (counted, found) =
          order_only q bs (env.hasher q n) (λ i away. t.at_home q i (λ e. away (sym e)))
            (t.once q (env.hasher q n)) in
        (omega (arith, counted, t.once q (env.hasher q n)), found ∙ t.reads q)

    -- All entries fit into an empty table, which then reads as this one.
    pub order-AllFresh : AllFresh env (λ q. none) (order bs)
    order-AllFresh =
        AllFresh_lem env law (λ q. none) (order bs) (λ q. (order-Holds q).0) (λ q h. refl)

    pub updates-order : (q : ℕ) → updates env (λ q. none) (order bs) q ≡ f q
    unfolding or_else
    updates-order q =
        updates_lem env law (λ q. none) q (order bs) (order-Holds q).0
        ∙ ground (arith, (order-Holds q).1)
