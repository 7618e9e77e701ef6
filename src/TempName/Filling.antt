-- ===== src/TempName/Filling.antt =====
-- The loops of try_tempname_len.h over the Xs of a template and over the attempts.
use yalibct.Base.{
  ℕ, zero, suc, ◌+◌, ◌-◌, ◌*◌, ◌/◌, ◌%◌, ◌<◌, ◌≡◌, refl, ap, ap₂, subst, sym, ◌∙◌, ◌⊎◌, inl, inr,
  Bool, false, ◌&&◌, List, [], ◌∷◌, ◌++◌, append_assoc, Option, none, some, leb, ◌==◌, ==_iff,
  ==→ne, ◌≢◌, length, length-append, set, arith, Bool-cases, Option-cases,
}
use yalibct.TempName.Drawn.{
  drawn, word, letters_of, length-letters_of, Holds, spent, rest, Ready, Ready-letter, Ready-next,
}
use yalibct.TempName.Letters.{
  Entropy, random_bits, biased_min, letters, Digits, draw, refill, fill_xs, Tried, opened, refused,
  Outcome, named, unnamed, spins, Errors, try_names, base_62_digits,
}

-- A call of `getrandom` after which the loop for a value ends.
unfoldable pub Accepted : Option ℕ → Type 0
Accepted none = Unit
Accepted (some r) = r < biased_min

-- Among as many calls as there is fuel, from any one on, one of `getrandom` fails or gives a value that is not
-- in the short last part of its range.
unfoldable pub IsFair : Entropy → ℕ → Type 0
IsFair e fuel = (i : ℕ) → (j : ℕ) × (j < fuel) × Accepted (e.getrandom (i + j))

-- Whether the loop for a value goes on after a call.
abbrev again : Entropy → ℕ → ℕ → Bool
again e i v = (random_bits e i v).0 && leb biased_min (random_bits e i v).1

again-Accepted : (e : Entropy) (i v : ℕ) → Accepted (e.getrandom i) → again e i v ≡ false
unfolding random_bits Accepted
again-Accepted e i v good = elim (Option-cases (e.getrandom i)) [
  | inl fails ↦ rw (again, random_bits, fails) refl
  | inr (r, gives) ↦ rw (again, random_bits, gives) (above r (subst Accepted gives good))
]
  where
    above : (r : ℕ) → r < biased_min → leb biased_min r ≡ false
    above r lt = ground (arith, lt)

draw-Accepted :
    (e : Entropy) (j fuel i v : ℕ)
    → j < fuel
    → Accepted (e.getrandom (i + j))
    → (r : ℕ × ℕ) × (draw e fuel i v ≡ some r)
unfolding draw
draw-Accepted e j zero i v few good = absurd (omega (arith, few))
draw-Accepted e zero (suc fuel) i v few good = (
  ((random_bits e i v).1, suc i),
  rw (draw, again-Accepted e i v (subst (λ n. Accepted (e.getrandom n)) (omega arith) good)) refl,
)
draw-Accepted e (suc j) (suc fuel) i v few good = elim (Bool-cases (again e i v)) [
  | inl more ↦
      let (r, drawn) =
        draw-Accepted e j fuel (suc i) (random_bits e i v).1 (omega (arith, few))
          (subst (λ n. Accepted (e.getrandom n)) (omega arith) good) in
      (r, rw (draw, more) drawn)
  | inr ends ↦ (((random_bits e i v).1, suc i), rw (draw, ends) refl)
]

Tried-cases : (t : Tried) → ((fd : ℕ) × (t ≡ opened fd)) ⊎ ((errno : ℕ) × (t ≡ refused errno))
Tried-cases (opened fd) = inl (fd, refl)
Tried-cases (refused errno) = inr (errno, refl)

-- What the loop over the attempts comes to. The name of an attempt has the letters of the random numbers
-- between what stands in front of and behind the Xs. The first one that does not exist is taken, or gives
-- its error; or all of the attempts have met names that exist.
module _ (e : Entropy) (fuel : ℕ) (errors : Errors) (tryfunc : ℕ → List ℕ → Tried)
    (save_errno x : ℕ) (h t : List ℕ) where
  abbrev pub name_at : ℕ → List ℕ
  name_at i = h ++ (letters_of e fuel x i ++ t)

  unfoldable pub AllExist : ℕ → Type 0
  AllExist k = (i : ℕ) → i < k → tryfunc i (name_at i) ≡ refused errors.eexist

  unfoldable pub Settled : ℕ → Outcome → Type 0
  Settled k spins = ⊥
  Settled k (named fd errno tmpl) =
      (errno ≡ save_errno)
      × (i : ℕ) × (i < k)
      × (tmpl ≡ name_at i)
      × (tryfunc i (name_at i) ≡ opened fd)
      × AllExist i
  Settled k (unnamed errno tmpl) =
      ((errno ≡ errors.eexist) × AllExist k)
      ⊎ ((i : ℕ) × (i < k)
          × (tmpl ≡ name_at i)
          × (tryfunc i (name_at i) ≡ refused errno)
          × (errno ≢ errors.eexist)
          × AllExist i)

  AllExist-suc :
      (k : ℕ) → AllExist k → tryfunc k (name_at k) ≡ refused errors.eexist → AllExist (suc k)
  unfolding AllExist
  AllExist-suc k all here i lt = elim (Bool-cases (i == k)) [
    | inl last ↦
        subst (λ n. tryfunc n (name_at n) ≡ refused errors.eexist) (sym ((==_iff i k).0 last)) here
    | inr before ↦ all i (ground (arith, lt, before))
  ]

module _ (e : Entropy) (fuel : ℕ) (fair : IsFair e fuel) where
  drawn-suc :
      (q : ℕ) (r : ℕ × ℕ)
      → draw e fuel (drawn e fuel q).1 (drawn e fuel q).0 ≡ some r
      → drawn e fuel (suc q) ≡ r
  unfolding drawn
  drawn-suc q r h = rw (drawn, h) refl

  refill-Ready :
      (m : ℕ) (d : Digits)
      → Holds e fuel m d
      → (d' : Digits) × (refill e fuel d ≡ some d') × Ready e fuel m d'
  unfolding refill IsFair
  refill-Ready m d (rest q k number positive few left digits state) = (
    d,
    rw (refill, not_empty) refl,
    record {
      draws = q;
      used = k;
      number = number;
      few = few;
      left = left;
      digits = digits;
      state = state;
    },
  )
    where
      not_empty : (d.vdigits == 0) ≡ false
      not_empty = ground (arith, left, few)
  refill-Ready m d (spent q number empty state) =
      let (j, small, good) = fair d.calls in
      let (r, gave) = draw-Accepted e j fuel d.calls d.v small good in
      let here = drawn-suc q r (ap (λ (w : ℕ × ℕ). draw e fuel w.1 w.0) (sym state) ∙ gave) in
      (
        record { v = r.0; vdigbuf = r.0; vdigits = base_62_digits; calls = r.1 },
        rw (refill, (==_iff d.vdigits 0).1 empty, gave) refl,
        record {
          draws = q;
          used = 0;
          number = omega (arith, number);
          few = omega arith;
          left = omega arith;
          digits = omega (arith, ap (λ (w : ℕ × ℕ). w.0) here);
          state = sym here;
        },
      )

  set_at : (h t : List ℕ) (o c : ℕ) → set (h ++ o ∷ t) (length h) c ≡ h ++ c ∷ t
  set_at [] t o c = refl
  set_at (x ∷ h) t o c = ap (λ l. x ∷ l) (set_at h t o c)

  -- The next letters for old ones, between what is before and behind them.
  pub fill_xs-word :
      (h old t : List ℕ) (m : ℕ) (d : Digits)
      → Holds e fuel m d
      → (d' : Digits) × (fill_xs e fuel (length old) (length h) (h ++ (old ++ t)) d
          ≡ some (h ++ (word e fuel m (length old) ++ t), d'))
        × Holds e fuel (m + length old) d'
  unfolding fill_xs word
  fill_xs-word h [] t m d v = (d, refl, subst (λ n. Holds e fuel n d) (omega arith) v)
  fill_xs-word h (o ∷ old) t m d v =
      let (d', refilled, ready) = refill-Ready m d v in
      let c = letters (d'.vdigbuf % 62) in
      let same = Ready-letter e fuel m d' ready in
      let (d'', filled, v'') =
        fill_xs-word (h ++ c ∷ []) old t (suc m)
          (record d' { vdigbuf = d'.vdigbuf / 62; vdigits = d'.vdigits - 1 })
          (Ready-next e fuel m d' ready) in
      (
        d'',
        rw (fill_xs, refilled)
            (ap₂
                (λ i l.
                  fill_xs e fuel (length old) i l
                    (record d' { vdigbuf = d'.vdigbuf / 62; vdigits = d'.vdigits - 1 }))
                (omega (arith, length-append h (c ∷ [])))
                (set_at h (old ++ t) o c ∙ sym (append_assoc h (c ∷ []) (old ++ t)))
              ∙ filled
              ∙ ap (λ l. some (l, d''))
                  (append_assoc h (c ∷ []) (word e fuel (suc m) (length old) ++ t))
              ∙ ap (λ l. some (h ++ (l ∷ (word e fuel (suc m) (length old) ++ t)), d'')) same),
        subst (λ n. Holds e fuel n d'') (omega arith) v'',
      )

  module _ (errors : Errors) (tryfunc : ℕ → List ℕ → Tried) (save_errno x : ℕ) (h t : List ℕ) where
    -- The Xs of an attempt become its letters.
    fill_xs-name_at :
        (count : ℕ) (old : List ℕ) (d : Digits)
        → length old ≡ x
        → Holds e fuel (count * x) d
        → (d' : Digits) × (fill_xs e fuel x (length h) (h ++ (old ++ t)) d
            ≡ some (name_at e fuel errors tryfunc save_errno x h t count, d'))
          × Holds e fuel (suc count * x) d'
    unfolding letters_of
    fill_xs-name_at count old d size v =
        subst
          (λ n.
            (d' : Digits) × (fill_xs e fuel n (length h) (h ++ (old ++ t)) d
              ≡ some (h ++ (word e fuel (count * x) n ++ t), d'))
            × Holds e fuel (suc count * x) d')
          size
          (let (d', filled, v') = fill_xs-word h old t (count * x) d v in
            (d', filled, subst (λ n. Holds e fuel n d') (grind (arith, size)) v'))

    pub try_names-Settled :
        (k count : ℕ) (old : List ℕ) (d : Digits)
        → length old ≡ x
        → Holds e fuel (count * x) d
        → AllExist e fuel errors tryfunc save_errno x h t count
        → Settled e fuel errors tryfunc save_errno x h t
            (count + k)
            (try_names e errors fuel tryfunc save_errno x k count (length h) (h ++ (old ++ t)) d)
    unfolding try_names Settled
    try_names-Settled zero count old d size v all =
        inl (refl, subst (λ n. AllExist e fuel errors tryfunc save_errno x h t n) (omega arith) all)
    try_names-Settled (suc k) count old d size v all =
        let (d', filled, v') = fill_xs-name_at count old d size v in
        let tmpl' = name_at e fuel errors tryfunc save_errno x h t count in
        elim (Tried-cases (tryfunc count tmpl')) [
          | inl (fd, took) ↦
              rw (try_names, filled, took) (refl, count, omega arith, refl, took, all)
          | inr (errno, not_taken) ↦ elim (Bool-cases (errno == errors.eexist)) [
            | inl exists ↦
                rw (try_names, filled, not_taken, exists)
                  (subst
                    (λ n. Settled e fuel errors tryfunc save_errno x h t n (
                      try_names e errors fuel tryfunc save_errno x k (suc count) (length h) tmpl'
                        d'))
                    (omega arith)
                    (try_names-Settled k (suc count) (letters_of e fuel x count) d'
                      (length-letters_of e fuel x count) v'
                      (AllExist-suc e fuel errors tryfunc save_errno x h t count all
                        (not_taken ∙ ap refused ((==_iff errno errors.eexist).0 exists)))))
            | inr other ↦
                rw (try_names, filled, not_taken, other)
                  (inr (count, omega arith, refl, not_taken, ==→ne errno errors.eexist other, all))
          ]
        ]
