-- ===== src/FullWrite/Whole.antt =====
-- What full_write.h transfers.
use yalibct.Base.{
  ℕ, zero, suc, ◌+◌, ◌-◌, ◌*◌, ◌<◌, ◌≤◌, ◌≡◌, ◌≢◌, refl, ap, subst, sym, ◌∙◌, ◌⊎◌, inl, inr, true,
  ◌&&◌, List, [], ◌∷◌, ◌++◌, append_assoc, append-nil, ltb, ◌==◌, ==_iff, ==→ne, take, drop, arith,
  dec_lt, Bool-cases,
}
use yalibct.FullWrite.{
  Answer, wrote, error, Device, sys_bufsize_max, Written, done, failed, stuck, Result, finished,
  hung, safe_rw, full_rw_loop, full_rw,
}

-- No answer is more than the count.
unfoldable pub IsBounded : Device → Type 0
IsBounded w = (i count n : ℕ) → w.write i count ≡ wrote n → n ≤ count

-- Among as many calls as given, from any one on, one is not interrupted.
unfoldable pub IsCalm : Device → ℕ → Type 0
IsCalm w calls =
    (i : ℕ) → (j : ℕ) × (j < calls) × ((count : ℕ) → w.write (i + j) count ≢ error w.eintr)

Answer-cases : (a : Answer) → ((n : ℕ) × (a ≡ wrote n)) ⊎ ((e : ℕ) × (a ≡ error e))
Answer-cases (wrote n) = inl (n, refl)
Answer-cases (error e) = inr (e, refl)

Written-cases :
    (r : Written)
    → ((n i : ℕ) × (s : List ℕ) × (r ≡ done n i s))
      ⊎ (((e i : ℕ) × (s : List ℕ) × (r ≡ failed e i s)) ⊎ (r ≡ stuck))
Written-cases (done n i s) = inl (n, i, s, refl)
Written-cases (failed e i s) = inr (inl (e, i, s, refl))
Written-cases stuck = inr (inr refl)

module _ (w : Device) where
  -- From a total on, the device has a first part of the bytes more, which is added to the total, and where
  -- that is not all of them, `errno` is ENOSPC or what the device gave.
  unfoldable pub IsTransfer : List ℕ → List ℕ → ℕ → ℕ → Result → Type 0
  IsTransfer sent buf count total hung = ⊥
  IsTransfer sent buf count total (finished t errno sent') =
      (n : ℕ) × (t ≡ total + n)
      × (n ≤ count)
      × (sent' ≡ sent ++ take n buf)
      × ((n ≡ count) ⊎ ((errno ≡ w.enospc) ⊎ (i c : ℕ) × (w.write i c ≡ error errno)))

module _ (w : Device) (bounded : IsBounded w) where
  -- A part of the bytes is transferred, or none, with an error of the device.
  IsPart : List ℕ → List ℕ → ℕ → Written → Type 0
  IsPart sent buf count stuck = ⊥
  IsPart sent buf count (failed e i' sent') = (sent' ≡ sent) × (i c : ℕ) × (w.write i c ≡ error e)
  IsPart sent buf count (done n i' sent') = (sent' ≡ sent ++ take n buf) × (n ≤ count)

  -- A smaller count.
  IsPart-mono :
      (sent buf : List ℕ) (c count : ℕ) (r : Written)
      → c ≤ count
      → IsPart sent buf c r
      → IsPart sent buf count r
  unfolding IsPart
  IsPart-mono sent buf c count stuck le z = z
  IsPart-mono sent buf c count (failed e i' sent') le z = z
  IsPart-mono sent buf c count (done n i' sent') le (form, part) = (form, omega arith)

  -- With a call that is not interrupted before the fuel ends; `more` is enough for one after the count has
  -- become smaller.
  safe_rw-IsPart :
      (calls j more fuel i : ℕ) (sent buf : List ℕ) (count : ℕ)
      → IsCalm w calls
      → j + more < fuel
      → ((c : ℕ) → w.write (i + j) c ≢ error w.eintr)
      → (count ≤ sys_bufsize_max) ⊎ (calls ≤ more)
      → IsPart sent buf count (safe_rw w fuel i sent buf count)
  unfolding safe_rw IsPart IsBounded IsCalm
  safe_rw-IsPart calls j more zero i sent buf count calm few good small =
      absurd (omega (arith, few))
  safe_rw-IsPart calls j more (suc fuel) i sent buf count calm few good small =
      elim (Answer-cases (w.write i count)) [
        | inl (n, answer) ↦ rw (safe_rw, answer) (refl, bounded i count n answer)
        | inr (e, answer) ↦ elim (Bool-cases (e == w.eintr)) [
          | inl interrupted ↦
              rw (safe_rw, answer, interrupted)
                (elim (dec_lt 0 j) [
                  | yes later ↦
                      safe_rw-IsPart calls (j - 1) more fuel (suc i) sent buf count calm
                        (omega (arith, few))
                        (subst (λ n. (c : ℕ) → w.write n c ≢ error w.eintr) (omega (arith, later))
                          good)
                        small
                  | no now ↦ absurd (
                      good count (
                        subst (λ n. w.write n count ≡ error w.eintr) (omega (arith, now))
                          (answer ∙ ap error ((==_iff e w.eintr).0 interrupted))))
                ])
          | inr other ↦ elim (Bool-cases ((e == w.einval) && ltb sys_bufsize_max count)) [
            | inl large ↦
                let (next_j, next_few, next_good) = calm (suc i) in
                rw (safe_rw, answer, other, large)
                  (IsPart-mono sent buf sys_bufsize_max count _ (above e count large) (
                    safe_rw-IsPart calls next_j 0 fuel (suc i) sent buf sys_bufsize_max calm
                      (enough next_j next_few e small large) next_good (inl (omega arith))))
            | inr fails ↦ rw (safe_rw, answer, other, fails) (refl, i, count, answer)
          ]
        ]
      ]
    where
      above :
          (e count : ℕ)
          → ((e == w.einval) && ltb sys_bufsize_max count) ≡ true
          → sys_bufsize_max ≤ count
      above e count large = ground (arith, large)

      enough :
          (next_j : ℕ)
          → next_j < calls
          → (e : ℕ) → (count ≤ sys_bufsize_max) ⊎ (calls ≤ more)
          → ((e == w.einval) && ltb sys_bufsize_max count) ≡ true
          → next_j + 0 < fuel
      enough next_j lt e (inl le) large = absurd (ground (arith, large, le))
      enough next_j lt e (inr le) large = omega (arith, few, lt, le)

  -- With twice the calls.
  safe_rw-enough :
      (calls i : ℕ) (sent buf : List ℕ) (count : ℕ)
      → IsCalm w calls
      → IsPart sent buf count (safe_rw w (2 * calls) i sent buf count)
  unfolding IsCalm
  safe_rw-enough calls i sent buf count calm =
      let (j, few, good) = calm i in
      safe_rw-IsPart calls j calls (2 * calls) i sent buf count calm (omega (arith, few)) good
        (inr (omega arith))

  take-drop :
      (k n m : ℕ) (buf : List ℕ) → k ≡ n + m → take n buf ++ take m (drop n buf) ≡ take k buf
  take-drop k zero m buf sum = ap (λ i. take i buf) (omega (arith, sum))
  take-drop zero (suc n) m buf sum = absurd (omega (arith, sum))
  take-drop (suc k) (suc n) zero [] sum = refl
  take-drop (suc k) (suc n) (suc m) [] sum = refl
  take-drop (suc k) (suc n) m (b ∷ buf) sum =
      ap (λ l. b ∷ l) (take-drop k n m buf (omega (arith, sum)))

  continues :
      (sent buf : List ℕ) (count total n : ℕ) (r : Result)
      → n ≤ count
      → IsTransfer w (sent ++ take n buf) (drop n buf) (count - n) (total + n) r
      → IsTransfer w sent buf count total r
  unfolding IsTransfer
  continues sent buf count total n hung le z = z
  continues sent buf count total n (finished t errno sent') le (more, sum, part, form, why) = (
    n + more,
    omega arith,
    omega arith,
    form
        ∙ append_assoc sent (take n buf) (take more (drop n buf))
        ∙ ap (λ l. sent ++ l) (take-drop (n + more) n more buf refl),
    elim why [ inl all ↦ inl (omega (arith, all, le)) | inr z ↦ inr z ],
  )

  nothing :
      (sent buf : List ℕ) (count total errno : ℕ)
      → (0 ≡ count) ⊎ ((errno ≡ w.enospc) ⊎ (i c : ℕ) × (w.write i c ≡ error errno))
      → IsTransfer w sent buf count total (finished total errno sent)
  unfolding IsTransfer
  nothing sent buf count total errno why = (0, omega arith, omega arith, sym (append-nil sent), why)

  loop-IsTransfer :
      (calls k i : ℕ) (sent buf : List ℕ) (count total errno : ℕ)
      → IsCalm w calls
      → count ≤ k
      → IsTransfer w sent buf count total
          (full_rw_loop w (2 * calls) k i sent buf count total errno)
  unfolding full_rw_loop IsPart
  loop-IsTransfer calls zero i sent buf count total errno calm le =
      rw (full_rw_loop, (==_iff count 0).1 (omega (arith, le)))
        (nothing sent buf count total errno (inl (omega (arith, le))))
  loop-IsTransfer calls (suc k) i sent buf count total errno calm le =
      let part = safe_rw-enough calls i sent buf count calm in
      elim (Bool-cases (count == 0)) [
        | inl none_left ↦
            rw (full_rw_loop, none_left)
              (nothing sent buf count total errno (inl (sym ((==_iff count 0).0 none_left))))
        | inr some_left ↦ elim (Written-cases (safe_rw w (2 * calls) i sent buf count)) [
          | inl (n, i', sent', r) ↦
              let (form, bound) = subst (IsPart sent buf count) r part in
              elim (Bool-cases (n == 0)) [
                | inl zero_ ↦
                    rw (full_rw_loop, some_left, r, zero_)
                      (subst (λ l. IsTransfer w sent buf count total (finished total w.enospc l))
                        (sym (form ∙ empty n zero_))
                        (nothing sent buf count total w.enospc (inr (inl refl))))
                | inr more ↦
                    rw (full_rw_loop, some_left, r, more, form)
                      (continues sent buf count total n _ bound (
                        loop-IsTransfer calls k i' (sent ++ take n buf) (drop n buf) (count - n)
                          (total + n) errno calm (omega (arith, ==→ne n 0 more, le, bound))))
              ]
          | inr (inl (e, i', sent', r)) ↦
              let (same, at, c, gave) = subst (IsPart sent buf count) r part in
              rw (full_rw_loop, some_left, r, same)
                (nothing sent buf count total e (inr (inr (at, c, gave))))
          | inr (inr r) ↦ absurd (subst (IsPart sent buf count) r part)
        ]
      ]
    where
      empty : (n : ℕ) → (n == 0) ≡ true → sent ++ take n buf ≡ sent
      empty n z = ap (λ m. sent ++ take m buf) ((==_iff n 0).0 z) ∙ append-nil sent

-- Let no answer of `write` be more than its count, and let one of as many calls as given, from any one on,
-- not be interrupted. Then full_rw returns: with a number of bytes of the buffer, from its start, that the
-- device has now received, each once and in order, and if that is not the count, `errno` is ENOSPC or an
-- error that `write` gave.
pub full_rw_lem :
    (w : Device) (calls : ℕ) (sent buf : List ℕ) (count errno : ℕ)
    → IsBounded w
    → IsCalm w calls
    → IsTransfer w sent buf count 0 (full_rw w (2 * calls) sent buf count errno)
unfolding full_rw
full_rw_lem w calls sent buf count errno bounded calm =
    loop-IsTransfer w bounded calls count 0 sent buf count 0 errno calm (omega arith)
