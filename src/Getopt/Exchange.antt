-- ===== src/Getopt/Exchange.antt =====
-- `exchange` leaves the second segment before the first, and all else in place.
use yalibct.Base.{
  ℕ, zero, suc, ◌+◌, ◌-◌, ◌≤◌, ◌<◌, ◌≡◌, refl, sym, ap, ◌∙◌, List, [], ◌∷◌, ◌++◌, some, length,
  length-append, get_elem?, set, append_assoc, arith, take, drop, length-take, length-drop,
  take-append-drop, dec_lt, ◌⊎◌, inl, inr,
}
use yalibct.Getopt.State.{Str, GetoptData}
use yalibct.Getopt.Argv.{◌>>=◌, swap_at, swap_run, exchange_loop, exchange}

get_elem?-append :
    (xs ys : List Str) (y : Str) (i : ℕ) → i ≡ length xs → get_elem? (xs ++ (y ∷ ys)) i ≡ some y
get_elem?-append [] ys y i e = rw e
get_elem?-append (x ∷ xs) ys y zero e = absurd (omega arith)
get_elem?-append (x ∷ xs) ys y (suc i) e = get_elem?-append xs ys y i (omega arith)

set-append :
    (xs ys : List Str) (y v : Str) (i : ℕ)
    → i ≡ length xs
    → set (xs ++ (y ∷ ys)) i v ≡ xs ++ (v ∷ ys)
set-append [] ys y v i e = rw e
set-append (x ∷ xs) ys y v zero e = absurd (omega arith)
set-append (x ∷ xs) ys y v (suc i) e = ap (λ t. x ∷ t) (set-append xs ys y v i (omega arith))

-- One swap, of the elements behind `xs` and behind `ys`.
swap_at_lem :
    (xs ys zs : List Str) (a b : Str) (i j : ℕ)
    → i ≡ length xs
    → j ≡ length xs + 1 + length ys
    → swap_at (xs ++ (a ∷ (ys ++ (b ∷ zs)))) i j ≡ some (xs ++ (b ∷ (ys ++ (a ∷ zs))))
unfolding swap_at
swap_at_lem xs ys zs a b i j p q =
    let regroup : (v : Str) (t : List Str) → xs ++ (v ∷ (ys ++ t)) ≡ (xs ++ (v ∷ ys)) ++ t =
      λ v t. sym (append_assoc xs (v ∷ ys) t) in
    let r = λ (v : Str). length-append xs (v ∷ ys) in
    let l1 = get_elem?-append xs (ys ++ (b ∷ zs)) a i p in
    let l2 : get_elem? (xs ++ (a ∷ (ys ++ (b ∷ zs)))) j ≡ some b =
      ap (λ t. get_elem? t j) (regroup a (b ∷ zs))
      ∙ get_elem?-append (xs ++ (a ∷ ys)) zs b j (omega (arith, r a)) in
    let s1 = set-append xs (ys ++ (b ∷ zs)) a b i p in
    let s2 : set (xs ++ (b ∷ (ys ++ (b ∷ zs)))) j a ≡ xs ++ (b ∷ (ys ++ (a ∷ zs))) =
      ap (λ t. set t j a) (regroup b (b ∷ zs))
      ∙ set-append (xs ++ (b ∷ ys)) zs b a j (omega (arith, r b))
      ∙ sym (regroup b (a ∷ zs)) in
    rw (swap_at, l1, l2) (ap some (ap (λ t. set t j a) s1 ∙ s2))

-- A run of swaps exchanges two segments of one length.
swap_run_lem :
    (len : ℕ) (xs us ys vs zs : List Str) (i j : ℕ)
    → length us ≡ len
    → length vs ≡ len
    → i ≡ length xs
    → j ≡ length xs + len + length ys
    → swap_run len (xs ++ (us ++ (ys ++ (vs ++ zs)))) i j ≡ some (xs ++ (vs ++ (ys ++ (us ++ zs))))
unfolding swap_run
swap_run_lem zero xs [] ys [] zs i j p q r s = refl
swap_run_lem zero xs [] ys (v ∷ vs) zs i j p q r s = absurd (omega arith)
swap_run_lem zero xs (u ∷ us) ys vs zs i j p q r s = absurd (omega arith)
swap_run_lem (suc len) xs [] ys vs zs i j p q r s = absurd (omega arith)
swap_run_lem (suc len) xs (u ∷ us) ys [] zs i j p q r s = absurd (omega arith)
swap_run_lem (suc len) xs (u ∷ us) ys (v ∷ vs) zs i j p q r s =
    let first : swap_at (xs ++ (u ∷ (us ++ (ys ++ (v ∷ (vs ++ zs)))))) i j
        ≡ some (xs ++ (v ∷ (us ++ (ys ++ (u ∷ (vs ++ zs)))))) =
      ap (λ t. swap_at (xs ++ (u ∷ t)) i j) (sym (append_assoc us ys (v ∷ (vs ++ zs))))
      ∙ swap_at_lem xs (us ++ ys) (vs ++ zs) u v i j r (omega (arith, length-append us ys))
      ∙ ap (λ t. some (xs ++ (v ∷ t))) (append_assoc us ys (u ∷ (vs ++ zs))) in
    let ih =
      swap_run_lem len (xs ++ v ∷ []) us (ys ++ u ∷ []) vs zs (i + 1) (j + 1) (omega arith)
        (omega arith) (omega (arith, length-append xs (v ∷ [])))
        (omega (arith, length-append xs (v ∷ []), length-append ys (u ∷ []))) in
    ap (λ o. o >>= (λ t. swap_run len t (i + 1) (j + 1))) first ∙ (simp append_assoc at ih)

-- The three ways that a round goes.
module _ (fuel : ℕ) (xs : List Str) (bottom middle top : ℕ) where
  loop_done :
      ((top ≤ middle) ⊎ (middle ≤ bottom)) → exchange_loop (suc fuel) xs bottom middle top ≡ some xs
  unfolding exchange_loop
  loop_done h = ground arith

  loop_top :
      middle < top
      → bottom < middle
      → middle - bottom < top - middle
      → exchange_loop (suc fuel) xs bottom middle top ≡ (
          swap_run (middle - bottom) xs bottom (top - (middle - bottom))
          >>= (λ ys. exchange_loop fuel ys bottom middle (top - (middle - bottom))))
  unfolding exchange_loop
  loop_top a b c = ground arith

  loop_bottom :
      middle < top
      → bottom < middle
      → top - middle ≤ middle - bottom
      → exchange_loop (suc fuel) xs bottom middle top ≡ (
          swap_run (top - middle) xs bottom middle
          >>= (λ ys. exchange_loop fuel ys (bottom + (top - middle)) middle top))
  unfolding exchange_loop
  loop_bottom a b c = ground arith

none_left :
    (xs zs : List Str) (bottom middle top : ℕ)
    → top ≤ middle
    → exchange_loop zero (xs ++ zs) bottom middle top ≡ some (xs ++ zs)
unfolding exchange_loop
none_left xs zs bottom middle top h = ground arith

-- The loop exchanges the segments `us` and `vs`.
exchange_loop_lem :
    (fuel : ℕ) (xs us vs zs : List Str) (bottom middle top : ℕ)
    → length us + length vs ≤ fuel
    → bottom ≡ length xs
    → middle ≡ bottom + length us
    → top ≡ middle + length vs
    → exchange_loop fuel (xs ++ (us ++ (vs ++ zs))) bottom middle top
      ≡ some (xs ++ (vs ++ (us ++ zs)))
exchange_loop_lem zero xs [] [] zs bottom middle top f b m t =
    none_left xs zs bottom middle top (omega arith)
exchange_loop_lem zero xs [] (v ∷ vs) zs bottom middle top f b m t = absurd (omega arith)
exchange_loop_lem zero xs (u ∷ us) vs zs bottom middle top f b m t = absurd (omega arith)
exchange_loop_lem (suc fuel) xs [] vs zs bottom middle top f b m t =
    loop_done fuel (xs ++ (vs ++ zs)) bottom middle top (inr (omega arith))
exchange_loop_lem (suc fuel) xs (u ∷ us) [] zs bottom middle top f b m t =
    loop_done fuel (xs ++ (u ∷ (us ++ zs))) bottom middle top (inl (omega arith))
exchange_loop_lem (suc fuel) xs (u ∷ us) (v ∷ vs) zs bottom middle top f b m t =
    let as' = u ∷ us in
    let bs = v ∷ vs in
    elim (dec_lt (middle - bottom) (top - middle)) [
      | yes short ↦
          let k = top - middle - (middle - bottom) in
          let b1 = take k bs in
          let b2 = drop k bs in
          let whole : b1 ++ b2 ≡ bs = take-append-drop k bs in
          let l1 = length-take k bs in
          let l2 = length-drop k bs in
          let start : xs ++ (as' ++ (bs ++ zs)) ≡ xs ++ (as' ++ (b1 ++ (b2 ++ zs))) =
            ap (λ w. xs ++ (as' ++ (w ++ zs))) (sym whole)
            ∙ ap (λ w. xs ++ (as' ++ w)) (append_assoc b1 b2 zs) in
          let run =
            swap_run_lem (middle - bottom) xs as' b1 b2 zs bottom (top - (middle - bottom))
              (omega arith) (omega arith) b (omega arith) in
          let ih =
            exchange_loop_lem fuel xs b2 b1 (as' ++ zs) bottom middle (top - (middle - bottom))
              (omega arith) b (omega arith) (omega arith) in
          loop_top fuel (xs ++ (as' ++ (bs ++ zs))) bottom middle top (omega arith) (omega arith)
            short
          ∙ ap
              (λ w.
                swap_run (middle - bottom) w bottom (top - (middle - bottom))
                >>= (λ ys. exchange_loop fuel ys bottom middle (top - (middle - bottom))))
              start
          ∙ ap (λ o. o >>= (λ ys. exchange_loop fuel ys bottom middle (top - (middle - bottom))))
              run
          ∙ ih
          ∙ ap (λ w. some (xs ++ w)) (sym (append_assoc b1 b2 (as' ++ zs)))
          ∙ ap (λ w. some (xs ++ (w ++ (as' ++ zs)))) whole
      | no long ↦
          let k = top - middle in
          let a1 = take k as' in
          let a2 = drop k as' in
          let whole : a1 ++ a2 ≡ as' = take-append-drop k as' in
          let l1 = length-take k as' in
          let l2 = length-drop k as' in
          let start : xs ++ (as' ++ (bs ++ zs)) ≡ xs ++ (a1 ++ (a2 ++ (bs ++ zs))) =
            ap (λ w. xs ++ (w ++ (bs ++ zs))) (sym whole)
            ∙ ap (λ w. xs ++ w) (append_assoc a1 a2 (bs ++ zs)) in
          let run =
            swap_run_lem k xs a1 a2 bs zs bottom middle (omega arith) (omega arith) b
              (omega arith) in
          let ih =
            exchange_loop_lem fuel (xs ++ bs) a2 a1 zs (bottom + k) middle top (omega arith)
              (omega (arith, length-append xs bs)) (omega arith) (omega arith) in
          loop_bottom fuel (xs ++ (as' ++ (bs ++ zs))) bottom middle top (omega arith) (omega arith)
            (omega arith)
          ∙ ap
              (λ w.
                swap_run k w bottom middle
                >>= (λ ys. exchange_loop fuel ys (bottom + k) middle top))
              start
          ∙ ap (λ o. o >>= (λ ys. exchange_loop fuel ys (bottom + k) middle top)) run
          ∙ ap (λ w. exchange_loop fuel w (bottom + k) middle top)
              (sym (append_assoc xs bs (a2 ++ (a1 ++ zs))))
          ∙ ih
          ∙ ap some (append_assoc xs bs (a1 ++ (a2 ++ zs)))
          ∙ ap (λ w. some (xs ++ (bs ++ w))) (sym (append_assoc a1 a2 zs))
          ∙ ap (λ w. some (xs ++ (bs ++ (w ++ zs)))) whole
    ]

-- If `argv` is `xs`, then the non-options `us`, then the options `vs`, then `zs`, as the indices say,
-- `exchange` puts `vs` before `us`, keeps `xs` and `zs`, and moves the indices of the non-options to
-- where they are now.
pub exchange_lem :
    (d : GetoptData) (xs us vs zs : List Str)
    → d.argv ≡ xs ++ (us ++ (vs ++ zs))
    → d.first_nonopt ≡ length xs
    → d.last_nonopt ≡ length xs + length us
    → d.optind ≡ length xs + length us + length vs
    → (d' : GetoptData) × (exchange d ≡ some d')
      × (d'.argv ≡ xs ++ (vs ++ (us ++ zs)))
      × (d'.first_nonopt ≡ length xs + length vs)
      × (d'.last_nonopt ≡ length xs + length vs + length us)
      × (d'.optind ≡ d.optind)
unfolding exchange
exchange_lem d xs us vs zs shape f l o = (
  record d {
    argv = xs ++ (vs ++ (us ++ zs));
    first_nonopt = d.first_nonopt + (d.optind - d.last_nonopt);
    last_nonopt = d.optind;
  },
  rw (exchange, moved) refl,
  refl,
  omega arith,
  omega arith,
  refl,
)
  where
    moved :
        exchange_loop (d.optind - d.first_nonopt) d.argv d.first_nonopt d.last_nonopt d.optind
        ≡ some (xs ++ (vs ++ (us ++ zs)))
    moved =
        ap (λ w. exchange_loop (d.optind - d.first_nonopt) w d.first_nonopt d.last_nonopt d.optind)
          shape
        ∙ exchange_loop_lem (d.optind - d.first_nonopt) xs us vs zs d.first_nonopt d.last_nonopt
            d.optind (omega arith) f (omega arith) (omega arith)

-- Where the indices are in order and in `argv`, no access is outside it, and as many elements are there
-- as before.
pub exchange_total :
    (d : GetoptData)
    → d.first_nonopt ≤ d.last_nonopt
    → d.last_nonopt ≤ d.optind
    → d.optind ≤ length d.argv
    → (ys : List Str) × (exchange d
        ≡ some (record d {
          argv = ys;
          first_nonopt = d.first_nonopt + (d.optind - d.last_nonopt);
          last_nonopt = d.optind;
        }))
      × (length ys ≡ length d.argv)
unfolding exchange
exchange_total d a b c =
    let i = d.first_nonopt in
    let j = d.last_nonopt - i in
    let k = d.optind - d.last_nonopt in
    let xs = take i d.argv in
    let r1 = drop i d.argv in
    let us = take j r1 in
    let r2 = drop j r1 in
    let vs = take k r2 in
    let zs = drop k r2 in
    let shape : xs ++ (us ++ (vs ++ zs)) ≡ d.argv =
      ap (λ w. xs ++ (us ++ w)) (take-append-drop k r2)
      ∙ ap (λ w. xs ++ w) (take-append-drop j r1)
      ∙ take-append-drop i d.argv in
    let l1 = length-take i d.argv in
    let l2 = length-drop i d.argv in
    let l3 = length-take j r1 in
    let l4 = length-drop j r1 in
    let l5 = length-take k r2 in
    let l6 = length-drop k r2 in
    let moved : exchange_loop (d.optind - i) d.argv i d.last_nonopt d.optind
        ≡ some (xs ++ (vs ++ (us ++ zs))) =
      ap (λ w. exchange_loop (d.optind - i) w i d.last_nonopt d.optind) (sym shape)
      ∙ exchange_loop_lem (d.optind - i) xs us vs zs i d.last_nonopt d.optind (omega arith)
          (omega arith) (omega arith) (omega arith) in
    (
      xs ++ (vs ++ (us ++ zs)),
      rw (exchange, moved) refl,
      omega (
        arith,
        length-append xs (vs ++ (us ++ zs)),
        length-append vs (us ++ zs),
        length-append us zs,
      ),
    )
