-- ===== src/Active/Exact.antt =====
-- A walk with the exact check marks the directories that close a cycle, and no others.
use yalibct.Base.{
  ℕ, ◌≤◌, ◌<◌, ◌≡◌, refl, ap, sym, ◌∙◌, subst, true, false, List, [], ◌∷◌, map, none, some, length,
  length-append, arith, Bool-cases, inl, inr,
}
use mathlib.Core.Bool.{true≢false}
use mathlib.Core.List.{flatten}
use yalibct.CycleCheck.{DevIno}
use yalibct.Hash.State.{ok, ◌>>=◌, Env, HashTable}
use yalibct.Hash.Tuning.{is_crowded, is_sparse}
use yalibct.Hash.Buckets.{in_use}
use yalibct.Hash.Place.{InStep}
use yalibct.Hash.Insert.{SameShape}
use yalibct.Active.{ActiveDir, write_dir}
use yalibct.Active.Entries.{Entry, is_alike, active, AllStored}
use yalibct.Active.Memory.{Tracks}
use yalibct.Active.Enters.{
  marked, entered, refused, broken, enter_active_dir_lem, leave_active_dir_lem,
}
use yalibct.Active.Walk.{
  Step, enter, leave, walk, descended, cycle_of, dir_of, joined, next, marks, IsAllowed, IsWalk,
}

st_of : Entry → DevIno
st_of e = record { st_ino = e.dir.ino; st_dev = e.dir.dev }

unfoldable IsDistinct : List Entry → Type 0
IsDistinct [] = Unit
IsDistinct (e ∷ es) = (active e.dir es ≡ none) × IsDistinct es

cycle_of-some :
    (at : ℕ → ActiveDir) (k : ActiveDir) (es : List Entry) (x : ℕ)
    → AllStored at es
    → active k es ≡ some x
    → cycle_of k es ≡ some (at x).fts_ent
unfolding active cycle_of AllStored
cycle_of-some at k [] x stored h = absurd (ground arith)
cycle_of-some at k (e ∷ es) x stored h = elim (Bool-cases (is_alike k e.dir)) [
  | inl s ↦
      let same_pointer : e.pointer ≡ x = ground (arith, s, h) in
      rw (s) (ap (λ d. some (ActiveDir.fts_ent d)) (sym stored.0 ∙ ap at same_pointer))
  | inr s ↦ rw (s) (cycle_of-some at k es x stored.1 (ground (arith, s, h)))
]

cycle_of-none : (k : ActiveDir) (es : List Entry) → active k es ≡ none → cycle_of k es ≡ none
unfolding active cycle_of
cycle_of-none k [] h = refl
cycle_of-none k (e ∷ es) h = ground (arith, h, cycle_of-none k es)

in_use-le : (bs : List (List ℕ)) → in_use bs ≤ length (flatten bs)
unfolding in_use flatten
in_use-le [] = omega arith
in_use-le ([] ∷ bs) = omega (arith, in_use-le bs)
in_use-le ((x ∷ b) ∷ bs) = omega (arith, in_use-le bs, length-append b (flatten bs))

SameShape-trans : {F : Type 0} (t u w : HashTable F) → SameShape t u → SameShape u w → SameShape t w
SameShape-trans t u w p q = (q.0 ∙ p.0, q.1 ∙ p.1)

module _ {F : Type 0} (base : Env F) (alloc : (k : ℕ) → base.obstack_alloc k ≡ true)
    (start : HashTable F) (k : ℕ)
    (calm : (u : HashTable F)
      → SameShape start u
      → u.n_buckets_used < k
      → is_crowded base u ≡ false)
    (dense : (u : HashTable F) → SameShape start u → is_sparse base u ≡ false) where
  record IsAt (at : ℕ → ActiveDir) (t : HashTable F) (path : List DevIno) (es : List Entry)
      : Type 0 where
    tracks : Tracks base at es t
    in_step : InStep t
    shape : SameShape start t
    total : t.n_entries ≡ length es
    distinct : IsDistinct es
    path_of : path ≡ map st_of es

  -- The steps behind one.
  Goes : List Step → Type 0
  Goes steps =
      (at : ℕ → ActiveDir) (t : HashTable F) (path : List DevIno) (es : List Entry)
      → IsAt at t path es
      → IsWalk k steps es
      → walk base steps path at t ≡ ok (true, marks steps es)

  few_used :
      (at : ℕ → ActiveDir) (t : HashTable F) (path : List DevIno) (es : List Entry)
      → IsAt at t path es
      → length es < k
      → t.n_buckets_used < k
  few_used at t path es z few =
      let h = z.tracks.models.holds in
      omega (arith, in_use-le t.bucket, h.busy, h.entries, z.total, few)

  enters :
      (steps : List Step) (ad ent : ℕ) (st : DevIno) → Goes steps → Goes (enter ad ent st ∷ steps)
  unfolding Goes walk marks IsWalk IsAllowed next joined descended IsDistinct st_of
  enters steps ad ent st later at t path es z ((positive, fresh, few), allowed) =
      let e : Entry = record { pointer = ad; dir = dir_of ent st } in
      let at' = write_dir at ad (dir_of ent st) in
      let roomy = calm t z.shape (few_used at t path es z few) in
      elim (enter_active_dir_lem base alloc at es t z.tracks z.in_step ad ent st positive fresh) [
        | marked x there r v ↦
            let cycle = cycle_of-some at' (dir_of ent st) es x v.stored there in
            let rest =
              later at' t path es
                (record {
                  tracks = v;
                  in_step = z.in_step;
                  shape = z.shape;
                  total = z.total;
                  distinct = z.distinct;
                  path_of = z.path_of;
                })
                (subst (λ o. IsWalk k steps (joined e es o)) cycle allowed) in
            rw (r, ◌>>=◌, rest, cycle) refl
        | entered t' absent r v n kept ↦
            let cycle = cycle_of-none (dir_of ent st) es absent in
            let (in_step, shape) = kept roomy in
            let rest =
              later at' t' (st ∷ path) (e ∷ es)
                (record {
                  tracks = v;
                  in_step = in_step;
                  shape = SameShape-trans start t t' z.shape shape;
                  total = omega (arith, n, z.total);
                  distinct = (absent, z.distinct);
                  path_of = ap (λ l. st ∷ l) z.path_of;
                })
                (subst (λ o. IsWalk k steps (joined e es o)) cycle allowed) in
            rw (r, ◌>>=◌, rest, cycle) refl
        | refused t' absent crowded r v ↦ absurd (true≢false (sym crowded ∙ roomy))
        | broken absent crowded r ↦ absurd (true≢false (sym crowded ∙ roomy))
      ]

  leaves : (steps : List Step) (obj : ℕ) → Goes steps → Goes (leave obj ∷ steps)
  unfolding Goes walk marks IsWalk IsAllowed next IsDistinct st_of
  leaves steps obj later at t path [] z (fresh, allowed) =
      subst (λ p. walk base (leave obj ∷ steps) p at t ≡ ok (true, marks steps [])) (sym z.path_of)
        (later at t [] []
          (record {
            tracks = z.tracks;
            in_step = z.in_step;
            shape = z.shape;
            total = z.total;
            distinct = z.distinct;
            path_of = refl;
          })
          allowed)
  leaves steps obj later at t path (e ∷ es) z (fresh, allowed) =
      let (t', q, v, n, in_step, shape) =
        leave_active_dir_lem base alloc at e es t obj z.tracks z.in_step
          (λ u s. dense u (SameShape-trans start t u z.shape s)) z.distinct.0 fresh in
      subst (λ p. walk base (leave obj ∷ steps) p at t ≡ ok (true, marks steps es)) (sym z.path_of)
        (rw (q, ◌>>=◌)
          (later _ t' (map st_of es) es
            (record {
              tracks = v;
              in_step = in_step;
              shape = SameShape-trans start t t' z.shape shape;
              total = omega (arith, n, z.total);
              distinct = z.distinct.1;
              path_of = refl;
            })
            allowed))

  walks : (steps : List Step) → Goes steps
  unfolding Goes walk marks
  walks [] at t path es z allowed = refl
  walks (enter ad ent st ∷ steps) at t path es z allowed =
      enters steps ad ent st (walks steps) at t path es z allowed
  walks (leave obj ∷ steps) at t path es z allowed =
      leaves steps obj (walks steps) at t path es z allowed

  -- Let a table be as setup_dir gives it, not crowded at its size with fewer buckets in use than a bound, and
  -- never sparse. A walk with fewer active directories than the bound at each one that is entered, and with
  -- fresh addresses, then goes through with no failure and no abort, and marks a directory FTS_DC exactly
  -- where one of those above it has its device and inode number, whose entry is its fts_cycle.
  pub walk-marks :
      (at : ℕ → ActiveDir) (steps : List Step)
      → Tracks base at [] start
      → InStep start
      → start.n_entries ≡ 0
      → IsWalk k steps []
      → walk base steps [] at start ≡ ok (true, marks steps [])
  unfolding Goes IsDistinct
  walk-marks at steps tracks in_step empty allowed =
      walks steps at start [] []
        (record {
          tracks = tracks;
          in_step = in_step;
          shape = (refl, refl);
          total = empty;
          distinct = tt;
          path_of = refl;
        })
        allowed
