-- ===== src/Active/Enters.antt =====
-- What enter_dir and leave_dir make of the active directories.
use yalibct.Base.{
  length, ◌+◌, ℕ, ◌≡◌, ◌≢◌, refl, ap, sym, ◌∙◌, subst, inl, inr, Bool, true, false, List, ◌∷◌,
  Option, none, some, ◌==◌, ==_refl, arith, Bool-cases,
}
use yalibct.CycleCheck.{DevIno}
use yalibct.Hash.State.{Run, ok, reused, ◌>>=◌, Env, HashTable}
use yalibct.Hash.Tuning.{is_crowded, is_sparse, tuning_of, default_values}
use yalibct.Hash.Find.{same}
use yalibct.Hash.Buckets.{update}
use yalibct.Hash.Place.{InStep}
use yalibct.Hash.Resize.{Models, Holds-congr}
use yalibct.Hash.Operations.{hash_insert}
use yalibct.Hash.Insert.{SameShape, present, added, failed, overlapped, hash_insert_if_absent_lem}
use yalibct.Hash.Remove.{found, hash_remove_lem}
use yalibct.Hash.Create.{hash_free_lem}
use yalibct.Hash.Keys.{count}
use yalibct.Hash.Calm.{hash_remove-SameShape}
use yalibct.Hash.Balance.{ok-inj}
use yalibct.Active.{
  ActiveDir, ad_compare, write_dir, active_env, enter_active_dir, leave_active_dir,
  free_active_dirs,
}
use yalibct.Active.Entries.{
  is_alike, Entry, active, active-congr, active-stored, IsFresh, AllStored,
}
use yalibct.Active.Memory.{Tracks, active_env-IsLawful, write_dir-Tracks}

compare_congr : (j k l : ActiveDir) → is_alike k l ≡ true → is_alike j k ≡ is_alike j l
unfolding is_alike
compare_congr j k l h = ground (arith, h)

ad_compare-is_alike : (j k : ActiveDir) → ad_compare j k ≡ is_alike j k
unfolding ad_compare is_alike
ad_compare-is_alike j k = ground arith

module _ {F : Type 0} (base : Env F) where
  -- All that entering the directory of an entry can do.
  pub data Enters (at : ℕ → ActiveDir) (es : List Entry) (t : HashTable F) (e : Entry)
      (r : Run (Bool × Option ℕ × (ℕ → ActiveDir) × HashTable F)) : Type 0 where
    marked :
        (x : ℕ)
        → active e.dir es ≡ some x
        → r ≡ ok (true, some (at x).fts_ent, at, t)
        → Tracks base at es t
        → Enters at es t e r
    entered :
        (t' : HashTable F)
        → active e.dir es ≡ none
        → r ≡ ok (true, none, at, t')
        → Tracks base at (e ∷ es) t'
        → t'.n_entries ≡ t.n_entries + 1
        → (is_crowded base t ≡ false → InStep t' × SameShape t t')
        → Enters at es t e r
    refused :
        (t' : HashTable F)
        → active e.dir es ≡ none
        → is_crowded base t ≡ true
        → r ≡ ok (false, none, at, t')
        → Tracks base at es t'
        → Enters at es t e r
    broken : active e.dir es ≡ none → is_crowded base t ≡ true → r ≡ reused → Enters at es t e r

  same-is_alike :
      (at : ℕ → ActiveDir) (q p : ℕ) → same (active_env base at) q p ≡ is_alike (at q) (at p)
  unfolding same ad_compare is_alike
  same-is_alike at q p = elim (Bool-cases (q == p)) [
    | inl e ↦
        let equal : q ≡ p = ground (arith, e) in
        rw (e) (subst (λ y. true ≡ is_alike (at q) (at y)) equal (ground arith))
    | inr e ↦ rw (e) (ad_compare-is_alike (at q) (at p))
  ]

  -- The table with the new entry.
  pub added-Tracks :
      (at : ℕ → ActiveDir) (es : List Entry) (t : HashTable F) (e : Entry)
      → at e.pointer ≡ e.dir
      → AllStored at es
      → Models
          (active_env base at)
          (update (active_env base at) (λ q. active (at q) es) e.pointer (some e.pointer))
          t
      → Tracks base at (e ∷ es) t
  unfolding active AllStored
  added-Tracks at es t e here stored v = record {
    models = record {
      wide = v.wide;
      holds =
          Holds-congr (active_env base at) (λ q. rw (same-is_alike at q e.pointer, here) refl)
            v.holds;
    };
    stored = (here, stored);
  }

  removed-Tracks :
      (at : ℕ → ActiveDir) (es : List Entry) (t : HashTable F) (e : Entry) (obj : ℕ)
      → is_alike (at obj) e.dir ≡ true
      → active e.dir es ≡ none
      → AllStored at es
      → Models
          (active_env base at)
          (update (active_env base at) (λ q. active (at q) (e ∷ es)) obj none)
          t
      → Tracks base at es t
  unfolding active
  removed-Tracks at es t e obj alike absent stored v = record {
    models = record { wide = v.wide; holds = Holds-congr (active_env base at) same_reads v.holds };
    stored = stored;
  }
    where
      same_reads :
          (q : ℕ)
          → update (active_env base at) (λ x. active (at x) (e ∷ es)) obj none q ≡ active (at q) es
      same_reads q = elim (Bool-cases (is_alike (at q) e.dir)) [
        | inl s ↦
            rw (same-is_alike at q obj, compare_congr (at q) (at obj) e.dir alike, s)
              (sym (active-congr (at q) e.dir es s ∙ absent))
        | inr s ↦ rw (same-is_alike at q obj, compare_congr (at q) (at obj) e.dir alike, s) refl
      ]

  module _ (alloc : (k : ℕ) → base.obstack_alloc k ≡ true) (at : ℕ → ActiveDir) (es : List Entry)
      (t : HashTable F) (v : Tracks base at es t) (step : InStep t) where
    -- Let the table hold the active directories, let its obstack be in step, and let malloc give an address
    -- that is not null and not that of an active directory. Then enter_dir marks a directory FTS_DC just
    -- where one with its device and inode number is active, and fts_cycle is then the entry of that one;
    -- otherwise it becomes active. Only where the table is crowded can it fail instead, with the same
    -- directories active, or break the table's chains.
    pub enter_active_dir_lem :
        (ad ent : ℕ) (st : DevIno)
        → ad ≢ 0
        → IsFresh ad es
        → let dir : ActiveDir = record { dev = st.st_dev; ino = st.st_ino; fts_ent = ent } in
          Enters
            (write_dir at ad dir)
            es
            t
            (record { pointer = ad; dir = dir })
            (enter_active_dir base at t (some ad) st ent)
    unfolding enter_active_dir hash_insert is_crowded tuning_of default_values
    enter_active_dir_lem ad ent st positive fresh =
        let dir : ActiveDir = record { dev = st.st_dev; ino = st.st_ino; fts_ent = ent } in
        let at' = write_dir at ad dir in
        let v' = write_dir-Tracks base alloc at es t ad dir fresh v in
        let here : at' ad ≡ dir = rw (==_refl ad) refl in
        elim (hash_insert_if_absent_lem (active_env base at') (active_env-IsLawful base alloc at')
          (λ q. active (at' q) es) t ad v'.models step positive) [
            | present x there e ↦
                let other : (x == ad) ≡ false =
                  not_equal x ad (active-stored at' (at' ad) es ad x v'.stored fresh there).1 in
                marked x (same_dir here ∙ there)
                  (rw (enter_active_dir, hash_insert, e, ◌>>=◌, other) refl) v'
            | added t' absent e models n calm ↦
                entered t' (same_dir here ∙ absent)
                  (rw (enter_active_dir, hash_insert, e, ◌>>=◌, ==_refl ad) refl)
                  (added-Tracks at' es t' (record { pointer = ad; dir = dir }) here v'.stored
                    models)
                  n calm
            | failed t' absent crowded e models n ↦
                refused t' (same_dir here ∙ absent) crowded
                  (rw (enter_active_dir, hash_insert, e, ◌>>=◌) refl)
                  (record { models = models; stored = v'.stored })
            | overlapped t' absent crowded e models n stale ↦
                broken (same_dir here ∙ absent) crowded
                  (rw (enter_active_dir, hash_insert, e, ◌>>=◌) refl)
          ]
      where
        same_dir : {d d' : ActiveDir} → d' ≡ d → active d es ≡ active d' es
        same_dir h = ap (λ d. active d es) (sym h)

        not_equal : (x y : ℕ) → x ≢ y → (x == y) ≡ false
        not_equal x y h = ground (arith, h)

  -- The last directory that was entered is left.
  pub leave_active_dir_lem :
      (alloc : (k : ℕ) → base.obstack_alloc k ≡ true) (at : ℕ → ActiveDir) (e : Entry)
      (es : List Entry) (t : HashTable F) (obj : ℕ)
      → Tracks base at (e ∷ es) t
      → InStep t
      → ((u : HashTable F) → SameShape t u → is_sparse base u ≡ false)
      → active e.dir es ≡ none
      → IsFresh obj (e ∷ es)
      → let st : DevIno = record { st_ino = e.dir.ino; st_dev = e.dir.dev } in
        let at' = write_dir at obj (record (at obj) { dev = e.dir.dev; ino = e.dir.ino }) in
        (t' : HashTable F) × (leave_active_dir base at t obj st ≡ ok (e.pointer, at', t'))
        × Tracks base at' es t'
        × (t'.n_entries + 1 ≡ t.n_entries)
        × InStep t'
        × SameShape t t'
  unfolding leave_active_dir active AllStored is_alike is_sparse tuning_of default_values
  leave_active_dir_lem alloc at e es t obj v step dense absent fresh =
      let dir : ActiveDir = record (at obj) { dev = e.dir.dev; ino = e.dir.ino } in
      let at' = write_dir at obj dir in
      let v' = write_dir-Tracks base alloc at (e ∷ es) t obj dir fresh v in
      let here : at' obj ≡ dir = rw (==_refl obj) refl in
      let alike : is_alike (at' obj) e.dir ≡ true =
        ap (λ d. is_alike d e.dir) here ∙ ground (arith, ==_refl e.dir.ino, ==_refl e.dir.dev) in
      let f : ℕ → Option ℕ = λ q. active (at' q) (e ∷ es) in
      let itself : f obj ≡ some e.pointer = rw alike refl in
      let (t', q, models, n, _) =
        hash_remove_lem (active_env base at') (active_env-IsLawful base alloc at') f t obj v'.models
          step in
      let (t'', r, q', step', shape) =
        hash_remove-SameShape (active_env base at') (active_env-IsLawful base alloc at') f t obj
          v'.models step dense in
      let same_table : t'' ≡ t' = ap (λ (w : Option ℕ × HashTable F). w.1) (ok-inj (sym q' ∙ q)) in
      (
        t',
        rw (leave_active_dir, q, ◌>>=◌, itself) refl,
        removed-Tracks at' es t' e obj alike absent v'.stored.1 models,
        subst (λ o. t'.n_entries + found o ≡ t.n_entries) itself n,
        subst (λ (u : HashTable F). InStep u) same_table step',
        subst (λ (u : HashTable F). SameShape t u) same_table shape,
      )

  -- Let the table hold the active directories. Then free_dir frees as many structures as there are entries,
  -- and for each directory the one that is active, if there is one, and no other.
  free_active_dirs_lem :
      (alloc : (k : ℕ) → base.obstack_alloc k ≡ true) (at : ℕ → ActiveDir) (es : List Entry)
      (t : HashTable F)
      → Tracks base at es t
      → (length (free_active_dirs base at t) ≡ t.n_entries)
        × ((q : ℕ)
            → count (active_env base at) q (free_active_dirs base at t) ≡ found (active (at q) es))
  unfolding free_active_dirs
  free_active_dirs_lem alloc at es t v =
      hash_free_lem (active_env base at) (active_env-IsLawful base alloc at) (λ q. active (at q) es)
        t v.models
