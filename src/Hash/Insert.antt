-- ===== src/Hash/Insert.antt =====
-- `hash_insert_if_absent` on a table that reads as `f`.
use yalibct.Base.{
  ℕ, ◌+◌, ◌-◌, ◌<◌, ◌≡◌, ◌≢◌, refl, sym, ap, ◌∙◌, subst, true, false, [], ◌∷◌, Option, none, some,
  ◌==◌, arith, Bool-cases, Option-cases, inl, inr, ◌⊎◌, ltb, ltb→lt,
}
use yalibct.Base.Int.{ℤ, pos, negsuc}
use yalibct.Hash.State.{Run, ok, reused, ◌>>=◌, Env, HashTable}
use yalibct.Hash.Prime.{size_max}
use yalibct.Hash.Tuning.{check_tuning, checked, is_crowded, growth_candidate}
use yalibct.Hash.Keys.{IsLawful}
use yalibct.Hash.Buckets.{chain_of, update}
use yalibct.Hash.Rehash.{put_bucket, allocate_entry}
use yalibct.Hash.Place.{InStep, List-cases, insert_head-Holds, insert_second-Holds}
use yalibct.Hash.Resize.{Models, Resized, hash_rehash-Resized}
use yalibct.Hash.Lookup.{hash_find_entry-keep}
use yalibct.Hash.Operations.{grow, grow_if_crowded, add_entry, hash_insert_if_absent}

-- The number of buckets and the tuning are the same.
abbrev pub SameShape : {F : Type 0} → HashTable F → HashTable F → Type 0
SameShape t t' = (t'.n_buckets ≡ t.n_buckets) × (t'.tuning ≡ t.tuning)

-- The obstack of a table would give an entry that was given out before, and no entry is free.
pub record IsStale {F : Type 0} (t : HashTable F) : Type 0 where
  pub behind : t.entry_stack < t.made
  pub none_free : t.free_entry_list ≡ 0

module _ {F : Type 0} (env : Env F) (law : IsLawful env) where
  allocate_entry-cases :
      (t : HashTable F)
      → ((free stack made : ℕ) × (allocate_entry env t
            ≡ ok (some (record t { free_entry_list = free; entry_stack = stack; made = made })))
          × (InStep t → stack ≡ made))
        ⊎ ((allocate_entry env t ≡ reused) × IsStale t)
  unfolding allocate_entry
  allocate_entry-cases t = elim (Bool-cases (t.free_entry_list == 0)) [
    | inr e ↦ inl (t.free_entry_list - 1, t.entry_stack, t.made, ground arith, λ s. s)
    | inl e ↦ elim (Bool-cases (ltb t.entry_stack t.made)) [
      | inl l ↦ inr (
        ground (arith, law.alloc t.entry_stack),
        record { behind = ltb→lt t.entry_stack t.made l; none_free = ground arith },
      )
      | inr l ↦ inl (
        t.free_entry_list,
        t.entry_stack + 1,
        t.made + 1,
        ground (arith, law.alloc t.entry_stack),
        λ s. omega (arith, s),
      )
    ]
  ]

  -- What the last part of the insertion does.
  pub data Adds (f : ℕ → Option ℕ) (t : HashTable F) (e : ℕ) (r : Run (ℤ × Option ℕ × HashTable F))
      : Type 0 where
    adds :
        (t' : HashTable F)
        → r ≡ ok (pos 1, none, t')
        → Models env (update env f e (some e)) t'
        → t'.n_entries ≡ t.n_entries + 1
        → (InStep t → InStep t')
        → SameShape t t'
        → Adds f t e r
    overlaps : r ≡ reused → IsStale t → Adds f t e r

  add_entry-Adds :
      (f : ℕ → Option ℕ) (t : HashTable F) (e : ℕ)
      → Models env f t
      → f e ≡ none
      → Adds f t e (add_entry env t (env.hasher e t.n_buckets) e)
  unfolding add_entry
  add_entry-Adds f t e v absent =
      let i = env.hasher e t.n_buckets in
      elim (List-cases (chain_of env t.n_buckets t.bucket e)) [
        | inl o ↦
            adds
              (record (put_bucket t i (e ∷ [])) {
                n_entries = t.n_entries + 1;
                n_buckets_used = t.n_buckets_used + 1;
              })
              (rw (add_entry, o) refl)
              (record {
                wide = v.wide;
                holds =
                    insert_head-Holds env law t.n_buckets t.n_entries t.n_buckets_used e f t.bucket
                      v.wide v.holds absent o;
              })
              refl (λ s. s) (refl, refl)
        | inr (h, ds, o) ↦ elim (allocate_entry-cases t) [
          | inr (gone, stale) ↦ overlaps (rw (add_entry, o, gone) refl) stale
          | inl (free, stack, made, given, step) ↦
              adds
                (record (put_bucket
                  (record t { free_entry_list = free; entry_stack = stack; made = made }) i
                  (h ∷ e ∷ ds)) { n_entries = t.n_entries + 1 })
                (rw (add_entry, o, given) refl)
                (record {
                  wide = v.wide;
                  holds =
                      insert_second-Holds env law t.n_buckets t.n_entries t.n_buckets_used e h ds f
                        t.bucket v.wide v.holds absent o;
                })
                refl step (refl, refl)
        ]
      ]

  -- All that an insertion of `e` into a table that reads as `f` can do.
  pub data Inserts (f : ℕ → Option ℕ) (t : HashTable F) (e : ℕ)
      (r : Run (ℤ × Option ℕ × HashTable F)) : Type 0 where
    present : (d : ℕ) → f e ≡ some d → r ≡ ok (pos 0, some d, t) → Inserts f t e r
    added :
        (t' : HashTable F)
        → f e ≡ none
        → r ≡ ok (pos 1, none, t')
        → Models env (update env f e (some e)) t'
        → t'.n_entries ≡ t.n_entries + 1
        → (is_crowded env t ≡ false → InStep t' × SameShape t t')
        → Inserts f t e r
    failed :
        (t' : HashTable F)
        → f e ≡ none
        → is_crowded env t ≡ true
        → r ≡ ok (negsuc 0, none, t')
        → Models env f t'
        → t'.n_entries ≡ t.n_entries
        → Inserts f t e r
    overlapped :
        (t' : HashTable F)
        → f e ≡ none
        → is_crowded env t ≡ true
        → r ≡ reused
        → Models env f t'
        → t'.entry_stack ≡ t.entry_stack
        → IsStale t'
        → Inserts f t e r

  module _ (f : ℕ → Option ℕ) (t : HashTable F) (e : ℕ) (v : Models env f t) (step : InStep t) where
    -- The part for growth: it fails and leaves the contents, or goes on in a table with the contents.
    grow-cases :
        f e ≡ none
        → ((t' : HashTable F) × (grow env t e ≡ ok (false, t', 0)) × Resized env f t t')
          ⊎ ((t' : HashTable F) × (grow env t e ≡ ok (true, t', env.hasher e t'.n_buckets))
              × Resized env f t t')
    unfolding grow
    grow-cases absent =
        elim (Bool-cases (env.floats.le (env.floats.of_size size_max) (growth_candidate env t))) [
          | inl big ↦ inl (t, rw big refl, record { models = v; entries = refl; obstack = refl })
          | inr fits ↦
              let (done, t', moved, z) =
                hash_rehash-Resized env law t f v (env.floats.to_size (growth_candidate env t))
                  step in
              elim (Bool-cases done) [
                | inr d ↦ inl (t', rw (fits, moved, ◌>>=◌, d) refl, z)
                | inl d ↦ inr (
                  t',
                  rw
                      (
                        fits,
                        moved,
                        ◌>>=◌,
                        d,
                        hash_find_entry-keep env law t' f z.models e,
                        ◌>>=◌,
                        absent,
                      )
                      refl,
                  z,
                )
              ]
        ]

  -- `hash_insert_if_absent` of an entry that is not null does one of four things, and only where the table
  -- is crowded can it fail or meet an entry of the obstack that is in use.
  module _ (f : ℕ → Option ℕ) (t : HashTable F) (e : ℕ) (v : Models env f t) (step : InStep t) where
    from-Adds :
        (r : Run (ℤ × Option ℕ × HashTable F)) (t' : HashTable F)
        → f e ≡ none
        → Resized env f t t'
        → ((is_crowded env t ≡ true) ⊎ (t' ≡ t))
        → Adds f t' e r
        → Inserts f t e r
    from-Adds r t' absent z w (adds t'' q m n s shape) =
        added t'' absent q m (n ∙ ap (λ (k : ℕ). k + 1) z.entries) (λ calm. elim w [
          | inl crowded ↦ absurd (ground arith)
          | inr same_table ↦ (
            s (subst (λ u. InStep u) (sym same_table) step),
            subst (λ u. SameShape u t'') same_table shape,
          )
        ])
    from-Adds r t' absent z (inl crowded) (overlaps q stale) =
        overlapped t' absent crowded q z.models z.obstack stale
    from-Adds r t' absent z (inr same_table) (overlaps q stale) =
        let b = stale.behind in
        absurd (omega (arith, z.obstack, step, ap (λ (u : HashTable F). u.made) same_table))

    pub hash_insert_if_absent_lem : e ≢ 0 → Inserts f t e (hash_insert_if_absent env t e)
    unfolding hash_insert_if_absent grow_if_crowded check_tuning
    hash_insert_if_absent_lem entry =
        let ne : (e == 0) ≡ false = ground arith in
        let found = hash_find_entry-keep env law t f v e in
        let retuned : HashTable F = record t { tuning = (checked env t.tuning).0 } in
        let v' : Models env f retuned = record { wide = v.wide; holds = v.holds } in
        elim (Option-cases (f e)) [
          | inr (d, there) ↦
              present d there (rw (hash_insert_if_absent, ne, found, ◌>>=◌, there) refl)
          | inl absent ↦ elim (Bool-cases (is_crowded env t)) [
            | inr calm ↦
                from-Adds _ t absent (record { models = v; entries = refl; obstack = refl })
                  (inr refl)
                  (rw
                    (hash_insert_if_absent, ne, found, ◌>>=◌, absent, grow_if_crowded, calm, ◌>>=◌)
                    (add_entry-Adds f t e v absent))
            | inl crowded ↦ elim (Bool-cases (is_crowded env retuned)) [
              | inr calm ↦
                  from-Adds _ retuned absent
                    (record { models = v'; entries = refl; obstack = refl }) (inl crowded)
                    (rw
                      (
                        hash_insert_if_absent, ne, found, ◌>>=◌, absent, grow_if_crowded, crowded,
                        calm, ◌>>=◌,
                      )
                      (add_entry-Adds f retuned e v' absent))
              | inl still ↦ elim (grow-cases f retuned e v' step absent) [
                | inl (t', q, z) ↦
                    failed t' absent crowded
                      (rw
                        (
                          hash_insert_if_absent, ne, found, ◌>>=◌, absent, grow_if_crowded, crowded,
                          still, q, ◌>>=◌,
                        )
                        refl)
                      z.models z.entries
                | inr (t', q, z) ↦
                    from-Adds _ t' absent
                      (record { models = z.models; entries = z.entries; obstack = z.obstack })
                      (inl crowded)
                      (rw
                        (
                          hash_insert_if_absent, ne, found, ◌>>=◌, absent, grow_if_crowded, crowded,
                          still, q, ◌>>=◌,
                        )
                        (add_entry-Adds f t' e z.models absent))
              ]
            ]
          ]
        ]
