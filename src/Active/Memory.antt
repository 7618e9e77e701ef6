-- ===== src/Active/Memory.antt =====
-- A write to memory that belongs to no active directory leaves what the table says of them.
use mathlib.Core.List.{Memᴰ}
use yalibct.Base.{
  ℕ, ◌+◌, ◌≤◌, ◌≡◌, ◌≢◌, ◌⊎◌, refl, ap, ap₂, sym, ◌∙◌, subst, Bool, true, ◌||◌, List, [], ◌∷◌, none,
  some, ◌==◌, get_or, arith, Option-cases, inl, inr, if◌then◌else◌,
}
use yalibct.Hash.State.{Env, HashTable}
use yalibct.Hash.Find.{same, scan}
use yalibct.Hash.Keys.{IsLawful, one, count, scan-same, same_refl, count-eq-zero}
use yalibct.Hash.Members.{count-Memᴰ, scan-Memᴰ, count-congr, self-Holds}
use yalibct.Hash.Buckets.{Holds, view}
use yalibct.Hash.Resize.{Models}
use yalibct.Hash.Place.{InStep}
use yalibct.Hash.Create.{Initializes, with_functions, or_else, none-ne, hash_initialize_lem}
use yalibct.Hash.Balance.{some-inj}
use yalibct.Active.{ActiveDir, ad_compare, ad_hash, write_dir, active_env, setup_active_dirs}
use yalibct.Active.Entries.{
  hash-compare, Entry, is_alike, active, AllStored, IsFresh, active-congr, write_dir-ne,
  active-stored, write_dir-AllStored,
}

module _ {F : Type 0} (base : Env F) where
  -- The table holds the active directories.
  pub record Tracks (at : ℕ → ActiveDir) (es : List Entry) (t : HashTable F) : Type 0 where
    pub models : Models (active_env base at) (λ q. active (at q) es) t
    pub stored : AllStored at es

  -- What setup_dir gives.
  pub setup-Tracks :
      (at : ℕ → ActiveDir) (malloc : Bool) (t : HashTable F)
      → setup_active_dirs base at malloc ≡ some (active_env base at, t)
      → Tracks at [] t × InStep t
  unfolding setup_active_dirs active AllStored Initializes with_functions or_else
  setup-Tracks at malloc t h =
      elim (hash_initialize_lem base 31 none (some (λ p n. ad_hash (at p) n))
        (some (λ p q. ad_compare (at p) (at q))) malloc) [
          | inl (gone, _) ↦ absurd (none-ne (sym gone ∙ h))
          | inr (t', there, _, models, step, _, _, _) ↦
              subst (λ (w : HashTable F). Tracks at [] w × InStep w)
                (ap (λ (w : Env F × HashTable F). w.1) (some-inj (sym there ∙ h)))
                (record { models = models; stored = tt }, step)
        ]

  module _ (alloc : (k : ℕ) → base.obstack_alloc k ≡ true) where
    pub active_env-IsLawful : (at : ℕ → ActiveDir) → IsLawful (active_env base at)
    unfolding same ad_compare ad_hash
    active_env-IsLawful at = record {
      same_sym = λ a b h. ground arith;
      same_trans = λ a b c h k. ground arith;
      hasher-same = λ a b n h. ground arith;
      hasher-lt = λ a n h. grind arith;
      alloc = alloc;
    }

    module _ (at : ℕ → ActiveDir) (es : List Entry) (t : HashTable F) (p : ℕ) (a : ActiveDir)
        (fresh : IsFresh p es) (tracks : Tracks at es t) where
      abbrev old : Env F
      old = active_env base at

      abbrev new : Env F
      new = active_env base (write_dir at p a)

      -- An entry of the table is active, so that it is not where the write goes.
      entry :
          (x i : ℕ)
          → Memᴰ x (get_or t.bucket i [])
          → (ad_hash (at x) t.n_buckets ≡ i)
            × (active (at x) es ≡ some x)
            × (write_dir at p a x ≡ at x)
      entry x i m =
          let (home, itself) =
            self-Holds (active_env base at) (active_env-IsLawful at) tracks.models.holds x i m in
          (
            home,
            itself,
            write_dir-ne at p a x (active-stored at (at x) es p x tracks.stored fresh itself).1,
          )

      same-write_dir :
          (q x : ℕ)
          → same new q x ≡ true
          → is_alike (write_dir at p a q) (write_dir at p a x) ≡ true
      unfolding same ad_compare is_alike
      same-write_dir q x h = ground (arith, h)

      compare-same :
          (q x : ℕ)
          → is_alike (write_dir at p a q) (write_dir at p a x) ≡ true
          → same new q x ≡ true
      unfolding same ad_compare is_alike
      compare-same q x h = ground (arith, h)

      chains :
          (q : ℕ) (b : List ℕ)
          → write_dir at p a q ≡ at q
          → ((x : ℕ) → Memᴰ x b → write_dir at p a x ≡ at x)
          → (count new q b ≡ count old q b) × (scan new q b ≡ scan old q b)
      unfolding count scan same
      chains q [] kept all = (refl, refl)
      chains q (d ∷ ds) kept all =
          let rest = chains q ds kept (λ x m. all x (Memᴰ.tail m)) in
          let now : same new q d ≡ same old q d =
            ap₂ (λ x y. (q == d) || ad_compare x y) kept (all d (Memᴰ.head refl)) in
          (ap₂ (λ s n. one s + n) now rest.0, ap₂ (λ s o. if s then some d else o) now rest.1)

      bucket_chains :
          (q i : ℕ)
          → write_dir at p a q ≡ at q
          → (count new q (get_or t.bucket i []) ≡ count old q (get_or t.bucket i []))
            × (scan new q (get_or t.bucket i []) ≡ scan old q (get_or t.bucket i []))
      bucket_chains q i kept = chains q (get_or t.bucket i []) kept (λ x m. (entry x i m).2)

      -- In a bucket is an entry for a directory, or none.
      found-or-none :
          (q i : ℕ)
          → (scan new q (get_or t.bucket i []) ≡ none) × (count new q (get_or t.bucket i []) ≡ 0)
            ⊎ ((x : ℕ) × (scan new q (get_or t.bucket i []) ≡ some x)
                × (same new q x ≡ true)
                × Memᴰ x (get_or t.bucket i [])
                × (count new q (get_or t.bucket i []) ≡ count old x (get_or t.bucket i [])))
      found-or-none q i = elim (Option-cases (scan new q (get_or t.bucket i []))) [
        | inl e ↦ inl (
          e,
          count-eq-zero new (active_env-IsLawful (write_dir at p a)) q q (get_or t.bucket i [])
              (same_refl new q) e,
        )
        | inr (x, e) ↦
            let m = scan-Memᴰ new q x (get_or t.bucket i []) e in
            let s =
              scan-same new (active_env-IsLawful (write_dir at p a)) q x (get_or t.bucket i []) e in
            inr (
              x,
              e,
              s,
              m,
              count-congr new (active_env-IsLawful (write_dir at p a)) q x (get_or t.bucket i []) s
                  ∙ (bucket_chains x i (entry x i m).2).0,
            )
      ]

      once : (q i : ℕ) → count new q (get_or t.bucket i []) ≤ 1
      once q i = elim (found-or-none q i) [
        | inl (_, zero_entries) ↦ omega (arith, zero_entries)
        | inr (x, _, _, m, e) ↦ omega (arith, e, tracks.models.holds.once x i)
      ]

      at_home :
          (q i : ℕ)
          → ad_hash (write_dir at p a q) t.n_buckets ≢ i
          → count new q (get_or t.bucket i []) ≡ 0
      at_home q i ne = elim (found-or-none q i) [
        | inl (_, zero_entries) ↦ zero_entries
        | inr (x, _, s, m, _) ↦
            let (home, _, kept) = entry x i m in
            absurd (
              ne (
                (active_env-IsLawful (write_dir at p a)).hasher-same q x t.n_buckets s
                ∙ ap (λ d. ad_hash d t.n_buckets) kept
                ∙ home))
      ]

      present :
          (q x : ℕ)
          → active (write_dir at p a q) es ≡ some x
          → 1 ≤ count new q (get_or t.bucket (ad_hash (write_dir at p a q) t.n_buckets) [])
      unfolding ad_hash
      present q x there =
          let (alike, apart) =
            active-stored at (write_dir at p a q) es p x tracks.stored fresh there in
          let kept = write_dir-ne at p a x apart in
          let itself = sym (active-congr (write_dir at p a q) (at x) es alike) ∙ there in
          let m = scan-Memᴰ old x x _ (tracks.models.holds.reads x ∙ itself) in
          let alike' = ap (λ d. is_alike (write_dir at p a q) d) kept ∙ alike in
          count-Memᴰ new q (compare-same q x alike') (
            subst (λ i. Memᴰ x (get_or t.bucket i []))
              (sym (hash-compare (write_dir at p a q) (at x) t.n_buckets alike)) m)

      reads : (q : ℕ) → view new t.n_buckets t.bucket q ≡ active (write_dir at p a q) es
      unfolding ad_hash
      reads q = elim (found-or-none q (ad_hash (write_dir at p a q) t.n_buckets)) [
        | inr (x, e, s, m, _) ↦
            let (_, itself, kept) = entry x _ m in
            e
            ∙ sym itself
            ∙ ap (λ d. active d es) (sym kept)
            ∙ sym (active-congr (write_dir at p a q) (write_dir at p a x) es (same-write_dir q x s))
        | inl (e, nothing) ↦ elim (Option-cases (active (write_dir at p a q) es)) [
          | inl absent ↦ e ∙ sym absent
          | inr (x, there) ↦ absurd (omega (arith, nothing, present q x there))
        ]
      ]

      moved-Holds :
          Holds new t.n_buckets t.n_entries t.n_buckets_used
            (λ q. active (write_dir at p a q) es)
            t.bucket
      unfolding ad_hash
      moved-Holds = record {
        width = tracks.models.holds.width;
        entries = tracks.models.holds.entries;
        busy = tracks.models.holds.busy;
        once = once;
        at_home = at_home;
        reads = reads;
      }

      pub write_dir-Tracks : Tracks (write_dir at p a) es t
      write_dir-Tracks = record {
        models = record { wide = tracks.models.wide; holds = moved-Holds };
        stored = write_dir-AllStored at p a es fresh tracks.stored;
      }
