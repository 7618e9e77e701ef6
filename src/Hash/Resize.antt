-- ===== src/Hash/Resize.antt =====
-- `hash_rehash` keeps what a table reads as.
use yalibct.Base.{
  ℕ, ◌+◌, ◌<◌, ◌≡◌, refl, sym, ◌∙◌, Bool, true, false, List, [], Option, none, ◌==◌, length,
  replicate, arith, Bool-cases, inl, inr, subst,
}
use yalibct.Hash.State.{ok, ◌>>=◌, Env, HashTable}
use yalibct.Hash.Tuning.{tuning_of, compute_bucket_size}
use yalibct.Hash.Keys.{IsLawful}
use yalibct.Hash.Buckets.{Holds, replicate-Holds}
use yalibct.Hash.Rehash.{transfer_entries, hash_rehash}
use yalibct.Hash.Place.{InStep}
use yalibct.Hash.Move.{order, transfer_buckets-Reads}
use yalibct.Hash.Order.{length-order, order-AllFresh, updates-order}

-- The invariant of a table that reads as `f`.
pub record Models {F : Type 0} (env : Env F) (f : ℕ → Option ℕ) (t : HashTable F) : Type 0 where
  pub wide : 0 < t.n_buckets
  pub holds : Holds env t.n_buckets t.n_entries t.n_buckets_used f t.bucket

-- A table of another size with the same contents and obstack.
pub record Resized {F : Type 0} (env : Env F) (f : ℕ → Option ℕ) (t t' : HashTable F) : Type 0 where
  pub models : Models env f t'
  pub entries : t'.n_entries ≡ t.n_entries
  pub obstack : t'.entry_stack ≡ t.entry_stack

module _ {F : Type 0} (env : Env F) where
  pub Holds-congr :
      {n total used : ℕ} {f g : ℕ → Option ℕ} {bs : List (List ℕ)}
      → ((q : ℕ) → f q ≡ g q)
      → Holds env n total used f bs
      → Holds env n total used g bs
  Holds-congr h t = record {
    width = t.width;
    entries = t.entries;
    busy = t.busy;
    once = t.once;
    at_home = t.at_home;
    reads = λ q. t.reads q ∙ h q;
  }

  pub Holds-counts :
      {n a b u w : ℕ} {f : ℕ → Option ℕ} {bs : List (List ℕ)}
      → a ≡ b
      → u ≡ w
      → Holds env n a u f bs
      → Holds env n b w f bs
  Holds-counts p q t = record {
    width = t.width;
    entries = t.entries ∙ p;
    busy = t.busy ∙ q;
    once = t.once;
    at_home = t.at_home;
    reads = t.reads;
  }

module _ {F : Type 0} (env : Env F) (law : IsLawful env) (t : HashTable F) (f : ℕ → Option ℕ)
    (v : Models env f t) where
  unchanged : Resized env f t t
  unchanged = record { models = v; entries = refl; obstack = refl }

  -- `hash_rehash` goes through, whatever it returns, and the table reads as before.
  pub hash_rehash-Resized :
      (candidate : ℕ)
      → InStep t
      → (done : Bool) × (t' : HashTable F) × (hash_rehash env t candidate ≡ ok (done, t'))
        × Resized env f t t'
  unfolding hash_rehash transfer_entries
  hash_rehash-Resized candidate step =
      let n = compute_bucket_size env candidate (tuning_of env t.tuning) in
      elim (Bool-cases (n == 0)) [
        | inl e ↦ (false, t, rw e refl, unchanged)
        | inr e ↦ elim (Bool-cases (n == t.n_buckets)) [
          | inl g ↦ (true, t, rw (e, g) refl, unchanged)
          | inr g ↦ elim (Bool-cases (env.calloc n)) [
            | inr c ↦ (false, t, rw (e, g, c) refl, unchanged)
            | inl c ↦
                let pos : 0 < n = ground arith in
                let empty : HashTable F = record t {
                  bucket = replicate n [];
                  n_buckets = n;
                  n_buckets_used = 0;
                  n_entries = 0;
                } in
                let (m, moved, whole, r, s) =
                  transfer_buckets-Reads env law n 0 t.bucket (λ q. none) empty pos
                    (record { size = refl; holds = replicate-Holds env n }) step
                    (order-AllFresh env law v.holds) in
                let total : 0 + length (order t.bucket) ≡ t.n_entries =
                  omega (arith, length-order t.bucket, v.holds.entries) in
                (
                  true,
                  record t {
                    bucket = m.dst.bucket;
                    n_buckets = m.dst.n_buckets;
                    n_buckets_used = m.dst.n_buckets_used;
                    free_entry_list = m.dst.free_entry_list;
                    made = m.dst.made;
                  },
                  rw (e, g, c, moved, ◌>>=◌, whole) refl,
                  record {
                    models = record {
                      wide = omega (arith, r.size);
                      holds =
                          subst (λ k. Holds env k t.n_entries m.dst.n_buckets_used f m.dst.bucket)
                            (sym r.size)
                            (subst (λ k. Holds env n k m.dst.n_buckets_used f m.dst.bucket) total
                              (Holds-congr env (updates-order env law v.holds) r.holds));
                    };
                    entries = refl;
                    obstack = refl;
                  },
                )
          ]
        ]
      ]
