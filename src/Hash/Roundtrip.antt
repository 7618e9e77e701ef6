-- ===== src/Hash/Roundtrip.antt =====
-- What `hash_lookup` finds behind an insertion and behind the removal of the same entry.
use mathlib.Core.Bool.{true≢false}
use yalibct.Base.{
  ℕ, ◌≡◌, ◌≢◌, refl, sym, ap, ◌∙◌, false, Option, none, some, Bool-cases, inl, inr, if◌then◌else◌,
}
use yalibct.Base.Int.{pos}
use yalibct.Hash.State.{ok, Env, HashTable}
use yalibct.Hash.Tuning.{is_crowded}
use yalibct.Hash.Find.{same, hash_lookup}
use yalibct.Hash.Keys.{IsLawful, same_refl}
use yalibct.Hash.Buckets.{update, reads-congr}
use yalibct.Hash.Place.{InStep}
use yalibct.Hash.Balance.{ok-inj}
use yalibct.Hash.Create.{none-ne}
use yalibct.Hash.Resize.{Models}
use yalibct.Hash.Lookup.{hash_lookup_lem}
use yalibct.Hash.Insert.{present, added, failed, overlapped, hash_insert_if_absent_lem}
use yalibct.Hash.Remove.{hash_remove_lem}
use yalibct.Hash.Operations.{hash_insert_if_absent, hash_remove}

module _ {F : Type 0} (env : Env F) (law : IsLawful env) (f : ℕ → Option ℕ) (t : HashTable F)
    (e : ℕ) (v : Models env f t) (step : InStep t) (entry : e ≢ 0) (calm : is_crowded env t ≡ false)
    (new : hash_lookup env t e ≡ ok none) where
  absent : f e ≡ none
  absent = ok-inj (sym (hash_lookup_lem env law t f v e) ∙ new)

  lookup_added :
      (t' : HashTable F)
      → Models env (update env f e (some e)) t'
      → (q : ℕ) → hash_lookup env t' q ≡ (if same env q e then ok (some e) else hash_lookup env t q)
  lookup_added t' w q = elim (Bool-cases (same env q e)) [
    | inl s ↦ rw s (hash_lookup_lem env law t' (update env f e (some e)) w q ∙ rw s refl)
    | inr s ↦ rw s (
        hash_lookup_lem env law t' (update env f e (some e)) w q
        ∙ rw s (sym (hash_lookup_lem env law t f v q)))
  ]

  lookup_removed :
      (t'' : HashTable F)
      → Models env (update env (update env f e (some e)) e none) t''
      → (q : ℕ) → hash_lookup env t'' q ≡ hash_lookup env t q
  lookup_removed t'' w q =
      hash_lookup_lem env law t'' (update env (update env f e (some e)) e none) w q
      ∙ elim (Bool-cases (same env q e)) [
        | inl s ↦ rw s (ap ok (sym (reads-congr env law v.holds q e s ∙ absent)))
        | inr s ↦ rw s refl
      ]
      ∙ sym (hash_lookup_lem env law t f v q)

  -- Let a table be in order, with its obstack in step and not crowded, and let hash_lookup not find an entry,
  -- which is not null. Then the insertion of the entry succeeds, after which hash_lookup gives the entry for
  -- what is the same as it and what it gave before for all else; and its removal then returns the entry,
  -- after which hash_lookup gives for everything what it gave in the first place.
  pub hash_lookup-hash_insert_if_absent :
      (t' t'' : HashTable F) × (hash_insert_if_absent env t e ≡ ok (pos 1, none, t'))
      × ((q : ℕ)
          → hash_lookup env t' q ≡ (if same env q e then ok (some e) else hash_lookup env t q))
      × (hash_remove env t' e ≡ ok (some e, t''))
      × ((q : ℕ) → hash_lookup env t'' q ≡ hash_lookup env t q)
  hash_lookup-hash_insert_if_absent = elim (hash_insert_if_absent_lem env law f t e v step entry) [
    | present d there q ↦ absurd (none-ne (sym absent ∙ there))
    | failed t' _ crowded q w n ↦ absurd (true≢false (sym crowded ∙ calm))
    | overlapped t' _ crowded q w n stale ↦ absurd (true≢false (sym crowded ∙ calm))
    | added t' _ q w n kept ↦
        let itself : update env f e (some e) e ≡ some e = rw (same_refl env e) refl in
        let (t'', removed, w', _, _) =
          hash_remove_lem env law (update env f e (some e)) t' e w (kept calm).0 in
        (
          t',
          t'',
          q,
          lookup_added t' w,
          removed ∙ ap (λ o. ok (o, t'')) itself,
          lookup_removed t'' w',
        )
  ]
