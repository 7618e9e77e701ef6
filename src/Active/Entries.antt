-- ===== src/Active/Entries.antt =====
-- Lists of the directories that are active, which the hash table stands for.
use yalibct.Base.{
  ℕ, ◌≡◌, ◌≢◌, refl, ap, sym, ◌∙◌, Bool, true, false, ◌&&◌, List, [], ◌∷◌, Option, none, some, ◌==◌,
  arith, Bool-cases, inl, inr, if◌then◌else◌,
}
use yalibct.Active.{ActiveDir, ad_hash, write_dir}

-- A directory that was entered and not left: its structure, and where that is.
pub record Entry : Type 0 where
  pub pointer : ℕ
  pub dir : ActiveDir

-- The same device and inode number
unfoldable pub is_alike : ActiveDir → ActiveDir → Bool
is_alike j k = (j.dev == k.dev) && (j.ino == k.ino)

-- The active directory with the device and the number of one, if there is one.
unfoldable pub active : ActiveDir → List Entry → Option ℕ
active k [] = none
active k (e ∷ es) = if is_alike k e.dir then some e.pointer else active k es

unfoldable pub AllStored : (ℕ → ActiveDir) → List Entry → Type 0
AllStored at [] = Unit
AllStored at (e ∷ es) = (at e.pointer ≡ e.dir) × AllStored at es

unfoldable pub IsFresh : ℕ → List Entry → Type 0
IsFresh p [] = Unit
IsFresh p (e ∷ es) = (e.pointer ≢ p) × IsFresh p es

pub active-congr :
    (j k : ActiveDir) (es : List Entry) → is_alike j k ≡ true → active j es ≡ active k es
unfolding active is_alike
active-congr j k [] h = refl
active-congr j k (e ∷ es) h = ground (arith, h, active-congr j k es h)

pub hash-compare : (j k : ActiveDir) (n : ℕ) → is_alike j k ≡ true → ad_hash j n ≡ ad_hash k n
unfolding is_alike ad_hash
hash-compare j k n h = ground (arith, h)

pub write_dir-ne :
    (at : ℕ → ActiveDir) (p : ℕ) (a : ActiveDir) (q : ℕ) → q ≢ p → write_dir at p a q ≡ at q
write_dir-ne at p a q h = rw (ne) refl
  where
    ne : (q == p) ≡ false
    ne = ground (arith, h)

pub active-stored :
    (at : ℕ → ActiveDir) (k : ActiveDir) (es : List Entry) (p x : ℕ)
    → AllStored at es
    → IsFresh p es
    → active k es ≡ some x
    → (is_alike k (at x) ≡ true) × (x ≢ p)
unfolding active AllStored IsFresh
active-stored at k [] p x stored fresh h = absurd (ground arith)
active-stored at k (e ∷ es) p x stored fresh h = elim (Bool-cases (is_alike k e.dir)) [
  | inl s ↦
      let same_pointer : e.pointer ≡ x = ground (arith, s, h) in
      (
        ap (λ y. is_alike k (at y)) (sym same_pointer) ∙ ap (λ d. is_alike k d) stored.0 ∙ s,
        λ (q : x ≡ p). fresh.0 (same_pointer ∙ q),
      )
  | inr s ↦ active-stored at k es p x stored.1 fresh.1 (ground (arith, s, h))
]

pub write_dir-AllStored :
    (at : ℕ → ActiveDir) (p : ℕ) (a : ActiveDir) (es : List Entry)
    → IsFresh p es
    → AllStored at es
    → AllStored (write_dir at p a) es
unfolding AllStored IsFresh
write_dir-AllStored at p a [] fresh stored = tt
write_dir-AllStored at p a (e ∷ es) fresh stored = (
  write_dir-ne at p a e.pointer fresh.0 ∙ stored.0,
  write_dir-AllStored at p a es fresh.1 stored.1,
)
