-- ===== src/Obstack/Layout.antt =====
-- The chunks of an obstack, and how the objects lie in them.
use yalibct.Base.{
  ℕ, ◌+◌, ◌≤◌, ◌<◌, ◌^◌, ◌≡◌, refl, ◌⊎◌, inl, inr, Bool, true, false, List, [], ◌∷◌, Option, length,
  arith,
}
use yalibct.Obstack.{Chunk, chunk_base, write}
use yalibct.Obstack.Align.{IsAligned}
use yalibct.Obstack.Memory.{Holds, Holds-write}

-- A finished object: its address, and its cells.
pub record Object : Type 0 where
  pub at : ℕ
  pub cells : List (Option ℕ)

-- A region is outside the chunks.
unfoldable pub IsApart : ℕ → ℕ → List Chunk → Type 0
IsApart lo hi [] = Unit
IsApart lo hi (c ∷ cs) = ((hi ≤ c.address) ⊎ (c.limit ≤ lo)) × IsApart lo hi cs

-- The chunks have room for an object's base, and are apart.
unfoldable pub IsChain : ℕ → List Chunk → Type 0
IsChain a [] = Unit
IsChain a (c ∷ cs) =
    (c.address < chunk_base a c.address)
    × (chunk_base a c.address ≤ c.limit)
    × (c.limit < 2 ^ 63)
    × IsApart c.address c.limit cs
    × IsChain a cs

-- The finished objects, the last one first: below `upper` in the first chunk, and then in the others. An
-- object in the first chunk has a cell at least unless `maybe_empty`. It is aligned, or at the very end of
-- its chunk.
pub data Layout (a : ℕ) : List Chunk → ℕ → Bool → List Object → Type 0 where
  object :
      {c : Chunk} {cs : List Chunk} {upper : ℕ} {maybe_empty : Bool} {os : List Object}
      → (o : Object) → chunk_base a c.address ≤ o.at
      → o.at + length o.cells ≤ upper
      → (maybe_empty ≡ false → 0 < length o.cells)
      → IsAligned a o.at ⊎ (o.at ≡ c.limit)
      → Layout a (c ∷ cs) o.at maybe_empty os
      → Layout a (c ∷ cs) upper maybe_empty (o ∷ os)
  first :
      {c c' : Chunk} {cs : List Chunk} {upper : ℕ} {maybe_empty : Bool} {os : List Object}
      → Layout a (c' ∷ cs) c'.limit true os
      → Layout a (c ∷ c' ∷ cs) upper maybe_empty os
  none_older : {c : Chunk} {upper : ℕ} {maybe_empty : Bool} → Layout a (c ∷ []) upper maybe_empty []

-- The objects in memory.
unfoldable pub AllHold : (ℕ → ℕ) → List Object → Type 0
AllHold m [] = Unit
AllHold m (o ∷ os) = Holds m o.at o.cells × AllHold m os

pub Layout-weaken :
    (a : ℕ) {cs : List Chunk} {u u' : ℕ} {e e' : Bool} {os : List Object}
    → u ≤ u'
    → (e' ≡ false → e ≡ false)
    → Layout a cs u e os
    → Layout a cs u' e' os
Layout-weaken a le f (object o low high full aligned l) =
    object o low (omega (arith, le, high)) (λ g. full (f g)) aligned
      (Layout-weaken a (omega arith) f l)
Layout-weaken a le f (first l) = first l
Layout-weaken a le f none_older = none_older

-- A chunk whose objects have no room holds none.
pub Layout-drop :
    (a : ℕ) (c : Chunk) (cs : List Chunk) (u : ℕ) {os : List Object}
    → u ≤ chunk_base a c.address
    → Layout a (c ∷ cs) u false os
    → ((cs ≡ []) × (os ≡ []))
      ⊎ ((c' : Chunk) × (cs' : List Chunk) × (cs ≡ c' ∷ cs') × Layout a (c' ∷ cs') c'.limit true os)
Layout-drop a c cs u le (object o low high full aligned l) =
    absurd (omega (arith, le, low, high, full refl))
Layout-drop a c cs u le (first {c' = c'} {cs = cs'} l) = inr (c', cs', refl, l)
Layout-drop a c cs u le none_older = inl (refl, refl)

-- A write outside the chunks changes no object.
pub AllHold-apart :
    (a lo hi p : ℕ) (m : ℕ → ℕ) (xs : List ℕ) (c : Chunk) (cs : List Chunk) (u : ℕ) (e : Bool)
    (os : List Object)
    → Layout a (c ∷ cs) u e os
    → u ≤ c.limit
    → IsChain a (c ∷ cs)
    → IsApart lo hi (c ∷ cs)
    → lo ≤ p
    → p + length xs ≤ hi
    → AllHold m os
    → AllHold (write m p xs) os
unfolding AllHold IsChain IsApart
AllHold-apart a lo hi p m xs c cs u e (o ∷ os) (object _ low high full aligned l) under chain apart
      after before h =
    (
      Holds-write m p xs o.at o.cells
          (elim (apart.0) [
            | inl over ↦ inr (omega (arith, over, before, chain.0, low))
            | inr below ↦ inl (omega (arith, below, after, high, under))
          ])
          h.0,
      AllHold-apart a lo hi p m xs c cs o.at e os l (omega (arith, high, under)) chain apart after
          before h.1,
    )
AllHold-apart a lo hi p m xs c (c' ∷ cs) u e os (first l) under chain apart after before h =
    AllHold-apart a lo hi p m xs c' cs c'.limit true os l (omega arith) chain.4 apart.1 after before
      h
AllHold-apart a lo hi p m xs c cs u e os none_older under chain apart after before h = tt

-- A write into the first chunk, behind its objects.
pub AllHold-write :
    (a p : ℕ) (m : ℕ → ℕ) (xs : List ℕ) (c : Chunk) (cs : List Chunk) (u : ℕ) (e : Bool)
    (os : List Object)
    → Layout a (c ∷ cs) u e os
    → IsChain a (c ∷ cs)
    → c.address ≤ p
    → u ≤ p
    → p + length xs ≤ c.limit
    → AllHold m os
    → AllHold (write m p xs) os
unfolding AllHold IsChain
AllHold-write a p m xs c cs u e (o ∷ os) (object _ low high full aligned l) chain inside after
      before h =
    (
      Holds-write m p xs o.at o.cells (inl (omega (arith, high, after))) h.0,
      AllHold-write a p m xs c cs o.at e os l chain inside (omega (arith, high, after)) before h.1,
    )
AllHold-write a p m xs c (c' ∷ cs) u e os (first l) chain inside after before h =
    AllHold-apart a c.address c.limit p m xs c' cs c'.limit true os l (omega arith) chain.4 chain.3
      inside before h
AllHold-write a p m xs c cs u e os none_older chain inside after before h = tt
