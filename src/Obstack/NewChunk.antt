-- ===== src/Obstack/NewChunk.antt =====
-- What `_obstack_newchunk` keeps.
use yalibct.Base.{
  ℕ, ◌+◌, ◌^◌, ◌≤◌, ◌<◌, ◌≡◌, refl, sym, subst, ◌⊎◌, inl, inr, Bool, true, false, not, ◌&&◌, List,
  [], ◌∷◌, Option, some, ltb, ◌==◌, length, arith, Bool-cases, Option-cases, if◌then◌else◌,
}
use mathlib.Core.Bool.{true≢false}
use yalibct.Obstack.{
  Run, ok, failed, World, Chunk, Obstack, chunk_base, pointer_difference, read, write,
  newchunk_size, move_object, obstack_newchunk,
}
use yalibct.Obstack.Align.{IsMask, IsAligned, mask_small, ptr_align_lem}
use yalibct.Obstack.Memory.{Holds, Holds-copy, write-read, length-read}
use yalibct.Obstack.Layout.{
  Object, IsApart, IsChain, Layout, first, none_older, Layout-weaken, Layout-drop, AllHold,
  AllHold-apart,
}

-- What `chunkfun` is documented to give: a region of the size, below the upper half of the addresses,
-- outside the chunks in use.
unfoldable pub IsAllocator : (ℕ → List Chunk → ℕ → Option ℕ) → Type 0
IsAllocator chunkfun =
    (calls : ℕ) (live : List Chunk) (n a : ℕ)
    → chunkfun calls live n ≡ some a
    → (a + n < 2 ^ 63) × IsApart a (a + n) live

-- The state with its finished objects and the cells of the object that grows.
pub record IsValid (w : World) (h : Obstack) (os : List Object) (growing : List (Option ℕ))
    : Type 0 where
  pub mask : IsMask h.alignment_mask
  pub limit : h.chunk_limit ≡ h.chunk.limit
  pub chain : IsChain h.alignment_mask (h.chunk ∷ h.prev)
  pub low : chunk_base h.alignment_mask h.chunk.address ≤ h.object_base
  pub next : h.next_free ≡ h.object_base + length growing
  pub high : h.next_free ≤ h.chunk.limit
  pub aligned : IsAligned h.alignment_mask h.object_base ⊎ (h.object_base ≡ h.chunk.limit)
  pub layout : Layout h.alignment_mask (h.chunk ∷ h.prev) h.object_base h.maybe_empty_object os
  pub objects : AllHold w.memory os
  pub grown : Holds w.memory h.object_base growing

module _ (w : World) (h : Obstack) (os : List Object) (growing : List (Option ℕ))
    (v : IsValid w h os growing) where
  low_limit : h.chunk.limit < 2 ^ 63
  unfolding IsChain
  low_limit = v.chain.2

  obj_size : pointer_difference h.next_free h.object_base ≡ length growing
  obj_size = omega (arith, v.next, v.high, low_limit)

  newchunk_size_lem :
      (len a : ℕ)
      → len < 2 ^ 64
      → (newchunk_size h len).1 ≡ true
      → a + (newchunk_size h len).0 < 2 ^ 63
      → length growing + len + h.alignment_mask + 16 ≤ (newchunk_size h len).0
  unfolding newchunk_size
  newchunk_size_lem len a small fits room =
      ground
        (arith, obj_size, mask_small h.alignment_mask v.mask, v.next, v.high, low_limit, fits, room)

  pub newchunk_size_fits :
      (len : ℕ) → length growing + len + h.alignment_mask < 2 ^ 64 → (newchunk_size h len).1 ≡ true
  unfolding newchunk_size
  newchunk_size_fits len sum = ground (arith, obj_size, sum)

  module _ (w₁ : World) (same : w₁.memory ≡ w.memory) (a n len : ℕ) (room : a + n < 2 ^ 63)
      (apart : IsApart a (a + n) (h.chunk ∷ h.prev))
      (enough : length growing + len + h.alignment_mask + 16 ≤ n) where
    base : ℕ
    base = chunk_base h.alignment_mask a

    base_bounds :
        (a + 16 ≤ base) × (base ≤ a + 16 + h.alignment_mask) × IsAligned h.alignment_mask base
    unfolding base
    base_bounds = ptr_align_lem h.alignment_mask (a + 16) v.mask (omega (arith, room, enough))

    only : Bool
    only =
        not h.maybe_empty_object && (h.object_base == chunk_base h.alignment_mask h.chunk.address)

    moved : World
    moved = record w₁ {
      memory = write w₁.memory base (read w₁.memory h.object_base (length growing));
    }

    new_chunk : Chunk
    new_chunk = record { address = a; limit = a + n }

    resulting : Obstack
    resulting = record h {
      chunk = new_chunk;
      prev = if only then h.prev else h.chunk ∷ h.prev;
      object_base = base;
      next_free = base + length growing;
      chunk_limit = a + n;
      maybe_empty_object = false;
    }

    move_object_ok : move_object w₁ h new_chunk ≡ ok (moved, resulting)
    unfolding move_object moved resulting base only new_chunk
    move_object_ok = rw (move_object, obj_size, fits) refl
      where
        fits : ltb (a + n) (chunk_base h.alignment_mask a + length growing) ≡ false
        fits = ground (arith, base_bounds.1, enough)

    kept_objects : AllHold moved.memory os
    unfolding moved base
    kept_objects =
        AllHold-apart h.alignment_mask a (a + n) base w₁.memory
          (read w₁.memory h.object_base (length growing)) h.chunk h.prev h.object_base
          h.maybe_empty_object os v.layout (omega (arith, v.next, v.high)) v.chain apart
          (omega (arith, base_bounds.0))
          (omega
            (arith, base_bounds.1, enough, length-read w₁.memory h.object_base (length growing)))
          (subst (λ m. AllHold m os) (sym same) v.objects)

    kept_growing : Holds moved.memory base growing
    unfolding moved
    kept_growing =
        Holds-copy w₁.memory moved.memory h.object_base base growing
          (write-read w₁.memory w₁.memory h.object_base base (length growing))
          (subst (λ m. Holds m h.object_base growing) (sym same) v.grown)

    -- The chain and the layout without and with the old chunk.
    IsChain-prev :
        (prev : List Chunk)
        → IsApart a (a + n) prev
        → IsChain h.alignment_mask prev
        → IsChain h.alignment_mask (new_chunk ∷ prev)
    unfolding IsChain new_chunk base
    IsChain-prev prev outside older =
        (omega (arith, base_bounds.0), omega (arith, base_bounds.1, enough), room, outside, older)

    older-IsChain : IsChain h.alignment_mask h.prev
    unfolding IsChain
    older-IsChain = v.chain.4

    older-IsApart : IsApart a (a + n) h.prev
    unfolding IsApart
    older-IsApart = apart.1

    layout-for :
        (b : Bool)
        → only ≡ b
        → IsChain h.alignment_mask (new_chunk ∷ (if b then h.prev else h.chunk ∷ h.prev))
          × Layout h.alignment_mask
              (new_chunk ∷ (if b then h.prev else h.chunk ∷ h.prev))
              base
              false
              os
    unfolding only
    layout-for false e = (
      IsChain-prev (h.chunk ∷ h.prev) apart v.chain,
      first (
          Layout-weaken h.alignment_mask (omega (arith, v.next, v.high))
            (λ g. absurd (true≢false g)) v.layout),
    )
    layout-for true e = (
      IsChain-prev h.prev older-IsApart older-IsChain,
      elim (Layout-drop h.alignment_mask h.chunk h.prev h.object_base (omega (arith, bottom))
          (Layout-weaken h.alignment_mask (omega arith) (λ _. empty) v.layout)) [
            | inl (alone, no_objects) ↦
                subst (λ cs. Layout h.alignment_mask (new_chunk ∷ cs) base false os) (sym alone)
                  (subst (λ l. Layout h.alignment_mask (new_chunk ∷ []) base false l)
                    (sym no_objects) none_older)
            | inr (c', cs', link, l) ↦
                subst (λ cs. Layout h.alignment_mask (new_chunk ∷ cs) base false os) (sym link)
                  (first l)
          ],
    )
      where
        empty : h.maybe_empty_object ≡ false
        empty = ground (arith, e)

        bottom : h.object_base ≡ chunk_base h.alignment_mask h.chunk.address
        bottom = ground (arith, e)

    kept_layout :
        IsChain h.alignment_mask (new_chunk ∷ resulting.prev)
        × Layout h.alignment_mask (new_chunk ∷ resulting.prev) base false os
    unfolding resulting
    kept_layout = layout-for only refl

    moved-IsValid : IsValid moved resulting os growing
    unfolding resulting new_chunk base
    moved-IsValid = record {
      mask = v.mask;
      limit = refl;
      chain = kept_layout.0;
      low = omega arith;
      next = refl;
      high = omega (arith, base_bounds.1, enough);
      aligned = inl base_bounds.2;
      layout = kept_layout.1;
      objects = kept_objects;
      grown = kept_growing;
    }

    resulting_room : resulting.next_free + len ≤ resulting.chunk.limit
    unfolding resulting new_chunk
    resulting_room = omega (arith, base_bounds.1, enough)

  -- The call fails, or the contents are the same and there is room.
  unfoldable pub Moves : ℕ → Run (World × Obstack) → Type 0
  Moves len r =
      (r ≡ failed)
      ⊎ ((w' : World) × (h' : Obstack) × (r ≡ ok (w', h'))
          × IsValid w' h' os growing
          × (h'.next_free + len ≤ h'.chunk.limit))

  pub newchunk-IsValid :
      (chunkfun : ℕ → List Chunk → ℕ → Option ℕ) (len : ℕ)
      → IsAllocator chunkfun
      → len < 2 ^ 64
      → Moves len (obstack_newchunk chunkfun w h len)
  unfolding obstack_newchunk IsAllocator new_chunk Moves
  newchunk-IsValid chunkfun len allocator small = elim (Bool-cases (newchunk_size h len).1) [
    | inr wraps ↦ inl (rw (obstack_newchunk, wraps) refl)
    | inl fits ↦ elim (Option-cases (chunkfun w.calls (h.chunk ∷ h.prev) (newchunk_size h len).0)) [
      | inl none_left ↦ inl (rw (obstack_newchunk, fits, none_left) refl)
      | inr (a, given) ↦
          let n = (newchunk_size h len).0 in
          let (room, apart) = allocator w.calls (h.chunk ∷ h.prev) n a given in
          let enough = newchunk_size_lem len a small fits room in
          let w₁ = record w { calls = w.calls + 1 } in
          inr (
            moved w₁ refl a n len room apart enough,
            resulting w₁ refl a n len room apart enough,
            rw (obstack_newchunk, fits, given) (move_object_ok w₁ refl a n len room apart enough),
            moved-IsValid w₁ refl a n len room apart enough,
            resulting_room w₁ refl a n len room apart enough,
          )
    ]
  ]
