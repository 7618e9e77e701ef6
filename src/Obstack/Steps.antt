-- ===== src/Obstack/Steps.antt =====
-- What growing, finishing and freeing make of the objects.
use yalibct.Base.{
  ℕ, ◌+◌, ◌^◌, ◌≤◌, ◌<◌, ◌≡◌, refl, ap, ◌∙◌, ◌⊎◌, inl, inr, Bool, false, List, [], ◌∷◌, ◌++◌, map,
  Option, none, some, ltb, length, length-append, length-map, length-replicate, replicate, arith,
  Bool-cases,
}
use yalibct.Obstack.{
  Run, ok, failed, ◌>>=◌, World, Chunk, Obstack, ptr_align, pointer_difference, write, obstack_room,
  make_room, add_bytes, obstack_grow, obstack_blank, obstack_blank_fast, obstack_finish,
}
use yalibct.Obstack.Align.{IsAligned, mask_small, ptr_align_lem}
use yalibct.Obstack.Memory.{Holds, Holds-append, Holds-blank, Holds-write, write-Holds}
use yalibct.Obstack.Layout.{Object, IsChain, object, Layout-weaken, AllHold, AllHold-write}
use yalibct.Obstack.NewChunk.{IsAllocator, IsValid, Moves, newchunk-IsValid}

module _ (w : World) (h : Obstack) (os : List Object) (growing : List (Option ℕ)) (bytes : List ℕ)
    (v : IsValid w h os growing) (room : h.next_free + length bytes ≤ h.chunk.limit) where
  -- Bytes behind the growing object, which belong to no object.
  pub scratch-IsValid :
      IsValid (record w { memory = write w.memory h.next_free bytes }) h os growing
  unfolding IsChain
  scratch-IsValid = record {
    mask = v.mask;
    limit = v.limit;
    chain = v.chain;
    low = v.low;
    next = v.next;
    high = v.high;
    aligned = v.aligned;
    layout = v.layout;
    objects =
        AllHold-write h.alignment_mask h.next_free w.memory bytes h.chunk h.prev h.object_base
          h.maybe_empty_object os v.layout v.chain (omega (arith, v.chain.0, v.low, v.next))
          (omega (arith, v.next)) room v.objects;
    grown =
        Holds-write w.memory h.next_free bytes h.object_base growing (inl (omega (arith, v.next)))
          v.grown;
  }

  -- The same bytes, where they are added to the object.
  pub added-IsValid :
      IsValid
        (record w { memory = write w.memory h.next_free bytes })
        (record h { next_free = h.next_free + length bytes })
        os
        (growing ++ map some bytes)
  added-IsValid =
      let s = scratch-IsValid in
      record {
        mask = v.mask;
        limit = v.limit;
        chain = v.chain;
        low = v.low;
        next = omega (arith, v.next, sizes);
        high = room;
        aligned = v.aligned;
        layout = v.layout;
        objects = s.objects;
        grown =
            Holds-append (write w.memory h.next_free bytes) h.object_base h.next_free growing
              (map some bytes) v.next s.grown (write-Holds w.memory h.next_free bytes);
      }
    where
      sizes : length (growing ++ map some bytes) ≡ length growing + length bytes
      sizes =
          length-append growing (map some bytes)
          ∙ ap (λ n. length growing + n) (length-map bytes some)

  add_bytes_ok :
      add_bytes w h bytes
      ≡ ok (
        record w { memory = write w.memory h.next_free bytes },
        record h { next_free = h.next_free + length bytes },
      )
  unfolding add_bytes
  add_bytes_ok = rw (add_bytes, fits) refl
    where
      fits : ltb h.chunk.limit (h.next_free + length bytes) ≡ false
      fits = ground (arith, room)

-- The outcomes of an operation after which the growing object has the given cells.
unfoldable pub Grows : List Object → List (Option ℕ) → Run (World × Obstack) → Type 0
Grows os growing r =
    (r ≡ failed) ⊎ ((w' : World) × (h' : Obstack) × (r ≡ ok (w', h')) × IsValid w' h' os growing)

module _ (chunkfun : ℕ → List Chunk → ℕ → Option ℕ) (allocator : IsAllocator chunkfun) where
  pub make_room-IsValid :
      (w : World) (h : Obstack) (os : List Object) (growing : List (Option ℕ))
      (v : IsValid w h os growing) (len : ℕ)
      → len < 2 ^ 64
      → Moves w h os growing v len (make_room chunkfun w h len)
  unfolding make_room obstack_room Moves IsChain
  make_room-IsValid w h os growing v len small = elim (Bool-cases (ltb (obstack_room h) len)) [
    | inl short ↦
        rw (make_room, short) (newchunk-IsValid w h os growing v chunkfun len allocator small)
    | inr fits ↦ inr (w, h, rw (make_room, fits) refl, v, room fits)
  ]
    where
      room : ltb (obstack_room h) len ≡ false → h.next_free + len ≤ h.chunk.limit
      room fits = ground (arith, fits, v.limit, v.high, v.chain.2)

  pub grow_behind :
      (w : World) (h : Obstack) (os : List Object) (growing : List (Option ℕ)) (bytes : List ℕ)
      (w' : World) (h' : Obstack)
      → make_room chunkfun w h (length bytes) ≡ ok (w', h')
      → IsValid w' h' os growing
      → h'.next_free + length bytes ≤ h'.chunk.limit
      → ((w₁ : World) × (h₁ : Obstack) × (obstack_grow chunkfun w h bytes ≡ ok (w₁, h₁))
          × IsValid w₁ h₁ os (growing ++ map some bytes))
  unfolding obstack_grow
  grow_behind w h os growing bytes w' h' makes v' room = (
    _,
    _,
    rw (obstack_grow, makes, ◌>>=◌) (add_bytes_ok w' h' os growing bytes v' room),
    added-IsValid w' h' os growing bytes v' room,
  )

  pub grow-IsValid :
      (w : World) (h : Obstack) (os : List Object) (growing : List (Option ℕ)) (bytes : List ℕ)
      → IsValid w h os growing
      → length bytes < 2 ^ 64
      → Grows os (growing ++ map some bytes) (obstack_grow chunkfun w h bytes)
  unfolding obstack_grow Grows Moves
  grow-IsValid w h os growing bytes v small =
      elim (make_room-IsValid w h os growing v (length bytes) small) [
        | inl fails ↦ inl (rw (obstack_grow, fails) refl)
        | inr (w', h', makes, v', room) ↦ inr (grow_behind w h os growing bytes w' h' makes v' room)
      ]

  pub blank-IsValid :
      (w : World) (h : Obstack) (os : List Object) (growing : List (Option ℕ)) (len : ℕ)
      → IsValid w h os growing
      → len < 2 ^ 64
      → Grows os (growing ++ replicate len none) (obstack_blank chunkfun w h len)
  unfolding obstack_blank obstack_blank_fast Grows Moves
  blank-IsValid w h os growing len v small = elim (make_room-IsValid w h os growing v len small) [
    | inl fails ↦ inl (rw (obstack_blank, fails) refl)
    | inr (w', h', makes, v', room) ↦ inr (
      w',
      obstack_blank_fast h' len,
      rw (obstack_blank, makes, ◌>>=◌) refl,
      record {
        mask = v'.mask;
        limit = v'.limit;
        chain = v'.chain;
        low = v'.low;
        next = omega (arith, v'.next, sizes);
        high = room;
        aligned = v'.aligned;
        layout = v'.layout;
        objects = v'.objects;
        grown =
            Holds-append w'.memory h'.object_base h'.next_free growing (replicate len none) v'.next
              v'.grown (Holds-blank w'.memory h'.next_free len);
      },
    )
  ]
    where
      sizes : length (growing ++ replicate {A = Option ℕ} len none) ≡ length growing + len
      sizes =
          length-append growing (replicate len none)
          ∙ ap (λ n. length growing + n) (length-replicate {A = Option ℕ} len none)

module _ (w : World) (h : Obstack) (os : List Object) (growing : List (Option ℕ))
    (v : IsValid w h os growing) where
  finish_next :
      (h.next_free ≤ (obstack_finish h).1.next_free)
      × ((obstack_finish h).1.next_free ≤ h.chunk.limit)
      × (IsAligned h.alignment_mask (obstack_finish h).1.next_free
          ⊎ ((obstack_finish h).1.next_free ≡ h.chunk.limit))
  unfolding obstack_finish IsChain
  finish_next =
      let (above, below, multiple) =
        ptr_align_lem h.alignment_mask h.next_free v.mask (omega (arith, v.high, v.chain.2)) in
      elim (Bool-cases clamps) [
        | inl beyond ↦
            rw (obstack_finish, beyond)
              (omega (arith, v.limit, v.high), omega (arith, v.limit), inr v.limit)
        | inr within ↦ rw (obstack_finish, within) (above, inside below within, inl multiple)
      ]
    where
      clamps : Bool
      clamps =
          ltb (pointer_difference h.chunk_limit h.chunk.address)
            (pointer_difference (ptr_align h.next_free h.alignment_mask) h.chunk.address)

      inside :
          ptr_align h.next_free h.alignment_mask ≤ h.next_free + h.alignment_mask
          → clamps ≡ false
          → ptr_align h.next_free h.alignment_mask ≤ h.chunk.limit
      inside below within = ground (
        arith,
        below,
        within,
        v.limit,
        v.high,
        v.chain.2,
        v.chain.0,
        v.low,
        v.next,
        mask_small h.alignment_mask v.mask,
      )

  flag_full : (obstack_finish h).1.maybe_empty_object ≡ false → 0 < length growing
  unfolding obstack_finish
  flag_full off = ground (arith, off, v.next)

  flag_kept : (obstack_finish h).1.maybe_empty_object ≡ false → h.maybe_empty_object ≡ false
  unfolding obstack_finish
  flag_kept off = ground (arith, off)

  pub finish-IsValid :
      IsValid w (obstack_finish h).1 (record { at = h.object_base; cells = growing } ∷ os) []
  unfolding obstack_finish AllHold Holds
  finish-IsValid = record {
    mask = v.mask;
    limit = v.limit;
    chain = v.chain;
    low = omega (arith, v.low, v.next, finish_next.0);
    next = omega arith;
    high = finish_next.1;
    aligned = finish_next.2;
    layout =
        object (record { at = h.object_base; cells = growing }) v.low
          (omega (arith, v.next, finish_next.0)) flag_full v.aligned
          (Layout-weaken h.alignment_mask (omega arith) flag_kept v.layout);
    objects = (v.grown, v.objects);
    grown = tt;
  }
