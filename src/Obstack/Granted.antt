-- ===== src/Obstack/Granted.antt =====
-- `obstack_grow` where the allocator gives what it is asked for.
use yalibct.Base.{
  ℕ, ◌+◌, ◌<◌, ◌^◌, ◌≡◌, refl, ap, sym, ◌∙◌, inl, inr, Bool, true, false, List, ◌∷◌, ◌++◌, map,
  Option, some, ltb, length, arith, Bool-cases,
}
use mathlib.Core.Bool.{true≢false}
use yalibct.Obstack.{
  Run, ok, failed, aborted, fault, World, Chunk, Obstack, chunk_base, pointer_difference,
  newchunk_size, move_object, obstack_newchunk, obstack_room, make_room, obstack_grow,
}
use yalibct.Obstack.Layout.{Object}
use yalibct.Obstack.NewChunk.{IsAllocator, IsValid, Moves, newchunk_size_fits}
use yalibct.Obstack.Steps.{make_room-IsValid, grow_behind}

-- Whether the handler for failed allocations is called
is_failed : {A : Type 0} → Run A → Bool
is_failed failed = true
is_failed (ok a) = false
is_failed aborted = false
is_failed fault = false

module _ (chunkfun : ℕ → List Chunk → ℕ → Option ℕ) (w : World) (h : Obstack) (os : List Object)
    (growing : List (Option ℕ)) (v : IsValid w h os growing) where
  newchunk_granted :
      (len a : ℕ)
      → length growing + len + h.alignment_mask < 2 ^ 64
      → chunkfun w.calls (h.chunk ∷ h.prev) (newchunk_size h len).0 ≡ some a
      → is_failed (obstack_newchunk chunkfun w h len) ≡ false
  unfolding obstack_newchunk move_object is_failed
  newchunk_granted len a sum given =
      rw (obstack_newchunk, newchunk_size_fits w h os growing v len sum, given, move_object)
        (elim (Bool-cases (
          ltb (a + (newchunk_size h len).0)
            (chunk_base h.alignment_mask a + pointer_difference h.next_free h.object_base))) [
              | inl beyond ↦ rw (beyond) refl
              | inr within ↦ rw (within) refl
            ])

  make_room_granted :
      (len a : ℕ)
      → length growing + len + h.alignment_mask < 2 ^ 64
      → chunkfun w.calls (h.chunk ∷ h.prev) (newchunk_size h len).0 ≡ some a
      → is_failed (make_room chunkfun w h len) ≡ false
  unfolding make_room is_failed
  make_room_granted len a sum given = elim (Bool-cases (ltb (obstack_room h) len)) [
    | inl short ↦ rw (make_room, short) (newchunk_granted len a sum given)
    | inr fits ↦ rw (make_room, fits) refl
  ]

  -- Let an obstack be in order, let the sizes of the growing object, of the bytes and of the mask add up to
  -- less than 2^64, and let the allocator, which gives regions that are apart, give a chunk of the size of
  -- a new chunk. Then obstack_grow does not call the handler for failed allocations: it adds the bytes to
  -- the growing object, and the obstack is in order with the same finished objects.
  pub grow_granted :
      (allocator : IsAllocator chunkfun) (bytes : List ℕ) (a : ℕ)
      → length growing + length bytes + h.alignment_mask < 2 ^ 64
      → chunkfun w.calls (h.chunk ∷ h.prev) (newchunk_size h (length bytes)).0 ≡ some a
      → ((w' : World) × (h' : Obstack) × (obstack_grow chunkfun w h bytes ≡ ok (w', h'))
          × IsValid w' h' os (growing ++ map some bytes))
  unfolding Moves is_failed
  grow_granted allocator bytes a sum given =
      elim (make_room-IsValid chunkfun allocator w h os growing v (length bytes)
        (omega (arith, sum))) [
          | inl fails ↦
              absurd (
                true≢false
                  (sym (ap is_failed fails) ∙ make_room_granted (length bytes) a sum given))
          | inr (w', h', makes, v', room) ↦
              grow_behind chunkfun allocator w h os growing bytes w' h' makes v' room
        ]
