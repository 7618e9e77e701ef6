-- ===== src/Printf/Grown.antt =====
-- What obstack_printf.h adds to an obstack.
use yalibct.Base.{
  ℕ, ◌+◌, ◌-◌, ◌<◌, ◌≤◌, ◌≡◌, refl, subst, ◌⊎◌, inl, inr, true, List, [], ◌∷◌, ◌++◌, map, Option,
  some, ltb, ltb→ge, length, length-append, take, length-take, arith, Bool-cases,
}
use yalibct.Base.Int.{ℤ, pos}
use yalibct.Obstack.{
  Run, ok, failed, ◌>>=◌, World, Chunk, Obstack, obstack_room, obstack_grow, obstack_blank_fast,
}
use yalibct.Obstack.Layout.{Object, IsChain}
use yalibct.Obstack.NewChunk.{IsAllocator, IsValid}
use yalibct.Obstack.Steps.{Grows, grow-IsValid, scratch-IsValid, added-IsValid}
use yalibct.Printf.{Libc, int_max, cutoff, scratch, print_into, obstack_vprintf}
use yalibct.Printf.Lengths.{Prints, vasnprintf-Prints}

-- The handler for failures of allocation is called, or the number is returned and the object has grown.
unfoldable pub Adds : List Object → List (Option ℕ) → ℕ → Run (ℤ × World × Obstack) → Type 0
Adds os growing n r =
    (r ≡ failed) ⊎ ((w : World) × (h : Obstack) × (r ≡ ok (pos n, w, h)) × IsValid w h os growing)

room_of :
    (w : World) (h : Obstack) (os : List Object) (growing : List (Option ℕ))
    → IsValid w h os growing
    → h.next_free + obstack_room h ≡ h.chunk.limit
unfolding obstack_room IsChain
room_of w h os growing v = omega (arith, v.limit, v.high, v.chain.2)

module _ (libc : Libc) (text : List ℕ) (prints : Prints libc text) (short : length text < int_max)
    (memory : (n : ℕ) → libc.malloc n ≡ true) (chunkfun : ℕ → List Chunk → ℕ → Option ℕ)
    (allocator : IsAllocator chunkfun) (w : World) (h : Obstack) (os : List Object)
    (growing : List (Option ℕ)) (v : IsValid w h os growing) where
  whole : List ℕ
  whole = text ++ 0 ∷ []

  whole-length : length whole ≡ length text + 1
  unfolding whole
  whole-length = length-append text (0 ∷ [])

  -- A copy of the output is grown.
  grows-Adds :
      (w₁ : World)
      → IsValid w₁ h os growing
      → Adds os
          (growing ++ map some whole)
          (length text + 1)
          (obstack_grow chunkfun w₁ h whole >>= (λ x. ok (pos (length text + 1), x.0, x.1)))
  unfolding Adds Grows
  grows-Adds w₁ v₁ =
      elim (grow-IsValid chunkfun allocator w₁ h os growing whole v₁
        (omega (arith, whole-length, short))) [
          | inl fails ↦ inl (rw (fails) refl)
          | inr (w', h', e, v') ↦ inr (w', h', rw (e) refl, v')
        ]

  -- Let an obstack be in order, let vsnprintf print a text that is shorter than INT_MAX, and let there be
  -- memory for it. Then obstack_printf calls the handler for failed allocations, or adds the text with a
  -- NUL behind it to the growing object, keeps the finished objects, and returns one more than the length
  -- of the text.
  pub obstack_vprintf-Adds :
      Adds os
        (growing ++ map some (text ++ 0 ∷ []))
        (length text + 1)
        (obstack_vprintf libc chunkfun w h)
  unfolding obstack_vprintf print_into scratch whole Adds obstack_blank_fast
  obstack_vprintf-Adds = elim (Bool-cases (ltb (obstack_room h) cutoff)) [
    | inl close ↦ elim (vasnprintf-Prints libc text prints short memory cutoff (omega arith)) [
      | inl (_, there) ↦ rw (obstack_vprintf, close, there) (grows-Adds w v)
      | inr there ↦ rw (obstack_vprintf, close, there) (grows-Adds w v)
    ]
    | inr far ↦
        let wide = ltb→ge (obstack_room h) cutoff far in
        elim (vasnprintf-Prints libc text prints short memory (obstack_room h) (omega arith)) [
          | inl (fits, there) ↦
              rw (obstack_vprintf, far, there)
                (inr (
                  _,
                  _,
                  refl,
                  subst
                      (λ n.
                        IsValid (scratch w h true whole) (record h { next_free = h.next_free + n })
                          os (growing ++ map some whole))
                      whole-length
                      (added-IsValid w h os growing whole v
                        (omega (arith, whole-length, fits, room))),
                ))
          | inr there ↦
              rw (obstack_vprintf, far, there)
                (grows-Adds _ (
                  scratch-IsValid w h os growing (take (obstack_room h - 1) text ++ 0 ∷ []) v
                    (omega (arith, cut, room, wide))))
        ]
  ]
    where
      room : h.next_free + obstack_room h ≡ h.chunk.limit
      room = room_of w h os growing v

      cut : length (take (obstack_room h - 1) text ++ 0 ∷ []) ≤ obstack_room h - 1 + 1
      cut = omega (
        arith,
        length-append (take (obstack_room h - 1) text) (0 ∷ []),
        length-take (obstack_room h - 1) text,
      )
