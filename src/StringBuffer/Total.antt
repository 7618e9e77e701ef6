-- ===== src/StringBuffer/Total.antt =====
-- Every call of `sb_appendvf` ends: in success, or in an error that keeps the text.
use yalibct.Base.{
  ℕ, ◌+◌, ◌-◌, ◌≤◌, ◌<◌, ◌≡◌, refl, ap₂, ◌∙◌, true, List, [], ◌∷◌, ◌++◌, Option, some, arith, ltb,
  length, take, ◌^◌, ◌⊎◌, inl, inr, Bool-cases, dec_lt, ◌%◌,
}
use yalibct.Base.Int.{ℤ, pos, negsuc}
use yalibct.StringBuffer.{
  Allocator, StringBuffer, sb_ensure_more_bytes, Vsnprintf, stored, append_with, sb_appendvf,
  size_mod,
}
use yalibct.StringBuffer.Append.{
  contents, IsValid, Formats, added, ensure_lem, length-write_at, take-write_at, accepted, taken,
  append_again-taken, append_with-taken, taken-IsValid, append_with-short, room_eq,
}

-- The call returned 0, and the text grew by what `added` says for the room behind the old text in the buffer
-- as it is now: the whole text, or all but its last byte and a null byte where it is as long as that room.
pub record Appended (text : List ℕ) (b : StringBuffer) (r : Option (StringBuffer × ℤ))
    : Type 0 where
  pub after : StringBuffer
  pub result : r ≡ some (after, pos 0)
  pub valid_after : IsValid after
  pub grown : after.len ≡ b.len + length text
  pub roomy : length text ≤ after.allocated - b.len
  pub text_after : contents after ≡ contents b ++ added text (after.allocated - b.len)

-- The call returned -1 and kept the text.
pub record Failed (b : StringBuffer) (r : Option (StringBuffer × ℤ)) : Type 0 where
  pub after : StringBuffer
  pub result : r ≡ some (after, negsuc 0)
  pub marked : after.error ≡ true
  pub valid_after : IsValid after
  pub text_after : contents after ≡ contents b

module _ (text : List ℕ) (int_size : length text < 2 ^ 31) (late : Allocator)
    (first second : Vsnprintf) (spec : Formats first text) (spec' : Formats second text) where
  stored-IsValid :
      (b : StringBuffer) (bs : List ℕ)
      → IsValid b
      → IsValid (stored b bs) × (contents (stored b bs) ≡ contents b)
  stored-IsValid b bs v = (
    record { size = length-write_at b.data_ b.len bs ∙ v.size; fits = v.fits; small = v.small },
    take-write_at b.data_ b.len b.len bs (omega arith),
  )

  append_with_lem :
      (b : StringBuffer)
      → IsValid b
      → 0 < b.allocated - b.len
      → Appended text b (append_with late first second b)
        ⊎ Failed b (append_with late first second b)
  append_with_lem b v p = elim (dec_lt (b.allocated - b.len) (length text)) [
    | no l ↦ inl (record {
      after = taken b v first text spec;
      result = append_with-taken b v first text spec late second p (omega arith);
      valid_after = taken-IsValid b v first text spec (omega arith);
      grown = refl;
      roomy = omega arith;
      text_after = accepted b v first text spec p (omega arith);
    })
    | yes l ↦
        let bs = (first (b.allocated - b.len)).1 in
        let (sv, sc) = stored-IsValid b bs v in
        let made = ensure_lem late (stored b bs) sv (length text) (omega arith) in
        let short = append_with-short b v first text spec late second p l in
        let c = (sb_ensure_more_bytes late (stored b bs) (length text)).0 in
        let cv = made.valid_after in
        elim made.outcome [
          | inl (zero_, more) ↦ inl (record {
            after = taken c cv second text spec';
            result =
                rw (short, zero_)
                  (append_again-taken c cv second text spec' (omega arith) (omega arith));
            valid_after = taken-IsValid c cv second text spec' (omega arith);
            grown = omega arith;
            roomy = omega (arith, made.same_len);
            text_after =
                accepted c cv second text spec' (omega arith) (omega arith)
                ∙ ap₂ (λ t n. t ++ added text (c.allocated - n)) (made.same_text ∙ sc)
                    made.same_len;
          })
          | inr (minus, same) ↦ inr (record {
            after = record c { error = true };
            result = rw (short, minus) refl;
            marked = refl;
            valid_after = record { size = cv.size; fits = cv.fits; small = cv.small };
            text_after = made.same_text ∙ sc;
          })
        ]
  ]

  -- Room made beforehand changes neither the length nor the text.
  carry_over :
      (b c : StringBuffer) (r : Option (StringBuffer × ℤ))
      → c.len ≡ b.len
      → contents c ≡ contents b
      → Appended text c r ⊎ Failed c r
      → Appended text b r ⊎ Failed b r
  carry_over b c r same_len same_text (inl a) = inl (record {
    after = a.after;
    result = a.result;
    valid_after = a.valid_after;
    grown = omega arith;
    roomy = omega (arith, a.roomy, same_len);
    text_after =
        a.text_after ∙ ap₂ (λ t n. t ++ added text (a.after.allocated - n)) same_text same_len;
  })
  carry_over b c r same_len same_text (inr f) = inr (record {
    after = f.after;
    result = f.result;
    marked = f.marked;
    valid_after = f.valid_after;
    text_after = f.text_after ∙ same_text;
  })

  -- Let a text be shorter than 2 ^ 31 bytes and vsnprintf print it as it is documented to. On a valid buffer
  -- `sb_appendvf` then does not abort, whatever memory there is. Either it returns 0 with a valid buffer, whose
  -- length has grown by that of the text, which fits into the room behind the old text in that buffer; the old
  -- text is then followed by the text, or, where the text is exactly as long as that room, by the text
  -- without its last byte and a null byte. Or it returns -1 with the error mark set and the text as it was.
  pub sb_appendvf_lem :
      (early : Allocator) (b : StringBuffer)
      → IsValid b
      → Appended text b (sb_appendvf early late first second b)
        ⊎ Failed b (sb_appendvf early late first second b)
  unfolding sb_appendvf
  sb_appendvf_lem early b v =
      elim (Bool-cases (ltb ((b.allocated + size_mod - b.len) % size_mod) 64)) [
        | inl e ↦
            let made = ensure_lem early b v 64 (omega arith) in
            let c = (sb_ensure_more_bytes early b 64).0 in
            let cv = made.valid_after in
            elim made.outcome [
              | inl (zero_, more) ↦
                  rw (e, zero_)
                    (carry_over b c _ made.same_len made.same_text
                      (append_with_lem c cv (omega arith)))
              | inr (minus, same) ↦ inr (record {
                after = record c { error = true };
                result = rw (e, minus) refl;
                marked = refl;
                valid_after = record { size = cv.size; fits = cv.fits; small = cv.small };
                text_after = made.same_text;
              })
            ]
        | inr e ↦ rw e (append_with_lem b v (ground arith))
      ]

  -- With 64 bytes of room in the buffer, a text that leaves a byte of that room free is appended whole,
  -- and a text of exactly that length loses its last byte to the null byte, although the call returns 0
  -- and counts the byte.
  pub sb_appendvf_room :
      (early : Allocator) (b : StringBuffer)
      → IsValid b
      → 64 ≤ b.allocated - b.len
      → length text ≤ b.allocated - b.len
      → (b' : StringBuffer) × (sb_appendvf early late first second b ≡ some (b', pos 0))
        × (b'.len ≡ b.len + length text)
        × (length text < b.allocated - b.len → contents b' ≡ contents b ++ text)
        × (length text ≡ b.allocated - b.len
            → contents b' ≡ contents b ++ (take (length text - 1) text ++ 0 ∷ []))
  unfolding sb_appendvf
  sb_appendvf_room early b v big l =
      let shown = accepted b v first text spec (omega arith) l in
      (
        taken b v first text spec,
        ground
            (arith, room_eq b v first text spec, append_with-taken b v first text spec late second),
        refl,
        λ h. ground arith,
        λ h. ground arith,
      )
