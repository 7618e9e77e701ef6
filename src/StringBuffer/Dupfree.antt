-- ===== src/StringBuffer/Dupfree.antt =====
-- What `sb_dupfree` returns.
use yalibct.Base.{
  ℕ, ◌+◌, ◌≡◌, refl, ap, ◌∙◌, sym, true, false, List, [], ◌∷◌, ◌++◌, none, some, arith, ltb,
  length-take, take_all, inl, inr, Bool-cases, Option-cases,
}
use yalibct.StringBuffer.{
  Allocator, StringBuffer, write_at, sb_ensure_more_bytes, sb_free, Dup, dup_fail, dup_block,
  sb_dupfree,
}
use yalibct.StringBuffer.Append.{
  contents, IsValid, ensure_lem, length-write_at, take-add-write_at, take-take,
}

-- A returned string is the text, which the caller owns; a failure frees the block, if it is not the
-- array on the stack.
pub data Outcome (text : List ℕ) (d : Dup) : Type 0 where
  returned : d.result ≡ some text → d.freed ≡ false → Outcome text d
  refused : d.result ≡ none → d.freed ≡ sb_free d.buffer → Outcome text d

dup_block_lem :
    (m : Allocator) (b : StringBuffer) → IsValid b → Outcome (contents b) (dup_block m b)
unfolding dup_block
dup_block_lem m b v = elim (Bool-cases b.on_stack) [
  | inl s ↦ elim (Option-cases (m.malloc b.len)) [
    | inl e ↦ refused (ground arith) (ground arith)
    | inr (d, e) ↦
        let size = m.malloc_size b.len d e in
        let text =
          take-add-write_at d 0 b.len b.len (contents b) (omega arith) (omega arith)
            (omega (arith, length-take b.len b.data_)) in
        let whole =
          take_all b.len (write_at d 0 (contents b))
            (omega (arith, length-write_at d 0 (contents b))) in
        let same : write_at d 0 (contents b) ≡ contents b =
          sym whole ∙ text ∙ take-take b.data_ b.len in
        returned (ground arith) (ground arith)
  ]
  | inr s ↦ elim (Bool-cases (ltb b.len b.allocated)) [
    | inl l ↦ elim (Option-cases (m.realloc b.data_ b.len)) [
      | inl e ↦ refused (ground arith) (ground arith)
      | inr (d, e) ↦
          let size = m.realloc_size b.data_ b.len d e in
          let same : d ≡ contents b =
            sym (take_all b.len d (omega arith))
            ∙ m.realloc_keeps b.data_ b.len d e b.len (omega arith) in
          returned (ground arith) (ground arith)
    ]
    | inr l ↦
        let same : contents b ≡ b.data_ = take_all b.len b.data_ (ground arith) in
        returned (ground arith) (ground arith)
  ]
]

-- `sb_dupfree` of a valid buffer without the error mark returns the text and a null byte, or fails
-- for want of memory; with the mark it fails. A failure frees the block of the buffer, and a success
-- frees nothing.
pub sb_dupfree_lem :
    (early late : Allocator) (b : StringBuffer)
    → IsValid b
    → Outcome (contents b ++ 0 ∷ []) (sb_dupfree early late b)
      × (b.error ≡ true → (sb_dupfree early late b).result ≡ none)
unfolding sb_dupfree
sb_dupfree_lem early late b v = elim (Bool-cases b.error) [
  | inl e ↦ (refused (ground arith) (ground arith), λ _. ground arith)
  | inr e ↦
      let made = ensure_lem early b v 1 (omega arith) in
      let c = (sb_ensure_more_bytes early b 1).0 in
      let cv = made.valid_after in
      elim made.outcome [
        | inr (minus, same) ↦ (
          let run : sb_dupfree early late b ≡ dup_fail c = ground arith in
              rw run (refused refl refl),
          λ q. cc,
        )
        | inl (zero_, more) ↦
            let d : StringBuffer = record c {
              data_ = write_at c.data_ c.len (0 ∷ []);
              len = c.len + 1;
            } in
            let dv : IsValid d = record {
              size = length-write_at c.data_ c.len (0 ∷ []) ∙ cv.size;
              fits = omega arith;
              small = cv.small;
            } in
            let text : contents d ≡ contents b ++ 0 ∷ [] =
              take-add-write_at c.data_ c.len 1 (c.len + 1) (0 ∷ []) refl (omega arith)
                (omega arith)
              ∙ ap (λ t. t ++ 0 ∷ []) made.same_text in
            (
              let run : sb_dupfree early late b ≡ dup_block late d = ground arith in
                  rw (run, ← text) (dup_block_lem late d dv),
              λ q. cc,
            )
      ]
]
