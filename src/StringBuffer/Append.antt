-- ===== src/StringBuffer/Append.antt =====
-- What an append leaves in the buffer.
use yalibct.Base.{
  ℕ, zero, suc, ◌+◌, ◌-◌, ◌≤◌, ◌<◌, ◌≡◌, refl, ap, ◌∙◌, List, [], ◌∷◌, ◌++◌, some, arith, ltb,
  length, take, if◌then◌else◌, ◌^◌, ◌⊎◌, inl, inr, Bool-cases, Option-cases, ltb→ge, length-take,
  length-append, take-append_self, take_all, ◌%◌, ◌*◌,
}
use yalibct.Base.Int.{ℤ, pos, negsuc}
use yalibct.StringBuffer.{
  Allocator, write_at, StringBuffer, size_mod, grow_block, sb_ensure_more_bytes, Vsnprintf, fail,
  stored, append_again, append_with,
}

-- The text that the buffer holds.
abbrev pub contents : StringBuffer → List ℕ
contents b = take b.len b.data_

-- The block has its stated size, which is below half the address space, and holds the text.
pub record IsValid (b : StringBuffer) : Type 0 where
  pub size : length b.data_ ≡ b.allocated
  pub fits : b.len ≤ b.allocated
  pub small : b.allocated < 2 ^ 63

pub length-write_at : (xs : List ℕ) (i : ℕ) (bs : List ℕ) → length (write_at xs i bs) ≡ length xs
length-write_at [] i bs = refl
length-write_at (x ∷ xs) zero [] = refl
length-write_at (x ∷ xs) zero (b ∷ bs) = ap suc (length-write_at xs zero bs)
length-write_at (x ∷ xs) (suc i) bs = ap suc (length-write_at xs i bs)

-- A write leaves what is before it.
pub take-write_at :
    (xs : List ℕ) (i k : ℕ) (bs : List ℕ) → k ≤ i → take k (write_at xs i bs) ≡ take k xs
take-write_at xs i zero bs h = refl
take-write_at [] i (suc k) bs h = refl
take-write_at (x ∷ xs) zero (suc k) bs h = absurd (omega arith)
take-write_at (x ∷ xs) (suc i) (suc k) bs h =
    ap (λ t. x ∷ t) (take-write_at xs i k bs (omega arith))

-- What a write within bounds shows.
pub take-add-write_at :
    (xs : List ℕ) (i n k : ℕ) (bs : List ℕ)
    → k ≡ i + n
    → k ≤ length xs
    → n ≤ length bs
    → take k (write_at xs i bs) ≡ take i xs ++ take n bs
take-add-write_at xs zero n zero bs e h l = let z : n ≡ 0 = omega arith in rw z
take-add-write_at [] (suc i) n zero bs e h l = absurd (omega arith)
take-add-write_at [] zero n (suc k) bs e h l = absurd (omega arith)
take-add-write_at [] (suc i) n (suc k) bs e h l = absurd (omega arith)
take-add-write_at (x ∷ xs) zero zero (suc k) bs e h l = absurd (omega arith)
take-add-write_at (x ∷ xs) zero (suc n) (suc k) [] e h l = absurd (omega arith)
take-add-write_at (x ∷ xs) zero (suc n) (suc k) (b ∷ bs) e h l =
    ap (λ t. b ∷ t) (take-add-write_at xs zero n k bs (omega arith) (omega arith) (omega arith))
take-add-write_at (x ∷ xs) (suc i) n zero bs e h l = absurd (omega arith)
take-add-write_at (x ∷ xs) (suc i) n (suc k) bs e h l =
    ap (λ t. x ∷ t) (take-add-write_at xs i n k bs (omega arith) (omega arith) l)

pub take-take : (xs : List ℕ) (k : ℕ) → take k (take k xs) ≡ take k xs
take-take xs zero = refl
take-take [] (suc k) = refl
take-take (x ∷ xs) (suc k) = ap (λ t. x ∷ t) (take-take xs k)

module _ (m : Allocator) (b : StringBuffer) (valid : IsValid b) where
  grow_block_lem :
      (n : ℕ) (d : List ℕ)
      → b.allocated ≤ n
      → grow_block m b n ≡ some d
      → (length d ≡ n) × (n < 2 ^ 63) × (take b.len d ≡ contents b)
  unfolding grow_block
  grow_block_lem n d h e = elim (Bool-cases b.on_stack) [
    | inl s ↦
        let block : (c : List ℕ) × (m.malloc n ≡ some c) × (d ≡ write_at c 0 (contents b)) =
          ground arith in
        let (c, got, same) = block in
        let size = m.malloc_size n c got in
        let text =
          take-add-write_at c 0 b.len b.len (contents b) (omega arith) (omega arith)
            (omega (arith, length-take b.len b.data_)) in
        rw same (
          length-write_at c 0 (contents b) ∙ size,
          m.malloc_small n c got,
          text ∙ take-take b.data_ b.len,
        )
    | inr s ↦
        let got : m.realloc b.data_ n ≡ some d = ground arith in
        (
          m.realloc_size b.data_ n d got,
          m.realloc_small b.data_ n d got,
          m.realloc_keeps b.data_ n d got b.len (omega arith),
        )
  ]

  -- What an attempt to make room leaves.
  pub record Ensured (increment : ℕ) (r : StringBuffer × ℤ) : Type 0 where
    pub valid_after : IsValid r.0
    pub same_len : r.0.len ≡ b.len
    pub same_text : contents r.0 ≡ contents b
    pub same_error : r.0.error ≡ b.error
    pub outcome :
        ((r.1 ≡ pos 0) × (b.len + increment ≤ r.0.allocated)) ⊎ ((r.1 ≡ negsuc 0) × (r.0 ≡ b))

  pub ensure_lem :
      (increment : ℕ) → increment < 2 ^ 64 → Ensured increment (sb_ensure_more_bytes m b increment)
  unfolding sb_ensure_more_bytes
  ensure_lem increment h =
      let small = (b.len + increment) % size_mod in
      let doubled = (2 * b.allocated) % size_mod in
      let n = if ltb doubled small then small else doubled in
      elim (Option-cases (grow_block m b n)) [
        | inl e ↦ record {
          valid_after = ground arith;
          same_len = ground arith;
          same_text = ground arith;
          same_error = ground arith;
          outcome = ground arith;
        }
        | inr (d, e) ↦ record {
          valid_after = record {
            size = ground (arith, grow_block_lem n d);
            fits = ground (arith, grow_block_lem n d);
            small = ground (arith, grow_block_lem n d);
          };
          same_len = ground arith;
          same_text = ground (arith, grow_block_lem n d);
          same_error = ground arith;
          outcome = ground arith;
        }
      ]

-- A call of `vsnprintf` that formats `text`: it returns the length of the text, and stores as much
-- of the text as leaves room for the null byte that ends it.
abbrev pub Formats : Vsnprintf → List ℕ → Type 0
Formats f text =
    (room : ℕ)
    → 0 < room
    → (f room).0 ≡ pos (length text)
      × ((f room).1
          ≡ (if ltb (length text) room then text ++ 0 ∷ [] else take (room - 1) text ++ 0 ∷ []))

-- What a call with this much room adds to the contents if the code takes it for complete.
abbrev pub added : List ℕ → ℕ → List ℕ
added text room = if ltb (length text) room then text else take (room - 1) text ++ 0 ∷ []

-- The bytes that such a call stores, as far as the code counts them.
take-stored :
    (text : List ℕ) (room : ℕ)
    → 0 < room
    → length text ≤ room
    → let bs = if ltb (length text) room then text ++ 0 ∷ [] else take (room - 1) text ++ 0 ∷ [] in
      (take (length text) bs ≡ added text room) × (length text ≤ length bs)
take-stored text room h l = elim (Bool-cases (ltb (length text) room)) [
  | inl e ↦ rw e (take-append_self text (0 ∷ []), omega (arith, length-append text (0 ∷ [])))
  | inr e ↦
      let cut = take (room - 1) text ++ 0 ∷ [] in
      let full : length cut ≡ length text = omega (
        arith,
        ltb→ge (length text) room e,
        length-append (take (room - 1) text) (0 ∷ []),
        length-take (room - 1) text,
      ) in
      rw e (take_all (length text) cut (omega arith), omega arith)
]

module _ (b : StringBuffer) (valid : IsValid b) (f : Vsnprintf) (text : List ℕ)
    (spec : Formats f text) where
  -- A call that is taken for complete.
  pub accepted :
      let room = b.allocated - b.len in
      0 < room
      → length text ≤ room
      → take (b.len + length text) (write_at b.data_ b.len (f room).1)
        ≡ contents b ++ added text room
  accepted pos_room short =
      let (shown, enough) = take-stored text (b.allocated - b.len) pos_room short in
      rw (spec (b.allocated - b.len) pos_room).1 (
        take-add-write_at b.data_ b.len (length text) (b.len + length text) _ refl (omega arith)
          enough
        ∙ ap (λ t. contents b ++ t) shown)

  -- The buffer after a call that is taken for complete.
  abbrev pub taken : StringBuffer
  taken = record b {
    data_ = write_at b.data_ b.len (f (b.allocated - b.len)).1;
    len = b.len + length text;
  }

  pub room_eq : (b.allocated + size_mod - b.len) % size_mod ≡ b.allocated - b.len
  room_eq = omega arith

  pub append_again-taken :
      0 < b.allocated - b.len
      → length text ≤ b.allocated - b.len
      → append_again f b ≡ some (taken, pos 0)
  unfolding append_again
  append_again-taken p l = ground (arith, room_eq, spec (b.allocated - b.len) p)

  pub append_with-taken :
      (m : Allocator) (second : Vsnprintf)
      → 0 < b.allocated - b.len
      → length text ≤ b.allocated - b.len
      → append_with m f second b ≡ some (taken, pos 0)
  unfolding append_with
  append_with-taken m second p l = ground (arith, room_eq, spec (b.allocated - b.len) p)

  pub taken-IsValid : length text ≤ b.allocated - b.len → IsValid taken
  taken-IsValid l = record {
    size = length-write_at b.data_ b.len (f (b.allocated - b.len)).1 ∙ valid.size;
    fits = omega arith;
    small = valid.small;
  }

  -- A first call that did not have the room: more is made, and the second call is taken for complete.
  pub append_with-short :
      (m : Allocator) (second : Vsnprintf)
      → 0 < b.allocated - b.len
      → b.allocated - b.len < length text
      → append_with m f second b ≡ (
          let (b', status) =
            sb_ensure_more_bytes m (stored b (f (b.allocated - b.len)).1) (length text) in
          elim status [ negsuc _ ↦ fail b' | pos _ ↦ append_again second b' ])
  unfolding append_with
  append_with-short m second p l = ground (arith, room_eq, spec (b.allocated - b.len) p)
