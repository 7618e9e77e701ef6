-- ===== src/Obstack.antt =====
-- obstack-common.h, struct_obstack.h and obstack_*.h in include/test-lib/portable-symbols: stacks of objects
-- in chunks. An address is a number, and the memory a function of it. The chain of chunks, whose links
-- stand at the chunks' heads in C, is a list.
use Prim.Native.Nat.{bit_and}
use yalibct.Base.{
  ℕ, zero, suc, ◌+◌, ◌-◌, ◌*◌, ◌/◌, ◌%◌, ◌^◌, Bool, true, false, not, ◌&&◌, ◌||◌, List, [], ◌∷◌,
  Option, none, some, ltb, leb, max, ◌==◌, length, if◌then◌else◌,
}
pub mod Align
pub mod Memory
pub mod Layout
pub mod NewChunk
pub mod Steps
pub mod Granted
pub mod Free
pub mod Script
pub mod Refine
pub mod Tests

-- `failed` is the call of `obstack_alloc_failed_handler`, which does not return, `aborted` that of `abort`,
-- and `fault` a write that is not within the current chunk.
pub data Run (A : Type 0) : Type 0 where
  ok : A → Run A
  failed : Run A
  aborted : Run A
  fault : Run A

infixl 5 ◌>>=◌
abbrev pub ◌>>=◌ : {A B : Type 0} → Run A → (A → Run B) → Run B
failed >>= next_step = failed
aborted >>= next_step = aborted
fault >>= next_step = fault
ok a >>= next_step = next_step a

-- The bytes, and the number of calls of `chunkfun` so far.
pub record World : Type 0 where
  pub memory : ℕ → ℕ
  pub calls : ℕ

-- `struct _obstack_chunk`: its address and its `limit`
pub record Chunk : Type 0 where
  pub address : ℕ
  pub limit : ℕ

-- `struct obstack`; `prev` are the chunks behind the current one.
pub record Obstack : Type 0 where
  pub chunk_size : ℕ
  pub chunk : Chunk
  pub prev : List Chunk
  pub object_base : ℕ
  pub next_free : ℕ
  pub chunk_limit : ℕ
  pub alignment_mask : ℕ
  pub maybe_empty_object : Bool

-- Two pointers, before `contents`
abbrev pub header_size : ℕ
header_size = 16

-- `__PTR_ALIGN`, relative to 0
unfoldable pub ptr_align : ℕ → ℕ → ℕ
ptr_align p a = bit_and ((p + a) % 2 ^ 64) (2 ^ 64 - 1 - a)

-- The address of the first object of a chunk
abbrev pub chunk_base : ℕ → ℕ → ℕ
chunk_base a address = ptr_align (address + header_size) a

-- `p - q`, as a `size_t`
abbrev pub pointer_difference : ℕ → ℕ → ℕ
pointer_difference p q = (p + 2 ^ 64 - q) % 2 ^ 64

unfoldable pub read : (ℕ → ℕ) → ℕ → ℕ → List ℕ
read m a zero = []
read m a (suc n) = m a ∷ read m (suc a) n

unfoldable pub write : (ℕ → ℕ) → ℕ → List ℕ → ℕ → ℕ
write m a [] i = m i
write m a (x ∷ xs) i = if i == a then x else write m (suc a) xs i

-- The size of a new chunk, and whether no sum of the object's sizes wraps around.
unfoldable pub newchunk_size : Obstack → ℕ → ℕ × Bool
newchunk_size h len =
    let obj_size = pointer_difference h.next_free h.object_base in
    let sum1 = (obj_size + len) % 2 ^ 64 in
    let sum2 = (sum1 + h.alignment_mask) % 2 ^ 64 in
    let new_size = (sum2 + obj_size / 2 ^ 3 + 100) % 2 ^ 64 in
    let at_least = if ltb new_size sum2 then sum2 else new_size in
    (
      if ltb at_least h.chunk_size then h.chunk_size else at_least,
      leb obj_size sum1 && leb sum1 sum2,
    )

-- The part of `_obstack_newchunk` after the allocation.
unfoldable pub move_object : World → Obstack → Chunk → Run (World × Obstack)
move_object w h new_chunk =
    let obj_size = pointer_difference h.next_free h.object_base in
    let object_base = chunk_base h.alignment_mask new_chunk.address in
    let only =
      not h.maybe_empty_object && (h.object_base == chunk_base h.alignment_mask h.chunk.address) in
    if ltb new_chunk.limit (object_base + obj_size)
    then fault
    else ok (
      record w { memory = write w.memory object_base (read w.memory h.object_base obj_size) },
      record h {
        chunk = new_chunk;
        prev = if only then h.prev else h.chunk ∷ h.prev;
        object_base = object_base;
        next_free = object_base + obj_size;
        chunk_limit = new_chunk.limit;
        maybe_empty_object = false;
      },
    )

unfoldable pub obstack_room : Obstack → ℕ
obstack_room h = pointer_difference h.chunk_limit h.next_free

unfoldable pub obstack_blank_fast : Obstack → ℕ → Obstack
obstack_blank_fast h n = record h { next_free = h.next_free + n }

-- The part of `obstack_grow` that copies.
unfoldable pub add_bytes : World → Obstack → List ℕ → Run (World × Obstack)
add_bytes w h bytes =
    if ltb h.chunk.limit (h.next_free + length bytes)
    then fault
    else ok (
      record w { memory = write w.memory h.next_free bytes },
      record h { next_free = h.next_free + length bytes },
    )

-- `chunkfun` in the call of a number, for the chunks that are in use and a size: the address of a new one.
module _ (chunkfun : ℕ → List Chunk → ℕ → Option ℕ) where
  unfoldable pub obstack_newchunk : World → Obstack → ℕ → Run (World × Obstack)
  obstack_newchunk w h len =
      let (new_size, fits) = newchunk_size h len in
      let allocated : Run (World × Obstack) = elim (chunkfun w.calls (h.chunk ∷ h.prev) new_size) [
        | none ↦ failed
        | some a ↦
            move_object (record w { calls = w.calls + 1 }) h
              (record { address = a; limit = a + new_size })
      ] in
      if fits then allocated else failed

  -- The part of `obstack_grow` and `obstack_blank` that sees to the room.
  unfoldable pub make_room : World → Obstack → ℕ → Run (World × Obstack)
  make_room w h len = if ltb (obstack_room h) len then obstack_newchunk w h len else ok (w, h)

  unfoldable pub obstack_grow : World → Obstack → List ℕ → Run (World × Obstack)
  obstack_grow w h bytes = do (w', h') ← make_room w h (length bytes); add_bytes w' h' bytes

  unfoldable pub obstack_blank : World → Obstack → ℕ → Run (World × Obstack)
  obstack_blank w h len = do (w', h') ← make_room w h len; ok (w', obstack_blank_fast h' len)

-- The pointer that is returned, and the obstack.
unfoldable pub obstack_finish : Obstack → ℕ × Obstack
obstack_finish h =
    let aligned = ptr_align h.next_free h.alignment_mask in
    let next_free =
      if ltb (pointer_difference h.chunk_limit h.chunk.address)
        (pointer_difference aligned h.chunk.address)
      then h.chunk_limit
      else aligned in
    (
      h.object_base,
      record h {
        object_base = next_free;
        next_free = next_free;
        maybe_empty_object = if h.next_free == h.object_base then true else h.maybe_empty_object;
      },
    )

unfoldable pub obstack_alloc :
    (ℕ → List Chunk → ℕ → Option ℕ) → World → Obstack → ℕ → Run (ℕ × World × Obstack)
obstack_alloc chunkfun w h len = do
  (w', h') ← obstack_blank chunkfun w h len
  let (p, h'') = obstack_finish h'
  ok (p, w', h'')

-- The loop of `_obstack_free`: the chunk that it stops at with those behind it, and
-- `maybe_empty_object`.
unfoldable pub free_chunks : List Chunk → ℕ → Bool → Option (Chunk × List Chunk) × Bool
free_chunks [] obj maybe_empty = (none, maybe_empty)
free_chunks (lp ∷ prev) obj maybe_empty =
    let rest = free_chunks prev obj true in
    if leb obj lp.address || ltb lp.limit obj then rest else (some (lp, prev), maybe_empty)

-- The part behind the loop; `none` where everything is freed, and the obstack is not to be used any more.
unfoldable pub stop_at : Obstack → ℕ → Option (Chunk × List Chunk) × Bool → Run (Option Obstack)
stop_at h obj (none, maybe_empty) = if not (obj == 0) then aborted else ok none
stop_at h obj (some (lp, prev), maybe_empty) = ok (
    some (record h {
      chunk = lp;
      prev = prev;
      object_base = obj;
      next_free = obj;
      chunk_limit = lp.limit;
      maybe_empty_object = maybe_empty;
    }))

unfoldable pub obstack_free_ : Obstack → ℕ → Run (Option Obstack)
obstack_free_ h obj = stop_at h obj (free_chunks (h.chunk ∷ h.prev) obj h.maybe_empty_object)

unfoldable pub obstack_free : Obstack → ℕ → Run (Option Obstack)
obstack_free h obj =
    if ltb h.chunk.address obj && ltb obj h.chunk_limit
    then ok (some (record h { object_base = obj; next_free = obj }))
    else obstack_free_ h obj

-- With the sizes and alignments of `long double`, `uintmax_t` and pointers of 64-bit Linux.
abbrev pub default_alignment : ℕ
default_alignment = max 16 (max 8 8)

abbrev pub default_rounding : ℕ
default_rounding = max 16 (max 8 8)

abbrev pub default_size : ℕ
default_size =
    let clear = 2 ^ 64 - 1 - (default_rounding - 1) in
    4096 - bit_and (bit_and (12 + default_rounding - 1) clear + 4 + default_rounding - 1) clear

unfoldable pub obstack_begin_worker :
    (ℕ → List Chunk → ℕ → Option ℕ) → World → ℕ → ℕ → Run (World × Obstack)
obstack_begin_worker chunkfun w size alignment =
    let alignment' = if alignment == 0 then default_alignment else alignment in
    let size' = if size == 0 then default_size else size in
    elim (chunkfun w.calls [] size') [
      | none ↦ failed
      | some a ↦
          let base = chunk_base (alignment' - 1) a in
          ok (
            record w { calls = w.calls + 1 },
            record {
              chunk_size = size';
              chunk = record { address = a; limit = a + size' };
              prev = [];
              object_base = base;
              next_free = base;
              chunk_limit = a + size';
              alignment_mask = alignment' - 1;
              maybe_empty_object = false;
            },
          )
    ]

unfoldable pub obstack_init : (ℕ → List Chunk → ℕ → Option ℕ) → World → Run (World × Obstack)
obstack_init chunkfun w = obstack_begin_worker chunkfun w 0 0
