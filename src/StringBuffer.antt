-- ===== src/StringBuffer.antt =====
-- include/test-lib/portable-symbols/internal/gnulib: struct_string_buffer.h, sb_init.h,
-- string-buffer-common.h, sb_appendvf.h, sb_appendf.h, sb_free.h and sb_dupfree.h, a growing buffer
-- that formatted text is appended to.
pub mod Append
pub mod Total
pub mod Dupfree
mod Tests
use yalibct.Base.{
  ℕ, zero, suc, ◌+◌, ◌-◌, ◌*◌, ◌%◌, ◌^◌, ◌≤◌, ◌<◌, ◌≡◌, Bool, true, false, List, [], ◌∷◌, Option,
  none, some, ltb, leb, length, take, min, if◌then◌else◌,
}
use yalibct.Base.Int.{ℤ, pos, negsuc}

-- The C library's allocator, for one call of an operation: the contents of a new block are its own.
pub record Allocator : Type 0 where
  pub malloc : ℕ → Option (List ℕ)
  pub realloc : List ℕ → ℕ → Option (List ℕ)
  pub malloc_size : (n : ℕ) (d : List ℕ) → malloc n ≡ some d → length d ≡ n
  pub realloc_size : (o : List ℕ) (n : ℕ) (d : List ℕ) → realloc o n ≡ some d → length d ≡ n
  -- no object is larger than `PTRDIFF_MAX`
  pub malloc_small : (n : ℕ) (d : List ℕ) → malloc n ≡ some d → n < 2 ^ 63
  pub realloc_small : (o : List ℕ) (n : ℕ) (d : List ℕ) → realloc o n ≡ some d → n < 2 ^ 63
  pub realloc_keeps :
      (o : List ℕ) (n : ℕ) (d : List ℕ)
      → realloc o n ≡ some d
      → (k : ℕ) → k ≤ min (length o) n
      → take k d ≡ take k o

-- Bytes written from index `i` on; what lies past the end is dropped, which the invariant rules out.
abbrev pub write_at : List ℕ → ℕ → List ℕ → List ℕ
write_at [] i bs = []
write_at (x ∷ xs) zero [] = x ∷ xs
write_at (x ∷ xs) zero (b ∷ bs) = b ∷ write_at xs zero bs
write_at (x ∷ xs) (suc i) bs = x ∷ write_at xs i bs

-- `struct string_buffer`: `data_` is the block of `allocated` bytes that `data` points to, and
-- `on_stack` says that this is `space`.
pub record StringBuffer : Type 0 where
  pub data_ : List ℕ
  pub len : ℕ
  pub allocated : ℕ
  pub error : Bool
  pub on_stack : Bool

-- `space` is the array of 1024 bytes in the caller's struct.
pub sb_init : List ℕ → StringBuffer
sb_init space = record {
  data_ = space;
  len = 0;
  allocated = length space;
  error = false;
  on_stack = true;
}

-- `size_t`
abbrev pub size_mod : ℕ
size_mod = 2 ^ 64

-- The block that replaces `data`, or `none` without memory.
pub grow_block : Allocator → StringBuffer → ℕ → Option (List ℕ)
grow_block m b new_allocated =
    if b.on_stack
    then (elim (m.malloc new_allocated) [
      | none ↦ none
      | some d ↦ some (write_at d 0 (take b.len b.data_))
    ])
    else m.realloc b.data_ new_allocated

-- The new buffer, and 0 or -1.
pub sb_ensure_more_bytes : Allocator → StringBuffer → ℕ → StringBuffer × ℤ
sb_ensure_more_bytes m b increment =
    let incremented_length = (b.len + increment) % size_mod in
    let doubled = (2 * b.allocated) % size_mod in
    let new_allocated = if ltb doubled incremented_length then incremented_length else doubled in
    if ltb incremented_length increment
    then (b, negsuc 0)
    else if ltb b.allocated incremented_length
    then (if ltb doubled b.allocated then (b, negsuc 0) else (elim (grow_block m b new_allocated) [
      | none ↦ (b, negsuc 0)
      | some d ↦ (record b { data_ = d; allocated = new_allocated; on_stack = false }, pos 0)
    ]))
    else (b, pos 0)

-- A call of the C library's `vsnprintf` with a format and its arguments: from the size that it is
-- given, the value that it returns and the bytes that it stores.
abbrev pub Vsnprintf : Type 0
Vsnprintf = ℕ → ℤ × List ℕ

-- `buffer->error = true; ret = -1;`
abbrev pub fail : StringBuffer → Option (StringBuffer × ℤ)
fail b = some (record b { error = true }, negsuc 0)

-- A call of `vsnprintf` at the end of the text: the buffer with the bytes that it stored.
abbrev pub stored : StringBuffer → List ℕ → StringBuffer
stored b bs = record b { data_ = write_at b.data_ b.len bs }

-- The second call, with the room made.
pub append_again : Vsnprintf → StringBuffer → Option (StringBuffer × ℤ)
append_again vsnprintf b =
    let room = (b.allocated + size_mod - b.len) % size_mod in
    let (ret, bs) = vsnprintf room in
    elim ret [
      | negsuc _ ↦ fail (stored b bs)
      | pos n ↦ if leb n room then some (record (stored b bs) { len = b.len + n }, pos 0) else none
    ]

-- The calls from the first `vsnprintf` on.
pub append_with : Allocator → Vsnprintf → Vsnprintf → StringBuffer → Option (StringBuffer × ℤ)
append_with m first second b =
    let room = (b.allocated + size_mod - b.len) % size_mod in
    let (ret, bs) = first room in
    elim ret [
      | negsuc _ ↦ fail (stored b bs)
      | pos n ↦
          if leb n room
          then some (record (stored b bs) { len = b.len + n }, pos 0)
          else (let (b', status) = sb_ensure_more_bytes m (stored b bs) n in
              elim status [ negsuc _ ↦ fail b' | pos _ ↦ append_again second b' ])
    ]

-- `sb_appendvf`, and `sb_appendf`, which has the same body; `none` is the call of `abort`. `first` and
-- `second` are the calls of `vsnprintf` with `list` and `list_copy`, `early` and `late` the allocator
-- at the two places that ask for room.
pub sb_appendvf :
    Allocator → Allocator → Vsnprintf → Vsnprintf → StringBuffer → Option (StringBuffer × ℤ)
sb_appendvf early late first second b =
    let room = (b.allocated + size_mod - b.len) % size_mod in
    if ltb room 64
    then (let (b', status) = sb_ensure_more_bytes early b 64 in
        elim status [ negsuc _ ↦ fail b' | pos _ ↦ append_with late first second b' ])
    else append_with late first second b

-- `sb_free`: whether it calls `free`.
pub sb_free : StringBuffer → Bool
sb_free b = if b.on_stack then false else true

-- What `sb_dupfree` returns, the buffer that it leaves, and whether it freed the buffer's block.
pub record Dup : Type 0 where
  pub result : Option (List ℕ)
  pub buffer : StringBuffer
  pub freed : Bool

-- `fail:`
abbrev pub dup_fail : StringBuffer → Dup
dup_fail b = record { result = none; buffer = b; freed = sb_free b }

-- The last part, with the null byte in place: a copy of the array on the stack, or the block itself,
-- shrunk. A failure of either goes to `fail`.
pub dup_block : Allocator → StringBuffer → Dup
dup_block m b =
    if b.on_stack
    then (elim (m.malloc b.len) [
      | none ↦ dup_fail b
      | some d ↦ record {
        result = some (write_at d 0 (take b.len b.data_));
        buffer = b;
        freed = false;
      }
    ])
    else if ltb b.len b.allocated
    then (elim (m.realloc b.data_ b.len) [
      | none ↦ dup_fail b
      | some d ↦ record { result = some d; buffer = b; freed = false }
    ])
    else record { result = some b.data_; buffer = b; freed = false }

pub sb_dupfree : Allocator → Allocator → StringBuffer → Dup
sb_dupfree early late b =
    if b.error
    then dup_fail b
    else (let (b', status) = sb_ensure_more_bytes early b 1 in
        elim status [
          | negsuc _ ↦ dup_fail b'
          | pos _ ↦
              dup_block late
                (record b' { data_ = write_at b'.data_ b'.len (0 ∷ []); len = b'.len + 1 })
        ])
