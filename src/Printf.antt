-- ===== src/Printf.antt =====
-- vasnprintf.h, and its callers vdprintf.h, dprintf.h and obstack_printf.h in
-- include/test-lib/portable-symbols. The format and its arguments are fixed: `vsnprintf` is what they make.
use yalibct.Base.{
  ℕ, ◌+◌, ◌-◌, ◌^◌, Bool, true, false, not, List, [], ◌∷◌, Option, none, some, ltb, ◌==◌, length,
  if◌then◌else◌,
}
use yalibct.Base.Int.{ℤ, pos, negsuc}
use yalibct.FullWrite.{Device, Result, finished, hung, full_rw}
use yalibct.Obstack.{
  Run, ok, failed, aborted, fault, ◌>>=◌, World, Chunk, Obstack, write, obstack_room, obstack_grow,
  obstack_blank_fast,
}
pub mod Lengths
pub mod Grown
mod Tests

abbrev pub int_max : ℕ
int_max = 2 ^ 31 - 1

-- `vsnprintf` in the call of a number, for the size of the buffer: its result, which is `none` below 0, and
-- the bytes that it writes from the buffer's start on. `no_memory` is whether `errno` is `ENOMEM` behind a call that
-- fails, and `malloc` is whether there is memory of a size.
pub record Libc : Type 0 where
  pub vsnprintf : ℕ → ℕ → Option ℕ × List ℕ
  pub no_memory : Bool
  pub malloc : ℕ → Bool

-- The null pointer, the buffer or a new one, with the length that is stored and the bytes that are written
-- to the buffer and to the new one; the end in `assert`; or what the language leaves undefined: a null
-- pointer for a buffer, and the overflow of an `int`.
pub data Formatted : Type 0 where
  null : List ℕ → Formatted
  in_buffer : ℕ → List ℕ → Formatted
  allocated : ℕ → List ℕ → List ℕ → Formatted
  asserted : Formatted
  undefined : Formatted

-- The part behind the second call, which gives a result and the bytes of the new buffer.
unfoldable pub second_call : ℕ → List ℕ → Option ℕ × List ℕ → Formatted
second_call first_result bytes (none, big) = asserted
second_call first_result bytes (some n, big) =
    if n == first_result then allocated (first_result + 1) bytes big else asserted

-- The part behind the first call.
unfoldable pub first_call : Libc → ℕ → Option ℕ × List ℕ → Formatted
first_call libc initial_size (none, bytes) = null bytes
first_call libc initial_size (some n, bytes) =
    if n == int_max
    then undefined
    else if ltb n initial_size
    then in_buffer (n + 1) bytes
    else if libc.malloc (n + 1)
    then second_call n bytes (libc.vsnprintf 1 (n + 1))
    else undefined

unfoldable pub vasnprintf : Libc → ℕ → Formatted
vasnprintf libc initial_size = first_call libc initial_size (libc.vsnprintf 0 initial_size)

-- What vdprintf returns, with the bytes that the device has.
pub data Printed : Type 0 where
  returned : ℤ → List ℕ → Printed
  stopped : Printed

-- The part behind `full_write`.
unfoldable pub print_result : ℕ → Result → Printed
print_result len hung = stopped
print_result len (finished total errno sent) =
    if ltb total len
    then returned (negsuc 0) sent
    else if ltb int_max len
    then returned (negsuc 0) sent
    else returned (pos len) sent

module _ (libc : Libc) (device : Device) (fuel errno : ℕ) where
  -- The part with the output and its length.
  unfoldable pub write_output : List ℕ → List ℕ → ℕ → Printed
  write_output sent output len = print_result len (full_rw device fuel sent output len errno)

  unfoldable pub vdprintf : List ℕ → Printed
  vdprintf sent = elim (vasnprintf libc 2000) [
    | null bytes ↦ returned (negsuc 0) sent
    | in_buffer len bytes ↦ write_output sent bytes len
    | allocated len bytes big ↦ write_output sent big len
    | asserted ↦ stopped
    | undefined ↦ stopped
  ]

  unfoldable pub dprintf : List ℕ → Printed
  dprintf sent = vdprintf sent

abbrev pub cutoff : ℕ
cutoff = 1024

-- What is written behind the growing object.
unfoldable pub scratch : World → Obstack → Bool → List ℕ → World
scratch w obs in_place bytes =
    if in_place then record w { memory = write w.memory obs.next_free bytes } else w

module _ (libc : Libc) (chunkfun : ℕ → List Chunk → ℕ → Option ℕ) where
  -- The part behind `vasnprintf`.
  unfoldable pub print_into : Bool → World → Obstack → Formatted → Run (ℤ × World × Obstack)
  print_into in_place w obs (null bytes) =
      if libc.no_memory then failed else ok (negsuc 0, scratch w obs in_place bytes, obs)
  print_into true w obs (in_buffer n bytes) =
      ok (pos n, scratch w obs true bytes, obstack_blank_fast obs n)
  print_into false w obs (in_buffer n bytes) = do
    (w', obs') ← obstack_grow chunkfun w obs bytes
    ok (pos n, w', obs')
  print_into in_place w obs (allocated n bytes big) = do
    (w', obs') ← obstack_grow chunkfun (scratch w obs in_place bytes) obs big
    ok (pos n, w', obs')
  print_into in_place w obs asserted = aborted
  print_into in_place w obs undefined = fault

  unfoldable pub obstack_vprintf : World → Obstack → Run (ℤ × World × Obstack)
  obstack_vprintf w obs =
      let in_place = not (ltb (obstack_room obs) cutoff) in
      print_into in_place w obs (vasnprintf libc (if in_place then obstack_room obs else cutoff))

  unfoldable pub obstack_printf : World → Obstack → Run (ℤ × World × Obstack)
  obstack_printf w obs = obstack_vprintf w obs
