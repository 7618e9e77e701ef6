-- ===== src/Obstack/Tests.antt =====
-- Runs of the obstack operations, and the refinement at a concrete allocator.
use yalibct.Base.{
  ℕ, zero, suc, ◌+◌, ◌≤◌, ◌^◌, ◌≡◌, ◌≢◌, refl, ap, sym, ◌∙◌, inl, inr, true, false, List, [], ◌∷◌,
  ◌++◌, map, replicate, Option, none, some, ltb, ltb→lt, max, arith, Bool-cases, if◌then◌else◌,
}
use yalibct.Obstack.{
  Run, ok, failed, aborted, fault, World, Chunk, Obstack, chunk_base, obstack_grow, obstack_finish,
  obstack_init, obstack_begin_worker, obstack_blank, obstack_blank_fast, obstack_free,
  obstack_free_, free_chunks, stop_at, make_room, add_bytes, obstack_newchunk, newchunk_size,
  move_object, obstack_room, ptr_align, read, write,
}
use yalibct.Obstack.Layout.{IsApart}
use yalibct.Obstack.NewChunk.{IsAllocator, IsValid}
use yalibct.Obstack.Script.{
  Op, grow, blank, finish, free, IsSmall, free_pointer, run_op, run, run_script, stack_run, Shows,
}
use yalibct.Obstack.Granted.{grow_granted}
use yalibct.Obstack.Refine.{first-IsValid, run_script-Shows}

-- Behind all chunks that are in use
unfoldable pub top : List Chunk → ℕ
top [] = 1000
top (c ∷ cs) = max c.limit (top cs)

unfoldable pub bump : ℕ → List Chunk → ℕ → Option ℕ
bump calls live n = if ltb (top live + n) (2 ^ 63) then some (top live) else none

top-IsApart : (live : List Chunk) (a hi : ℕ) → top live ≤ a → IsApart a hi live
unfolding top IsApart
top-IsApart [] a hi above = tt
top-IsApart (c ∷ cs) a hi above =
    (inr (omega (arith, above)), top-IsApart cs a hi (omega (arith, above)))

value : Option ℕ → ℕ
value none = 0
value (some a) = suc a

pub bump-IsAllocator : IsAllocator bump
unfolding IsAllocator bump value
bump-IsAllocator calls live n a given = elim (Bool-cases (ltb (top live + n) (2 ^ 63))) [
  | inl fits ↦
      let same = ap value (sym given ∙ there fits) in
      (
        omega (arith, same, ltb→lt (top live + n) (2 ^ 63) fits),
        top-IsApart live a (a + n) (omega (arith, same)),
      )
  | inr beyond ↦ absurd (zero≢suc (ap value (sym (out beyond) ∙ given)))
]
  where
    there : ltb (top live + n) (2 ^ 63) ≡ true → bump calls live n ≡ some (top live)
    there fits = rw (bump, fits) refl

    out : ltb (top live + n) (2 ^ 63) ≡ false → bump calls live n ≡ none
    out beyond = rw (bump, beyond) refl

    zero≢suc : {n : ℕ} → zero ≢ suc n
    zero≢suc h = omega (arith, h)

abbrev pub start : World
start = record { memory = λ a. 0; calls = 0 }

abbrev script : List Op
script = grow (1 ∷ 2 ∷ []) ∷ finish ∷ blank 5000 ∷ finish ∷ free 0 ∷ grow (3 ∷ []) ∷ []

run_script-Shows_example :
    Shows (stack_run script (record { finished = []; growing = [] })) (run_script bump script start)
unfolding IsSmall
run_script-Shows_example =
    run_script-Shows bump bump-IsAllocator script start
      (omega arith, (omega arith, (omega arith, tt)))

-- The first object is kept, and the second one, which is in a chunk of its own, is freed.
pointers : Run (World × Obstack × List ℕ) → List ℕ
pointers (ok (w, h, ps)) = ps
pointers failed = []
pointers aborted = []
pointers fault = []

script_pointers : pointers (run_script bump script start) ≡ 1024 ∷ []
unfolding pointers run_script run run_op free_pointer bump top obstack_init obstack_begin_worker
    obstack_grow obstack_blank obstack_blank_fast obstack_finish obstack_free obstack_free_
    free_chunks stop_at make_room add_bytes obstack_newchunk newchunk_size move_object obstack_room
    ptr_align read write
script_pointers = refl

-- An obstack with a first chunk of a size, at 1000
abbrev pub sized : ℕ → Obstack
sized n = record {
  chunk_size = n;
  chunk = record { address = 1000; limit = 1000 + n };
  prev = [];
  object_base = chunk_base 15 1000;
  next_free = chunk_base 15 1000;
  chunk_limit = 1000 + n;
  alignment_mask = 15;
  maybe_empty_object = false;
}

pub sized-IsValid : IsValid start (sized 4064) [] []
sized-IsValid = first-IsValid start 1000 4064 (omega arith) (omega arith)

close-IsValid : IsValid start (sized 40) [] []
close-IsValid = first-IsValid start 1000 40 (omega arith) (omega arith)

abbrev many : List ℕ
many = replicate 20 7

-- The chunk has room for 16 bytes.
grow_granted_example :
    (w' : World) × (h' : Obstack) × (obstack_grow bump start (sized 40) many ≡ ok (w', h'))
    × IsValid w' h' [] ([] ++ map some many)
unfolding bump top newchunk_size ptr_align
grow_granted_example =
    grow_granted bump start (sized 40) [] [] close-IsValid bump-IsAllocator many 1040 (omega arith)
      refl
