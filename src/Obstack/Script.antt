-- ===== src/Obstack/Script.antt =====
-- Scripts of calls on an obstack, and the stack of objects that they stand for.
use yalibct.Base.{
  ℕ, suc, ◌+◌, ◌<◌, ◌^◌, ◌≡◌, ◌⊎◌, List, [], ◌∷◌, ◌++◌, map, Option, none, some, length, get_elem?,
  drop, replicate,
}
use yalibct.Obstack.{
  Run, ok, failed, aborted, fault, ◌>>=◌, World, Chunk, Obstack, obstack_grow, obstack_blank,
  obstack_finish, obstack_free, obstack_init,
}
use yalibct.Obstack.Align.{IsAligned}
use yalibct.Obstack.Memory.{Holds}

-- `free` takes the number of a pointer that `finish` has given, counted from the last one.
pub data Op : Type 0 where
  grow : List ℕ → Op
  blank : ℕ → Op
  finish : Op
  free : ℕ → Op

-- A size is a `size_t`.
unfoldable pub IsSmall : List Op → Type 0
IsSmall [] = Unit
IsSmall (grow bytes ∷ ops) = (length bytes < 2 ^ 64) × IsSmall ops
IsSmall (blank n ∷ ops) = (n < 2 ^ 64) × IsSmall ops
IsSmall (finish ∷ ops) = IsSmall ops
IsSmall (free i ∷ ops) = IsSmall ops

-- The pointers that are in use are kept, the last one first.
module _ (chunkfun : ℕ → List Chunk → ℕ → Option ℕ) where
  unfoldable pub free_pointer : World → Obstack → List ℕ → ℕ → Run (World × Obstack × List ℕ)
  free_pointer w h ps i = elim (get_elem? ps i) [
    | none ↦ ok (w, h, ps)
    | some p ↦ do
      freed ← obstack_free h p
      elim freed [ none ↦ aborted | some h' ↦ ok (w, h', drop (suc i) ps) ]
  ]

  unfoldable pub run_op : Op → World → Obstack → List ℕ → Run (World × Obstack × List ℕ)
  run_op (grow bytes) w h ps = do (w', h') ← obstack_grow chunkfun w h bytes; ok (w', h', ps)
  run_op (blank n) w h ps = do (w', h') ← obstack_blank chunkfun w h n; ok (w', h', ps)
  run_op finish w h ps = let (p, h') = obstack_finish h in ok (w, h', p ∷ ps)
  run_op (free i) w h ps = free_pointer w h ps i

  unfoldable pub run : List Op → World → Obstack → List ℕ → Run (World × Obstack × List ℕ)
  run [] w h ps = ok (w, h, ps)
  run (op ∷ ops) w h ps = do (w', h', ps') ← run_op op w h ps; run ops w' h' ps'

  unfoldable pub run_script : List Op → World → Run (World × Obstack × List ℕ)
  run_script ops w = do (w', h) ← obstack_init chunkfun w; run ops w' h []

-- The finished objects, the last one first, and the one that grows. A cell that was never written is
-- `none`.
pub record Stack : Type 0 where
  pub finished : List (List (Option ℕ))
  pub growing : List (Option ℕ)

unfoldable pub stack_op : Op → Stack → Stack
stack_op (grow bytes) s = record s { growing = s.growing ++ map some bytes }
stack_op (blank n) s = record s { growing = s.growing ++ replicate n none }
stack_op finish s = record { finished = s.growing ∷ s.finished; growing = [] }
stack_op (free i) s = elim (get_elem? s.finished i) [
  | none ↦ s
  | some cells ↦ record { finished = drop (suc i) s.finished; growing = [] }
]

unfoldable pub stack_run : List Op → Stack → Stack
stack_run [] s = s
stack_run (op ∷ ops) s = stack_run ops (stack_op op s)

-- At each pointer stands its object, and it is aligned unless the object is empty.
unfoldable pub Matches : ℕ → (ℕ → ℕ) → List ℕ → List (List (Option ℕ)) → Type 0
Matches a m [] [] = Unit
Matches a m [] (cells ∷ stack) = ⊥
Matches a m (p ∷ ps) [] = ⊥
Matches a m (p ∷ ps) (cells ∷ stack) =
    Holds m p cells × (IsAligned a p ⊎ (length cells ≡ 0)) × Matches a m ps stack

-- What a script comes to: the handler for failures of allocation is called, or the memory shows the stack.
unfoldable pub Shows : Stack → Run (World × Obstack × List ℕ) → Type 0
Shows s failed = Unit
Shows s aborted = ⊥
Shows s fault = ⊥
Shows s (ok (w, h, ps)) =
    Matches h.alignment_mask w.memory ps s.finished
    × Holds w.memory h.object_base s.growing
    × (h.next_free ≡ h.object_base + length s.growing)
