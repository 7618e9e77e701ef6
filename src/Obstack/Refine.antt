-- ===== src/Obstack/Refine.antt =====
-- An obstack refines a stack of objects.
use yalibct.Base.{
  ℕ, zero, suc, ◌+◌, ◌≤◌, ◌<◌, ◌^◌, ◌≡◌, refl, ap, sym, ◌∙◌, subst, ◌⊎◌, inl, inr, Bool, true,
  false, List, [], ◌∷◌, ◌++◌, map, Option, none, some, get_elem?, drop, replicate, arith,
  Option-cases,
}
use yalibct.Obstack.{
  Run, ok, failed, ◌>>=◌, World, Chunk, Obstack, chunk_base, obstack_finish, obstack_begin_worker,
  obstack_init,
}
use yalibct.Obstack.Align.{IsMask, ptr_align_lem}
use yalibct.Obstack.Memory.{Holds}
use yalibct.Obstack.Layout.{Object, IsApart, IsChain, Layout, object, first, none_older, AllHold}
use yalibct.Obstack.NewChunk.{IsAllocator, IsValid}
use yalibct.Obstack.Steps.{Grows, grow-IsValid, blank-IsValid, finish-IsValid}
use yalibct.Obstack.Free.{IsAt, here, there, Frees, free-IsValid}
use yalibct.Obstack.Script.{
  Op, grow, blank, finish, free, IsSmall, free_pointer, run_op, run, run_script, Stack, stack_op,
  stack_run, Matches, Shows,
}

at_of : Object → ℕ
at_of o = o.at

cells_of : Object → List (Option ℕ)
cells_of o = o.cells

-- The state of a script that has come to a stack.
record IsAtStack (w : World) (h : Obstack) (ps : List ℕ) (s : Stack) : Type 0 where
  objects : List Object
  pointers : ps ≡ map at_of objects
  finished : s.finished ≡ map cells_of objects
  valid : IsValid w h objects s.growing

matching :
    (a : ℕ) (m : ℕ → ℕ) (c : Chunk) (cs : List Chunk) (u : ℕ) (e : Bool) (os : List Object)
    → Layout a (c ∷ cs) u e os
    → u ≤ c.limit
    → AllHold m os
    → Matches a m (map at_of os) (map cells_of os)
unfolding Matches AllHold at_of cells_of
matching a m c cs u e (o ∷ os) (object _ low high full aligned l) under h = (
  h.0,
  elim aligned [ inl multiple ↦ inl multiple | inr end ↦ inr (omega (arith, end, high, under)) ],
  matching a m c cs o.at e os l (omega (arith, high, under)) h.1,
)
matching a m c (c' ∷ cs) u e os (first l) under h =
    matching a m c' cs c'.limit true os l (omega arith) h
matching a m c cs u e [] none_older under h = tt

IsSmall-split : (op : Op) (ops : List Op) → IsSmall (op ∷ ops) → IsSmall (op ∷ []) × IsSmall ops
unfolding IsSmall
IsSmall-split (grow bytes) ops small = ((small.0, tt), small.1)
IsSmall-split (blank n) ops small = ((small.0, tt), small.1)
IsSmall-split finish ops small = (tt, small)
IsSmall-split (free i) ops small = (tt, small)

-- A first chunk, with the default alignment.
pub first-IsValid :
    (w : World) (a n : ℕ)
    → a + n < 2 ^ 63
    → 32 ≤ n
    → IsValid w
        (record {
          chunk_size = n;
          chunk = record { address = a; limit = a + n };
          prev = [];
          object_base = chunk_base 15 a;
          next_free = chunk_base 15 a;
          chunk_limit = a + n;
          alignment_mask = 15;
          maybe_empty_object = false;
        })
        []
        []
unfolding IsMask IsChain IsApart AllHold Holds
first-IsValid w a n room enough =
    let mask : IsMask 15 = (4, omega arith, refl) in
    let (above, below, multiple) = ptr_align_lem 15 (a + 16) mask (omega (arith, room, enough)) in
    record {
      mask = mask;
      limit = refl;
      chain = (omega (arith, above), omega (arith, below, enough), room, tt, tt);
      low = omega arith;
      next = omega arith;
      high = omega (arith, below, enough);
      aligned = inl multiple;
      layout = none_older;
      objects = tt;
      grown = tt;
    }

module _ (chunkfun : ℕ → List Chunk → ℕ → Option ℕ) (allocator : IsAllocator chunkfun) where
  -- An operation fails, or comes to the next stack.
  Arrives : Stack → Run (World × Obstack × List ℕ) → Type 0
  Arrives s r =
      (r ≡ failed)
      ⊎ ((w : World) × (h : Obstack) × (ps : List ℕ) × (r ≡ ok (w, h, ps)) × IsAtStack w h ps s)

  pick :
      (os : List Object) (i : ℕ)
      → ((get_elem? (map at_of os) i ≡ none) × (get_elem? (map cells_of os) i ≡ none))
        ⊎ ((o : Object) × (older : List Object) × (get_elem? (map at_of os) i ≡ some o.at)
            × (get_elem? (map cells_of os) i ≡ some o.cells)
            × IsAt o os older
            × (drop (suc i) (map at_of os) ≡ map at_of older)
            × (drop (suc i) (map cells_of os) ≡ map cells_of older))
  unfolding at_of cells_of
  pick [] i = inl (refl, refl)
  pick (o ∷ os) zero = inr (o, os, refl, refl, here, refl, refl)
  pick (x ∷ os) (suc i) = elim (pick os i) [
    | inl out ↦ inl out
    | inr (o, older, p, c, place, ps, cs) ↦ inr (o, older, p, c, there place, ps, cs)
  ]

  grow-Arrives :
      (w : World) (h : Obstack) (ps : List ℕ) (s : Stack) (growing : List (Option ℕ))
      (z : IsAtStack w h ps s) (r : Run (World × Obstack))
      → Grows z.objects growing r
      → Arrives (record s { growing = growing }) (r >>= (λ x. ok (x.0, x.1, ps)))
  unfolding Grows Arrives
  grow-Arrives w h ps s growing z r (inl fails) = inl (rw (fails) refl)
  grow-Arrives w h ps s growing z r (inr (w', h', e, v)) = inr (
    w',
    h',
    ps,
    rw (e) refl,
    record { objects = z.objects; pointers = z.pointers; finished = z.finished; valid = v },
  )

  op-Arrives :
      (op : Op) (w : World) (h : Obstack) (ps : List ℕ) (s : Stack)
      → IsAtStack w h ps s
      → IsSmall (op ∷ [])
      → Arrives (stack_op op s) (run_op chunkfun op w h ps)
  unfolding run_op stack_op free_pointer IsSmall Arrives Frees obstack_finish at_of cells_of
  op-Arrives (grow bytes) w h ps s z small =
      grow-Arrives w h ps s (s.growing ++ map some bytes) z _
        (grow-IsValid chunkfun allocator w h z.objects s.growing bytes z.valid small.0)
  op-Arrives (blank n) w h ps s z small =
      grow-Arrives w h ps s (s.growing ++ replicate n none) z _
        (blank-IsValid chunkfun allocator w h z.objects s.growing n z.valid small.0)
  op-Arrives finish w h ps s z small = inr (
    w,
    (obstack_finish h).1,
    (obstack_finish h).0 ∷ ps,
    refl,
    record {
      objects = record { at = h.object_base; cells = s.growing } ∷ z.objects;
      pointers = ap (λ l. h.object_base ∷ l) z.pointers;
      finished = ap (λ l. s.growing ∷ l) z.finished;
      valid = finish-IsValid w h z.objects s.growing z.valid;
    },
  )
  op-Arrives (free i) w h ps s z small = elim (pick z.objects i) [
    | inl (no_pointer, no_object) ↦
        rw
          (
            free_pointer,
            ap (λ l. get_elem? l i) z.pointers ∙ no_pointer,
            stack_op,
            ap (λ l. get_elem? l i) z.finished ∙ no_object,
          )
          (inr (w, h, ps, refl, z))
    | inr (o, older, p, c, place, ps', cs') ↦
        let (h', frees, v) = free-IsValid w h z.objects s.growing z.valid o older place in
        rw
          (
            free_pointer,
            ap (λ l. get_elem? l i) z.pointers ∙ p,
            stack_op,
            ap (λ l. get_elem? l i) z.finished ∙ c,
            frees,
            ◌>>=◌,
          )
          (inr (
            w,
            h',
            drop (suc i) ps,
            refl,
            record {
              objects = older;
              pointers = ap (λ l. drop (suc i) l) z.pointers ∙ ps';
              finished = ap (λ l. drop (suc i) l) z.finished ∙ cs';
              valid = v;
            },
          ))
  ]

  run-Arrives :
      (ops : List Op) (w : World) (h : Obstack) (ps : List ℕ) (s : Stack)
      → IsAtStack w h ps s
      → IsSmall ops
      → Arrives (stack_run ops s) (run chunkfun ops w h ps)
  unfolding run stack_run Arrives
  run-Arrives [] w h ps s z small = inr (w, h, ps, refl, z)
  run-Arrives (op ∷ ops) w h ps s z small =
      let (now, later) = IsSmall-split op ops small in
      elim (op-Arrives op w h ps s z now) [
        | inl fails ↦ inl (rw (run, fails) refl)
        | inr (w', h', ps', step, z') ↦
            rw (run, step, ◌>>=◌) (run-Arrives ops w' h' ps' (stack_op op s) z' later)
      ]

  init-Arrives :
      (w : World)
      → (obstack_init chunkfun w ≡ failed)
        ⊎ ((w' : World) × (h : Obstack) × (obstack_init chunkfun w ≡ ok (w', h))
            × IsValid w' h [] [])
  unfolding obstack_init obstack_begin_worker IsAllocator
  init-Arrives w = elim (Option-cases (chunkfun w.calls [] 4064)) [
    | inl none_left ↦ inl (rw (obstack_init, obstack_begin_worker, none_left) refl)
    | inr (a, given) ↦ inr (
      record w { calls = w.calls + 1 },
      _,
      rw (obstack_init, obstack_begin_worker, given) refl,
      first-IsValid (record w { calls = w.calls + 1 }) a 4064 (allocator w.calls [] 4064 a given).0
          (omega arith),
    )
  ]

  Arrives-Shows : (s : Stack) (r : Run (World × Obstack × List ℕ)) → Arrives s r → Shows s r
  unfolding Arrives Shows
  Arrives-Shows s r (inl fails) = subst (Shows s) (sym fails) tt
  Arrives-Shows s r (inr (w, h, ps, e, z)) =
      let v = z.valid in
      subst (Shows s) (sym e) (
        subst (λ l. Matches h.alignment_mask w.memory l s.finished) (sym z.pointers)
            (subst (λ l. Matches h.alignment_mask w.memory (map at_of z.objects) l) (sym z.finished)
              (matching h.alignment_mask w.memory h.chunk h.prev h.object_base h.maybe_empty_object
                z.objects v.layout (omega (arith, v.next, v.high)) v.objects)),
        v.grown,
        v.next,
      )

  -- A script of calls after obstack_init, with sizes that are a `size_t`, either ends in the handler for
  -- failed allocations, or the memory shows its stack: at each pointer that obstack_finish gave and that
  -- was not freed are the bytes that were grown there, whatever was grown, finished and freed later, and an
  -- object that is not empty is aligned; the growing object is at its base, with its size. No byte is
  -- written outside the current chunk, and obstack_free finds the chunk of each pointer.
  pub run_script-Shows :
      (ops : List Op) (w : World)
      → IsSmall ops
      → Shows (stack_run ops (record { finished = []; growing = [] })) (run_script chunkfun ops w)
  unfolding run_script Arrives
  run_script-Shows ops w small =
      Arrives-Shows (stack_run ops (record { finished = []; growing = [] })) _
        (elim (init-Arrives w) [
          | inl fails ↦ inl (rw (run_script, fails) refl)
          | inr (w', h, starts, v) ↦
              rw (run_script, starts, ◌>>=◌)
                (run-Arrives ops w' h [] (record { finished = []; growing = [] })
                  (record { objects = []; pointers = refl; finished = refl; valid = v }) small)
        ])
