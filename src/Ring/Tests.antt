-- ===== src/Ring/Tests.antt =====
-- Runs of the ring, and its theorems at concrete rings.
use yalibct.Base.{◌≡◌, refl, List, [], ◌∷◌, some}
use yalibct.Base.Int.{pos, negsuc}
use yalibct.Ring.Stack
use yalibct.Ring.Stack.{Op, add, remove}
use yalibct.Ring.{i_ring_init, i_ring_empty, i_ring_push, i_ring_pop}
use yalibct.Ring.Refine.{init-IsValid, run, run_refines}

-- The ring of four after five pushes of descriptors, as `fts` makes them, and a pop.
abbrev script : List Op
script =
    add (pos 3) ∷ add (pos 4) ∷ add (pos 5) ∷ add (pos 6) ∷ add (pos 7) ∷ remove ∷ add (pos 8) ∷ []

script_runs :
    run (i_ring_init (negsuc 0)) script
    ≡ some (negsuc 0)
      ∷ some (negsuc 0)
      ∷ some (negsuc 0)
      ∷ some (negsuc 0)
      ∷ some (pos 3)
      ∷ some (pos 7)
      ∷ some (negsuc 0)
      ∷ []
unfolding run i_ring_init i_ring_push i_ring_pop i_ring_empty
script_runs = refl

run_refines_example : run (i_ring_init (negsuc 0)) script ≡ Stack.run (negsuc 0) [] script
unfolding i_ring_init
run_refines_example = run_refines script (i_ring_init (negsuc 0)) (init-IsValid (negsuc 0)).0
