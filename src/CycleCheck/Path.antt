-- ===== src/CycleCheck/Path.antt =====
-- What is marked as a cycle in a walk of fts_read.h is one.
use yalibct.Base.{
  ℕ, ◌+◌, ◌^◌, ◌≤◌, ◌<◌, ◌≡◌, refl, subst, sym, ◌⊎◌, inl, inr, true, false, ap₂, List, [], ◌∷◌,
  ◌++◌, some, ◌==◌, arith, Bool-cases,
}
use yalibct.CycleCheck.{
  DevIno, CycleCheckState, cc_magic, same_inode, is_zero_or_power_of_two, cycle_check_init,
  cycle_check_reflect_chdir_up, enter_dir, leave_dir, setup_dir,
}
use yalibct.CycleCheck.Finds.{same_inode_refl, marked, passed, cycle_check-Descent, after}
use yalibct.CycleCheck.Walk.{
  Step, enter, leave, Entered, walk_step, walk, length, is_on, all_cycles,
}

-- In a walk of `n` steps so far, the recorded directory is one of the path.
Follows : ℕ → List DevIno → CycleCheckState → Type 0
Follows n [] state = Unit
Follows n (d ∷ path) state =
    (state.magic ≡ cc_magic)
    × (0 < state.chdir_counter)
    × (state.chdir_counter ≤ n)
    × (is_on state.dev_ino (d ∷ path) ≡ true)

same_inode-eq : (a b : DevIno) → same_inode a b ≡ true → a ≡ b
unfolding same_inode
same_inode-eq a b h = ap₂ (λ i d. record { st_ino = i; st_dev = d }) (ground arith) (ground arith)

is_on-tail : (d a : DevIno) (path : List DevIno) → is_on d path ≡ true → is_on d (a ∷ path) ≡ true
unfolding is_on
is_on-tail d a path h = ground arith

is_on-head : (d : DevIno) (path : List DevIno) → is_on d (d ∷ path) ≡ true
unfolding is_on
is_on-head d path = rw (same_inode_refl d) refl

-- What a step does.
data Stepped (n : ℕ) (step : Step) (path : List DevIno) (state : CycleCheckState) : Type 0 where
  stepped :
      (seen : List Entered) (path' : List DevIno) (state' : CycleCheckState)
      → walk_step step path state ≡ some (seen, path', state')
      → all_cycles seen ≡ true
      → Follows (n + 1) path' state'
      → Stepped n step path state

is_on-other :
    (d a : DevIno) (path : List DevIno)
    → same_inode d a ≡ false
    → is_on d (a ∷ path) ≡ true
    → is_on d path ≡ true
unfolding is_on
is_on-other d a path other h = ground (arith, other, h)

leave-Stepped :
    (n : ℕ) (path : List DevIno) (state : CycleCheckState)
    → Follows n path state
    → Stepped n leave path state
unfolding walk_step leave_dir Follows all_cycles cycle_check_reflect_chdir_up
leave-Stepped n [] state h = stepped [] [] state refl refl tt
leave-Stepped n (d ∷ []) state h = stepped [] [] state refl refl tt
leave-Stepped n (d ∷ parent ∷ path) state h = elim (Bool-cases (same_inode state.dev_ino d)) [
  | inl same ↦
      stepped [] (parent ∷ path) (record state { dev_ino = parent })
        (rw (walk_step, leave_dir, cycle_check_reflect_chdir_up, later, same) refl) refl
        (h.0, h.1, omega (arith, h.2), is_on-head parent path)
  | inr other ↦
      stepped [] (parent ∷ path) state
        (rw (walk_step, leave_dir, cycle_check_reflect_chdir_up, later, other) refl) refl
        (h.0, h.1, omega (arith, h.2), away other)
]
  where
    later : (state.chdir_counter == 0) ≡ false
    later = ground (arith, h.1)

    away : same_inode state.dev_ino d ≡ false → is_on state.dev_ino (parent ∷ path) ≡ true
    away other = is_on-other state.dev_ino d (parent ∷ path) other h.3

-- What an unmarked directory leaves, where the one that was recorded is on the path.
after-Follows :
    (n : ℕ) (d : DevIno) (path : List DevIno) (state : CycleCheckState)
    → state.magic ≡ cc_magic
    → state.chdir_counter ≤ n
    → (is_zero_or_power_of_two (state.chdir_counter + 1) ≡ true) ⊎ (is_on state.dev_ino path ≡ true)
    → Follows (n + 1) (d ∷ path) (after state d)
unfolding Follows
after-Follows n d path state valid bound (inl power) =
    (valid, omega arith, omega arith, rw power (is_on-head d path))
after-Follows n d path state valid bound (inr on) =
    elim (Bool-cases (is_zero_or_power_of_two (state.chdir_counter + 1))) [
      | inl power ↦ (valid, omega arith, omega arith, rw power (is_on-head d path))
      | inr off ↦ (valid, omega arith, omega arith, rw off (is_on-tail state.dev_ino d path on))
    ]

enter-Stepped :
    (n : ℕ) (d : DevIno) (path : List DevIno) (state : CycleCheckState)
    → n + 1 < 2 ^ 64
    → Follows n path state
    → Stepped n (enter d) path state
unfolding walk_step enter_dir setup_dir cycle_check_init all_cycles is_zero_or_power_of_two Follows
enter-Stepped n d [] state room h =
    elim (cycle_check-Descent (setup_dir state) d refl (omega arith)) [
      | marked later same step ↦ absurd (omega (arith, later))
      | passed miss step ↦
          stepped (record { dir = d; above = []; is_marked = false } ∷ []) (d ∷ [])
            (after (setup_dir state) d) (rw (walk_step, enter_dir, step) refl) refl
            (after-Follows n d [] (setup_dir state) refl (omega arith) (inl refl))
    ]
enter-Stepped n d (a ∷ path) state room h =
    elim (cycle_check-Descent state d h.0 (omega (arith, h.2))) [
      | marked later same step ↦
          stepped (record { dir = d; above = a ∷ path; is_marked = true } ∷ []) (a ∷ path) state
            (rw (walk_step, enter_dir, step) refl) (rw (all_cycles, all_cycles, found same) refl)
            (h.0, h.1, omega (arith, h.2), h.3)
      | passed miss step ↦
          stepped (record { dir = d; above = a ∷ path; is_marked = false } ∷ []) (d ∷ a ∷ path)
            (after state d) (rw (walk_step, enter_dir, step) refl) refl
            (after-Follows n d (a ∷ path) state h.0 h.2 (inr h.3))
    ]
  where
    found : same_inode d state.dev_ino ≡ true → is_on d (a ∷ path) ≡ true
    found same =
        subst (λ x. is_on x (a ∷ path) ≡ true) (sym (same_inode-eq d state.dev_ino same)) h.3

step-Stepped :
    (n : ℕ) (step : Step) (path : List DevIno) (state : CycleCheckState)
    → n + 1 < 2 ^ 64
    → Follows n path state
    → Stepped n step path state
step-Stepped n (enter d) path state room h = enter-Stepped n d path state room h
step-Stepped n leave path state room h = leave-Stepped n path state h

all_cycles-append :
    (es fs : List Entered)
    → all_cycles es ≡ true
    → all_cycles fs ≡ true
    → all_cycles (es ++ fs) ≡ true
unfolding all_cycles
all_cycles-append [] fs h k = k
all_cycles-append (e ∷ es) fs h k = ground (arith, h, all_cycles-append es fs (ground (arith, h)) k)

walk-Follows :
    (n : ℕ) (steps : List Step) (path : List DevIno) (state : CycleCheckState)
    → n + length steps < 2 ^ 64
    → Follows n path state
    → (es : List Entered) × (walk steps path state ≡ some es) × (all_cycles es ≡ true)
unfolding walk length all_cycles
walk-Follows n [] path state room h = ([], refl, refl)
walk-Follows n (step ∷ steps) path state room h =
    elim (step-Stepped n step path state (omega arith) h) [
      | stepped seen path' state' done sound next ↦
          let (es, rest, rest_sound) = walk-Follows (n + 1) steps path' state' (omega arith) next in
          (seen ++ es, rw (walk, done, rest) refl, all_cycles-append seen es sound rest_sound)
    ]

-- In a walk of fewer than 2 ^ 64 steps, from its first root on, the program does not end in `abort`, and
-- each directory that is marked FTS_DC has the inode and device of one of those on the path above it.
pub walk_lem :
    (steps : List Step) (state : CycleCheckState)
    → length steps < 2 ^ 64
    → (es : List Entered) × (walk steps [] state ≡ some es) × (all_cycles es ≡ true)
unfolding Follows
walk_lem steps state room = walk-Follows 0 steps [] state (omega (arith, room)) tt
