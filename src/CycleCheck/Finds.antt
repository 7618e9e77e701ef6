-- ===== src/CycleCheck/Finds.antt =====
-- Descents that go around a cycle of directories: cycle_check.h marks one of them.
use native.Mathlib.Nat.{two-pow-succ}
use mathlib.Core.Bool.{true≢false}
use yalibct.Base.{
  ℕ, zero, suc, ◌+◌, ◌-◌, ◌%◌, ◌^◌, ◌≤◌, ◌<◌, ◌≡◌, refl, ap, subst, sym, ◌∙◌, ◌⊎◌, inl, inr, Bool,
  true, false, not, ◌&&◌, Option, none, some, ◌==◌, ==_refl, if◌then◌else◌, arith, dec_lt,
  Bool-cases,
}
use yalibct.CycleCheck.{
  DevIno, CycleCheckState, cc_magic, same_inode, is_zero_or_power_of_two, cycle_check_init,
  cycle_check, enter_dir, setup_dir,
}
use yalibct.Base.Bits.{two_pow_pos}
use yalibct.CycleCheck.Power.{is_power}

pub same_inode_refl : (a : DevIno) → same_inode a a ≡ true
unfolding same_inode
same_inode_refl a = rw (==_refl a.st_ino, ==_refl a.st_dev) refl

-- Whether one of the next `k` descents, from number `n` on, is marked; the walk ends at the first.
unfoldable pub descend : ℕ → (ℕ → DevIno) → ℕ → CycleCheckState → Option Bool
descend zero d n state = some false
descend (suc k) d n state = elim (enter_dir state (d n)) [
  | none ↦ none
  | some (marked, state') ↦ elim marked [ true ↦ some true | false ↦ descend k d (suc n) state' ]
]

-- The state after a descent that is not marked.
abbrev pub after : CycleCheckState → DevIno → CycleCheckState
after state sb = record state {
  dev_ino = if is_zero_or_power_of_two (state.chdir_counter + 1) then sb else state.dev_ino;
  chdir_counter = state.chdir_counter + 1;
}

-- The two ways in which a call ends while the counter does not wrap.
pub data Descent (state : CycleCheckState) (sb : DevIno) : Type 0 where
  marked :
      0 < state.chdir_counter
      → same_inode sb state.dev_ino ≡ true
      → cycle_check state sb ≡ some (true, state)
      → Descent state sb
  passed :
      (state.chdir_counter ≡ 0) ⊎ (same_inode sb state.dev_ino ≡ false)
      → cycle_check state sb ≡ some (false, after state sb)
      → Descent state sb

module _ (state : CycleCheckState) (sb : DevIno) (valid : state.magic ≡ cc_magic)
    (room : state.chdir_counter + 1 < 2 ^ 64) where
  wraps : (state.chdir_counter + 1) % 2 ^ 64 ≡ state.chdir_counter + 1
  wraps = omega (arith, room)

  assured : (state.magic == cc_magic) ≡ true
  assured = subst (λ m. (m == cc_magic) ≡ true) (sym valid) refl

  nonzero : (state.chdir_counter + 1 == 0) ≡ false
  nonzero = ground arith

  goes_on :
      (not (state.chdir_counter == 0) && same_inode sb state.dev_ino) ≡ false
      → cycle_check state sb ≡ some (false, after state sb)
  unfolding cycle_check
  goes_on miss = elim (Bool-cases (is_zero_or_power_of_two (state.chdir_counter + 1))) [
    | inl power ↦ rw (cycle_check, wraps, assured, miss, power, nonzero) refl
    | inr no_power ↦ rw (cycle_check, wraps, assured, miss, no_power) refl
  ]

  pub cycle_check-Descent : Descent state sb
  unfolding cycle_check
  cycle_check-Descent = elim (Bool-cases (state.chdir_counter == 0)) [
    | inl first ↦ passed (inl (ground arith)) (goes_on (rw first refl))
    | inr later ↦ elim (Bool-cases (same_inode sb state.dev_ino)) [
      | inl same ↦ marked (ground arith) same (rw (cycle_check, wraps, assured, later, same) refl)
      | inr other ↦ passed (inr other) (goes_on (rw (later, other) refl))
    ]
  ]

module _ (d : ℕ → DevIno) (m p j : ℕ) (around : (n : ℕ) → m ≤ n → d (n + p) ≡ d n)
    (positive : 0 < p) (reached : m < 2 ^ j) (long : p ≤ 2 ^ j) (room : 2 ^ j + p < 2 ^ 64) where
  keeps :
      (n : ℕ) (state : CycleCheckState) (sb : DevIno)
      → state.chdir_counter ≡ n
      → 2 ^ j ≤ n
      → suc n < 2 ^ j + p
      → (after state sb).dev_ino ≡ state.dev_ino
  keeps n state sb counts from lt =
      rw
        (is_power j (state.chdir_counter + 1) (omega arith) (omega (arith, two-pow-succ j))
            (omega arith)
          ∙ off)
        refl
    where
      off : (state.chdir_counter + 1 == 2 ^ j) ≡ false
      off = ground arith

  records :
      (n : ℕ) (state : CycleCheckState) (sb : DevIno)
      → state.chdir_counter ≡ n
      → suc n ≡ 2 ^ j
      → (after state (d n)).dev_ino ≡ d (2 ^ j - 1)
  records n state sb counts full =
      rw
        (is_power j (state.chdir_counter + 1) (omega arith) (omega (arith, two-pow-succ j))
            (omega arith)
          ∙ on)
        (ap d (omega arith))
    where
      on : (state.chdir_counter + 1 == 2 ^ j) ≡ true
      on = ground arith

  meets :
      (n : ℕ) (state : CycleCheckState)
      → state.chdir_counter ≡ n
      → state.dev_ino ≡ d (2 ^ j - 1)
      → suc n ≡ 2 ^ j + p
      → (state.chdir_counter ≡ 0) ⊎ (same_inode (d n) state.dev_ino ≡ false)
      → ⊥
  meets n state counts saved last (inl first) = omega (arith, two_pow_pos j)
  meets n state counts saved last (inr other) = true≢false (
      sym
        (subst (λ a. same_inode a state.dev_ino ≡ true) (sym back) (same_inode_refl state.dev_ino))
      ∙ other)
    where
      back : d n ≡ state.dev_ino
      back = ap d (omega arith) ∙ around (2 ^ j - 1) (omega arith) ∙ sym saved

  -- From descent number 2 ^ j on, the directory before it is the recorded one.
  recorded :
      (k n : ℕ) (state : CycleCheckState)
      → state.magic ≡ cc_magic
      → state.chdir_counter ≡ n
      → state.dev_ino ≡ d (2 ^ j - 1)
      → 2 ^ j ≤ n
      → n + k ≡ 2 ^ j + p
      → 0 < k
      → descend k d n state ≡ some true
  unfolding descend enter_dir
  recorded zero n state valid counts saved from total more = absurd (omega arith)
  recorded (suc k) n state valid counts saved from total more =
      elim (cycle_check-Descent state (d n) valid (omega arith)) [
        | marked later same step ↦ rw (descend, enter_dir, step) refl
        | passed miss step ↦
            rw (descend, enter_dir, step)
              (elim (dec_lt (suc n) (2 ^ j + p)) [
                | yes lt ↦
                    recorded k (suc n) (after state (d n)) valid (omega arith)
                      (keeps n state (d n) counts from lt ∙ saved) (omega arith) (omega arith)
                      (omega arith)
                | no ge ↦ absurd (meets n state counts saved (omega arith) miss)
              ])
      ]

  -- Before that, a directory that is marked ends the walk, or the number is reached.
  approaches :
      (k n : ℕ) (state : CycleCheckState)
      → state.magic ≡ cc_magic
      → state.chdir_counter ≡ n
      → n < 2 ^ j
      → n + k ≡ 2 ^ j + p
      → descend k d n state ≡ some true
  unfolding descend enter_dir
  approaches zero n state valid counts before total = absurd (omega arith)
  approaches (suc k) n state valid counts before total =
      elim (cycle_check-Descent state (d n) valid (omega arith)) [
        | marked later same step ↦ rw (descend, enter_dir, step) refl
        | passed miss step ↦
            rw (descend, enter_dir, step)
              (elim (dec_lt (suc n) (2 ^ j)) [
                | yes lt ↦
                    approaches k (suc n) (after state (d n)) valid (omega arith) lt (omega arith)
                | no ge ↦
                    recorded k (suc n) (after state (d n)) valid (omega arith)
                      (records n state (d n) counts (omega arith)) (omega arith) (omega arith)
                      (omega arith)
              ])
      ]

  -- Let the directories of a descent repeat after `p` of them, from number `m` on, as they do in a cycle,
  -- and let a power of two, 2 ^ j, be above `m` and at least `p`. Then one of the first 2 ^ j + p
  -- directories is marked FTS_DC, if that number is below 2 ^ 64.
  pub descend_lem :
      (fresh : CycleCheckState) → descend (2 ^ j + p) d 0 (setup_dir fresh) ≡ some true
  unfolding cycle_check_init setup_dir
  descend_lem fresh =
      approaches (2 ^ j + p) 0 (setup_dir fresh) refl refl (omega (arith, two_pow_pos j))
        (omega arith)
