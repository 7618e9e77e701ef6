-- ===== src/Ring/Refine.antt =====
-- The ring is a bounded stack: what `i_ring_push` adds last `i_ring_pop` gives back first, and a
-- push onto four elements drops the oldest.
use yalibct.Base.{
  ℕ, zero, suc, ◌+◌, ◌-◌, ◌%◌, ◌≤◌, ◌<◌, ◌≡◌, refl, ap, ap₂, ◌≢◌, ◌∙◌, sym, ℕ_discrete, true, false,
  List, [], ◌∷◌, Option, none, some, arith, length, get_or, set, take, ◌==◌, if◌then◌else◌,
  Bool-cases, ◌⊎◌, inl, inr, min, ltb, length-set, get_or-set_self, get_or-set_ne, get_or-replicate,
}
use yalibct.Base.Int.{ℤ, pos}
use yalibct.Ring.Stack
use yalibct.Ring.Stack.{Op, add, remove}
use yalibct.Ring.{
  IRing, ring_size, slot, occupied, i_ring_init, i_ring_empty, i_ring_push, i_ring_pop,
}

-- The `n` elements from index `h` backwards, going round at `ring_size`.
abbrev pub window : List ℤ → ℕ → ℕ → List ℤ
window xs h zero = []
window xs h (suc n) = get_or xs h (pos 0) ∷ window xs ((h + 3) % 4) n

-- How many elements the ring holds.
abbrev pub size : IRing → ℕ
size r = if r.empty then 0 else (r.front + 4 - r.back) % 4 + 1

-- The elements, newest first.
abbrev pub contents : IRing → List ℤ
contents r = window r.data_ r.front (size r)

pub record IsValid (r : IRing) : Type 0 where
  pub width : length r.data_ ≡ 4
  pub front_in : r.front < 4
  pub back_in : r.back < 4
  pub idle : r.empty ≡ true → r.front ≡ r.back
  -- the slots that hold no element have the default value
  pub clean :
      (j : ℕ) → j < 4 → size r ≤ j → get_or r.data_ ((r.front + 4 - j) % 4) (pos 0) ≡ r.default_val

length-window : (xs : List ℤ) (h n : ℕ) → length (window xs h n) ≡ n
length-window xs h zero = refl
length-window xs h (suc n) = ap suc (length-window xs ((h + 3) % 4) n)

take-window : (xs : List ℤ) (h n k : ℕ) → take k (window xs h n) ≡ window xs h (min k n)
take-window xs h n zero = let e : min 0 n ≡ 0 = omega arith in rw e
take-window xs h zero (suc k) = let e : min (suc k) 0 ≡ 0 = omega arith in rw e
take-window xs h (suc n) (suc k) =
    let e : min (suc k) (suc n) ≡ suc (min k n) = omega arith in
    rw e (ap (λ t. get_or xs h (pos 0) ∷ t) (take-window xs ((h + 3) % 4) n k))

get_or-window :
    (xs : List ℤ) (h n k : ℕ) (d : ℤ)
    → h < 4
    → k < 4
    → get_or (window xs h n) k d ≡ (if ltb k n then get_or xs ((h + 4 - k) % 4) (pos 0) else d)
get_or-window xs h zero k d hh hk = ground arith
get_or-window xs h (suc n) zero d hh hk =
    let e : (h + 4 - 0) % 4 ≡ h = omega arith in rw e (ground arith)
get_or-window xs h (suc n) (suc k) d hh hk =
    let e : ((h + 3) % 4 + 4 - k) % 4 ≡ (h + 4 - suc k) % 4 = omega arith in
    let ih = get_or-window xs ((h + 3) % 4) n k d (omega arith) (omega arith) in
    rw ih (rw e (ground arith))

-- A write outside a window leaves it.
window-set :
    (xs : List ℤ) (h i n : ℕ) (v : ℤ)
    → h < 4
    → i < 4
    → n ≤ (h + 4 - i) % 4
    → window (set xs i v) h n ≡ window xs h n
window-set xs h i zero v hh hi hn = refl
window-set xs h i (suc n) v hh hi hn =
    ap₂ ◌∷◌ (get_or-set_ne xs i h v (pos 0) (omega arith))
      (window-set xs ((h + 3) % 4) i n v (omega arith) hi (omega arith))

pub init-IsValid : (v : ℤ) → IsValid (i_ring_init v) × (contents (i_ring_init v) ≡ [])
unfolding i_ring_init
init-IsValid v = (
  record {
    width = refl;
    front_in = omega arith;
    back_in = omega arith;
    idle = λ _. refl;
    clean = λ j lo hi. get_or-replicate 4 ((0 + 4 - j) % 4) v (pos 0) (omega arith);
  },
  refl,
)

-- What a write just past the front shows.
window-push :
    (xs : List ℤ) (h d n : ℕ) (v : ℤ)
    → length xs ≡ 4
    → h < 4
    → n ≤ 3
    → ((n ≡ 0) × (d ≡ h)) ⊎ (d ≡ (h + 1) % 4)
    → window (set xs d v) d (suc n) ≡ v ∷ window xs h n
window-push xs h d n v w hh hn (inl (z, e)) =
    rw (z, e) (ap (λ t. t ∷ []) (get_or-set_self xs h v (pos 0) (omega arith)))
window-push xs h d n v w hh hn (inr e) =
    let back : (d + 3) % 4 ≡ h = omega arith in
    ap₂ ◌∷◌ (get_or-set_self xs d v (pos 0) (omega arith))
      (rw back (window-set xs h d n v hh (omega arith) (omega arith)))

module _ (r : IRing) (v : ℤ) (h : IsValid r) where
  abbrev dest : ℕ
  dest = (r.front + occupied r.empty) % ring_size

  size-push : size (i_ring_push r v).1 ≡ suc (min 3 (size r))
  unfolding i_ring_push
  size-push = ground arith

  pub push-IsValid : IsValid (i_ring_push r v).1
  unfolding i_ring_push
  push-IsValid = record {
    width = rw (length-set r.data_ dest v) h.width;
    front_in = omega arith;
    back_in = ground arith;
    idle = λ e. cc;
    clean = λ j lo hi.
        let full : min 3 (size r) < j = omega (arith, size-push) in
        rw (get_or-set_ne r.data_ dest ((dest + 4 - j) % 4) v (pos 0) (omega arith))
          (ground (arith, h.clean j, h.clean (j - 1), h.idle));
  }

  contents-push : contents (i_ring_push r v).1 ≡ take ring_size (v ∷ contents r)
  unfolding i_ring_push
  contents-push = rw size-push (
      window-push r.data_ r.front dest (min 3 (size r)) v h.width h.front_in (omega arith)
        (ground (arith, h.idle))
      ∙ ap (λ t. v ∷ t) (sym (take-window r.data_ r.front (size r) 3)))

  old-push : (i_ring_push r v).0 ≡ get_or (contents r) 3 r.default_val
  unfolding i_ring_push
  old-push =
      rw (get_or-window r.data_ r.front (size r) 3 r.default_val h.front_in (omega arith))
        (ground (arith, h.clean 3, h.clean 0, h.idle))

  -- `i_ring_push` puts its value on top, keeps the four newest elements, returns the element that
  -- it drops or the default value, and keeps the invariant.
  push_lem :
      IsValid (i_ring_push r v).1
      × (((i_ring_push r v).0, contents (i_ring_push r v).1)
          ≡ Stack.push r.default_val v (contents r))
  unfolding Stack.push
  push_lem = (push-IsValid, ground (arith, contents-push, old-push))

window-pop :
    (xs : List ℤ) (h k n : ℕ) (d : ℤ)
    → h < 4
    → n < 4
    → (n ≢ 0 → k ≡ (h + 3) % 4)
    → window xs h (suc n) ≡ get_or xs h (pos 0) ∷ window (set xs h d) k n
window-pop xs h k zero d hh hn e = refl
window-pop xs h k (suc n) d hh hn e = rw (e (omega arith)) (
    ap (λ t. get_or xs h (pos 0) ∷ t)
      (sym (window-set xs ((h + 3) % 4) h (suc n) d (omega arith) hh (omega arith))))

-- One field of the ring after a pop: the slot that it frees gets the default value.
pop-clean :
    (r : IRing) (i : ℕ)
    → IsValid r
    → i < 4
    → (i ≢ r.front → get_or r.data_ i (pos 0) ≡ r.default_val)
    → get_or (set r.data_ r.front r.default_val) i (pos 0) ≡ r.default_val
pop-clean r i h hi rest = elim (ℕ_discrete r.front i) [
  | yes e ↦ rw (← e) (get_or-set_self r.data_ r.front r.default_val (pos 0) (omega arith))
  | no ne ↦ rw (get_or-set_ne r.data_ r.front i r.default_val (pos 0) ne) (rest (λ e. ne (sym e)))
]

module _ (r : IRing) (h : IsValid r) where
  pub pop-none : r.empty ≡ true → (i_ring_pop r ≡ none) × (contents r ≡ [])
  unfolding i_ring_pop i_ring_empty
  pop-none e = (ground arith, let z : size r ≡ 0 = ground arith in rw z)

  abbrev popped : IRing
  popped = record r {
    data_ = set r.data_ r.front r.default_val;
    empty = r.front == r.back;
    front = if r.front == r.back then r.front else (r.front + ring_size - 1) % ring_size;
  }

  pop-some : r.empty ≡ false → i_ring_pop r ≡ some (slot r r.front, popped)
  unfolding i_ring_pop i_ring_empty
  pop-some e = ground arith

  pop-contents : r.empty ≡ false → contents r ≡ slot r r.front ∷ contents popped
  pop-contents e =
      let n = (r.front + 4 - r.back) % 4 in
      let before : size r ≡ suc n = ground arith in
      let after : size popped ≡ n = ground arith in
      rw (before, after)
        (window-pop r.data_ r.front popped.front n r.default_val h.front_in (omega arith)
          (λ ne. ground arith))

  pop-IsValid : r.empty ≡ false → IsValid popped
  pop-IsValid e = record {
    width = rw length-set h.width;
    front_in = ground arith;
    back_in = h.back_in;
    idle = λ q. ground arith;
    clean = λ j lo hi.
        pop-clean r ((popped.front + 4 - j) % 4) h (omega arith)
          (λ ne. ground (arith, h.clean (j + 1), h.clean j));
  }

default_val-push : (r : IRing) (v : ℤ) → (i_ring_push r v).1.default_val ≡ r.default_val
unfolding i_ring_push
default_val-push r v = refl

-- A program that pushes and pops cannot tell a valid ring from the stack of its contents.
unfoldable pub run : IRing → List Op → List (Option ℤ)
run r [] = []
run r (add v ∷ ops) = let (old, s) = i_ring_push r v in some old ∷ run s ops
run r (remove ∷ ops) = elim (i_ring_pop r) [ none ↦ none ∷ [] | some (x, s) ↦ some x ∷ run s ops ]

pub run_refines :
    (ops : List Op) (r : IRing) → IsValid r → run r ops ≡ Stack.run r.default_val (contents r) ops
unfolding run Stack.run Stack.pop
run_refines [] r h = refl
run_refines (add v ∷ ops) r h = rw (
  run_refines ops (i_ring_push r v).1 (push-IsValid r v h),
  default_val-push,
  ← (push_lem r v h).1,
)
run_refines (remove ∷ ops) r h = elim (Bool-cases r.empty) [
  | inl e ↦ let (gone, none_left) = pop-none r h e in rw (gone, none_left, run, Stack.run)
  | inr e ↦
      rw (pop-some r h e, pop-contents r h e, run, Stack.run)
        (ap (λ t. some (slot r r.front) ∷ t) (run_refines ops (popped r h) (pop-IsValid r h e)))
]
