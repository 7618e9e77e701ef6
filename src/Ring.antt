-- ===== src/Ring.antt =====
-- include/test-lib/portable-symbols/internal/gnulib: I_RING_SIZE.h, I_ring.h, i_ring_init.h,
-- i_ring_empty.h, i_ring_push.h and i_ring_pop.h, a ring of four file descriptors.
pub mod Refine
pub mod Stack
mod Tests
use yalibct.Base.{
  ℕ, ◌+◌, ◌-◌, ◌%◌, Bool, true, false, not, List, Option, none, some, get_or, set, replicate, ◌==◌,
  if◌then◌else◌,
}
use yalibct.Base.Int.{ℤ, pos}

-- `I_RING_SIZE`
abbrev pub ring_size : ℕ
ring_size = 4

-- `struct I_ring`
pub record IRing : Type 0 where
  pub data_ : List ℤ
  pub default_val : ℤ
  pub front : ℕ
  pub back : ℕ
  pub empty : Bool

-- `!ir->ir_empty` as a number
abbrev pub occupied : Bool → ℕ
occupied e = if e then 0 else 1

-- `ir_data[i]`; the index is below `ring_size` on every ring that satisfies the invariant
abbrev pub slot : IRing → ℕ → ℤ
slot r i = get_or r.data_ i (pos 0)

pub i_ring_init : ℤ → IRing
i_ring_init v = record {
  data_ = replicate ring_size v;
  default_val = v;
  front = 0;
  back = 0;
  empty = true;
}

pub i_ring_empty : IRing → Bool
i_ring_empty r = r.empty

-- The value that the write displaces, and the ring after it.
pub i_ring_push : IRing → ℤ → ℤ × IRing
i_ring_push r val =
    let dest_idx = (r.front + occupied r.empty) % ring_size in
    (
      slot r dest_idx,
      record r {
        data_ = set r.data_ dest_idx val;
        front = dest_idx;
        back = if dest_idx == r.back then (r.back + occupied r.empty) % ring_size else r.back;
        empty = false;
      },
    )

-- `none` is the call of `abort` on an empty ring.
pub i_ring_pop : IRing → Option (ℤ × IRing)
i_ring_pop r =
    if i_ring_empty r
    then none
    else some (
      slot r r.front,
      record r {
        data_ = set r.data_ r.front r.default_val;
        empty = r.front == r.back;
        front = if r.front == r.back then r.front else (r.front + ring_size - 1) % ring_size;
      },
    )
