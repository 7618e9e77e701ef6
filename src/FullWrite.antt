-- ===== src/FullWrite.antt =====
-- full_write.h, and safe-read-write-template.h as safe_write.h makes a function of it.
use yalibct.Base.{
  ℕ, zero, suc, ◌+◌, ◌-◌, ◌*◌, ◌^◌, Bool, ◌&&◌, List, ◌++◌, ltb, ◌==◌, take, drop, if◌then◌else◌,
}
pub mod Whole
pub mod Tests

-- What `write` returns: a number of bytes, or -1 and `errno`.
pub data Answer : Type 0 where
  wrote : ℕ → Answer
  error : ℕ → Answer

-- `write` in the call of a number, for a count, and the numbers of the errors.
pub record Device : Type 0 where
  pub write : ℕ → ℕ → Answer
  pub eintr : ℕ
  pub einval : ℕ
  pub enospc : ℕ

abbrev pub sys_bufsize_max : ℕ
sys_bufsize_max = 2047 * 2 ^ 20

-- What `safe_rw` returns, with the number of the next call and the bytes that the device has. `stuck` is
-- the end of the fuel.
pub data Written : Type 0 where
  done : ℕ → ℕ → List ℕ → Written
  failed : ℕ → ℕ → List ℕ → Written
  stuck : Written

-- What `full_rw` returns, `errno`, and the bytes that the device has.
pub data Result : Type 0 where
  finished : ℕ → ℕ → List ℕ → Result
  hung : Result

module _ (w : Device) where
  unfoldable pub safe_rw : ℕ → ℕ → List ℕ → List ℕ → ℕ → Written
  safe_rw zero i sent buf count = stuck
  safe_rw (suc fuel) i sent buf count =
      let again = safe_rw fuel (suc i) sent buf count in
      let smaller = safe_rw fuel (suc i) sent buf sys_bufsize_max in
      elim (w.write i count) [
        | wrote n ↦ done n (suc i) (sent ++ take n buf)
        | error e ↦
            if e == w.eintr
            then again
            else if (e == w.einval) && ltb sys_bufsize_max count
            then smaller
            else failed e (suc i) sent
      ]

  -- The loop, on `k` rounds at most.
  unfoldable pub full_rw_loop : ℕ → ℕ → ℕ → List ℕ → List ℕ → ℕ → ℕ → ℕ → Result
  full_rw_loop fuel zero i sent ptr count total errno =
      if count == 0 then finished total errno sent else hung
  full_rw_loop fuel (suc k) i sent ptr count total errno =
      let round : Result = elim (safe_rw fuel i sent ptr count) [
        | stuck ↦ hung
        | failed e i' sent' ↦ finished total e sent'
        | done n i' sent' ↦
            let next = full_rw_loop fuel k i' sent' (drop n ptr) (count - n) (total + n) errno in
            if n == 0 then finished total w.enospc sent' else next
      ] in
      if count == 0 then finished total errno sent else round

  unfoldable pub full_rw : ℕ → List ℕ → List ℕ → ℕ → ℕ → Result
  full_rw fuel sent buf count errno = full_rw_loop fuel count 0 sent buf count 0 errno
