-- ===== src/FullWrite/Tests.antt =====
-- Runs of full_write, and its theorem at a concrete device.
use yalibct.Base.{ℕ, zero, suc, ◌+◌, ◌*◌, ◌≡◌, ◌≢◌, refl, subst, List, [], ◌∷◌, arith, min, ap}
use yalibct.FullWrite.{Answer, wrote, error, Device, finished, safe_rw, full_rw_loop, full_rw}
use yalibct.FullWrite.Whole.{IsBounded, IsCalm, IsTransfer, full_rw_lem}

-- The first call is interrupted, the second one takes two bytes at most, and then the device is full.
abbrev pub answers : ℕ → ℕ → Answer
answers zero count = error 4
answers (suc zero) count = wrote (min 2 count)
answers (suc (suc i)) count = wrote 0

abbrev pub device : Device
device = record { write = answers; eintr = 4; einval = 22; enospc = 28 }

abbrev bytes : List ℕ
bytes = 65 ∷ 66 ∷ 67 ∷ []

full_rw_stops : full_rw device 4 (1 ∷ []) bytes 3 0 ≡ finished 2 28 (1 ∷ 65 ∷ 66 ∷ [])
unfolding full_rw full_rw_loop safe_rw
full_rw_stops = refl

amount : Answer → ℕ
amount (wrote n) = n
amount (error e) = 0

pub device-IsBounded : IsBounded device
unfolding IsBounded amount
device-IsBounded zero count n h = omega (arith, ap amount h)
device-IsBounded (suc zero) count n h = omega (arith, ap amount h)
device-IsBounded (suc (suc i)) count n h = omega (arith, ap amount h)

is_wrote : Answer → ℕ
is_wrote (wrote n) = 1
is_wrote (error e) = 0

later_calm : (i count : ℕ) → answers (suc (suc i)) count ≢ error 4
unfolding is_wrote
later_calm i count h = omega (arith, ap is_wrote h)

second_calm : (count : ℕ) → answers 1 count ≢ error 4
unfolding is_wrote
second_calm count h = omega (arith, ap is_wrote h)

shift : (i : ℕ) → suc (suc i) ≡ suc (suc i) + 0
shift i = omega arith

pub device-IsCalm : IsCalm device 2
unfolding IsCalm
device-IsCalm zero = (1, omega arith, second_calm)
device-IsCalm (suc zero) = (0, omega arith, second_calm)
device-IsCalm (suc (suc i)) =
    (0, omega arith, subst (λ k. (count : ℕ) → answers k count ≢ error 4) (shift i) (later_calm i))

full_rw_lem_example :
    IsTransfer device (1 ∷ []) bytes 3 0 (full_rw device (2 * 2) (1 ∷ []) bytes 3 0)
full_rw_lem_example = full_rw_lem device 2 (1 ∷ []) bytes 3 0 device-IsBounded device-IsCalm
