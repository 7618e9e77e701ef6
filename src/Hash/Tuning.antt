-- ===== src/Hash/Tuning.antt =====
-- The tuning of a table: the defaults, `check_tuning` and `compute_bucket_size` of hash-common.h, and the
-- tests and sizes that `hash_insert_if_absent` and `hash_remove` compute with it.
use yalibct.Base.{ℕ, ◌-◌, ◌/◌, ◌^◌, Bool, true, false, not, ◌&&◌, ltb, if◌then◌else◌}
use yalibct.Hash.State.{HashTuning, TuningPointer, default_tuning, user_tuning, Env, HashTable}
use yalibct.Hash.Prime.{size_max, next_prime}

-- `xalloc_oversized` for entries of two words of 8 bytes; the size that the source passes is that of a
-- pointer to an entry.
abbrev pub xalloc_oversized : ℕ → ℕ → Bool
xalloc_oversized n s = ltb ((2 ^ 63 - 1) / s) n

module _ {F : Type 0} (env : Env F) where
  open env use {floats}
  open floats use {
    of_size, to_size, add, sub, mul, div, lt, le, float_0_0, float_0_1, float_0_8, float_1_0,
    float_1_414,
  }

  unfoldable pub default_values : HashTuning F
  default_values = record {
    shrink_threshold = float_0_0;
    shrink_factor = float_1_0;
    growth_threshold = float_0_8;
    growth_factor = float_1_414;
    is_n_buckets = false;
  }

  unfoldable pub tuning_of : TuningPointer F → HashTuning F
  tuning_of default_tuning = default_values
  tuning_of (user_tuning t) = t

  -- The conditions of `check_tuning` on a tuning of the user.
  unfoldable pub is_reasonable : HashTuning F → Bool
  is_reasonable t =
      lt float_0_1 t.growth_threshold
      && lt t.growth_threshold (sub (of_size 1) float_0_1)
      && lt (add (of_size 1) float_0_1) t.growth_factor
      && le (of_size 0) t.shrink_threshold
      && lt (add t.shrink_threshold float_0_1) t.shrink_factor
      && le t.shrink_factor (of_size 1)
      && lt (add t.shrink_threshold float_0_1) t.growth_threshold

  -- The tuning that `check_tuning` leaves, and what it returns.
  unfoldable pub checked : TuningPointer F → TuningPointer F × Bool
  checked default_tuning = (default_tuning, true)
  checked (user_tuning t) =
      if is_reasonable t then (user_tuning t, true) else (default_tuning, false)

  unfoldable pub check_tuning : HashTable F → HashTable F × Bool
  check_tuning table = let (t, valid) = checked table.tuning in (record table { tuning = t }, valid)

  -- 0 if there is no way to allocate that many entries.
  unfoldable pub compute_bucket_size : ℕ → HashTuning F → ℕ
  compute_bucket_size candidate tuning =
      let new_candidate = div (of_size candidate) tuning.growth_threshold in
      let c = next_prime (if tuning.is_n_buckets then candidate else to_size new_candidate) in
      if not tuning.is_n_buckets && le (of_size size_max) new_candidate
      then 0
      else if xalloc_oversized c 8
      then 0
      else c

  -- `n_buckets_used > growth_threshold * n_buckets`
  unfoldable pub is_crowded : HashTable F → Bool
  is_crowded table =
      lt (mul (tuning_of table.tuning).growth_threshold (of_size table.n_buckets))
        (of_size table.n_buckets_used)

  -- `n_buckets_used < shrink_threshold * n_buckets`
  unfoldable pub is_sparse : HashTable F → Bool
  is_sparse table =
      lt (of_size table.n_buckets_used)
        (mul (tuning_of table.tuning).shrink_threshold (of_size table.n_buckets))

  unfoldable pub growth_candidate : HashTable F → F
  growth_candidate table =
      let t = tuning_of table.tuning in
      let grown = mul (of_size table.n_buckets) t.growth_factor in
      if t.is_n_buckets then grown else mul grown t.growth_threshold

  unfoldable pub shrink_candidate : HashTable F → ℕ
  shrink_candidate table =
      let t = tuning_of table.tuning in
      let shrunk = mul (of_size table.n_buckets) t.shrink_factor in
      to_size (if t.is_n_buckets then shrunk else mul shrunk t.growth_threshold)
