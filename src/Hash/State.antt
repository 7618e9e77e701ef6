-- ===== src/Hash/State.antt =====
-- The data of Hash_table.h, Hash_tuning.h and hash-common.h, and what the functions take from outside.
-- A user entry is its pointer, a number that is not 0. A bucket is the list of its entries, the head
-- first, and is empty where the C code has a null pointer in the head.
use yalibct.Base.{ℕ, Bool, List}

-- `ended` is the call of `abort`. `reused` is an entry of a chain that is handed out as a new one, after
-- which the chains are no lists.
pub data Run (A : Type 0) : Type 0 where
  ok : A → Run A
  ended : Run A
  reused : Run A

-- The next step is taken with what the last one gives.
infixl 5 ◌>>=◌
abbrev pub ◌>>=◌ : {A B : Type 0} → Run A → (A → Run B) → Run B
ended >>= next_step = ended
reused >>= next_step = reused
ok x >>= next_step = next_step x

-- `float`, with the conversions from and to `size_t` and the constants of the source.
pub record FloatOps (F : Type 0) : Type 0 where
  pub of_size : ℕ → F
  pub to_size : F → ℕ
  pub add : F → F → F
  pub sub : F → F → F
  pub mul : F → F → F
  pub div : F → F → F
  pub lt : F → F → Bool
  pub le : F → F → Bool
  pub float_0_0 : F
  pub float_0_1 : F
  pub float_0_8 : F
  pub float_1_0 : F
  pub float_1_414 : F

-- `struct hash_tuning`
pub record HashTuning (F : Type 0) : Type 0 where
  pub shrink_threshold : F
  pub shrink_factor : F
  pub growth_threshold : F
  pub growth_factor : F
  pub is_n_buckets : Bool

-- A pointer to a tuning: `&default_tuning`, or one of the user.
pub data TuningPointer (F : Type 0) : Type 0 where
  default_tuning : TuningPointer F
  user_tuning : HashTuning F → TuningPointer F

-- The functions that `hash_initialize` stores in a table, which never change, `calloc` of a number of
-- buckets, and whether the obstack gives its entry of a number.
pub record Env (F : Type 0) : Type 0 where
  pub hasher : ℕ → ℕ → ℕ
  pub comparator : ℕ → ℕ → Bool
  pub floats : FloatOps F
  pub calloc : ℕ → Bool
  pub obstack_alloc : ℕ → Bool

-- `struct hash_table`. `free_entry_list` is the number of entries on that list, `entry_stack` the number
-- of the entry that the obstack gives next, and `made` the number of entries that were ever given out.
pub record HashTable (F : Type 0) : Type 0 where
  pub bucket : List (List ℕ)
  pub n_buckets : ℕ
  pub n_buckets_used : ℕ
  pub n_entries : ℕ
  pub tuning : TuningPointer F
  pub free_entry_list : ℕ
  pub entry_stack : ℕ
  pub made : ℕ
