-- ===== src/Active/Tests.antt =====
-- Runs of the exact check for cycles, and its theorems at a concrete table.
use yalibct.Base.{◌<◌, List, false, ℕ, ◌≡◌, refl, true, [], ◌∷◌, none, some, replicate, set, arith}
use yalibct.Hash.State.{ok, default_tuning, HashTable}
use yalibct.Hash.Tests.{env}
use yalibct.Hash.Tuning.{
  is_crowded, is_sparse, compute_bucket_size, tuning_of, default_values, check_tuning, checked,
  is_reasonable,
}
use yalibct.Hash.Prime.{next_prime, next_prime_loop, is_prime}
use yalibct.Hash.Insert.{SameShape}
use yalibct.Active.Walk.{Step, enter, leave, walk, marks, next, joined, cycle_of, IsAllowed, IsWalk}
use yalibct.Active.Exact.{walk-marks}
use yalibct.Hash.Buckets.{replicate-Holds}
use yalibct.Hash.Place.{insert_head-Holds}
use yalibct.Hash.Operations.{hash_initialize, chosen_tuning}
use yalibct.Active.{ActiveDir, ad_hash, write_dir, active_env, setup_active_dirs, enter_active_dir}
use yalibct.Active.Entries.{is_alike, Entry, IsFresh, active, AllStored}
use yalibct.Active.Memory.{setup-Tracks, Tracks, active_env-IsLawful}
use yalibct.Active.Enters.{Enters, enter_active_dir_lem, added-Tracks}

abbrev memory : ℕ → ActiveDir
memory p = record { dev = 1; ino = p; fts_ent = 100 }

abbrev empty : HashTable ℕ
empty = record {
  bucket = replicate 41 [];
  n_buckets = 41;
  n_buckets_used = 0;
  n_entries = 0;
  tuning = default_tuning;
  free_entry_list = 0;
  entry_stack = 0;
  made = 0;
}

setup_runs : setup_active_dirs env memory true ≡ some (active_env env memory, empty)
unfolding setup_active_dirs hash_initialize chosen_tuning check_tuning checked is_reasonable
    compute_bucket_size tuning_of default_values next_prime next_prime_loop is_prime
setup_runs = refl

-- The directory 7 of device 1 is active.
abbrev seven : Entry
seven = record { pointer = 7; dir = record { dev = 1; ino = 7; fts_ent = 100 } }

abbrev table : HashTable ℕ
table = record empty {
  bucket = set (replicate 41 []) 7 (7 ∷ []);
  n_buckets_used = 1;
  n_entries = 1;
}

alloc : (k : ℕ) → env.obstack_alloc k ≡ true
alloc k = refl

table-Tracks : Tracks env memory (seven ∷ []) table
unfolding AllStored active ad_hash
table-Tracks = added-Tracks env memory [] table seven refl tt (record {
  wide = omega arith;
  holds =
      insert_head-Holds (active_env env memory) (active_env-IsLawful env alloc memory) 41 0 0 7
        (λ q. none) (replicate 41 []) (omega arith) (replicate-Holds (active_env env memory) 41)
        refl refl;
})

-- It is entered once more.
enter_active_dir_lem_example :
    Enters env
      (write_dir memory 9 (record { dev = 1; ino = 7; fts_ent = 200 }))
      (seven ∷ [])
      table
      (record { pointer = 9; dir = record { dev = 1; ino = 7; fts_ent = 200 } })
      (enter_active_dir env memory table (some 9) (record { st_ino = 7; st_dev = 1 }) 200)
unfolding IsFresh
enter_active_dir_lem_example =
    enter_active_dir_lem env alloc memory (seven ∷ []) table table-Tracks refl 9 200
      (record { st_ino = 7; st_dev = 1 }) (omega arith) (omega arith, tt)

calm : (u : HashTable ℕ) → SameShape empty u → u.n_buckets_used < 33 → is_crowded env u ≡ false
unfolding is_crowded tuning_of default_values
calm u (size, pointer) few = rw (pointer, size) (ground (arith, few))

dense : (u : HashTable ℕ) → SameShape empty u → is_sparse env u ≡ false
unfolding is_sparse tuning_of default_values
dense u (size, pointer) = rw (pointer, size) (ground arith)

-- 7 with 8 in it, and a link in 8 back to 7; then 9 in 7, which was left meanwhile.
abbrev steps : List Step
steps =
    enter 7 107 (record { st_ino = 7; st_dev = 1 })
    ∷ enter 8 108 (record { st_ino = 8; st_dev = 1 })
    ∷ enter 9 109 (record { st_ino = 7; st_dev = 1 })
    ∷ leave 20
    ∷ enter 8 110 (record { st_ino = 8; st_dev = 2 })
    ∷ []

steps-marks : marks steps [] ≡ none ∷ none ∷ some 107 ∷ none ∷ []
unfolding marks next joined cycle_of is_alike
steps-marks = refl

walk-marks_example : walk env steps [] memory empty ≡ ok (true, marks steps [])
unfolding IsWalk IsAllowed IsFresh next joined cycle_of is_alike
walk-marks_example =
    walk-marks env alloc empty 33 calm dense memory steps
      (setup-Tracks env memory true empty setup_runs).0 refl refl
      (
        (omega arith, tt, omega arith),
        (
          (omega arith, (omega arith, tt), omega arith),
          (
            (omega arith, (omega arith, (omega arith, tt)), omega arith),
            ((omega arith, (omega arith, tt)), ((omega arith, (omega arith, tt), omega arith), tt)),
          ),
        ),
      )
