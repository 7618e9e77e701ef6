-- ===== src/Hash/Tests.antt =====
-- Runs of the hash table, and its theorems at a concrete table. `float` is counted in thousandths here.
use yalibct.Base.{
  ℕ, ◌+◌, ◌-◌, ◌*◌, ◌/◌, ◌%◌, ◌<◌, ◌≡◌, ◌↔◌, refl, Bool, true, false, if◌then◌else◌, List, [], ◌∷◌,
  Option, none, some, ◌==◌, ltb, leb, length, replicate, arith, set,
}
use yalibct.Hash.State.{ok, reused, FloatOps, HashTuning, user_tuning, Env, HashTable}
use yalibct.Hash.Prime.{is_prime, next_prime, next_prime_loop}
use yalibct.Hash.Primes.{IsPrime, is_prime_lem}
use yalibct.Hash.NextPrime.{IsNext, next_prime_lem}
use yalibct.Hash.Tuning.{
  compute_bucket_size, tuning_of, is_crowded, check_tuning, checked, is_reasonable,
}
use yalibct.Hash.Find.{safe_hasher, scan, same, hash_lookup}
use yalibct.Hash.Keys.{IsLawful, count}
use yalibct.Hash.Buckets.{update, replicate-Holds}
use yalibct.Hash.Rehash.{
  allocate_entry, transfer_overflow, place_head, transfer_buckets, transfer_entries, hash_rehash,
}
use yalibct.Hash.Place.{insert_head-Holds}
use yalibct.Hash.Resize.{Models, Resized, hash_rehash-Resized}
use yalibct.Hash.Roundtrip.{hash_lookup-hash_insert_if_absent}
use yalibct.Base.Int.{pos}
use yalibct.Hash.Insert.{Inserts, hash_insert_if_absent_lem}
use yalibct.Hash.Remove.{found, hash_remove_lem}
use yalibct.Hash.Stale.{hash_rehash-IsStale}
use yalibct.Hash.Create.{Initializes, with_functions, hash_initialize_lem, hash_free_lem}
use yalibct.Hash.Operations.{
  hash_insert_if_absent, hash_remove, hash_initialize, hash_free, chosen_tuning, raw_hasher,
  raw_comparator,
}

abbrev pub thousandths : FloatOps ℕ
thousandths = record {
  of_size = λ n. n * 1000;
  to_size = λ x. x / 1000;
  add = λ x y. x + y;
  sub = λ x y. x - y;
  mul = λ x y. x * y / 1000;
  div = λ x y. x * 1000 / y;
  lt = ltb;
  le = leb;
  float_0_0 = 0;
  float_0_1 = 100;
  float_0_8 = 800;
  float_1_0 = 1000;
  float_1_414 = 1414;
}

abbrev pub env : Env ℕ
env = record {
  hasher = λ k n. k % n;
  comparator = λ a b. a == b;
  floats = thousandths;
  calloc = λ n. true;
  obstack_alloc = λ k. true;
}

env-IsLawful : IsLawful env
unfolding same
env-IsLawful = record {
  same_sym = λ a b h. ground arith;
  same_trans = λ a b c h k. ground arith;
  hasher-same = λ a b n h. ground arith;
  hasher-lt = λ a n h. grind arith;
  alloc = λ k. refl;
}

-- The sizes that the user asks for are numbers of buckets.
abbrev tuning : HashTuning ℕ
tuning = record {
  shrink_threshold = 0;
  shrink_factor = 1000;
  growth_threshold = 800;
  growth_factor = 1414;
  is_n_buckets = true;
}

-- 143 and 13 in different buckets of 11. They share a bucket of 13.
abbrev table : HashTable ℕ
table = record {
  bucket = set (set (replicate 11 []) 0 (143 ∷ [])) 2 (13 ∷ []);
  n_buckets = 11;
  n_buckets_used = 2;
  n_entries = 2;
  tuning = user_tuning tuning;
  free_entry_list = 0;
  entry_stack = 0;
  made = 0;
}

abbrev view_of_one : ℕ → Option ℕ
view_of_one = update env (λ q. none) 143 (some 143)

abbrev view_of_two : ℕ → Option ℕ
view_of_two = update env view_of_one 13 (some 13)

table-Models : Models env view_of_two table
unfolding same
table-Models = record {
  wide = omega arith;
  holds =
      insert_head-Holds env env-IsLawful 11 1 1 13 view_of_one (set (replicate 11 []) 0 (143 ∷ []))
        (omega arith)
        (insert_head-Holds env env-IsLawful 11 0 0 143 (λ q. none) (replicate 11 []) (omega arith)
          (replicate-Holds env 11) refl refl)
        refl refl;
}

primes :
    ◌≡◌ {A = List ℕ}
      (next_prime 0 ∷ next_prime 13 ∷ next_prime 14 ∷ next_prime 25 ∷ [])
      (11 ∷ 13 ∷ 17 ∷ 29 ∷ [])
unfolding next_prime next_prime_loop is_prime
primes = refl

-- The table with 13 buckets: 13 has moved behind 143 with a new entry, which the obstack of the table
-- does not know of.
abbrev wider : HashTable ℕ
wider = record table {
  bucket = set (replicate 13 []) 0 (143 ∷ 13 ∷ []);
  n_buckets = 13;
  n_buckets_used = 1;
  made = 1;
}

rehash_runs : hash_rehash env table 13 ≡ ok (true, wider)
unfolding hash_rehash compute_bucket_size tuning_of next_prime next_prime_loop is_prime
    transfer_entries transfer_buckets transfer_overflow place_head safe_hasher allocate_entry
rehash_runs = refl

-- 24 goes into the bucket of 13.
not_found : hash_lookup env table 24 ≡ ok none
unfolding hash_lookup safe_hasher scan same
not_found = refl

not_crowded : is_crowded env table ≡ false
unfolding is_crowded tuning_of
not_crowded = refl

hash_lookup-hash_insert_if_absent_example :
    (t' t'' : HashTable ℕ) × (hash_insert_if_absent env table 24 ≡ ok (pos 1, none, t'))
    × ((q : ℕ)
        → hash_lookup env t' q ≡ (if same env q 24 then ok (some 24) else hash_lookup env table q))
    × (hash_remove env t' 24 ≡ ok (some 24, t''))
    × ((q : ℕ) → hash_lookup env t'' q ≡ hash_lookup env table q)
hash_lookup-hash_insert_if_absent_example =
    hash_lookup-hash_insert_if_absent env env-IsLawful view_of_two table 24 table-Models refl
      (omega arith) not_crowded not_found

hash_insert_if_absent_lem_example :
    Inserts env env-IsLawful view_of_two table 26 (hash_insert_if_absent env table 26)
hash_insert_if_absent_lem_example =
    hash_insert_if_absent_lem env env-IsLawful view_of_two table 26 table-Models refl (omega arith)

hash_remove_lem_example :
    (t' : HashTable ℕ) × (hash_remove env table 143 ≡ ok (view_of_two 143, t'))
    × Models env (update env view_of_two 143 none) t'
    × (t'.n_entries + found (view_of_two 143) ≡ 2)
    × (t'.entry_stack ≡ 0)
hash_remove_lem_example = hash_remove_lem env env-IsLawful view_of_two table 143 table-Models refl

hash_rehash-Resized_example :
    (done : Bool) × (t' : HashTable ℕ) × (hash_rehash env table 13 ≡ ok (done, t'))
    × Resized env view_of_two table t'
hash_rehash-Resized_example =
    hash_rehash-Resized env env-IsLawful table view_of_two table-Models 13 refl

hash_rehash-IsStale_example :
    (wider.entry_stack < wider.made) × (hash_insert_if_absent env wider 26 ≡ reused)
unfolding same is_crowded tuning_of
hash_rehash-IsStale_example =
    hash_rehash-IsStale env env-IsLawful view_of_two table wider 13 26 143 (13 ∷ []) table-Models
      refl rehash_runs (omega arith) refl (omega arith) refl refl refl

hash_free_lem_example :
    (length (hash_free env true table) ≡ 2)
    × ((q : ℕ) → count env q (hash_free env true table) ≡ found (view_of_two q))
hash_free_lem_example = hash_free_lem env env-IsLawful view_of_two table table-Models

abbrev initialized : Env ℕ × HashTable ℕ
initialized = (
  record env { hasher = raw_hasher; comparator = raw_comparator },
  record table { bucket = replicate 11 []; n_buckets_used = 0; n_entries = 0 },
)

initialize_runs :
    hash_initialize env true 11 (some (user_tuning tuning)) none none ≡ some initialized
unfolding hash_initialize chosen_tuning check_tuning checked is_reasonable compute_bucket_size
    tuning_of next_prime next_prime_loop is_prime
initialize_runs = refl

hash_initialize_lem_example :
    Initializes env
      (with_functions env none (some (λ a b. a == b)))
      true
      (compute_bucket_size env 11 tuning)
      (user_tuning tuning)
      (hash_initialize env true 11 (some (user_tuning tuning)) none (some (λ a b. a == b)))
unfolding tuning_of chosen_tuning
hash_initialize_lem_example =
    hash_initialize_lem env 11 (some (user_tuning tuning)) none (some (λ a b. a == b)) true

is_prime_lem_example : (is_prime 143 ≡ true) ↔ IsPrime 143
is_prime_lem_example = is_prime_lem 143 refl (omega arith) (omega arith)

next_prime_lem_example : IsNext 24 (next_prime 24)
next_prime_lem_example = next_prime_lem 24 (omega arith)
