-- ===== src/Hash.antt =====
-- include/test-lib/portable-symbols/internal/gnulib: the hash table of hash-common.h, hash_*.h,
-- Hash_table.h and Hash_tuning.h. `State` holds the data, `Prime` and `Tuning` the sizes, `Find`, `Rehash`
-- and `Operations` the functions on a table.
pub mod State
pub mod Prime
pub mod Primes
pub mod NextPrime
pub mod Tuning
pub mod Find
pub mod Keys
pub mod Buckets
pub mod Members
pub mod Place
pub mod Move
pub mod Order
pub mod Resize
pub mod Lookup
pub mod Insert
pub mod Remove
pub mod Calm
pub mod Roundtrip
pub mod Balance
pub mod Stale
pub mod Create
pub mod Tests
pub mod Rehash
pub mod Operations
