-- ===== src/Getopt.antt =====
-- include/test-lib/portable-symbols/internal/gnulib/getopt-common.h, the scanner of command lines:
-- `State` holds the data, `Argv` the exchange of segments of `argv`, `Long` the long options, and
-- `Scan` the scanner itself; `Exchange` is about `exchange`, and `Safe`, `Calls`, `Between` and
-- `Whole` about what a call of the scanner leaves.
pub mod State
pub mod Argv
pub mod Exchange
pub mod Long
pub mod Scan
pub mod Safe
pub mod Calls
pub mod Between
pub mod Whole
pub mod Global
mod Tests
