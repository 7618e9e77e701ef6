-- ===== src/Getopt/State.antt =====
-- The data of getopt-common.h and struct_option.h. A string is the list of its characters without the
-- null; a pointer into a string is what follows it.
use yalibct.Base.{ℕ, Bool, true, false, List, Option, none, some, ◌==◌}
use yalibct.Base.Int.{ℤ, pos, negsuc}

abbrev pub Str : Type 0
Str = List ℕ

-- `enum __ord`
pub data Ordering : Type 0 where
  require_order permute return_in_order : Ordering

-- `struct option`: `flag` is the number of the variable that it points to, if any.
pub record LongOption : Type 0 where
  pub name : Str
  pub has_arg : ℕ
  pub flag : Option ℕ
  pub val : ℤ

-- The messages for the error stream.
pub data Message : Type 0 where
  ambiguous unrecognized no_argument_allowed argument_missing : Str → Message
  invalid_option option_argument_missing : ℕ → Message

-- `struct _getopt_data`, with `argv` and what is written through `longind`, `flag` and to the error
-- stream.
pub record GetoptData : Type 0 where
  pub argv : List Str
  pub optind : ℕ
  pub opterr : Bool
  pub optopt : ℤ
  pub optarg : Option Str
  pub initialized : Bool
  pub nextchar : Option Str
  pub ordering : Ordering
  pub first_nonopt : ℕ
  pub last_nonopt : ℕ
  pub longind : Option ℕ
  pub flags : List (ℕ × ℤ)
  pub messages : List Message

-- How a part of a call goes on: with a value to return, with the next part, or in a read outside
-- `argv`.
pub data Flow : Type 0 where
  ret : ℤ → GetoptData → Flow
  next : GetoptData → Flow
  fault : Flow

-- `==` on `int` and on the pointers of `flag`.
abbrev pub eq_ℤ : ℤ → ℤ → Bool
eq_ℤ (pos a) (pos b) = a == b
eq_ℤ (negsuc a) (negsuc b) = a == b
eq_ℤ (pos a) (negsuc b) = false
eq_ℤ (negsuc a) (pos b) = false

abbrev pub eq_pointer : Option ℕ → Option ℕ → Bool
eq_pointer none none = true
eq_pointer (some a) (some b) = a == b
eq_pointer none (some b) = false
eq_pointer (some a) none = false
