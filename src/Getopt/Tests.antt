-- ===== src/Getopt/Tests.antt =====
-- Runs of the scanner, and the properties at concrete command lines.
use yalibct.Base.{arith, true, false, List, [], ◌∷◌, Option, none, some, ◌≡◌, refl}
use yalibct.Base.Int.{ℤ, pos}
use yalibct.Getopt.State.{Str, GetoptData, Flow, ret, next, fault, permute}
use yalibct.Getopt.Argv.{exchange}
use yalibct.Getopt.Safe.{IsValid}
use yalibct.Getopt.Whole.{IsReturn, getopt_internal_r_lem}
use yalibct.Getopt.Global.{Globals, load, getopt, getopt_long, IsCall, getopt_lem}
use yalibct.Getopt.Exchange.{exchange_lem}
use yalibct.Getopt.Scan.{
  getopt_internal_r, getopt_initialize, advance, permute_step, clamp_nonopts, skip_nonoptions,
  element_step, as_short, option_step, short_option, next_char, after_dashes, stop_or_element,
}
use yalibct.Getopt.Long.{strchr}

-- `prog x y -a -b z`, with `x y` skipped and the scan behind `-b`.
abbrev command : List Str
command =
    (b'p' ∷ [])
    ∷ (b'x' ∷ [])
    ∷ (b'y' ∷ [])
    ∷ (b'-' ∷ b'a' ∷ [])
    ∷ (b'-' ∷ b'b' ∷ [])
    ∷ (b'z' ∷ [])
    ∷ []

abbrev scanned : GetoptData
scanned = record {
  argv = command;
  optind = 5;
  opterr = true;
  optopt = pos b'?';
  optarg = none;
  initialized = true;
  nextchar = none;
  ordering = permute;
  first_nonopt = 1;
  last_nonopt = 3;
  longind = none;
  flags = [];
  messages = [];
}

exchange_lem_example :
    (d' : GetoptData) × (exchange scanned ≡ some d')
    × (d'.argv
        ≡ (b'p' ∷ [])
          ∷ (b'-' ∷ b'a' ∷ [])
          ∷ (b'-' ∷ b'b' ∷ [])
          ∷ (b'x' ∷ [])
          ∷ (b'y' ∷ [])
          ∷ (b'z' ∷ [])
          ∷ [])
    × (d'.first_nonopt ≡ 3)
    × (d'.last_nonopt ≡ 5)
    × (d'.optind ≡ 5)
exchange_lem_example =
    exchange_lem scanned ((b'p' ∷ []) ∷ []) ((b'x' ∷ []) ∷ (b'y' ∷ []) ∷ [])
      ((b'-' ∷ b'a' ∷ []) ∷ (b'-' ∷ b'b' ∷ []) ∷ []) ((b'z' ∷ []) ∷ []) refl refl refl refl

abbrev fresh : List Str → GetoptData
fresh args = record scanned {
  argv = args;
  optind = 1;
  initialized = false;
  first_nonopt = 0;
  last_nonopt = 0;
}

-- `prog x -a` with the options `ab:` returns `a`, with `x` behind it.
abbrev first_call : Flow
first_call =
    getopt_internal_r (b'a' ∷ b'b' ∷ b':' ∷ []) none false false
      (fresh ((b'p' ∷ []) ∷ (b'x' ∷ []) ∷ (b'-' ∷ b'a' ∷ []) ∷ []))

abbrev code_of : Flow → Option ℤ
code_of (ret code d) = some code
code_of (next d) = none
code_of fault = none

abbrev state_of : Flow → GetoptData
state_of (ret code d) = d
state_of (next d) = d
state_of fault = scanned

first_code : code_of first_call ≡ some (pos b'a')
unfolding getopt_internal_r getopt_initialize advance permute_step clamp_nonopts skip_nonoptions
    element_step as_short option_step short_option next_char after_dashes stop_or_element strchr
first_code = refl

abbrev short_command : List Str
short_command = (b'p' ∷ []) ∷ (b'x' ∷ []) ∷ (b'-' ∷ b'a' ∷ []) ∷ []

fresh-IsValid : IsValid 3 (fresh short_command)
fresh-IsValid = record {
  count = refl;
  in_argv = omega arith;
  nonopts = omega arith;
  inside = λ e. absurd (grind arith);
}

getopt_internal_r_lem_example :
    IsReturn 3 (getopt_internal_r (b'a' ∷ b'b' ∷ b':' ∷ []) none false false (fresh short_command))
getopt_internal_r_lem_example =
    getopt_internal_r_lem 3 (b'a' ∷ b'b' ∷ b':' ∷ []) none false (fresh short_command) fresh-IsValid

abbrev start : Globals
start = record {
  optind = 1;
  opterr = true;
  optopt = pos b'?';
  optarg = none;
  getopt_data = fresh short_command;
}

start-IsValid : IsValid 3 (load start)
unfolding load
start-IsValid = fresh-IsValid

getopt_lem_example :
    IsCall 3 (getopt (b'a' ∷ b'b' ∷ b':' ∷ []) start)
    × IsCall 3 (getopt_long (b'a' ∷ b'b' ∷ b':' ∷ []) [] false start)
getopt_lem_example = getopt_lem 3 (b'a' ∷ b'b' ∷ b':' ∷ []) [] false start start-IsValid
