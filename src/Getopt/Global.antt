-- ===== src/Getopt/Global.antt =====
-- `_getopt_internal` of getopt-common.h, the scanner on the global variables, and `getopt` and
-- `getopt_long` of getopt.h and getopt_long.h.
use yalibct.Base.{ℕ, ◌≡◌, refl, Bool, true, false, List, Option, none, some}
use yalibct.Base.Int.{ℤ}
use yalibct.Getopt.State.{Str, LongOption, GetoptData, ret, next, fault}
use yalibct.Getopt.Scan.{getopt_internal_r}
use yalibct.Getopt.Safe.{IsValid}
use yalibct.Getopt.Whole.{getopt_internal_r_lem}

-- The variables `optind`, `opterr`, `optopt`, `optarg` and `getopt_data`.
pub record Globals : Type 0 where
  pub optind : ℕ
  pub opterr : Bool
  pub optopt : ℤ
  pub optarg : Option Str
  pub getopt_data : GetoptData

-- `getopt_data.optind = optind; getopt_data.opterr = opterr;`
unfoldable pub load : Globals → GetoptData
load g = record g.getopt_data { optind = g.optind; opterr = g.opterr }

-- The copies back to the global variables.
unfoldable pub store : Globals → GetoptData → Globals
store g d = record g { optind = d.optind; optarg = d.optarg; optopt = d.optopt; getopt_data = d }

-- `none` is a read outside `argv`.
unfoldable pub getopt_internal :
    Str → Option (List LongOption) → Bool → Bool → Globals → Option (ℤ × Globals)
getopt_internal optstring longopts long_only posix g =
    elim (getopt_internal_r optstring longopts long_only posix (load g)) [
      | ret code d ↦ some (code, store g d)
      | next d ↦ none
      | fault ↦ none
    ]

unfoldable pub getopt : Str → Globals → Option (ℤ × Globals)
getopt optstring g = getopt_internal optstring none false true g

-- `posix` is whether `POSIXLY_CORRECT` is set.
unfoldable pub getopt_long : Str → List LongOption → Bool → Globals → Option (ℤ × Globals)
getopt_long optstring long_options posix g =
    getopt_internal optstring (some long_options) false posix g

-- What a finished call of the wrapper gives.
pub record IsCall (n : ℕ) (result : Option (ℤ × Globals)) : Type 0 where
  pub code : ℤ
  pub globals : Globals
  pub value : result ≡ some (code, globals)
  pub valid : IsValid n (load globals)

-- From global variables that make valid data, `_getopt_internal` without `long_only` returns, with no
-- read outside `argv`, and the variables that it leaves make valid data for the next call.
getopt_internal_lem :
    (n : ℕ) (optstring : Str) (longopts : Option (List LongOption)) (posix : Bool) (g : Globals)
    → IsValid n (load g)
    → IsCall n (getopt_internal optstring longopts false posix g)
unfolding getopt_internal load store
getopt_internal_lem n optstring longopts posix g v =
    let r = getopt_internal_r_lem n optstring longopts posix (load g) v in
    let w = r.valid in
    record {
      code = r.code;
      globals = store g r.left;
      value = rw (getopt_internal, r.value) refl;
      valid = record {
        count = w.count;
        in_argv = w.in_argv;
        nonopts = w.nonopts;
        inside = w.inside;
      };
    }

-- From global variables that make valid data, `getopt` and `getopt_long` return, whatever the options
-- and the elements of `argv` are, with no read outside `argv`, and the variables that they leave make
-- valid data for the next call.
pub getopt_lem :
    (n : ℕ) (optstring : Str) (long_options : List LongOption) (posix : Bool) (g : Globals)
    → IsValid n (load g)
    → IsCall n (getopt optstring g) × IsCall n (getopt_long optstring long_options posix g)
unfolding getopt getopt_long
getopt_lem n optstring long_options posix g v = (
  getopt_internal_lem n optstring none true g v,
  getopt_internal_lem n optstring (some long_options) posix g v,
)
