-- ===== src/Getopt/Scan.antt =====
-- `_getopt_initialize` and `_getopt_internal_r` of getopt-common.h. `argc` is the length of `argv`.
use yalibct.Base.{
  ℕ, ◌+◌, Bool, true, false, not, ◌&&◌, ◌||◌, List, [], ◌∷◌, Option, none, some, ◌==◌, get_elem?,
  drop, length, min, if◌then◌else◌,
}
use yalibct.Base.Int.{pos, negsuc}
use yalibct.Getopt.State.{
  Str, LongOption, require_order, permute, return_in_order, invalid_option, option_argument_missing,
  GetoptData, Flow, ret, next, eq_ℤ, fault,
}
use yalibct.Getopt.Argv.{◌>>=◌, exchange}
use yalibct.Getopt.Long.{char_at, strchr, is_none, print, process_long_option}

-- What follows the leading `-` or `+` of `optstring`.
abbrev pub skip_sign : Str → Str
skip_sign [] = []
skip_sign (c ∷ s) = if (c == b'-') || (c == b'+') then s else c ∷ s

-- `posix` is `posixly_correct || getenv ("POSIXLY_CORRECT")`.
unfoldable pub getopt_initialize : Str → Bool → GetoptData → GetoptData
getopt_initialize optstring posix d =
    let start = if d.optind == 0 then 1 else d.optind in
    let order =
      if char_at optstring 0 == b'-'
      then return_in_order
      else if char_at optstring 0 == b'+'
      then require_order
      else if posix
      then require_order
      else permute in
    record d {
      optind = start;
      first_nonopt = start;
      last_nonopt = start;
      nextchar = none;
      ordering = order;
      initialized = true;
    }

-- `NONOPTION_P` of an element.
abbrev pub is_nonoption : Str → Bool
is_nonoption s = not (char_at s 0 == b'-') || (char_at s 1 == 0)

-- `while (d->optind < argc && NONOPTION_P) d->optind++;` over the elements from `optind` on.
unfoldable pub skip_nonoptions : List Str → ℕ → ℕ
skip_nonoptions [] i = i
skip_nonoptions (s ∷ ss) i =
    let rest = skip_nonoptions ss (i + 1) in if is_nonoption s then rest else i

-- The two corrections for an `optind` that the user has moved back.
unfoldable pub clamp_nonopts : GetoptData → GetoptData
clamp_nonopts d = record d {
  last_nonopt = min d.last_nonopt d.optind;
  first_nonopt = min d.first_nonopt d.optind;
}

-- "If we have just processed some options following some non-options, exchange them."
abbrev pub gather : GetoptData → Option GetoptData
gather d =
    if not (d.first_nonopt == d.last_nonopt) && not (d.last_nonopt == d.optind)
    then exchange d
    else if not (d.last_nonopt == d.optind)
    then some (record d { first_nonopt = d.optind })
    else some d

-- "Skip any additional non-options and extend the range of non-options previously skipped."
abbrev pub extend : GetoptData → GetoptData
extend d =
    let i = skip_nonoptions (drop d.optind d.argv) d.optind in
    record d { optind = i; last_nonopt = i }

-- The part for `PERMUTE`; `none` is an access outside `argv`, here and below.
unfoldable pub permute_step : GetoptData → Option GetoptData
permute_step d = elim d.ordering [ permute ↦ do d' ← gather d; some (extend d') | _ ↦ some d ]

abbrev pub is_dashes : Str → Bool
is_dashes s = (char_at s 0 == b'-') && (char_at s 1 == b'-') && (length s == 2)

-- The part for the element `--`.
unfoldable pub dashes_step : GetoptData → Option GetoptData
dashes_step d = do
  let d' = record d { optind = d.optind + 1 }
  d'' ←
      if not (d'.first_nonopt == d'.last_nonopt) && not (d'.last_nonopt == d'.optind)
      then exchange d'
      else if d'.first_nonopt == d'.last_nonopt
      then some (record d' { first_nonopt = d'.optind })
      else some d'
  some (record d'' { last_nonopt = length d.argv; optind = length d.argv })

-- "It is not a long option. Skip the initial punctuation."
unfoldable pub as_short : GetoptData → Flow
as_short d = elim (get_elem? d.argv d.optind) [
  | none ↦ fault
  | some arg ↦ next (record d { nextchar = some (drop 1 arg) })
]

-- The element at `optind`: where the scan stops, what it describes, or the start of an option.
unfoldable pub element_step : Str → Option (List LongOption) → Bool → Bool → GetoptData → Flow
element_step optstring longopts long_only print_errors d = elim (get_elem? d.argv d.optind) [
  | none ↦ fault
  | some arg ↦
      let short = as_short d in
      let as_long = λ (options : List LongOption) (text : Str).
        process_long_option optstring options long_only print_errors text
          (record d { nextchar = some text }) in
      if is_nonoption arg
      then (elim d.ordering [
        | require_order ↦ ret (negsuc 0) d
        | _ ↦ ret (pos 1) (record d { optarg = some arg; optind = d.optind + 1 })
      ])
      else (elim longopts [
        | none ↦ short
        | some options ↦
            if char_at arg 1 == b'-'
            then as_long options (drop 2 arg)
            else if long_only
                && (not (char_at arg 2 == 0) || is_none (strchr optstring (char_at arg 1)))
            then (elim (as_long options (drop 1 arg)) [
              | fault ↦ fault
              | next d' ↦ next d'
              | ret code d' ↦ if eq_ℤ code (negsuc 0) then as_short d' else ret code d'
            ])
            else short
      ])
]

-- "The special ARGV-element '--' means premature end of options."
unfoldable pub after_dashes : GetoptData → Option GetoptData
after_dashes d =
    let here = (do
      arg ← get_elem? d.argv d.optind
      if is_dashes arg then dashes_step d else some d) in
    if not (d.optind == length d.argv) then here else some d

-- "If we have done all the ARGV-elements, stop the scan and back over any non-options."
unfoldable pub stop_or_element : Str → Option (List LongOption) → Bool → Bool → GetoptData → Flow
stop_or_element optstring longopts long_only print_errors d =
    let back = if d.first_nonopt == d.last_nonopt then d.optind else d.first_nonopt in
    if d.optind == length d.argv
    then ret (negsuc 0) (record d { optind = back })
    else element_step optstring longopts long_only print_errors d

-- From `__nextchar` at the end of an element up to an option character to look at.
unfoldable pub advance : Str → Option (List LongOption) → Bool → Bool → GetoptData → Flow
advance optstring longopts long_only print_errors d =
    elim (permute_step (clamp_nonopts d) >>= after_dashes) [
      | none ↦ fault
      | some d' ↦ stop_or_element optstring longopts long_only print_errors d'
    ]

-- An option that needs an argument and stands at the end of `argv`.
unfoldable pub missing_argument : Str → Bool → ℕ → GetoptData → Flow
missing_argument optstring print_errors c d =
    ret (pos (if char_at optstring 0 == b':' then b':' else b'?'))
      (print print_errors (option_argument_missing c) (record d { optopt = pos c }))

-- `-W foo`, the same as `--foo`.
unfoldable pub w_option : Str → List LongOption → Bool → ℕ → Str → GetoptData → Flow
w_option optstring options print_errors c [] d =
    if d.optind == length d.argv
    then missing_argument optstring print_errors c d
    else (elim (get_elem? d.argv d.optind) [
      | none ↦ fault
      | some arg ↦
          process_long_option optstring options false print_errors arg
            (record d { nextchar = some arg; optarg = none })
    ])
w_option optstring options print_errors c (x ∷ rest) d =
    process_long_option optstring options false print_errors (x ∷ rest)
      (record d { nextchar = some (x ∷ rest); optarg = none })

-- An option that takes an argument, with what follows its character in the element.
unfoldable pub with_argument : Str → Bool → Bool → ℕ → Str → GetoptData → Flow
with_argument optstring print_errors optional c (x ∷ rest) d =
    ret (pos c) (record d { optarg = some (x ∷ rest); optind = d.optind + 1; nextchar = none })
with_argument optstring print_errors true c [] d =
    ret (pos c) (record d { optarg = none; nextchar = none })
with_argument optstring print_errors false c [] d =
    if d.optind == length d.argv
    then missing_argument optstring print_errors c (record d { nextchar = none })
    else (elim (get_elem? d.argv d.optind) [
      | none ↦ fault
      | some arg ↦
          ret (pos c) (record d { optarg = some arg; optind = d.optind + 1; nextchar = none })
    ])

-- `*d->__nextchar == '\0'`
abbrev pub is_end : Str → Bool
is_end [] = true
is_end (c ∷ s) = false

-- `char c = *d->__nextchar++`, with `rest` behind it, and the step to the next element at the end.
unfoldable pub next_char : Str → GetoptData → GetoptData
next_char rest d = record d {
  nextchar = some rest;
  optind = if is_end rest then d.optind + 1 else d.optind;
}

-- "Look at and handle the next short option-character", `c`, with `rest` behind it.
unfoldable pub short_option : Str → Option (List LongOption) → Bool → ℕ → Str → GetoptData → Flow
short_option optstring longopts print_errors c rest d₀ =
    let d = next_char rest d₀ in
    let invalid =
      ret (pos b'?') (print print_errors (invalid_option c) (record d { optopt = pos c })) in
    elim (strchr optstring c) [
      | none ↦ invalid
      | some temp ↦
          let plain =
            if char_at temp 1 == b':'
            then with_argument optstring print_errors (char_at temp 2 == b':') c rest d
            else ret (pos c) d in
          if (c == b':') || (c == b';')
          then invalid
          else if (char_at temp 0 == b'W') && (char_at temp 1 == b';')
          then (elim longopts [
            | none ↦ plain
            | some options ↦ w_option optstring options print_errors c rest d
          ])
          else plain
    ]

-- The end of `_getopt_internal_r`; `__nextchar` points to a character there.
unfoldable pub option_step : Str → Option (List LongOption) → Bool → GetoptData → Flow
option_step optstring longopts print_errors d = elim d.nextchar [
  | none ↦ fault
  | some text ↦ elim text [
    | [] ↦ fault
    | c ∷ rest ↦ short_option optstring longopts print_errors c rest d
  ]
]

abbrev pub needs_advance : Option Str → Bool
needs_advance none = true
needs_advance (some []) = true
needs_advance (some (c ∷ s)) = false

unfoldable pub getopt_internal_r : Str → Option (List LongOption) → Bool → Bool → GetoptData → Flow
getopt_internal_r optstring longopts long_only posix d =
    let fresh = (d.optind == 0) || not d.initialized in
    let cleared = record d { optarg = none } in
    let d₁ = if fresh then getopt_initialize optstring posix cleared else cleared in
    let opts = skip_sign optstring in
    let print_errors = if char_at opts 0 == b':' then false else d.opterr in
    if length d.argv == 0
    then ret (negsuc 0) d
    else if needs_advance d₁.nextchar
    then (elim (advance opts longopts long_only print_errors d₁) [
      | fault ↦ fault
      | ret code d' ↦ ret code d'
      | next d' ↦ option_step opts longopts print_errors d'
    ])
    else option_step opts longopts print_errors d₁
