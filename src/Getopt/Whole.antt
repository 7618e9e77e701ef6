-- ===== src/Getopt/Whole.antt =====
-- A whole call of the scanner: from the element at `optind` to the value that it returns.
use yalibct.Base.{
  ℕ, ◌+◌, ◌≤◌, ◌<◌, ◌≡◌, refl, Bool, true, false, not, ◌||◌, List, [], ◌∷◌, Option, none, some,
  ◌==◌, get_elem?, drop, length, if◌then◌else◌, arith, inl, inr, Option-cases, Bool-cases,
}
use yalibct.Base.Int.{ℤ, pos, negsuc}
use yalibct.Getopt.State.{
  Str, LongOption, Ordering, require_order, permute, return_in_order, GetoptData, Flow, ret, next,
  fault,
}
use yalibct.Getopt.Long.{char_at}
use yalibct.Getopt.Scan.{
  getopt_initialize, is_nonoption, clamp_nonopts, permute_step, after_dashes, stop_or_element,
  as_short, element_step, advance, option_step, needs_advance, getopt_internal_r, skip_sign,
}
use yalibct.Getopt.Safe.{
  IsValid, IsDone, returns, outside, get_elem?-some, process_long_option-IsDone,
}
use yalibct.Getopt.Calls.{option_step-IsDone}
use yalibct.Getopt.Argv.{◌>>=◌}
use yalibct.Getopt.Between.{
  Gives, gives, Gives-bind, IsBetween, clamp_nonopts-IsBetween, permute_step-IsBetween,
  after_dashes-IsBetween,
}

-- A part of a call that returns or finds a character to look at.
pub data IsSafe (n : ℕ) : Flow → Type 0 where
  done : {f : Flow} → IsDone n f → IsSafe n f
  goes_on : {d : GetoptData} → IsValid n d → needs_advance d.nextchar ≡ false → IsSafe n (next d)

needs_advance-option : (s : Str) → is_nonoption s ≡ false → needs_advance (some (drop 1 s)) ≡ false
needs_advance-option [] h = h
needs_advance-option (a ∷ []) h = absurd (ground arith)
needs_advance-option (a ∷ b ∷ s) h = refl

module _ (n : ℕ) (optstring : Str) (longopts : Option (List LongOption)) (pe : Bool)
    (d : GetoptData) (v : IsBetween n d) where
  as_short-IsSafe :
      (arg : Str)
      → d.optind < n
      → get_elem? d.argv d.optind ≡ some arg
      → is_nonoption arg ≡ false
      → IsSafe n (as_short d)
  unfolding as_short
  as_short-IsSafe arg h e o =
      let l = v.count in
      rw (as_short, e)
        (goes_on
          (record { count = v.count; in_argv = v.in_argv; nonopts = v.nonopts; inside = λ _. h })
          (needs_advance-option arg o))

  nonoption-IsSafe :
      (o : Ordering) (arg : Str)
      → d.optind < n
      → IsSafe n (elim o [
        | require_order ↦ ret (negsuc 0) d
        | _ ↦ ret (pos 1) (record d { optarg = some arg; optind = d.optind + 1 })
      ])
  nonoption-IsSafe require_order arg h =
      done (returns (outside n _ v.count v.in_argv v.at_end v.nonopts))
  nonoption-IsSafe permute arg h =
      let one : d.optind + 1 ≤ n = omega arith in
      done (returns (outside n _ v.count one v.at_end v.nonopts))
  nonoption-IsSafe return_in_order arg h =
      let one : d.optind + 1 ≤ n = omega arith in
      done (returns (outside n _ v.count one v.at_end v.nonopts))

  element_step-IsSafe : d.optind < n → IsSafe n (element_step optstring longopts false pe d)
  unfolding element_step
  element_step-IsSafe h =
      let l = v.count in
      let one : d.optind + 1 ≤ n = omega arith in
      let (arg, e) = get_elem?-some d.argv d.optind (omega arith) in
      elim (Bool-cases (is_nonoption arg)) [
        | inl o ↦ rw (element_step, e, o) (nonoption-IsSafe d.ordering arg h)
        | inr o ↦ elim (Option-cases longopts) [
          | inl f ↦ rw (element_step, e, o, f) (as_short-IsSafe arg h e o)
          | inr (options, f) ↦ elim (Bool-cases (char_at arg 1 == b'-')) [
            | inl g ↦
                rw (element_step, e, o, f, g)
                  (done (
                    process_long_option-IsDone n optstring pe
                      (record d { nextchar = some (drop 2 arg) }) v.count h v.nonopts options false
                      (drop 2 arg) (λ x. absurd (grind arith))))
            | inr g ↦ rw (element_step, e, o, f, g) (as_short-IsSafe arg h e o)
          ]
        ]
      ]

module _ (n : ℕ) (optstring : Str) (longopts : Option (List LongOption)) (pe : Bool)
    (d : GetoptData) where
  stop_or_element-IsSafe : IsBetween n d → IsSafe n (stop_or_element optstring longopts false pe d)
  unfolding stop_or_element
  stop_or_element-IsSafe v =
      let l = v.count in
      let m = v.in_argv in
      let o = v.nonopts in
      let b = v.behind in
      let back : (if d.first_nonopt == d.last_nonopt then d.optind else d.first_nonopt) ≤ n =
        ground arith in
      elim (Bool-cases (d.optind == length d.argv)) [
        | inl e ↦
            rw (stop_or_element, e) (done (returns (outside n _ v.count back v.at_end v.nonopts)))
        | inr e ↦
            let h : d.optind < n = ground arith in
            rw (stop_or_element, e) (element_step-IsSafe n optstring longopts pe d v h)
      ]

module _ (n : ℕ) (optstring : Str) (longopts : Option (List LongOption)) (pe : Bool)
    (d : GetoptData) where
  advance-IsSafe :
      IsValid n d
      → needs_advance d.nextchar ≡ true
      → IsSafe n (advance optstring longopts false pe d)
  unfolding advance
  advance-IsSafe v e =
      let clamped = clamp_nonopts d in
      stopped (permute_step clamped >>= after_dashes) (
        Gives-bind after_dashes (permute_step-IsBetween n clamped (clamp_nonopts-IsBetween n d v e))
          (after_dashes-IsBetween n))
    where
      stopped :
          (o : Option GetoptData)
          → Gives (IsBetween n) o
          → IsSafe n
              (elim o [ none ↦ fault | some d' ↦ stop_or_element optstring longopts false pe d' ])
      stopped o (gives d' w) = stop_or_element-IsSafe n optstring longopts pe d' w

-- What a finished call gives.
pub record IsReturn (n : ℕ) (flow : Flow) : Type 0 where
  pub code : ℤ
  pub left : GetoptData
  pub value : flow ≡ ret code left
  pub valid : IsValid n left

done-IsReturn : (n : ℕ) (flow : Flow) → IsDone n flow → IsReturn n flow
done-IsReturn n (ret code d) (returns v) = record { code = code; left = d; value = refl; valid = v }
done-IsReturn n (next d) r = elim r [ ]
done-IsReturn n fault r = elim r [ ]

getopt_initialize-IsValid :
    (n : ℕ) (optstring : Str) (posix : Bool) (d : GetoptData)
    → 1 ≤ n
    → IsValid n d
    → IsValid n (getopt_initialize optstring posix d)
unfolding getopt_initialize
getopt_initialize-IsValid n optstring posix d h v =
    let m = v.in_argv in
    record {
      count = v.count;
      in_argv = ground arith;
      nonopts = omega arith;
      inside = λ e. absurd (grind arith);
    }

module _ (n : ℕ) (optstring : Str) (longopts : Option (List LongOption)) (pe : Bool) where
  after_advance-IsReturn :
      (flow : Flow)
      → IsSafe n flow
      → IsReturn n (elim flow [
        | fault ↦ fault
        | ret code d' ↦ ret code d'
        | next d' ↦ option_step optstring longopts pe d'
      ])
  after_advance-IsReturn fault (done r) = elim r [ ]
  after_advance-IsReturn (ret code d) (done r) = done-IsReturn n (ret code d) r
  after_advance-IsReturn (next d) (done r) = elim r [ ]
  after_advance-IsReturn (next d) (goes_on v e) =
      done-IsReturn n (option_step optstring longopts pe d)
        (option_step-IsDone n optstring pe longopts d v e)

  from-IsReturn :
      (d : GetoptData)
      → IsValid n d
      → IsReturn n (
          if needs_advance d.nextchar
          then (elim (advance optstring longopts false pe d) [
            | fault ↦ fault
            | ret code d' ↦ ret code d'
            | next d' ↦ option_step optstring longopts pe d'
          ])
          else option_step optstring longopts pe d)
  from-IsReturn d v = elim (Bool-cases (needs_advance d.nextchar)) [
    | inl e ↦ rw e (
        after_advance-IsReturn (advance optstring longopts false pe d)
          (advance-IsSafe n optstring longopts pe d v e))
    | inr e ↦ rw e (
        done-IsReturn n (option_step optstring longopts pe d)
          (option_step-IsDone n optstring pe longopts d v e))
  ]

start-IsValid :
    (n : ℕ) (optstring : Str) (posix b : Bool) (d : GetoptData)
    → 1 ≤ n
    → IsValid n d
    → IsValid n (if b then getopt_initialize optstring posix d else d)
start-IsValid n optstring posix true d h v = getopt_initialize-IsValid n optstring posix d h v
start-IsValid n optstring posix false d h v = v

-- From valid data, `_getopt_internal_r` without `long_only` returns, whatever the options and the
-- elements of `argv` are, with no read outside `argv`, and leaves valid data for the next call.
pub getopt_internal_r_lem :
    (n : ℕ) (optstring : Str) (longopts : Option (List LongOption)) (posix : Bool) (d : GetoptData)
    → IsValid n d
    → IsReturn n (getopt_internal_r optstring longopts false posix d)
unfolding getopt_internal_r
getopt_internal_r_lem n optstring longopts posix d v =
    let l = v.count in
    let opts = skip_sign optstring in
    let cleared : GetoptData = record d { optarg = none } in
    let fresh = (d.optind == 0) || not d.initialized in
    let start : GetoptData = if fresh then getopt_initialize optstring posix cleared else cleared in
    let cleared_valid : IsValid n cleared = record {
      count = v.count;
      in_argv = v.in_argv;
      nonopts = v.nonopts;
      inside = v.inside;
    } in
    elim (Bool-cases (length d.argv == 0)) [
      | inl e ↦ rw (getopt_internal_r, e) (done-IsReturn n (ret (negsuc 0) d) (returns v))
      | inr e ↦
          let some_argv : 1 ≤ n = ground arith in
          let start_valid = start-IsValid n optstring posix fresh cleared some_argv cleared_valid in
          rw (getopt_internal_r, e)
            (from-IsReturn n opts longopts (if char_at opts 0 == b':' then false else d.opterr)
              start start_valid)
    ]
