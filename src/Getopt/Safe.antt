-- ===== src/Getopt/Safe.antt =====
-- No call of the scanner reads outside `argv`.
use yalibct.Base.{
  ℕ, zero, suc, ◌+◌, ◌≤◌, ◌<◌, ◌≡◌, refl, Bool, true, false, ◌||◌, List, [], ◌∷◌, Option, none,
  some, ◌==◌, get_elem?, length, arith, inl, inr, Option-cases, Bool-cases, lt→ltb, ge→ltb, dec_lt,
}
use yalibct.Base.Int.{ℤ}
use yalibct.Getopt.State.{Str, LongOption, GetoptData, Flow, ret}
use yalibct.Getopt.Long.{
  char_at, strchr, is_none, finish_long, consume_long, not_long, process_long_option, split_name,
  find_exact, find_abbreviation,
}
use yalibct.Getopt.Scan.{needs_advance}

-- What holds of the data between calls, for an `argv` of `n` elements: `optind` is in `argv` or at its
-- end, and in it while the scan is inside an element; the skipped non-options are a segment.
pub record IsValid (n : ℕ) (d : GetoptData) : Type 0 where
  pub count : length d.argv ≡ n
  pub in_argv : d.optind ≤ n
  pub nonopts : d.first_nonopt ≤ d.last_nonopt
  pub inside : needs_advance d.nextchar ≡ false → d.optind < n

-- A part of a call that returns.
pub data IsDone (n : ℕ) : Flow → Type 0 where
  returns : {code : ℤ} {d : GetoptData} → IsValid n d → IsDone n (ret code d)

pub get_elem?-some : (xs : List Str) (i : ℕ) → i < length xs → (x : Str) × (get_elem? xs i ≡ some x)
get_elem?-some [] i h = absurd (omega arith)
get_elem?-some (x ∷ xs) zero h = (x, refl)
get_elem?-some (x ∷ xs) (suc i) h = get_elem?-some xs i (omega arith)

module _ (n : ℕ) where
  finish_long-IsDone :
      (p : LongOption) (i : ℕ) (d : GetoptData) → IsValid n d → IsDone n (finish_long p i d)
  unfolding finish_long
  finish_long-IsDone p i d v = elim (Option-cases p.flag) [
    | inl e ↦ rw e (
        returns
          (record { count = v.count; in_argv = v.in_argv; nonopts = v.nonopts; inside = v.inside }))
    | inr (f, e) ↦ rw e (
        returns
          (record { count = v.count; in_argv = v.in_argv; nonopts = v.nonopts; inside = v.inside }))
  ]

  pub outside :
      (d : GetoptData)
      → length d.argv ≡ n
      → d.optind ≤ n
      → needs_advance d.nextchar ≡ true
      → d.first_nonopt ≤ d.last_nonopt
      → IsValid n d
  outside d c h e o = record {
    count = c;
    in_argv = h;
    nonopts = o;
    inside = λ f. absurd (grind arith);
  }

-- The parts for long options, called with `optind` in `argv`.
module _ (n : ℕ) (optstring : Str) (pe : Bool) (d : GetoptData) (c : length d.argv ≡ n)
    (h : d.optind < n) (o : d.first_nonopt ≤ d.last_nonopt) where
  consume_long-IsDone :
      (p : LongOption) (i : ℕ) (rest : Str) → IsDone n (consume_long optstring pe p i rest d)
  unfolding consume_long
  consume_long-IsDone p i [] =
      let one : d.optind + 1 ≤ n = omega arith in
      elim (Bool-cases (p.has_arg == 1)) [
        | inr e ↦ rw e (
            finish_long-IsDone n p i (record d { optind = d.optind + 1; nextchar = none })
              (outside n _ c one refl o))
        | inl e ↦ elim (dec_lt (d.optind + 1) (length d.argv)) [
          | no ge ↦ rw (e, ge→ltb _ _ ge) (returns (outside n _ c one refl o))
          | yes lt ↦
              let (arg, f) = get_elem?-some d.argv (d.optind + 1) lt in
              let two : d.optind + 1 + 1 ≤ n = omega arith in
              rw (e, lt→ltb _ _ lt, f)
                (finish_long-IsDone n p i
                  (record d { optarg = some arg; optind = d.optind + 1 + 1; nextchar = none })
                  (outside n _ c two refl o))
        ]
      ]
  consume_long-IsDone p i (x ∷ value) =
      let one : d.optind + 1 ≤ n = omega arith in
      elim (Bool-cases (p.has_arg == 0)) [
        | inl e ↦ rw e (returns (outside n _ c one refl o))
        | inr e ↦ rw e (
            finish_long-IsDone n p i
              (record d { optarg = some value; optind = d.optind + 1; nextchar = none })
              (outside n _ c one refl o))
      ]

  not_long-IsDone :
      (text : Str) (long_only : Bool)
      → (long_only ≡ true → IsValid n d)
      → IsDone n (not_long optstring long_only pe text d)
  unfolding not_long
  not_long-IsDone text false v =
      let one : d.optind + 1 ≤ n = omega arith in returns (outside n _ c one refl o)
  not_long-IsDone text true v =
      let one : d.optind + 1 ≤ n = omega arith in
      let (arg, f) = get_elem?-some d.argv d.optind (omega arith) in
      elim (Bool-cases ((char_at arg 1 == b'-') || is_none (strchr optstring (char_at text 0)))) [
        | inl e ↦ rw (f, e) (returns (outside n _ c one refl o))
        | inr e ↦ rw (f, e) (returns (v refl))
      ]

  found_long-IsDone :
      (text : Str) (long_only : Bool)
      → (long_only ≡ true → IsValid n d)
      → (rest : Str) (found : Option (LongOption × ℕ))
      → IsDone n (elim found [
        | none ↦ not_long optstring long_only pe text d
        | some (p, i) ↦ consume_long optstring pe p i rest d
      ])
  found_long-IsDone text long_only v rest none = not_long-IsDone text long_only v
  found_long-IsDone text long_only v rest (some (p, i)) = consume_long-IsDone p i rest

  pub process_long_option-IsDone :
      (options : List LongOption) (long_only : Bool) (text : Str)
      → (long_only ≡ true → IsValid n d)
      → IsDone n (process_long_option optstring options long_only pe text d)
  unfolding process_long_option
  process_long_option-IsDone options long_only text v =
      let one : d.optind + 1 ≤ n = omega arith in
      let (name, rest) = split_name text in
      let abbreviated = find_abbreviation long_only name options 0 none false in
      elim (Option-cases (find_exact name options 0)) [
        | inr ((p, i), e) ↦ rw (process_long_option, e) (consume_long-IsDone p i rest)
        | inl e ↦ elim (Bool-cases abbreviated.1) [
          | inl a ↦ rw (process_long_option, e, a) (returns (outside n _ c one refl o))
          | inr a ↦
              rw (process_long_option, e, a) (found_long-IsDone text long_only v rest abbreviated.0)
        ]
      ]
