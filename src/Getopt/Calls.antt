-- ===== src/Getopt/Calls.antt =====
-- The scanner from the short options up to a whole call.
use yalibct.Base.{
  ℕ, ◌+◌, ◌≤◌, ◌<◌, ◌≡◌, refl, ap, Bool, true, false, ◌&&◌, ◌||◌, List, [], ◌∷◌, Option, none, some,
  ◌==◌, length, if◌then◌else◌, arith, inl, inr, Option-cases, Bool-cases,
}
use yalibct.Base.Int.{pos}
use yalibct.Getopt.State.{Str, LongOption, invalid_option, GetoptData, ret}
use yalibct.Getopt.Long.{char_at, strchr, print}
use yalibct.Getopt.Scan.{
  missing_argument, w_option, with_argument, short_option, option_step, needs_advance, next_char,
}
use yalibct.Getopt.Safe.{
  IsValid, IsDone, returns, outside, get_elem?-some, process_long_option-IsDone,
}

module _ (n : ℕ) (optstring : Str) (pe : Bool) (c : ℕ) where
  missing_argument-IsDone :
      (d : GetoptData)
      → length d.argv ≡ n
      → d.optind ≤ n
      → needs_advance d.nextchar ≡ true
      → d.first_nonopt ≤ d.last_nonopt
      → IsDone n (missing_argument optstring pe c d)
  unfolding missing_argument
  missing_argument-IsDone d l h e o = returns (outside n _ l h e o)

module _ (n : ℕ) (optstring : Str) (pe : Bool) (c : ℕ) (d : GetoptData) where
  w_option-IsDone :
      (options : List LongOption) (rest : Str)
      → IsValid n d
      → d.nextchar ≡ some rest
      → IsDone n (w_option optstring options pe c rest d)
  unfolding w_option
  w_option-IsDone options [] v e = elim (Bool-cases (d.optind == length d.argv)) [
    | inl f ↦
        rw f (missing_argument-IsDone n optstring pe c d v.count v.in_argv (rw e refl) v.nonopts)
    | inr f ↦
        let l = v.count in
        let m = v.in_argv in
        let lt : d.optind < n = ground arith in
        let (arg, g) = get_elem?-some d.argv d.optind (omega arith) in
        rw (f, g)
          (process_long_option-IsDone n optstring pe
            (record d { nextchar = some arg; optarg = none }) v.count lt v.nonopts options false arg
            (λ f. absurd (grind arith)))
  ]
  w_option-IsDone options (x ∷ rest) v e =
      process_long_option-IsDone n optstring pe
        (record d { nextchar = some (x ∷ rest); optarg = none }) v.count (v.inside (rw e refl))
        v.nonopts options false (x ∷ rest) (λ f. absurd (grind arith))

  with_argument-IsDone :
      (optional : Bool) (rest : Str)
      → IsValid n d
      → d.nextchar ≡ some rest
      → IsDone n (with_argument optstring pe optional c rest d)
  unfolding with_argument
  with_argument-IsDone optional (x ∷ rest) v e =
      let lt = v.inside (rw e refl) in
      let one : d.optind + 1 ≤ n = omega arith in returns (outside n _ v.count one refl v.nonopts)
  with_argument-IsDone true [] v e = returns (outside n _ v.count v.in_argv refl v.nonopts)
  with_argument-IsDone false [] v e = elim (Bool-cases (d.optind == length d.argv)) [
    | inl f ↦ rw f (
        missing_argument-IsDone n optstring pe c (record d { nextchar = none }) v.count v.in_argv
          refl v.nonopts)
    | inr f ↦
        let l = v.count in
        let m = v.in_argv in
        let lt : d.optind < n = ground arith in
        let one : d.optind + 1 ≤ n = omega arith in
        let (arg, g) = get_elem?-some d.argv d.optind (omega arith) in
        rw (f, g) (returns (outside n _ v.count one refl v.nonopts))
  ]

module _ (n : ℕ) (optstring : Str) (pe : Bool) where
  next_char-IsValid :
      (rest : Str) (d : GetoptData)
      → length d.argv ≡ n
      → d.optind < n
      → d.first_nonopt ≤ d.last_nonopt
      → IsValid n (next_char rest d)
  unfolding next_char
  next_char-IsValid [] d l h o =
      let one : d.optind + 1 ≤ n = omega arith in outside n _ l one refl o
  next_char-IsValid (x ∷ rest) d l h o = record {
    count = l;
    in_argv = omega arith;
    nonopts = o;
    inside = λ _. h;
  }

  nextchar-next_char : (rest : Str) (d : GetoptData) → (next_char rest d).nextchar ≡ some rest
  unfolding next_char
  nextchar-next_char rest d = refl

  plain-IsDone :
      (temp : Str) (c : ℕ) (rest : Str) (d : GetoptData)
      → IsValid n d
      → d.nextchar ≡ some rest
      → IsDone n (
          if char_at temp 1 == b':'
          then with_argument optstring pe (char_at temp 2 == b':') c rest d
          else ret (pos c) d)
  plain-IsDone temp c rest d v e = elim (Bool-cases (char_at temp 1 == b':')) [
    | inl f ↦ rw f (with_argument-IsDone n optstring pe c d (char_at temp 2 == b':') rest v e)
    | inr f ↦ rw f (returns v)
  ]

  short_option-IsDone :
      (longopts : Option (List LongOption)) (c : ℕ) (rest : Str) (d : GetoptData)
      → length d.argv ≡ n
      → d.optind < n
      → d.first_nonopt ≤ d.last_nonopt
      → IsDone n (short_option optstring longopts pe c rest d)
  unfolding short_option
  short_option-IsDone longopts c rest d₀ l h o =
      let d = next_char rest d₀ in
      let v = next_char-IsValid rest d₀ l h o in
      let e = nextchar-next_char rest d₀ in
      let invalid : IsValid n (print pe (invalid_option c) (record d { optopt = pos c })) = record {
        count = v.count;
        in_argv = v.in_argv;
        nonopts = v.nonopts;
        inside = v.inside;
      } in
      elim (Option-cases (strchr optstring c)) [
        | inl s ↦ rw (short_option, s) (returns invalid)
        | inr (temp, s) ↦ elim (Bool-cases ((c == b':') || (c == b';'))) [
          | inl a ↦ rw (short_option, s, a) (returns invalid)
          | inr a ↦ elim (Bool-cases ((char_at temp 0 == b'W') && (char_at temp 1 == b';'))) [
            | inr w ↦ rw (short_option, s, a, w) (plain-IsDone temp c rest d v e)
            | inl w ↦ elim (Option-cases longopts) [
              | inl f ↦ rw (short_option, s, a, w, f) (plain-IsDone temp c rest d v e)
              | inr (options, f) ↦
                  rw (short_option, s, a, w, f)
                    (w_option-IsDone n optstring pe c d options rest v e)
            ]
          ]
        ]
      ]

  pub option_step-IsDone :
      (longopts : Option (List LongOption)) (d : GetoptData)
      → IsValid n d
      → needs_advance d.nextchar ≡ false
      → IsDone n (option_step optstring longopts pe d)
  unfolding option_step short_option next_char
  option_step-IsDone longopts d v e = elim (Option-cases d.nextchar) [
    | inl f ↦ absurd (ground (arith, ap needs_advance f))
    | inr ([], f) ↦ absurd (ground (arith, ap needs_advance f))
    | inr (x ∷ rest, f) ↦
        rw f (short_option-IsDone longopts x rest d v.count (v.inside e) v.nonopts)
  ]
