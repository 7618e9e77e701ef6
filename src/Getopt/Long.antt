-- ===== src/Getopt/Long.antt =====
-- `process_long_option` of getopt-common.h.
use yalibct.Base.{
  ℕ, zero, suc, ◌+◌, Bool, true, false, not, ◌&&◌, ◌||◌, List, [], ◌∷◌, ◌++◌, Option, none, some,
  ltb, ◌==◌, get_elem?, get_or, length, if◌then◌else◌,
}
use yalibct.Base.Int.{pos, negsuc}
use yalibct.Getopt.State.{
  Str, LongOption, Message, ambiguous, unrecognized, no_argument_allowed, argument_missing,
  GetoptData, Flow, ret, fault, eq_ℤ, eq_pointer,
}

-- The character at an index, the null character at the end.
abbrev pub char_at : Str → ℕ → ℕ
char_at s i = get_or s i 0

-- What `strchr` returns: the rest of the string from the character on.
unfoldable pub strchr : Str → ℕ → Option Str
strchr s zero = some []
strchr [] (suc c) = none
strchr (x ∷ s) (suc c) = if x == suc c then some (x ∷ s) else strchr s (suc c)

abbrev pub is_none {ℓ} : {A : Type ℓ} → Option A → Bool
is_none none = true
is_none (some a) = false

-- `!strncmp (p->name, name, namelen)` for a name of that length.
unfoldable pub has_prefix : Str → Str → Bool
has_prefix [] s = true
has_prefix (c ∷ name) [] = false
has_prefix (c ∷ name) (x ∷ s) = (c == x) && has_prefix name s

-- The name up to `=`, and what follows it, with the `=`.
unfoldable pub split_name : Str → Str × Str
split_name [] = ([], [])
split_name (c ∷ s) =
    let (name, rest) = split_name s in if c == b'=' then ([], c ∷ s) else (c ∷ name, rest)

-- The loop for an exact match, with the index of the option.
unfoldable pub find_exact : Str → List LongOption → ℕ → Option (LongOption × ℕ)
find_exact name [] i = none
find_exact name (p ∷ ps) i =
    let rest = find_exact name ps (i + 1) in
    if has_prefix name p.name && (length name == length p.name) then some (p, i) else rest

-- Whether a second match differs from the first one.
unfoldable pub differs : Bool → LongOption → LongOption → Bool
differs long_only q p =
    long_only
    || not (q.has_arg == p.has_arg)
    || not (eq_pointer q.flag p.flag)
    || not (eq_ℤ q.val p.val)

-- The loop for abbreviations: the first match, and whether a later one differs from it
-- (`ambig_set || ambig_fallback`).
unfoldable pub find_abbreviation :
    Bool
    → Str
    → List LongOption
    → ℕ
    → Option (LongOption × ℕ)
    → Bool
    → Option (LongOption × ℕ) × Bool
find_abbreviation long_only name [] i found ambig = (found, ambig)
find_abbreviation long_only name (p ∷ ps) i none ambig =
    find_abbreviation long_only name ps (i + 1)
      (if has_prefix name p.name then some (p, i) else none) ambig
find_abbreviation long_only name (p ∷ ps) i (some (q, j)) ambig =
    find_abbreviation long_only name ps (i + 1) (some (q, j))
      (ambig || (has_prefix name p.name && differs long_only q p))

abbrev pub print : Bool → Message → GetoptData → GetoptData
print print_errors msg d = record d {
  messages = if print_errors then d.messages ++ msg ∷ [] else d.messages;
}

-- `*longind = option_index` and the value to return.
unfoldable pub finish_long : LongOption → ℕ → GetoptData → Flow
finish_long p i d = elim p.flag [
  | none ↦ ret p.val (record d { longind = some i })
  | some v ↦ ret (pos 0) (record d { longind = some i; flags = (v, p.val) ∷ d.flags })
]

-- "We have found a matching long option. Consume it."
unfoldable pub consume_long : Str → Bool → LongOption → ℕ → Str → GetoptData → Flow
unfolding finish_long
consume_long optstring print_errors p i [] d =
    let d' = record d { optind = d.optind + 1; nextchar = none } in
    let missing = print print_errors (argument_missing p.name) (record d' { optopt = p.val }) in
    if p.has_arg == 1
    then (if ltb d'.optind (length d.argv)
        then (elim (get_elem? d.argv d'.optind) [
          | none ↦ fault
          | some arg ↦ finish_long p i (record d' { optarg = some arg; optind = d'.optind + 1 })
        ])
        else ret (pos (if char_at optstring 0 == b':' then b':' else b'?')) missing)
    else finish_long p i d'
consume_long optstring print_errors p i (eq ∷ value) d =
    let d' = record d { optind = d.optind + 1; nextchar = none } in
    if p.has_arg == 0
    then ret (pos b'?')
        (print print_errors (no_argument_allowed p.name) (record d' { optopt = p.val }))
    else finish_long p i (record d' { optarg = some value })

-- "Can't find it as a long option": an error, or the value -1 with the state as it was.
unfoldable pub not_long : Str → Bool → Bool → Str → GetoptData → Flow
not_long optstring long_only print_errors text d =
    let err = ret (pos b'?') (
      print print_errors (unrecognized text)
        (record d { nextchar = none; optind = d.optind + 1; optopt = pos 0 })) in
    if not long_only then err else (elim (get_elem? d.argv d.optind) [
      | none ↦ fault
      | some arg ↦
          if (char_at arg 1 == b'-') || is_none (strchr optstring (char_at text 0))
          then err
          else ret (negsuc 0) d
    ])

-- `text` is what `d->__nextchar` points to.
unfoldable pub process_long_option : Str → List LongOption → Bool → Bool → Str → GetoptData → Flow
process_long_option optstring longopts long_only print_errors text d =
    let (name, rest) = split_name text in
    elim (find_exact name longopts 0) [
      | some (p, i) ↦ consume_long optstring print_errors p i rest d
      | none ↦
          let (found, ambig) = find_abbreviation long_only name longopts 0 none false in
          if ambig
          then ret (pos b'?') (
              print print_errors (ambiguous text)
                (record d { nextchar = some []; optind = d.optind + 1; optopt = pos 0 }))
          else (elim found [
            | none ↦ not_long optstring long_only print_errors text d
            | some (p, i) ↦ consume_long optstring print_errors p i rest d
          ])
    ]
