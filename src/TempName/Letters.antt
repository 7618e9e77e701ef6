-- ===== src/TempName/Letters.antt =====
-- try_tempname_len.h: random letters in the place of the Xs, until a name is taken.
use Prim.Native.Nat.{bit_xor}
use yalibct.Base.{
  ℕ, zero, suc, ◌+◌, ◌-◌, ◌*◌, ◌/◌, ◌%◌, ◌^◌, Bool, true, false, ◌&&◌, ◌||◌, List, [], ◌∷◌, Option,
  none, some, ltb, leb, ◌==◌, drop, set, if◌then◌else◌,
}

-- What the calls from a given number on give: `getrandom` a value or none, the parts of the time, and
-- `clock`.
pub record Entropy : Type 0 where
  pub getrandom : ℕ → Option ℕ
  pub tv_sec : ℕ → ℕ
  pub tv_nsec : ℕ → ℕ
  pub clock : ℕ → ℕ

unfoldable pub mix_random_values : ℕ → ℕ → ℕ
mix_random_values r s = bit_xor ((2862933555777941757 * r + 3037000493) % 2 ^ 64) s

-- Whether the value is of high quality, and the value, in the call of a number.
unfoldable pub random_bits : Entropy → ℕ → ℕ → Bool × ℕ
random_bits e i s = elim (e.getrandom i) [
  | some r ↦ (true, r)
  | none ↦ (
    false,
    mix_random_values (mix_random_values (mix_random_values s (e.tv_sec i)) (e.tv_nsec i))
        (e.clock i),
  )
]

abbrev pub base_62_digits : ℕ
base_62_digits = 10

abbrev pub biased_min : ℕ
biased_min = 2 ^ 64 - 1 - (2 ^ 64 - 1) % 62 ^ 10

abbrev pub attempts_min : ℕ
attempts_min = 62 * 62 * 62

-- "abcdefghijklmnopqrstuvwxyzABCDEFGHIJKLMNOPQRSTUVWXYZ0123456789", by the index
unfoldable pub letters : ℕ → ℕ
letters i = if ltb i 26 then 97 + i else if ltb i 52 then 65 + (i - 26) else 48 + (i - 52)

-- `v`, `vdigbuf` and `vdigits`, with the number of the next call of `random_bits`.
pub record Digits : Type 0 where
  pub v : ℕ
  pub vdigbuf : ℕ
  pub vdigits : ℕ
  pub calls : ℕ

-- The loop for a value, with as much fuel as there may be calls.
unfoldable pub draw : Entropy → ℕ → ℕ → ℕ → Option (ℕ × ℕ)
draw e zero i v = none
draw e (suc fuel) i v =
    let (good, v') = random_bits e i v in
    let again = draw e fuel (suc i) v' in
    if good && leb biased_min v' then again else some (v', suc i)

-- The part for `vdigits == 0`.
unfoldable pub refill : Entropy → ℕ → Digits → Option Digits
refill e fuel d =
    let fresh : Option Digits = elim (draw e fuel d.calls d.v) [
      | none ↦ none
      | some (v', calls') ↦
          some (record { v = v'; vdigbuf = v'; vdigits = base_62_digits; calls = calls' })
    ] in
    if d.vdigits == 0 then fresh else some d

-- The loop over the Xs: `n` of them are left, from index `i` of the array on.
unfoldable pub fill_xs : Entropy → ℕ → ℕ → ℕ → List ℕ → Digits → Option (List ℕ × Digits)
fill_xs e fuel zero i tmpl d = some (tmpl, d)
fill_xs e fuel (suc n) i tmpl d = elim (refill e fuel d) [
  | none ↦ none
  | some d' ↦
      fill_xs e fuel n (suc i) (set tmpl i (letters (d'.vdigbuf % 62)))
        (record d' { vdigbuf = d'.vdigbuf / 62; vdigits = d'.vdigits - 1 })
]

-- What `tryfunc` gives: a descriptor, or -1 and `errno`.
pub data Tried : Type 0 where
  opened : ℕ → Tried
  refused : ℕ → Tried

-- What is returned, with `errno` and the array: a descriptor or -1. `spins` is the end of the fuel.
pub data Outcome : Type 0 where
  named : ℕ → ℕ → List ℕ → Outcome
  unnamed : ℕ → List ℕ → Outcome
  spins : Outcome

pub record Errors : Type 0 where
  pub enoent : ℕ
  pub einval : ℕ
  pub eexist : ℕ
  pub eoverflow : ℕ

-- The loop over the attempts, of which `k` are left: `tryfunc` in the attempt of a number.
module _ (e : Entropy) (errors : Errors) (fuel : ℕ) (tryfunc : ℕ → List ℕ → Tried)
    (save_errno x_suffix_len : ℕ) where
  unfoldable pub try_names : ℕ → ℕ → ℕ → List ℕ → Digits → Outcome
  try_names zero count start tmpl d = unnamed errors.eexist tmpl
  try_names (suc k) count start tmpl d = elim (fill_xs e fuel x_suffix_len start tmpl d) [
    | none ↦ spins
    | some (tmpl', d') ↦ elim (tryfunc count tmpl') [
      | opened fd ↦ named fd save_errno tmpl'
      | refused errno ↦
          let next = try_names k (suc count) start tmpl' d' in
          if errno == errors.eexist then next else unnamed errno tmpl'
    ]
  ]

unfoldable pub strlen : List ℕ → ℕ
strlen [] = 0
strlen (c ∷ cs) = let rest = strlen cs in if c == 0 then 0 else suc rest

-- `strspn (s, "X")`
unfoldable pub span_x : List ℕ → ℕ
span_x [] = 0
span_x (c ∷ cs) = let rest = span_x cs in if c == 88 then suc rest else 0

-- The length of the suffix is not negative.
unfoldable pub try_tempname_len :
    Entropy → Errors → ℕ → ℕ → ℕ → List ℕ → ℕ → (ℕ → List ℕ → Tried) → ℕ → Outcome
try_tempname_len e errors fuel tmp_max save_errno tmpl suffixlen tryfunc x_suffix_len =
    let attempts = if ltb attempts_min tmp_max then tmp_max else attempts_min in
    let len = strlen tmpl in
    let start = len - x_suffix_len - suffixlen in
    if ltb len (x_suffix_len + suffixlen) || ltb (span_x (drop start tmpl)) x_suffix_len
    then unnamed errors.einval tmpl
    else try_names e errors fuel tryfunc save_errno x_suffix_len attempts 0 start tmpl
        (record { v = 0; vdigbuf = 0; vdigits = 0; calls = 0 })

-- `try_nocreate`, for what `lstat` gives: a status, or `errno`
unfoldable pub try_nocreate : Errors → Option ℕ → Tried
try_nocreate errors none =
    if errors.eexist == errors.enoent then opened 0 else refused errors.eexist
try_nocreate errors (some errno) =
    let errno' = if errno == errors.eoverflow then errors.eexist else errno in
    if errno' == errors.enoent then opened 0 else refused errno'
