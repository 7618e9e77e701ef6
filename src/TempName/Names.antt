-- ===== src/TempName/Names.antt =====
-- gen_tempname_len.h, gen_tempname.h and tmpnam.h, which compose the templates with the random letters.
use yalibct.Base.{
  ℕ, zero, suc, ◌+◌, ◌-◌, ◌≤◌, ◌≡◌, refl, subst, sym, inl, inr, Bool, true, false, ◌&&◌, ◌||◌, not,
  List, [], ◌∷◌, ◌++◌, Option, none, ltb, ◌==◌, drop, length, replicate, length-replicate,
  if◌then◌else◌, arith, Bool-cases,
}
use yalibct.TempName.Search.{Env, Search, found, failed, fault, path_search}
use yalibct.TempName.Letters.{
  Entropy, Digits, Tried, Outcome, named, unnamed, spins, Errors, try_names, strlen, span_x,
  attempts_min, try_tempname_len, try_nocreate,
}
use yalibct.TempName.Drawn.{drawn, spent}
use yalibct.TempName.Filling.{IsFair, AllExist, try_names-Settled, Settled}

-- GT_FILE, GT_DIR and GT_NOCREATE
pub data Kind : Type 0 where
  gt_file : Kind
  gt_dir : Kind
  gt_nocreate : Kind

-- What the system answers in the attempt of a number: `open` of a new file with the flags that `try_file`
-- adds its own to, `mkdir`, and `lstat`, which gives a status or `errno`.
pub record Files : Type 0 where
  pub try_file : ℕ → ℕ → List ℕ → Tried
  pub try_dir : ℕ → List ℕ → Tried
  pub lstat : ℕ → List ℕ → Option ℕ

pub record System : Type 0 where
  pub env : Env
  pub files : Files
  pub entropy : Entropy
  pub errors : Errors
  pub fuel : ℕ
  pub tmp_max : ℕ
  pub errno : ℕ

unfoldable pub tryfunc : System → ℕ → Kind → ℕ → List ℕ → Tried
tryfunc s flags gt_file i tmpl = s.files.try_file flags i tmpl
tryfunc s flags gt_dir i tmpl = s.files.try_dir i tmpl
tryfunc s flags gt_nocreate i tmpl = try_nocreate s.errors (s.files.lstat i tmpl)

unfoldable pub gen_tempname_len : System → List ℕ → ℕ → ℕ → Kind → ℕ → Outcome
gen_tempname_len s tmpl suffixlen flags kind x_suffix_len =
    try_tempname_len s.entropy s.errors s.fuel s.tmp_max s.errno tmpl suffixlen
      (tryfunc s flags kind) x_suffix_len

unfoldable pub gen_tempname : System → List ℕ → ℕ → ℕ → Kind → Outcome
gen_tempname s tmpl suffixlen flags kind = gen_tempname_len s tmpl suffixlen flags kind 6

-- A null pointer, or the array that is returned. `stuck` is a write outside the array or a loop that does
-- not end.
pub data Answer : Type 0 where
  null : Answer
  name : List ℕ → Answer
  stuck : Answer

unfoldable pub returned : Outcome → Answer
returned spins = stuck
returned (unnamed e t) = null
returned (named fd e t) = if fd == 0 then name t else null

unfoldable pub name_from : System → Search → Answer
name_from s (failed e) = null
name_from s fault = stuck
name_from s (found tmpl) = returned (gen_tempname s tmpl 0 0 gt_nocreate)

-- The array is that of the caller or of the function, with what it holds before.
unfoldable pub tmpnam : System → List ℕ → Answer
tmpnam s tmpbuf = name_from s (path_search s.env tmpbuf (length tmpbuf) none none false)

-- A string without a NUL.
unfoldable pub is_string : List ℕ → Bool
is_string [] = true
is_string (c ∷ cs) = not (c == 0) && is_string cs

pub is_string-append :
    (s t : List ℕ) → is_string s ≡ true → is_string t ≡ true → is_string (s ++ t) ≡ true
unfolding is_string
is_string-append [] t h k = k
is_string-append (c ∷ cs) t h k = ground (arith, h, is_string-append cs t (ground (arith, h)) k)

strlen-append : (s rest : List ℕ) → is_string s ≡ true → strlen (s ++ rest) ≡ length s + strlen rest
unfolding strlen is_string
strlen-append [] rest h = omega arith
strlen-append (c ∷ cs) rest h = elim (Bool-cases (c == 0)) [
  | inl nul ↦ absurd (ground (arith, h, nul))
  | inr char ↦ rw char (omega (arith, strlen-append cs rest (ground (arith, h, char))))
]

strlen-nul : (rest : List ℕ) → strlen (0 ∷ rest) ≡ 0
unfolding strlen
strlen-nul rest = refl

replicate-is_string : (x : ℕ) → is_string (replicate x 88) ≡ true
unfolding is_string
replicate-is_string zero = refl
replicate-is_string (suc x) = replicate-is_string x

span_x-replicate : (x : ℕ) (rest : List ℕ) → x ≤ span_x (replicate x 88 ++ rest)
unfolding span_x
span_x-replicate zero rest = omega arith
span_x-replicate (suc x) rest = omega (arith, span_x-replicate x rest)

drop-append : (xs ys : List ℕ) (k : ℕ) → k ≡ length xs → drop k (xs ++ ys) ≡ ys
drop-append [] ys zero e = refl
drop-append [] ys (suc k) e = absurd (omega (arith, e))
drop-append (x ∷ xs) ys zero e = absurd (omega (arith, e))
drop-append (x ∷ xs) ys (suc k) e = drop-append xs ys k (omega (arith, e))

-- The number of attempts.
abbrev pub attempts : ℕ → ℕ
attempts tmp_max = if ltb attempts_min tmp_max then tmp_max else attempts_min

abbrev fresh : Digits
fresh = record { v = 0; vdigbuf = 0; vdigits = 0; calls = 0 }

module _ (e : Entropy) (errors : Errors) (fuel tmp_max save_errno : ℕ) (fair : IsFair e fuel)
    (try_ : ℕ → List ℕ → Tried) (h sfx rest : List ℕ) (x : ℕ) (h_ok : is_string h ≡ true)
    (sfx_ok : is_string sfx ≡ true) where
  array : List ℕ
  array = h ++ (replicate x 88 ++ (sfx ++ 0 ∷ rest))

  len : strlen array ≡ length h + x + length sfx
  unfolding array
  len = omega (
    arith,
    strlen-append h (replicate x 88 ++ (sfx ++ 0 ∷ rest)) h_ok,
    strlen-append (replicate x 88) (sfx ++ 0 ∷ rest) (replicate-is_string x),
    strlen-append sfx (0 ∷ rest) sfx_ok,
    strlen-nul rest,
    length-replicate {A = ℕ} x 88,
  )

  start : strlen array - x - length sfx ≡ length h
  start = omega (arith, len)

  accepts :
      (ltb (strlen array) (x + length sfx)
        || ltb (span_x (drop (strlen array - x - length sfx) array)) x)
      ≡ false
  unfolding array
  accepts = ground (arith, len, spans)
    where
      spans : x ≤ span_x (drop (strlen array - x - length sfx) array)
      spans =
          subst (λ l. x ≤ span_x l)
            (sym (
              drop-append h (replicate x 88 ++ (sfx ++ 0 ∷ rest)) (strlen array - x - length sfx)
                start))
            (span_x-replicate x (sfx ++ 0 ∷ rest))

  settles :
      Settled e fuel errors try_ save_errno x h
        (sfx ++ 0 ∷ rest)
        (attempts tmp_max)
        (try_names e errors fuel try_ save_errno x (attempts tmp_max) 0 (length h) array fresh)
  unfolding array AllExist drawn
  settles =
      subst
        (λ n.
          Settled e fuel errors try_ save_errno x h (sfx ++ 0 ∷ rest) n
            (try_names e errors fuel try_ save_errno x (attempts tmp_max) 0 (length h) array fresh))
        (none_before (attempts tmp_max))
        (try_names-Settled e fuel fair errors try_ save_errno x h (sfx ++ 0 ∷ rest)
          (attempts tmp_max) 0 (replicate x 88) fresh (length-replicate {A = ℕ} x 88)
          (spent 0 (omega arith) refl refl) (λ i lt. absurd (omega (arith, lt))))
    where
      none_before : (n : ℕ) → 0 + n ≡ n
      none_before n = omega arith

  -- Let an array hold a string, then Xs as many as are asked for, a suffix of the given length and a NUL,
  -- and let the random numbers be fair. Then try_tempname_len ends. The name of each attempt has in the
  -- place of the Xs the next digits to the base 62, as letters, of the values that were drawn, and is else
  -- as the array was. If all of as many names as there are attempts exist, it fails with EEXIST. Otherwise
  -- the first name that does not exist is in the array, and the call succeeds with that name's descriptor
  -- and with `errno` as before, or fails with that name's error.
  pub try_tempname_len-Settled :
      Settled e fuel errors try_ save_errno x h (sfx ++ 0 ∷ rest) (attempts tmp_max) (
        try_tempname_len e errors fuel tmp_max save_errno
          (h ++ (replicate x 88 ++ (sfx ++ 0 ∷ rest)))
          (length sfx)
          try_
          x)
  unfolding try_tempname_len array
  try_tempname_len-Settled =
      rw (try_tempname_len, accepts)
        (subst
          (λ i.
            Settled e fuel errors try_ save_errno x h (sfx ++ 0 ∷ rest) (attempts tmp_max)
              (try_names e errors fuel try_ save_errno x (attempts tmp_max) 0 i array fresh))
          (sym start) settles)
