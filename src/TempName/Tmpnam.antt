-- ===== src/TempName/Tmpnam.antt =====
-- What tmpnam.h returns.
use yalibct.Base.{
  ℕ, ◌+◌, ◌-◌, ◌<◌, ◌≡◌, ◌≢◌, ◌^◌, refl, subst, sym, ◌⊎◌, inl, inr, true, false, ◌&&◌, not, List,
  [], ◌∷◌, ◌++◌, append_assoc, Option, none, some, leb, ◌==◌, ==_iff, drop, length, get_or,
  if◌then◌else◌, arith, Bool-cases, Option-cases,
}
use yalibct.TempName.Search.{Env, found, failed, file, xs, is_slash, slash_tmp}
use yalibct.TempName.Chosen.{directory, first_existing, template, short}
use yalibct.TempName.Filled.{expected, filled, path_search_lem}
use yalibct.TempName.Letters.{opened, refused, Errors, try_nocreate, Outcome, named, unnamed, spins}
use yalibct.TempName.Drawn.{all_letters, letters_of, length-letters_of, letters_of-all_letters}
use yalibct.TempName.Filling.{IsFair, AllExist, Settled}
use yalibct.TempName.Names.{
  returned, name_from, System, Answer, null, name, stuck, tmpnam, gen_tempname, gen_tempname_len,
  gt_nocreate, tryfunc, is_string, is_string-append, attempts, try_tempname_len-Settled,
}

-- What is in front of the Xs.
unfoldable pub stem : List ℕ → List ℕ
stem d =
    d
    ++ (if not (length d == 0) && not (is_slash (get_or d (length d - 1) 0)) then 47 ∷ [] else [])
    ++ file

try_nocreate-opened :
    (errors : Errors) (status : Option ℕ) (fd : ℕ)
    → errors.eexist ≢ errors.enoent
    → try_nocreate errors status ≡ opened fd
    → (fd ≡ 0) × (status ≡ some errors.enoent)
unfolding try_nocreate
try_nocreate-opened errors none fd apart h = ground (arith, apart, h)
try_nocreate-opened errors (some e) fd apart h = ground (arith, apart, h)

stem-is_string : (d : List ℕ) → is_string d ≡ true → is_string (stem d) ≡ true
unfolding stem is_string
stem-is_string d h =
    elim (Bool-cases (not (length d == 0) && not (is_slash (get_or d (length d - 1) 0)))) [
      | inl add ↦
          rw (stem, add)
            (is_string-append (d ++ 47 ∷ []) file (is_string-append d (47 ∷ []) h refl) refl)
      | inr no_slash ↦
          rw (stem, no_slash) (is_string-append (d ++ []) file (is_string-append d [] h refl) refl)
    ]

module _ (s : System) where
  -- The first of P_tmpdir and /tmp that exists, and what is behind the template in the array.
  abbrev Chosen : List ℕ → Type 0
  Chosen d = directory s.env none false ≡ some d

  abbrev behind : List ℕ → List ℕ → List ℕ
  behind buffer d = 0 ∷ drop (length (template d none) + 1) buffer

  -- The name of an attempt: six letters of the random numbers behind "file".
  abbrev pub candidate : List ℕ → List ℕ → ℕ → List ℕ
  candidate buffer d i = stem d ++ (letters_of s.entropy s.fuel 6 i ++ behind buffer d)

  -- The candidates of the first attempts exist.
  abbrev pub EarlierExist : List ℕ → List ℕ → ℕ → Type 0
  EarlierExist buffer d k =
      (i : ℕ) → i < k → tryfunc s 0 gt_nocreate i (candidate buffer d i) ≡ refused s.errors.eexist

  -- The name of the first attempt that does not meet one that exists, for which `lstat` gave ENOENT; or the
  -- template fails, or all of the attempts met names that exist, or that first attempt met another error.
  unfoldable pub IsAnswer : List ℕ → Answer → Type 0
  IsAnswer buffer stuck = ⊥
  IsAnswer buffer null =
      ((errno : ℕ) × (expected s.env buffer (directory s.env none false) none ≡ failed errno))
      ⊎ ((d : List ℕ) × Chosen d
          × (EarlierExist buffer d (attempts s.tmp_max)
              ⊎ ((i errno : ℕ) × (i < attempts s.tmp_max)
                  × (tryfunc s 0 gt_nocreate i (candidate buffer d i) ≡ refused errno)
                  × (errno ≢ s.errors.eexist)
                  × EarlierExist buffer d i)))
  IsAnswer buffer (name t) =
      (d : List ℕ) × Chosen d
      × (i : ℕ) × (i < attempts s.tmp_max)
      × (t ≡ candidate buffer d i)
      × (length (letters_of s.entropy s.fuel 6 i) ≡ 6)
      × (all_letters (letters_of s.entropy s.fuel 6 i) ≡ true)
      × (s.files.lstat i (candidate buffer d i) ≡ some s.errors.enoent)
      × EarlierExist buffer d i

  module _ (fair : IsFair s.entropy s.fuel) (apart : s.errors.eexist ≢ s.errors.enoent)
      (buffer d : List ℕ) (there : directory s.env none false ≡ some d)
      (ok : is_string d ≡ true) where
    returned-IsAnswer :
        (o : Outcome)
        → Settled s.entropy s.fuel s.errors
            (tryfunc s 0 gt_nocreate)
            s.errno
            6
            (stem d)
            (behind buffer d)
            (attempts s.tmp_max)
            o
        → IsAnswer buffer (returned o)
    unfolding returned IsAnswer Settled AllExist tryfunc
    returned-IsAnswer spins z = elim z [ ]
    returned-IsAnswer (unnamed e t) (inl (same, all)) = inr (d, there, inl all)
    returned-IsAnswer (unnamed e t) (inr (i, lt, form, not_taken, other, all)) =
        inr (d, there, inr (i, e, lt, not_taken, other, all))
    returned-IsAnswer (named fd e t) (same, i, lt, form, taken, all) =
        let (zero_, absent) =
          try_nocreate-opened s.errors (s.files.lstat i (candidate buffer d i)) fd apart taken in
        rw ((==_iff fd 0).1 zero_) (
          d,
          there,
          i,
          lt,
          form,
          length-letters_of s.entropy s.fuel 6 i,
          letters_of-all_letters s.entropy s.fuel 6 i,
          absent,
          all,
        )

    found-IsAnswer : IsAnswer buffer (name_from s (found (template d none ++ behind buffer d)))
    unfolding name_from template short gen_tempname gen_tempname_len stem is_string
    found-IsAnswer =
        subst (λ l. IsAnswer buffer (returned (gen_tempname s l 0 0 gt_nocreate)))
          (sym (append_assoc (stem d) xs (behind buffer d)))
          (returned-IsAnswer _ (
            try_tempname_len-Settled s.entropy s.errors s.fuel s.tmp_max s.errno fair
              (tryfunc s 0 gt_nocreate) (stem d) [] (drop (length (template d none) + 1) buffer) 6
              (stem-is_string d ok) refl))

directory-default :
    (env : Env) (d : List ℕ)
    → directory env none false ≡ some d
    → (d ≡ env.p_tmpdir) ⊎ (d ≡ slash_tmp)
unfolding directory first_existing
directory-default env d h = ground (arith, h)

-- Let the random numbers be fair, P_tmpdir a string that is not so long that a sum of lengths wraps
-- around, and EEXIST another number than ENOENT. Then tmpnam ends and writes nothing outside its array. The
-- candidate of each attempt is in the first of P_tmpdir and /tmp that exists, and is "file" with six letters
-- and digits behind it, the next digits to the base 62 of the random numbers. If a candidate is returned,
-- `lstat` gave ENOENT for it in its attempt, and all candidates before it exist. A null pointer is returned
-- only where there is no such directory or no room, where the candidates of all attempts exist, or where
-- the first candidate that does not exist met another error.
pub tmpnam_lem :
    (s : System) (buffer : List ℕ)
    → IsFair s.entropy s.fuel
    → s.errors.eexist ≢ s.errors.enoent
    → is_string s.env.p_tmpdir ≡ true
    → length s.env.p_tmpdir + 13 < 2 ^ 64
    → IsAnswer s buffer (tmpnam s buffer)
unfolding tmpnam is_string expected filled IsAnswer name_from
tmpnam_lem s buffer fair apart ok wide =
    subst (λ r. IsAnswer s buffer (name_from s r))
      (sym (path_search_lem s.env buffer none none false bounded))
      (elim (Option-cases (directory s.env none false)) [
        | inl gone ↦ fails s.env.enoent (rw gone refl)
        | inr (d, there) ↦ elim (Bool-cases (leb (length (template d none) + 1) (length buffer))) [
          | inl room ↦
              subst (λ r. IsAnswer s buffer (name_from s r)) (sym (holds d there room))
                (found-IsAnswer s fair apart buffer d there (string d there))
          | inr small ↦ fails s.env.einval (rw (there, small) refl)
        ]
      ])
  where
    bounded : (d : List ℕ) → directory s.env none false ≡ some d → length d + 13 < 2 ^ 64
    bounded d there = elim (directory-default s.env d there) [
      | inl e ↦ subst (λ l. length l + 13 < 2 ^ 64) (sym e) wide
      | inr e ↦ subst (λ l. length l + 13 < 2 ^ 64) (sym e) (omega arith)
    ]

    string : (d : List ℕ) → directory s.env none false ≡ some d → is_string d ≡ true
    string d there = elim (directory-default s.env d there) [
      | inl e ↦ subst (λ l. is_string l ≡ true) (sym e) ok
      | inr e ↦ subst (λ l. is_string l ≡ true) (sym e) refl
    ]

    fails :
        (errno : ℕ)
        → expected s.env buffer (directory s.env none false) none ≡ failed errno
        → IsAnswer s buffer (name_from s (expected s.env buffer (directory s.env none false) none))
    fails errno e = subst (λ r. IsAnswer s buffer (name_from s r)) (sym e) (inl (errno, e))

    holds :
        (d : List ℕ)
        → directory s.env none false ≡ some d
        → leb (length (template d none) + 1) (length buffer) ≡ true
        → expected s.env buffer (directory s.env none false) none
          ≡ found (template d none ++ 0 ∷ drop (length (template d none) + 1) buffer)
    holds d there room = rw (there, room) refl
