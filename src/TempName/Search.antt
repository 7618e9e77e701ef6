-- ===== src/TempName/Search.antt =====
-- path_search.h
use yalibct.Base.{
  ℕ, ◌+◌, ◌-◌, ◌%◌, ◌^◌, Bool, true, false, not, ◌&&◌, List, [], ◌∷◌, ◌++◌, Option, none, some, ltb,
  ◌==◌, length, get_or, take, if◌then◌else◌,
}
use yalibct.TempName.Buffer.{write_at}

-- What is returned: 0 and the template array, or -1 and `errno`. `fault` is a write outside the array.
pub data Search : Type 0 where
  found : List ℕ → Search
  failed : ℕ → Search
  fault : Search

-- The value of TMPDIR that `secure_getenv` gives, the directories that exist, P_tmpdir, and the numbers of
-- the errors. A string is the list of its bytes, without the NUL.
pub record Env : Type 0 where
  pub tmpdir : Option (List ℕ)
  pub direxists : List ℕ → Bool
  pub p_tmpdir : List ℕ
  pub enoent : ℕ
  pub einval : ℕ

-- "/tmp", "file" and "XXXXXX"
abbrev pub slash_tmp : List ℕ
slash_tmp = 47 ∷ 116 ∷ 109 ∷ 112 ∷ []

abbrev pub file : List ℕ
file = 102 ∷ 105 ∷ 108 ∷ 101 ∷ []

abbrev pub xs : List ℕ
xs = 88 ∷ 88 ∷ 88 ∷ 88 ∷ 88 ∷ 88 ∷ []

unfoldable pub is_slash : ℕ → Bool
is_slash c = c == 47

-- Whether `strcmp` gives 0.
unfoldable pub same_string : List ℕ → List ℕ → Bool
same_string [] [] = true
same_string [] (b ∷ bs) = false
same_string (a ∷ as_) [] = false
same_string (a ∷ as_) (b ∷ bs) = (a == b) && same_string as_ bs

-- `pfx` and `plen`
unfoldable pub prefix : Option (List ℕ) → List ℕ × ℕ
prefix none = (file, 4)
prefix (some []) = (file, 4)
prefix (some (c ∷ cs)) = let plen = length (c ∷ cs) in (c ∷ cs, if ltb 5 plen then 5 else plen)

-- `dir` after the part under `try_tmpdir`
unfoldable pub dir_or_tmpdir : Env → Option (List ℕ) → Option (List ℕ)
dir_or_tmpdir env dir =
    let given : Option (List ℕ) = elim dir [
      | none ↦ none
      | some d ↦ if env.direxists d then some d else none
    ] in
    elim env.tmpdir [ none ↦ given | some d ↦ if env.direxists d then some d else given ]

-- `dir` after the part for a null pointer, which is `none` if the function has returned there
unfoldable pub dir_or_default : Env → Option (List ℕ) → Option (List ℕ)
dir_or_default env (some d) = some d
dir_or_default env none =
    if env.direxists env.p_tmpdir
    then some env.p_tmpdir
    else if not (same_string env.p_tmpdir slash_tmp) && env.direxists slash_tmp
    then some slash_tmp
    else none

-- The part from `dlen` on. `sprintf` writes a NUL behind its string.
unfoldable pub fill_template : Env → List ℕ → ℕ → List ℕ → List ℕ × ℕ → Search
fill_template env tmpl tmpl_len dir (pfx, plen) =
    let dlen = length dir in
    let add_slash = not (dlen == 0) && not (is_slash (get_or dir (dlen - 1) 0)) in
    let room = (dlen + (if add_slash then 1 else 0) + plen + 6 + 1) % 2 ^ 64 in
    let name = (if add_slash then 47 ∷ [] else []) ++ take plen pfx ++ xs ++ 0 ∷ [] in
    let written : Search = elim (write_at tmpl 0 dir) [
      | none ↦ fault
      | some with_dir ↦ elim (write_at with_dir dlen name) [
        | none ↦ fault
        | some whole ↦ found whole
      ]
    ] in
    if ltb tmpl_len room then failed env.einval else written

-- The array `tmpl` and its length stand for the two arguments.
unfoldable pub path_search : Env → List ℕ → ℕ → Option (List ℕ) → Option (List ℕ) → Bool → Search
path_search env tmpl tmpl_len dir pfx try_tmpdir =
    let dir' = if try_tmpdir then dir_or_tmpdir env dir else dir in
    elim (dir_or_default env dir') [
      | none ↦ failed env.enoent
      | some d ↦ fill_template env tmpl tmpl_len d (prefix pfx)
    ]
