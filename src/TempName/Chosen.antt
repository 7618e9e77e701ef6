-- ===== src/TempName/Chosen.antt =====
-- What path_search.h writes and where it fails. The order of the directories is that of the code; the comment
-- of path_search.h puts DIR before TMPDIR, and has a DIR that does not exist fail.
use yalibct.Base.{
  ℕ, ◌-◌, ◌≡◌, refl, Bool, true, false, not, ◌&&◌, List, [], ◌∷◌, ◌++◌, Option, none, some, ◌==◌,
  length, get_or, take, if◌then◌else◌, arith, ap₂, subst, Bool-cases, Option-cases, inl, inr,
}
use yalibct.TempName.Search.{
  Env, slash_tmp, file, xs, is_slash, same_string, dir_or_tmpdir, dir_or_default,
}

-- The first string of a list that is an existing directory.
unfoldable pub first_existing : Env → List (Option (List ℕ)) → Option (List ℕ)
first_existing env [] = none
first_existing env (none ∷ ds) = first_existing env ds
first_existing env (some d ∷ ds) = if env.direxists d then some d else first_existing env ds

-- The directory that the code takes: with `try_tmpdir` the first of TMPDIR, the argument, P_tmpdir and /tmp that exists, and
-- without it the argument, whether it exists or not, or else the first of the other two.
unfoldable pub directory : Env → Option (List ℕ) → Bool → Option (List ℕ)
directory env dir true =
    first_existing env (env.tmpdir ∷ dir ∷ some env.p_tmpdir ∷ some slash_tmp ∷ [])
directory env (some d) false = some d
directory env none false = first_existing env (some env.p_tmpdir ∷ some slash_tmp ∷ [])

-- The prefix: "file", or at most five characters of one that is not empty.
unfoldable pub short : Option (List ℕ) → List ℕ
short none = file
short (some []) = file
short (some (c ∷ cs)) = take 5 (c ∷ cs)

-- "${dir}/${pfx}XXXXXX", with no second slash.
unfoldable pub template : List ℕ → Option (List ℕ) → List ℕ
template dir pfx =
    dir
    ++ (if not (length dir == 0) && not (is_slash (get_or dir (length dir - 1) 0))
        then 47 ∷ []
        else [])
    ++ short pfx
    ++ xs

same_string-eq : (a b : List ℕ) → same_string a b ≡ true → a ≡ b
unfolding same_string
same_string-eq [] [] h = refl
same_string-eq [] (b ∷ bs) h = ground (arith, h)
same_string-eq (a ∷ as_) [] h = ground (arith, h)
same_string-eq (a ∷ as_) (b ∷ bs) h =
    ap₂ ◌∷◌ (ground (arith, h)) (same_string-eq as_ bs (ground (arith, h)))

module _ (env : Env) where
  default_directory :
      dir_or_default env none ≡ first_existing env (some env.p_tmpdir ∷ some slash_tmp ∷ [])
  unfolding dir_or_default first_existing
  default_directory = elim (Bool-cases (env.direxists env.p_tmpdir)) [
    | inl there ↦ rw (dir_or_default, first_existing, there) refl
    | inr gone ↦ elim (Bool-cases (same_string env.p_tmpdir slash_tmp)) [
      | inl same ↦
          let also = subst (λ d. env.direxists d ≡ false) (same_string-eq _ _ same) gone in
          rw (dir_or_default, first_existing, gone, same, first_existing, also) refl
      | inr other ↦ elim (Bool-cases (env.direxists slash_tmp)) [
        | inl there ↦ rw (dir_or_default, first_existing, gone, other, first_existing, there) refl
        | inr none_ ↦ rw (dir_or_default, first_existing, gone, other, first_existing, none_) refl
      ]
    ]
  ]

  given_directory :
      (dir : Option (List ℕ))
      → dir_or_default env
          (elim dir [ none ↦ none | some d ↦ if env.direxists d then some d else none ])
        ≡ first_existing env (dir ∷ some env.p_tmpdir ∷ some slash_tmp ∷ [])
  unfolding first_existing dir_or_default
  given_directory none = default_directory
  given_directory (some d) = elim (Bool-cases (env.direxists d)) [
    | inl there ↦ rw (first_existing, there) refl
    | inr gone ↦ rw (gone) default_directory
  ]

  pub directory-chosen :
      (dir : Option (List ℕ)) (try_tmpdir : Bool)
      → dir_or_default env (if try_tmpdir then dir_or_tmpdir env dir else dir)
        ≡ directory env dir try_tmpdir
  unfolding dir_or_default directory dir_or_tmpdir first_existing
  directory-chosen none false = default_directory
  directory-chosen (some d) false = refl
  directory-chosen dir true = elim (Option-cases env.tmpdir) [
    | inl unset ↦ rw (unset) (given_directory dir)
    | inr (t, set_) ↦ elim (Bool-cases (env.direxists t)) [
      | inl there ↦ rw (set_, there) refl
      | inr gone ↦ rw (set_, gone) (given_directory dir)
    ]
  ]
