-- ===== src/TempName/Tests.antt =====
-- Runs of path_search, and its theorem at concrete arrays.
use native.Mathlib.Omega.{arith}
use yalibct.Base.{
  ℕ, ◌≡◌, refl, true, false, List, [], ◌∷◌, Option, none, some, length, replicate, ◌++◌, ap, subst,
  ◌+◌, ◌<◌, ◌^◌,
}
use yalibct.TempName.Search.{
  Env, found, failed, path_search, same_string, slash_tmp, file, xs, prefix, dir_or_default,
  dir_or_tmpdir, fill_template, is_slash,
}
use yalibct.TempName.Buffer.{write_at}
use yalibct.TempName.Chosen.{directory, first_existing}
use yalibct.TempName.Filled.{path_search_lem, expected}

-- Only "/tmp" exists, and TMPDIR is "/t/".
abbrev system : Env
system = record {
  tmpdir = some (47 ∷ 116 ∷ 47 ∷ []);
  direxists = λ d. same_string d slash_tmp;
  p_tmpdir = slash_tmp;
  enoent = 2;
  einval = 22;
}

abbrev array : List ℕ
array = replicate 20 1

-- "/tmp/fileXXXXXX", where the argument does not exist.
path_search_falls_back :
    path_search system array 20 (some (47 ∷ 116 ∷ 47 ∷ [])) none true
    ≡ found (slash_tmp ++ (47 ∷ file) ++ xs ++ (0 ∷ 1 ∷ 1 ∷ 1 ∷ 1 ∷ []))
unfolding path_search dir_or_default dir_or_tmpdir same_string fill_template is_slash prefix
    write_at
path_search_falls_back = refl

-- "/t/abcdeXXXXXX", where it is not looked up.
path_search_keeps :
    path_search system array 20
      (some (47 ∷ 116 ∷ 47 ∷ []))
      (some (97 ∷ 98 ∷ 99 ∷ 100 ∷ 101 ∷ 102 ∷ []))
      false
    ≡ found ((47 ∷ 116 ∷ 47 ∷ 97 ∷ 98 ∷ 99 ∷ 100 ∷ 101 ∷ []) ++ xs ++ (0 ∷ 1 ∷ 1 ∷ 1 ∷ 1 ∷ 1 ∷ []))
unfolding path_search dir_or_default dir_or_tmpdir same_string fill_template is_slash prefix
    write_at
path_search_keeps = refl

path_search_too_small : path_search system array 15 none none false ≡ failed 22
unfolding path_search dir_or_default dir_or_tmpdir same_string fill_template is_slash prefix
    write_at
path_search_too_small = refl

directory_short : (d : List ℕ) → directory system none true ≡ some d → length d + 13 < 2 ^ 64
unfolding directory first_existing same_string
directory_short d e = subst (λ l. l + 13 < 2 ^ 64) (ap (λ o. length_or o) e) (omega arith)
  where
    length_or : Option (List ℕ) → ℕ
    length_or none = 0
    length_or (some l) = length l

path_search_lem_example :
    path_search system array 20 none none true
    ≡ expected system array (directory system none true) none
path_search_lem_example = path_search_lem system array none none true directory_short
