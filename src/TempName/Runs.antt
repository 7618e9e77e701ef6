-- ===== src/TempName/Runs.antt =====
-- Runs of tmpnam, and the theorems on random names at concrete arrays.
use native.Mathlib.Omega.{arith}
use yalibct.Base.{
  ℕ, zero, suc, ◌≡◌, ◌<◌, ◌+◌, ◌-◌, ◌^◌, refl, subst, true, List, [], ◌∷◌, ◌++◌, Option, none, some,
  replicate, ltb→lt,
}
use yalibct.TempName.Buffer.{write_at}
use yalibct.TempName.Search.{
  slash_tmp, file, same_string, path_search, dir_or_default, fill_template, is_slash, prefix,
}
use yalibct.TempName.Letters.{
  Entropy, Errors, Tried, opened, refused, try_tempname_len, strlen, span_x, try_names, fill_xs,
  refill, draw, random_bits, letters, mix_random_values, try_nocreate, biased_min,
}
use yalibct.TempName.Filling.{IsFair, Accepted, Settled}
use yalibct.TempName.Names.{
  System, name, tmpnam, name_from, returned, gen_tempname, gen_tempname_len, tryfunc, is_string,
  attempts, try_tempname_len-Settled,
}
use yalibct.TempName.Tmpnam.{IsAnswer, tmpnam_lem}

-- The first call of `getrandom` gives a value in the last part of its range, the second one fails, and the others
-- give 62 ^ 2.
abbrev draws : ℕ → Option ℕ
draws zero = some (2 ^ 64 - 1)
draws (suc zero) = none
draws (suc (suc n)) = some 3844

abbrev entropy : Entropy
entropy = record { getrandom = draws; tv_sec = λ i. 1; tv_nsec = λ i. 2; clock = λ i. 3 }

below : 3844 < biased_min
below = ltb→lt 3844 biased_min refl

shift : (n : ℕ) → suc (suc n) ≡ suc (suc n) + 0
shift n = omega arith

entropy-IsFair : IsFair entropy 2
unfolding IsFair Accepted
entropy-IsFair zero = (1, omega arith, tt)
entropy-IsFair (suc zero) = (0, omega arith, tt)
entropy-IsFair (suc (suc n)) = (0, omega arith, subst (λ k. Accepted (draws k)) (shift n) below)

abbrev errors : Errors
errors = record { enoent = 2; einval = 22; eexist = 17; eoverflow = 75 }

-- Only "/tmp" exists, and a name is free from the second attempt on.
abbrev system : System
system = record {
  env = record {
    tmpdir = none;
    direxists = λ d. same_string d slash_tmp;
    p_tmpdir = slash_tmp;
    enoent = 2;
    einval = 22;
  };
  files = record {
    try_file = λ f i t. refused 17;
    try_dir = λ i t. refused 17;
    lstat = λ i t. elim i [ zero ↦ none | suc k ↦ some 2 ];
  };
  entropy = entropy;
  errors = errors;
  fuel = 2;
  tmp_max = 0;
  errno = 0;
}

abbrev array : List ℕ
array = replicate 20 1

tmpnam_second_attempt : (t : List ℕ) × (tmpnam system array ≡ name t)
unfolding tmpnam name_from returned path_search dir_or_default same_string fill_template is_slash
    prefix write_at gen_tempname gen_tempname_len try_tempname_len try_names strlen span_x fill_xs
    refill draw random_bits letters mix_random_values tryfunc try_nocreate
tmpnam_second_attempt =
    (slash_tmp ++ (47 ∷ file) ++ (98 ∷ 88 ∷ 112 ∷ 108 ∷ 97 ∷ 97 ∷ 0 ∷ 1 ∷ 1 ∷ 1 ∷ 1 ∷ []), refl)

slash_tmp_string : is_string slash_tmp ≡ true
unfolding is_string
slash_tmp_string = refl

tmpnam_lem_example : IsAnswer system array (tmpnam system array)
tmpnam_lem_example =
    tmpnam_lem system array entropy-IsFair (λ e. omega (arith, e)) slash_tmp_string (omega arith)

-- The second attempt is the first one that does not meet a name that exists.
abbrev second_free : ℕ → List ℕ → Tried
second_free zero t = refused 17
second_free (suc i) t = opened 3

try_tempname_len-Settled_example :
    Settled entropy 2 errors second_free 4 6 slash_tmp ((46 ∷ 99 ∷ []) ++ 0 ∷ []) (attempts 0) (
      try_tempname_len entropy errors 2 0 4
        (slash_tmp ++ (replicate 6 88 ++ ((46 ∷ 99 ∷ []) ++ 0 ∷ [])))
        2
        second_free
        6)
unfolding is_string
try_tempname_len-Settled_example =
    try_tempname_len-Settled entropy errors 2 0 4 entropy-IsFair second_free slash_tmp
      (46 ∷ 99 ∷ []) [] 6 refl refl
