-- ===== src/Getopt/Argv.antt =====
-- `exchange` of getopt-common.h: two adjacent segments of `argv` change places. An access outside `argv`
-- is `none`.
use yalibct.Base.{
  ℕ, zero, suc, ◌+◌, ◌-◌, List, Option, none, some, ltb, ◌&&◌, get_elem?, set, if◌then◌else◌,
}
use yalibct.Getopt.State.{Str, GetoptData}

infixl 5 ◌>>=◌
abbrev pub ◌>>=◌ : {A B : Type 0} → Option A → (A → Option B) → Option B
none >>= next_step = none
some a >>= next_step = next_step a

-- `tem = argv[i]; argv[i] = argv[j]; argv[j] = tem;`
unfoldable pub swap_at : List Str → ℕ → ℕ → Option (List Str)
swap_at xs i j = do x ← get_elem? xs i; y ← get_elem? xs j; some (set (set xs i y) j x)

-- `for (i = 0; i < len; i++)` over the swaps of `argv[i]` and `argv[j]`.
unfoldable pub swap_run : ℕ → List Str → ℕ → ℕ → Option (List Str)
swap_run zero xs i j = some xs
swap_run (suc len) xs i j = do ys ← swap_at xs i j; swap_run len ys (i + 1) (j + 1)

-- The `while` loop. Each round takes at least one element out of `bottom` to `top`, so that as many
-- rounds as there are elements are enough; `none` is also the end of the fuel.
unfoldable pub exchange_loop : ℕ → List Str → ℕ → ℕ → ℕ → Option (List Str)
exchange_loop zero xs bottom middle top =
    if ltb middle top && ltb bottom middle then none else some xs
exchange_loop (suc fuel) xs bottom middle top =
    let short = middle - bottom in
    let len = top - middle in
    let from_top = (do
      ys ← swap_run short xs bottom (top - short)
      exchange_loop fuel ys bottom middle (top - short)) in
    let from_bottom = (do
      ys ← swap_run len xs bottom middle
      exchange_loop fuel ys (bottom + len) middle top) in
    if ltb middle top && ltb bottom middle
    then (if ltb short len then from_top else from_bottom)
    else some xs

unfoldable pub exchange : GetoptData → Option GetoptData
exchange d = do
  argv ← exchange_loop (d.optind - d.first_nonopt) d.argv d.first_nonopt d.last_nonopt d.optind
  some (record d {
    argv = argv;
    first_nonopt = d.first_nonopt + (d.optind - d.last_nonopt);
    last_nonopt = d.optind;
  })
