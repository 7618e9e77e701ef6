-- ===== src/TempName/Filled.antt =====
-- The whole of path_search.h: the directory that it takes, the template that it writes, and its errors.
use yalibct.Base.{
  ℕ, ◌+◌, ◌-◌, ◌%◌, ◌^◌, ◌<◌, ◌≤◌, ◌≡◌, refl, ap, sym, ◌∙◌, Bool, true, false, not, ◌&&◌, List, [],
  ◌∷◌, ◌++◌, Option, none, some, ltb, ltb→lt, ltb→ge, leb, ◌==◌, length, get_or, take, length-take,
  take_all, drop, length-append, if◌then◌else◌, arith, ap₂, Bool-cases, Option-cases, inl, inr,
}
use yalibct.TempName.Buffer.{write_at, write_at_twice}
use yalibct.TempName.Search.{
  Search, found, failed, fault, Env, xs, is_slash, prefix, fill_template, path_search,
}
use yalibct.TempName.Chosen.{directory, template, short, directory-chosen}

regroup :
    (a b c e r : List ℕ) (z : ℕ) → a ++ (b ++ c ++ e ++ z ∷ []) ++ r ≡ (a ++ b ++ c ++ e) ++ z ∷ r
regroup [] [] [] [] r z = refl
regroup [] [] [] (x ∷ e) r z = ap (λ t. x ∷ t) (regroup [] [] [] e r z)
regroup [] [] (x ∷ c) e r z = ap (λ t. x ∷ t) (regroup [] [] c e r z)
regroup [] (x ∷ b) c e r z = ap (λ t. x ∷ t) (regroup [] b c e r z)
regroup (x ∷ a) b c e r z = ap (λ t. x ∷ t) (regroup a b c e r z)

-- The prefix and its length, which is that of what is taken of it.
prefix-short :
    (pfx : Option (List ℕ))
    → (take (prefix pfx).1 (prefix pfx).0 ≡ short pfx) × (length (short pfx) ≡ (prefix pfx).1)
unfolding prefix short
prefix-short none = (refl, refl)
prefix-short (some []) = (refl, refl)
prefix-short (some (c ∷ cs)) = elim (Bool-cases (ltb 5 (length (c ∷ cs)))) [
  | inl long ↦ (
    rw long refl,
    rw long (omega (arith, length-take 5 (c ∷ cs), ltb→lt 5 (length (c ∷ cs)) long)),
  )
  | inr fits ↦
      let small = ltb→ge 5 (length (c ∷ cs)) fits in
      (
        rw fits
            (take_all (length (c ∷ cs)) (c ∷ cs) (omega arith) ∙ sym (take_all 5 (c ∷ cs) small)),
        rw fits (ap length (take_all 5 (c ∷ cs) small)),
      )
]

short_bound : (pfx : Option (List ℕ)) → length (short pfx) ≤ 5
unfolding short
short_bound none = omega arith
short_bound (some []) = omega arith
short_bound (some (c ∷ cs)) = omega (arith, length-take 5 (c ∷ cs))

-- What the array holds at the end: the template, a NUL, and what was there behind them.
unfoldable pub filled : Env → List ℕ → List ℕ → Search
filled env tmpl name =
    if leb (length name + 1) (length tmpl)
    then found (name ++ 0 ∷ drop (length name + 1) tmpl)
    else failed env.einval

unfoldable pub expected : Env → List ℕ → Option (List ℕ) → Option (List ℕ) → Search
expected env tmpl none pfx = failed env.enoent
expected env tmpl (some d) pfx = filled env tmpl (template d pfx)

-- One more character for a slash.
slash_part : Bool → List ℕ
slash_part b = if b then 47 ∷ [] else []

slash_part-length : (b : Bool) → length (slash_part b) ≡ (if b then 1 else 0)
unfolding slash_part
slash_part-length true = refl
slash_part-length false = refl

template_length : (d b p : List ℕ) → length (d ++ b ++ p ++ xs) ≡ length d + length b + length p + 6
template_length d b p =
    omega (arith, length-append (d ++ b ++ p) xs, length-append (d ++ b) p, length-append d b)

-- The check for room and the two writes, for a string of `d` and of `b` and `p` behind it.
abbrev attempt : Env → List ℕ → List ℕ → List ℕ → ℕ → List ℕ → Search
attempt env tmpl d b room p =
    if ltb (length tmpl) room
    then failed env.einval
    else (elim (write_at tmpl 0 d) as (λ _. Search) [
      | none ↦ fault
      | some with_dir ↦
          elim (write_at with_dir (length d) (b ++ p ++ xs ++ 0 ∷ [])) as (λ _. Search) [
            | none ↦ fault
            | some whole ↦ found whole
          ]
    ])

writes :
    (env : Env) (tmpl d b p : List ℕ)
    → attempt env tmpl d b (length d + length b + length p + 6 + 1) p
      ≡ filled env tmpl (d ++ b ++ p ++ xs)
unfolding filled
writes env tmpl d b p =
    elim (Bool-cases (ltb (length tmpl) (length d + length b + length p + 6 + 1))) [
      | inl small ↦ rw (small, too_small small) refl
      | inr fits ↦
          let (middle, first_write, second_write) =
            write_at_twice tmpl d name (omega (arith, name_length, ltb→ge _ _ fits)) in
          rw (fits, first_write, second_write, enough fits)
            (ap found (
              regroup d b p xs (drop (length d + length name) tmpl) 0
              ∙ ap (λ n. d ++ b ++ p ++ xs ++ 0 ∷ drop n tmpl)
                  (omega (arith, name_length, template_length d b p))))
    ]
  where
    name : List ℕ
    name = b ++ p ++ xs ++ 0 ∷ []

    name_length : length name ≡ length b + length p + 7
    name_length =
        omega (
          arith,
          length-append (b ++ p ++ xs) (0 ∷ []),
          length-append (b ++ p) xs,
          length-append b p,
        )

    too_small :
        ltb (length tmpl) (length d + length b + length p + 6 + 1) ≡ true
        → leb (length (d ++ b ++ p ++ xs) + 1) (length tmpl) ≡ false
    too_small h = ground (arith, h, template_length d b p)

    enough :
        ltb (length tmpl) (length d + length b + length p + 6 + 1) ≡ false
        → leb (length (d ++ b ++ p ++ xs) + 1) (length tmpl) ≡ true
    enough h = ground (arith, h, template_length d b p)

fill_template-filled :
    (env : Env) (tmpl d : List ℕ) (pfx : Option (List ℕ))
    → length d + 13 < 2 ^ 64
    → fill_template env tmpl (length tmpl) d (prefix pfx) ≡ filled env tmpl (template d pfx)
unfolding fill_template template slash_part
fill_template-filled env tmpl d pfx wide =
    ap₂ (attempt env tmpl d (slash_part add_slash)) room (prefix-short pfx).0
    ∙ writes env tmpl d (slash_part add_slash) (short pfx)
  where
    add_slash : Bool
    add_slash = not (length d == 0) && not (is_slash (get_or d (length d - 1) 0))

    bits : (b : Bool) → (if b then 1 else 0) ≤ 1
    bits true = omega arith
    bits false = omega arith

    room :
        (length d + (if add_slash then 1 else 0) + (prefix pfx).1 + 6 + 1) % 2 ^ 64
        ≡ length d + length (slash_part add_slash) + length (short pfx) + 6 + 1
    room = omega (
      arith,
      slash_part-length add_slash,
      bits add_slash,
      (prefix-short pfx).1,
      short_bound pfx,
      wide,
    )

-- Let the size of the array be the one that is passed, and no directory be so long that a sum of lengths
-- wraps around. Then path_search writes nothing outside the array. With try_tmpdir it takes the first of
-- TMPDIR, DIR, P_tmpdir and /tmp that exists, although its comment puts DIR before TMPDIR and has it fail
-- where DIR does not exist; without try_tmpdir it takes DIR with no test, and without DIR the first of
-- P_tmpdir and /tmp that exists. It fails with ENOENT if there is none, and with EINVAL if the template and
-- a NUL are longer than the array; otherwise the array starts with them.
pub path_search_lem :
    (env : Env) (tmpl : List ℕ) (dir pfx : Option (List ℕ)) (try_tmpdir : Bool)
    → ((d : List ℕ) → directory env dir try_tmpdir ≡ some d → length d + 13 < 2 ^ 64)
    → path_search env tmpl (length tmpl) dir pfx try_tmpdir
      ≡ expected env tmpl (directory env dir try_tmpdir) pfx
unfolding path_search expected
path_search_lem env tmpl dir pfx try_tmpdir wide =
    elim (Option-cases (directory env dir try_tmpdir)) [
      | inl gone ↦ rw (path_search, directory-chosen env dir try_tmpdir, gone) refl
      | inr (d, there) ↦
          rw (path_search, directory-chosen env dir try_tmpdir, there)
            (fill_template-filled env tmpl d pfx (wide d there))
    ]
