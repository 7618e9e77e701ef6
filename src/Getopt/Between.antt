-- ===== src/Getopt/Between.antt =====
-- The steps of the scanner between two elements of `argv` keep their indices in order.
use yalibct.Base.{
  ℕ, ◌+◌, ◌≤◌, ◌<◌, ◌≡◌, ◌∙◌, Bool, true, false, not, ◌&&◌, List, [], ◌∷◌, some, ◌==◌, drop, length,
  length-drop, if◌then◌else◌, arith, inl, inr, Option, Bool-cases,
}
use yalibct.Getopt.State.{Str, require_order, permute, return_in_order, GetoptData}
use yalibct.Getopt.Argv.{◌>>=◌, exchange}
use yalibct.Getopt.Exchange.{exchange_total}
use yalibct.Getopt.Scan.{
  skip_nonoptions, clamp_nonopts, permute_step, gather, extend, after_dashes, is_dashes,
  dashes_step, needs_advance,
}
use yalibct.Getopt.Safe.{IsValid, get_elem?-some}

-- What holds between two elements, once `optind` is corrected.
pub record IsBetween (n : ℕ) (d : GetoptData) : Type 0 where
  pub count : length d.argv ≡ n
  pub in_argv : d.optind ≤ n
  pub at_end : needs_advance d.nextchar ≡ true
  pub nonopts : d.first_nonopt ≤ d.last_nonopt
  pub behind : d.last_nonopt ≤ d.optind

-- The same where only the first skipped non-option is known.
pub record IsGathered (n : ℕ) (d : GetoptData) : Type 0 where
  pub count : length d.argv ≡ n
  pub in_argv : d.optind ≤ n
  pub at_end : needs_advance d.nextchar ≡ true
  pub first_behind : d.first_nonopt ≤ d.optind

-- No access outside `argv`, and data with a property.
pub data Gives (P : GetoptData → Type 0) : Option GetoptData → Type 0 where
  gives : (d : GetoptData) → P d → Gives P (some d)

pub Gives-bind :
    {P Q : GetoptData → Type 0} {o : Option GetoptData} (f : GetoptData → Option GetoptData)
    → Gives P o
    → ((d : GetoptData) → P d → Gives Q (f d))
    → Gives Q (o >>= f)
Gives-bind f (gives d h) next_step = next_step d h

if-Gives :
    {P : GetoptData → Type 0} (b : Bool) (x y : Option GetoptData)
    → Gives P x
    → Gives P y
    → Gives P (if b then x else y)
if-Gives true x y h k = h
if-Gives false x y h k = k

skip_nonoptions_bound : (ss : List Str) (i : ℕ) → skip_nonoptions ss i ≤ i + length ss
unfolding skip_nonoptions
skip_nonoptions_bound [] i = omega arith
skip_nonoptions_bound (s ∷ ss) i = ground (arith, skip_nonoptions_bound ss (i + 1))

skip_nonoptions_above : (ss : List Str) (i : ℕ) → i ≤ skip_nonoptions ss i
unfolding skip_nonoptions
skip_nonoptions_above [] i = omega arith
skip_nonoptions_above (s ∷ ss) i = ground (arith, skip_nonoptions_above ss (i + 1))

module _ (n : ℕ) where
  pub clamp_nonopts-IsBetween :
      (d : GetoptData)
      → IsValid n d
      → needs_advance d.nextchar ≡ true
      → IsBetween n (clamp_nonopts d)
  unfolding clamp_nonopts
  clamp_nonopts-IsBetween d v e =
      let o = v.nonopts in
      record {
        count = v.count;
        in_argv = v.in_argv;
        at_end = e;
        nonopts = omega arith;
        behind = omega arith;
      }

  exchange-IsGathered : (d : GetoptData) → IsBetween n d → Gives (IsGathered n) (exchange d)
  exchange-IsGathered d v =
      let o = v.nonopts in
      let b = v.behind in
      let m = v.in_argv in
      let l = v.count in
      let (ys, moved, same) = exchange_total d o b (omega arith) in
      rw moved (
        gives _ (record {
          count = same ∙ v.count;
          in_argv = v.in_argv;
          at_end = v.at_end;
          first_behind = omega arith;
        }))

  between-IsGathered : (d : GetoptData) → IsBetween n d → IsGathered n d
  between-IsGathered d v =
      let o = v.nonopts in
      let b = v.behind in
      record { count = v.count; in_argv = v.in_argv; at_end = v.at_end; first_behind = omega arith }

  first_here-IsGathered :
      (d : GetoptData) → IsBetween n d → IsGathered n (record d { first_nonopt = d.optind })
  first_here-IsGathered d v = record {
    count = v.count;
    in_argv = v.in_argv;
    at_end = v.at_end;
    first_behind = omega arith;
  }

  first_in_argv : (d : GetoptData) → IsGathered n d → d.first_nonopt ≤ n
  first_in_argv d v = let m = v.in_argv in let f = v.first_behind in omega arith

  extend-IsBetween : (d : GetoptData) → IsGathered n d → IsBetween n (extend d)
  extend-IsBetween d v =
      let l = v.count in
      let m = v.in_argv in
      let f = v.first_behind in
      let low = skip_nonoptions_above (drop d.optind d.argv) d.optind in
      record {
        count = v.count;
        in_argv = omega (
          arith,
          skip_nonoptions_bound (drop d.optind d.argv) d.optind,
          length-drop d.optind d.argv,
        );
        at_end = v.at_end;
        nonopts = omega arith;
        behind = omega arith;
      }

  gather-IsGathered : (d : GetoptData) → IsBetween n d → Gives (IsGathered n) (gather d)
  gather-IsGathered d v =
      if-Gives (not (d.first_nonopt == d.last_nonopt) && not (d.last_nonopt == d.optind))
        (exchange d)
        (if not (d.last_nonopt == d.optind)
          then some (record d { first_nonopt = d.optind })
          else some d)
        (exchange-IsGathered d v)
        (if-Gives (not (d.last_nonopt == d.optind)) (some (record d { first_nonopt = d.optind }))
          (some d) (gives _ (first_here-IsGathered d v)) (gives d (between-IsGathered d v)))

  pub permute_step-IsBetween :
      (d : GetoptData) → IsBetween n d → Gives (IsBetween n) (permute_step d)
  unfolding permute_step
  permute_step-IsBetween d v =
      elim d.ordering
        as (λ o.
          Gives (IsBetween n)
            (elim o [ permute ↦ gather d >>= (λ d'. some (extend d')) | _ ↦ some d ])) [
              | permute ↦
                  Gives-bind (λ d'. some (extend d')) (gather-IsGathered d v)
                    (λ d' w. gives (extend d') (extend-IsBetween d' w))
              | require_order ↦ gives d v
              | return_in_order ↦ gives d v
            ]

  end-IsBetween :
      (d d'' : GetoptData)
      → length d.argv ≡ n
      → IsGathered n d''
      → IsBetween n (record d'' { last_nonopt = length d.argv; optind = length d.argv })
  end-IsBetween d d'' l w =
      let f = w.first_behind in
      let m = w.in_argv in
      record {
        count = w.count;
        in_argv = omega arith;
        at_end = w.at_end;
        nonopts = rw l (first_in_argv _ w);
        behind = omega arith;
      }

  dashes_step-IsBetween :
      (d : GetoptData) → d.optind < n → IsBetween n d → Gives (IsBetween n) (dashes_step d)
  unfolding dashes_step
  dashes_step-IsBetween d h v =
      let d' = record d { optind = d.optind + 1 } in
      let one : d.optind + 1 ≤ n = omega arith in
      let b = v.behind in
      let v' : IsBetween n d' = record {
        count = v.count;
        in_argv = one;
        at_end = v.at_end;
        nonopts = v.nonopts;
        behind = omega arith;
      } in
      Gives-bind (λ d''. some (record d'' { last_nonopt = length d.argv; optind = length d.argv }))
        (if-Gives (not (d'.first_nonopt == d'.last_nonopt) && not (d'.last_nonopt == d'.optind))
          (exchange d')
          (if d'.first_nonopt == d'.last_nonopt
            then some (record d' { first_nonopt = d'.optind })
            else some d')
          (exchange-IsGathered d' v')
          (if-Gives (d'.first_nonopt == d'.last_nonopt)
            (some (record d' { first_nonopt = d'.optind })) (some d')
            (gives _ (first_here-IsGathered d' v')) (gives d' (between-IsGathered d' v'))))
        (λ d'' w. gives _ (end-IsBetween d d'' v.count w))

pub after_dashes-IsBetween :
    (n : ℕ) (d : GetoptData) → IsBetween n d → Gives (IsBetween n) (after_dashes d)
unfolding after_dashes
after_dashes-IsBetween n d v = elim (Bool-cases (d.optind == length d.argv)) [
  | inl e ↦ rw (after_dashes, e) (gives d v)
  | inr e ↦
      let l = v.count in
      let m = v.in_argv in
      let h : d.optind < n = ground (arith, e) in
      let (arg, there) = get_elem?-some d.argv d.optind (omega arith) in
      rw (after_dashes, e, there, ◌>>=◌)
        (if-Gives (is_dashes arg) (dashes_step d) (some d) (dashes_step-IsBetween n d h v)
          (gives d v))
]
