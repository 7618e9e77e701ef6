-- ===== src/Bytes/Tests.antt =====
-- The searches on concrete bytes.
use yalibct.Base.{ℕ, ◌≡◌, refl, inr, List, [], ◌∷◌, ◌++◌, some, arith, replicate, min}
use yalibct.Bytes.{
  ok, fault, memchr_from, memchr, strnlen, check_bytes8, load_le, value64_of, check_words,
  check_aligned, memchr_inv,
}
use yalibct.Bytes.Search.{strnlen_lem}
use yalibct.Bytes.Inverse.{FirstOther, memchr_inv-FirstOther}

abbrev abc : List ℕ
abc = b'a' ∷ b'b' ∷ b'c' ∷ 0 ∷ []

strnlen_lem_example : strnlen abc 9 ≡ ok (min 9 3)
strnlen_lem_example = strnlen_lem abc 9 (inr (omega arith))

strnlen_stops : strnlen abc 2 ≡ ok 2
unfolding strnlen memchr memchr_from
strnlen_stops = refl

strnlen_unterminated : strnlen (b'a' ∷ []) 2 ≡ fault
unfolding strnlen memchr memchr_from
strnlen_unterminated = refl

-- Twenty bytes of which the last but one differs.
abbrev spotted : List ℕ
spotted = replicate 18 7 ++ 8 ∷ 7 ∷ []

memchr_inv_runs : memchr_inv 3 spotted 7 20 ≡ ok (some 18)
unfolding memchr_inv check_aligned check_words check_bytes8 load_le value64_of
memchr_inv_runs = refl

memchr_inv-FirstOther_example : FirstOther spotted 7 20 (memchr_inv 3 spotted 7 20) 0
memchr_inv-FirstOther_example =
    memchr_inv-FirstOther 3 spotted 7 20 (omega arith) (omega arith) (omega arith)
