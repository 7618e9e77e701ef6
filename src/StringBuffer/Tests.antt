-- ===== src/StringBuffer/Tests.antt =====
-- The buffer at concrete texts, with an allocator that never fails below `PTRDIFF_MAX`.
use yalibct.Base.{
  ℕ, zero, suc, ◌-◌, ◌^◌, ◌≤◌, ◌<◌, ◌≡◌, refl, ap, true, List, [], ◌∷◌, ◌++◌, Option, none, some,
  arith, ltb, length, take, replicate, length-replicate, min, if◌then◌else◌, ◌⊎◌,
}
use yalibct.Base.Int.{pos}
use yalibct.StringBuffer.{Allocator, StringBuffer, Vsnprintf, sb_init, sb_appendvf, sb_dupfree}
use yalibct.StringBuffer.Append.{contents, IsValid, Formats}
use yalibct.StringBuffer.Total.{Appended, Failed, sb_appendvf_lem, sb_appendvf_room}
use yalibct.StringBuffer.Dupfree.{Outcome, sb_dupfree_lem}

-- Without memory: every request is refused.
full_memory : Allocator
full_memory = record {
  malloc = λ n. none;
  realloc = λ o n. none;
  malloc_size = λ n d e. absurd (ground arith);
  realloc_size = λ o n d e. absurd (ground arith);
  malloc_small = λ n d e. absurd (ground arith);
  realloc_small = λ o n d e. absurd (ground arith);
  realloc_keeps = λ o n d e. absurd (ground arith);
}

-- The copy that a new block starts with, filled up with zeros.
abbrev resized : List ℕ → ℕ → List ℕ
resized o zero = []
resized [] (suc n) = 0 ∷ resized [] n
resized (x ∷ o) (suc n) = x ∷ resized o n

length-resized : (o : List ℕ) (n : ℕ) → length (resized o n) ≡ n
length-resized o zero = refl
length-resized [] (suc n) = ap suc (length-resized [] n)
length-resized (x ∷ o) (suc n) = ap suc (length-resized o n)

take-resized : (o : List ℕ) (n k : ℕ) → k ≤ min (length o) n → take k (resized o n) ≡ take k o
take-resized o n zero h = refl
take-resized o zero (suc k) h = absurd (omega arith)
take-resized [] (suc n) (suc k) h = absurd (omega arith)
take-resized (x ∷ o) (suc n) (suc k) h = ap (λ t. x ∷ t) (take-resized o n k (omega arith))

-- A block if it is below half the address space.
block : ℕ → List ℕ → Option (List ℕ)
block n d = if ltb n (2 ^ 63) then some d else none

block-some : (n : ℕ) (d e : List ℕ) → block n d ≡ some e → (n < 2 ^ 63) × (d ≡ e)
unfolding block
block-some n d e h = ground arith

heap : Allocator
heap = record {
  malloc = λ n. block n (replicate n 7);
  realloc = λ o n. block n (resized o n);
  malloc_size =
      λ n d e. ground (arith, block-some n (replicate n 7) d e, length-replicate {A = ℕ} n 7);
  realloc_size = λ o n d e. ground (arith, block-some n (resized o n) d e, length-resized o n);
  malloc_small = λ n d e. (block-some n (replicate n 7) d e).0;
  realloc_small = λ o n d e. (block-some n (resized o n) d e).0;
  realloc_keeps =
      λ o n d e k h. ground (arith, block-some n (resized o n) d e, take-resized o n k h);
}

-- `vsnprintf` for a format that yields `text`.
abbrev format : List ℕ → Vsnprintf
format text room = (
  pos (length text),
  if ltb (length text) room then text ++ 0 ∷ [] else take (room - 1) text ++ 0 ∷ [],
)

format-Formats : (text : List ℕ) → Formats (format text) text
format-Formats text room h = (refl, refl)

abbrev space : List ℕ
space = replicate 1024 0

empty-IsValid : IsValid (sb_init space)
unfolding sb_init
empty-IsValid = record { size = refl; fits = omega arith; small = omega arith }

abbrev text : List ℕ
text = b'o' ∷ b'k' ∷ []

sb_appendvf_lem_example :
    Appended text
      (sb_init space)
      (sb_appendvf full_memory heap (format text) (format text) (sb_init space))
    ⊎ Failed
        (sb_init space)
        (sb_appendvf full_memory heap (format text) (format text) (sb_init space))
sb_appendvf_lem_example =
    sb_appendvf_lem text (omega arith) heap (format text) (format text) (format-Formats text)
      (format-Formats text) full_memory (sb_init space) empty-IsValid

-- A line of exactly the 1024 bytes that an empty buffer has room for.
abbrev line : List ℕ
line = replicate 1024 b'x'

sb_appendvf_room_example :
    (b' : StringBuffer) × (sb_appendvf heap heap (format line) (format line) (sb_init space)
      ≡ some (b', pos 0))
    × (b'.len ≡ 1024)
    × (1024 < 1024 → contents b' ≡ line)
    × (◌≡◌ {A = ℕ} 1024 1024 → contents b' ≡ take 1023 line ++ 0 ∷ [])
unfolding sb_init
sb_appendvf_room_example =
    sb_appendvf_room line (omega arith) heap (format line) (format line) (format-Formats line)
      (format-Formats line) heap (sb_init space) empty-IsValid (omega arith) (omega arith)

sb_dupfree_lem_example :
    Outcome (contents (sb_init space) ++ 0 ∷ []) (sb_dupfree heap heap (sb_init space))
    × ((sb_init space).error ≡ true → (sb_dupfree heap heap (sb_init space)).result ≡ none)
sb_dupfree_lem_example = sb_dupfree_lem heap heap (sb_init space) empty-IsValid
