-- ===== src/Printf/Tests.antt =====
-- Runs of vdprintf and obstack_printf, and their theorems at a concrete library.
use yalibct.Base.{
  ℕ, zero, suc, ◌*◌, ◌≡◌, refl, ap, true, false, List, [], ◌∷◌, ◌++◌, map, some, take, arith,
}
use yalibct.Base.Int.{negsuc}
use yalibct.FullWrite.{safe_rw, full_rw_loop, full_rw}
use yalibct.FullWrite.Tests.{device, device-IsBounded, device-IsCalm}
use yalibct.Obstack.Tests.{bump, bump-IsAllocator, start, sized, sized-IsValid}
use yalibct.Printf.{
  Libc, vasnprintf, first_call, second_call, returned, print_result, write_output, vdprintf,
  obstack_vprintf,
}
use yalibct.Printf.Lengths.{Prints, HasPrinted, vdprintf_lem}
use yalibct.Printf.Grown.{Adds, obstack_vprintf-Adds}

-- A library that prints "AB"
printing : ℕ → List ℕ
printing zero = []
printing (suc n) = take n (65 ∷ 66 ∷ []) ++ 0 ∷ []

abbrev libc : Libc
libc = record {
  vsnprintf = λ call size. (some 2, printing size);
  no_memory = false;
  malloc = λ n. true;
}

libc-Prints : Prints libc (65 ∷ 66 ∷ [])
unfolding Prints printing
libc-Prints call zero positive = absurd (omega (arith, positive))
libc-Prints call (suc n) positive =
    ap (λ m. (some 2, take m (65 ∷ 66 ∷ []) ++ 0 ∷ [])) (omega arith)

-- The device takes two bytes and is full: all of the text is there, but not its NUL.
vdprintf_stops : vdprintf libc device 4 0 (1 ∷ []) ≡ returned (negsuc 0) (1 ∷ 65 ∷ 66 ∷ [])
unfolding vdprintf write_output print_result vasnprintf first_call second_call full_rw full_rw_loop
    safe_rw printing
vdprintf_stops = refl

vdprintf_lem_example : HasPrinted (65 ∷ 66 ∷ []) (1 ∷ []) (vdprintf libc device (2 * 2) 0 (1 ∷ []))
vdprintf_lem_example =
    vdprintf_lem libc (65 ∷ 66 ∷ []) libc-Prints (omega arith) (λ n. refl) device 2 0 (1 ∷ [])
      device-IsBounded device-IsCalm

obstack_vprintf-Adds_example :
    Adds [] ([] ++ map some (65 ∷ 66 ∷ 0 ∷ [])) 3 (obstack_vprintf libc bump start (sized 4064))
obstack_vprintf-Adds_example =
    obstack_vprintf-Adds libc (65 ∷ 66 ∷ []) libc-Prints (omega arith) (λ n. refl) bump
      bump-IsAllocator start (sized 4064) [] [] sized-IsValid
