-- ===== src/Printf/Lengths.antt =====
-- What vdprintf.h and obstack_printf.h write and return: the text with its NUL.
use yalibct.Base.{
  ℕ, ◌+◌, ◌-◌, ◌*◌, ◌<◌, ◌≤◌, ◌≡◌, refl, ap, ◌∙◌, ◌⊎◌, inl, inr, true, false, List, [], ◌∷◌, ◌++◌,
  some, ltb, ltb→lt, ltb→ge, ◌==◌, ==_refl, length, length-append, take, take_all, arith,
  Bool-cases,
}
use yalibct.Base.Int.{pos, negsuc}
use yalibct.FullWrite.{Device, Result, finished, hung}
use yalibct.FullWrite.Whole.{IsBounded, IsCalm, IsTransfer, full_rw_lem}
use yalibct.Printf.{
  Libc, in_buffer, allocated, first_call, second_call, vasnprintf, int_max, Printed, print_result,
  returned, write_output, vdprintf,
}

-- What vsnprintf is documented to do for a text: it writes as much as there is room for, with a NUL behind
-- it, and returns the length of all of it. Both calls have the same arguments.
unfoldable pub Prints : Libc → List ℕ → Type 0
Prints libc text =
    (call size : ℕ)
    → 0 < size
    → libc.vsnprintf call size ≡ (some (length text), take (size - 1) text ++ 0 ∷ [])

-- All of the text and its NUL is on the device and is counted, or -1 is returned and a shorter part is.
unfoldable pub HasPrinted : List ℕ → List ℕ → Printed → Type 0
HasPrinted text sent r =
    (r ≡ returned (pos (length text + 1)) (sent ++ (text ++ 0 ∷ [])))
    ⊎ ((n : ℕ) × (n < length text + 1)
        × (r ≡ returned (negsuc 0) (sent ++ take n (text ++ 0 ∷ []))))

module _ (libc : Libc) (text : List ℕ) (prints : Prints libc text) (short : length text < int_max)
    (memory : (n : ℕ) → libc.malloc n ≡ true) where
  -- The length that is stored is one more than that of the text.
  pub vasnprintf-Prints :
      (size : ℕ)
      → 0 < size
      → ((length text < size)
          × (vasnprintf libc size ≡ in_buffer (length text + 1) (text ++ 0 ∷ [])))
        ⊎ (vasnprintf libc size
            ≡ allocated (length text + 1) (take (size - 1) text ++ 0 ∷ []) (text ++ 0 ∷ []))
  unfolding vasnprintf first_call second_call Prints
  vasnprintf-Prints size positive = elim (Bool-cases (ltb (length text) size)) [
    | inl fits ↦ inl (
      ltb→lt (length text) size fits,
      rw (vasnprintf, prints 0 size positive, first_call, below, fits)
          (ap (λ t. in_buffer (length text + 1) (t ++ 0 ∷ []))
            (take_all (size - 1) text (room fits))),
    )
    | inr large ↦ inr (
        rw
          (
            vasnprintf,
            prints 0 size positive,
            first_call,
            below,
            large,
            memory (length text + 1),
            prints 1 (length text + 1) (omega arith),
            second_call,
            ==_refl (length text),
          )
          (ap (λ t. allocated (length text + 1) (take (size - 1) text ++ 0 ∷ []) (t ++ 0 ∷ []))
            (take_all (length text + 1 - 1) text (omega arith))))
  ]
    where
      below : (length text == int_max) ≡ false
      below = ground (arith, short)

      room : ltb (length text) size ≡ true → length text ≤ size - 1
      room fits = ground (arith, fits)

  printed :
      (device : Device) (sent : List ℕ) (r : Result)
      → IsTransfer device sent (text ++ 0 ∷ []) (length text + 1) 0 r
      → HasPrinted text sent (print_result (length text + 1) r)
  unfolding IsTransfer HasPrinted print_result
  printed device sent hung z = elim z [ ]
  printed device sent (finished total errno sent') (n, sum, part, form, why) =
      elim (Bool-cases (ltb total (length text + 1))) [
        | inl fewer ↦ inr (
          n,
          omega (arith, ltb→lt total (length text + 1) fewer, sum),
          rw (print_result, fewer, form) refl,
        )
        | inr all ↦ inl (
            rw (print_result, all, fits)
              (ap (λ l. returned (pos (length text + 1)) l)
                (form
                  ∙ ap (λ l. sent ++ l)
                      (take_all n (text ++ 0 ∷ []) (
                        omega (
                          arith,
                          length-append text (0 ∷ []),
                          ltb→ge total (length text + 1) all,
                          sum,
                        ))))))
      ]
    where
      fits : ltb int_max (length text + 1) ≡ false
      fits = ground (arith, short)

  -- Let vsnprintf print a text that is shorter than INT_MAX, let there be memory, let no call of write
  -- answer more than its count, and let one of any number of calls in a row not be interrupted. Then
  -- vdprintf comes to an end: it writes the text and a NUL behind it and returns one more than the length
  -- of the text, or returns -1 with a shorter part of that on the device.
  pub vdprintf_lem :
      (device : Device) (calls errno : ℕ) (sent : List ℕ)
      → IsBounded device
      → IsCalm device calls
      → HasPrinted text sent (vdprintf libc device (2 * calls) errno sent)
  unfolding vdprintf write_output
  vdprintf_lem device calls errno sent bounded calm = elim (vasnprintf-Prints 2000 (omega arith)) [
    | inl (_, there) ↦ rw (vdprintf, there) writes
    | inr there ↦ rw (vdprintf, there) writes
  ]
    where
      writes :
          HasPrinted text sent
            (write_output libc device (2 * calls) errno sent (text ++ 0 ∷ []) (length text + 1))
      writes =
          printed device sent _
            (full_rw_lem device calls sent (text ++ 0 ∷ []) (length text + 1) errno bounded calm)
