-- ===== src/Printf/Loop.antt =====
-- system/libc/stdio/printf.cpp: the loop of `vprintf` over the format.
use feline_os.Base.{
  ℕ, zero, suc, ◌+◌, ◌-◌, false, Option, none, some, List, [], ◌∷◌, ◌++◌, length, ltb, ◌==◌,
  if◌then◌else◌,
}
use feline_os.Strings.{Bytes, strlen}
use feline_os.Printf.{VaArg, Printing, int_max, get_flags, get_width, get_length}
use feline_os.Printf.Convert.{unsupported, failed, converted, convert}

-- What `vprintf` returns, with the output: the number written, or -1 for too many characters.
pub data Printed : Type 0 where
  returned : ℕ → List ℕ → Printed
  too_long : List ℕ → Printed

-- The characters up to a percent sign, and the rest.
unfoldable pub until_percent : List ℕ → List ℕ × List ℕ
until_percent [] = ([], [])
until_percent (c ∷ cs) =
    let rest = until_percent cs in if c == 37 then ([], c ∷ cs) else (c ∷ rest.0, rest.1)

-- What a conversion that wrote to the buffer puts out: spaces up to the width, and the string in the
-- buffer, unless that is longer than what is left of `INT_MAX`.
unfoldable pub blanks : ℕ → List ℕ
blanks zero = []
blanks (suc n) = 32 ∷ blanks n

unfoldable pub bytes_at : ℕ → ℕ → Bytes → List ℕ
bytes_at zero p m = []
bytes_at (suc n) p m = m p ∷ bytes_at n (p + 1) m

unfoldable pub write_buffer : ℕ → Printing → (Printing → Option Printed) → Option Printed
unfolding blanks bytes_at strlen
write_buffer fuel s next =
    let padding = if ltb s.width s.min_width then blanks (s.min_width - s.width) else [] in
    elim (strlen fuel 0 s.int_str_buf) [
      | none ↦ none
      | some n ↦
          if ltb (int_max - s.written) n
          then some (too_long (s.output ++ padding))
          else next (record s {
            output = s.output ++ (padding ++ bytes_at n 0 s.int_str_buf);
            written = s.written + n;
          })
    ]

-- A run of characters as they are.
unfoldable pub write_text : List ℕ → Printing → (Printing → Option Printed) → Option Printed
write_text text s next =
    if ltb (int_max - s.written) (length text)
    then some (too_long s.output)
    else next (record s { output = s.output ++ text; written = s.written + length text })

-- A specifier that is not supported: the percent sign goes out, and the format goes on behind it.
unfoldable pub write_percent : Printing → Printing
write_percent s = record s { output = s.output ++ 37 ∷ []; written = s.written + 1 }

-- A conversion, with the format behind its percent sign; `next` is the rest of the loop.
unfoldable pub conversion :
    ℕ → (List ℕ → Printing → Option Printed) → List ℕ → Printing → Option Printed
unfolding write_buffer write_percent get_flags get_width get_length convert
conversion size next format s =
    let (alt_form, always_signed, behind_flags) = get_flags false false format in
    let (min_width, behind_width) = get_width s.min_width behind_flags in
    let (length_char, behind_length) = get_length s.length_char behind_width in
    let t : Printing = record s { min_width = min_width; length_char = length_char } in
    elim behind_length [
      | [] ↦ next format (write_percent t)
      | (specifier ∷ rest) ↦ elim (convert size specifier alt_form always_signed t) [
        | unsupported ↦ next (if specifier == 37 then rest else format) (write_percent t)
        | failed ↦ none
        | converted u ↦ write_buffer size u (next rest)
      ]
    ]

-- Behind a percent sign: a second one is the start of a text.
unfoldable pub behind_percent :
    ℕ → (List ℕ → Printing → Option Printed) → List ℕ → Printing → Option Printed
unfolding conversion until_percent write_text
behind_percent size next [] s = conversion size next [] s
behind_percent size next (d ∷ ds) s =
    if d == 37
    then write_text (37 ∷ (until_percent ds).0) s (next (until_percent ds).1)
    else conversion size next (d ∷ ds) s

unfoldable pub vprintf_loop : ℕ → ℕ → List ℕ → Printing → Option Printed
unfolding until_percent write_text behind_percent
vprintf_loop size zero format s = none
vprintf_loop size (suc fuel) [] s = some (returned s.written s.output)
vprintf_loop size (suc fuel) (c ∷ cs) s =
    if c == 37
    then behind_percent size (vprintf_loop size fuel) cs s
    else write_text (c ∷ (until_percent cs).0) s (vprintf_loop size fuel (until_percent cs).1)

abbrev pub printing : List VaArg → Printing
printing parameters = record {
  int_str_buf = λ _. 0;
  written = 0;
  min_width = 0;
  width = 0;
  length_char = 0;
  parameters = parameters;
  output = [];
}

-- `size` bounds the strings in the buffer.
unfoldable pub vprintf : ℕ → List ℕ → List VaArg → Option Printed
unfolding vprintf_loop
vprintf size format parameters = vprintf_loop size (length format + 1) format (printing parameters)
