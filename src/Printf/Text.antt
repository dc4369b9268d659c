-- ===== src/Printf/Text.antt =====
-- Formats without a conversion.
use feline_os.Base.{
  ℕ, zero, suc, ◌+◌, ◌-◌, ◌≤◌, ◌<◌, ◌≡◌, refl, sym, ap, ap₂, ◌∙◌, inl, inr, true, false, Option,
  some, List, [], ◌∷◌, ◌++◌, length, length-append, arith, ltb, ◌==◌, Bool-cases, if◌then◌else◌,
}
use mathlib.Core.List.{append_assoc, append-nil}
use feline_os.Printf.{VaArg, Printing, int_max}
use feline_os.Printf.Loop.{
  Printed, returned, until_percent, write_text, behind_percent, vprintf_loop, printing, vprintf,
}

-- A text as a format: each percent sign twice.
unfoldable pub escape : List ℕ → List ℕ
escape [] = []
escape (c ∷ cs) = if c == 37 then 37 ∷ 37 ∷ escape cs else c ∷ escape cs

length-escape : (t : List ℕ) → length t ≤ length (escape t)
unfolding escape
length-escape [] = omega arith
length-escape (c ∷ cs) = ground (arith, length-escape cs)

-- A run of a text up to a percent sign, and the rest of it.
plain_part :
    (t : List ℕ) → (a b : List ℕ) × (t ≡ a ++ b) × (until_percent (escape t) ≡ (a, escape b))
unfolding escape until_percent
plain_part [] = ([], [], refl, refl)
plain_part (c ∷ cs) =
    let (a, b, e, split) = plain_part cs in
    elim (Bool-cases (c == 37)) [
      | inl p ↦ ([], c ∷ cs, refl, ground (arith, p))
      | inr p ↦ (c ∷ a, b, ap (λ k. c ∷ k) e, ground (arith, p, split))
    ]

abbrev with_text : List ℕ → Printing → Printing
with_text a s = record s { output = s.output ++ a; written = s.written + length a }

write_text-fits :
    (a : List ℕ) (s : Printing) (next : Printing → Option Printed)
    → s.written + length a ≤ int_max
    → write_text a s next ≡ next (with_text a s)
unfolding write_text
write_text-fits a s next room =
    let fits : ltb (int_max - s.written) (length a) ≡ false = ground arith in simp fits refl

escape_percent : (c : ℕ) (cs : List ℕ) → (c == 37) ≡ true → escape (c ∷ cs) ≡ 37 ∷ 37 ∷ escape cs
unfolding escape
escape_percent c cs p = simp p refl

escape_other : (c : ℕ) (cs : List ℕ) → (c == 37) ≡ false → escape (c ∷ cs) ≡ c ∷ escape cs
unfolding escape
escape_other c cs p = simp p refl

loop_other :
    (size fuel c : ℕ) (f : List ℕ) (s : Printing)
    → (c == 37) ≡ false
    → vprintf_loop size (suc fuel) (c ∷ f) s
      ≡ write_text (c ∷ (until_percent f).0) s (vprintf_loop size fuel (until_percent f).1)
unfolding vprintf_loop
loop_other size fuel c f s p = simp p refl

-- One round of the loop takes a character and the run behind it.
loop_chunk :
    (size fuel c : ℕ) (cs a b : List ℕ) (s : Printing)
    → until_percent (escape cs) ≡ (a, escape b)
    → s.written + length (c ∷ a) ≤ int_max
    → vprintf_loop size (suc fuel) (escape (c ∷ cs)) s
      ≡ vprintf_loop size fuel (escape b) (with_text (c ∷ a) s)
unfolding vprintf_loop behind_percent
loop_chunk size fuel c cs a b s split room =
    let text = write_text-fits (c ∷ a) s (vprintf_loop size fuel (escape b)) room in
    elim (Bool-cases (c == 37)) [
      | inl p ↦
          let at : c ≡ 37 = ground arith in
          ap (λ f. vprintf_loop size (suc fuel) f s) (escape_percent c cs p)
          ∙ ap (λ q. write_text (37 ∷ q.0) s (vprintf_loop size fuel q.1)) split
          ∙ ap (λ d. write_text (d ∷ a) s (vprintf_loop size fuel (escape b))) (sym at)
          ∙ text
      | inr p ↦
          ap (λ f. vprintf_loop size (suc fuel) f s) (escape_other c cs p)
          ∙ loop_other size fuel c (escape cs) s p
          ∙ ap (λ q. write_text (c ∷ q.0) s (vprintf_loop size fuel q.1)) split
          ∙ text
    ]

loop-text :
    (size fuel : ℕ) (t : List ℕ) (s : Printing)
    → s.written + length t ≤ int_max
    → length t < fuel
    → vprintf_loop size fuel (escape t) s ≡ some (returned (s.written + length t) (s.output ++ t))
unfolding vprintf_loop escape
loop-text size zero t s room enough = absurd (omega arith)
loop-text size (suc fuel) [] s room enough =
    ap₂ (λ n o. some (returned n o)) (omega arith) (sym (append-nil s.output))
loop-text size (suc fuel) (c ∷ cs) s room enough =
    let (a, b, e, split) = plain_part cs in
    let total : length cs ≡ length a + length b = ap length e ∙ length-append a b in
    let rest = loop-text size fuel b (with_text (c ∷ a) s) (omega arith) (omega arith) in
    loop_chunk size fuel c cs a b s split (omega arith)
    ∙ rest
    ∙ ap₂ (λ n o. some (returned n o)) (omega arith)
        (append_assoc s.output (c ∷ a) b ∙ ap (λ k. s.output ++ c ∷ k) (sym e))

-- A text in which each percent sign is doubled, as a format, is printed as it is, and `vprintf` returns
-- its length, for a text of at most `INT_MAX` characters.
pub vprintf-escape :
    (size : ℕ) (t : List ℕ) (parameters : List VaArg)
    → length t ≤ int_max
    → vprintf size (escape t) parameters ≡ some (returned (length t) t)
unfolding vprintf
vprintf-escape size t parameters room =
    loop-text size (length (escape t) + 1) t (printing parameters) (omega arith)
      (omega (arith, length-escape t))
    ∙ ap₂ (λ n o. some (returned n o)) (omega arith) refl
