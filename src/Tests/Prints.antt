-- ===== src/Tests/Prints.antt =====
-- The theorems on `vprintf` at small formats.
use feline_os.Base.{ℕ, ◌≡◌, some, List, [], ◌∷◌, length, arith}
use feline_os.Numbers.{ntostr_buffer}
use feline_os.Numbers.Value.{value, ntostr_buffer-value}
use feline_os.Printf.{number, string}
use feline_os.Printf.Loop.{returned, vprintf}
use feline_os.Printf.Text.{escape, vprintf-escape}
use feline_os.Printf.Output.{vprintf-string, vprintf-unsigned}

ntostr_buffer-value_example :
    (digits : List ℕ) × (ntostr_buffer 48_879 16 ≡ some digits)
    × (length digits ≡ 16)
    × (value 16 0 digits ≡ 48_879)
ntostr_buffer-value_example =
    ntostr_buffer-value 48_879 16 (omega arith) (omega arith) (omega arith)

vprintf-escape_example :
    vprintf 256 (escape (53 ∷ 48 ∷ 37 ∷ 33 ∷ [])) [] ≡ some (returned 4 (53 ∷ 48 ∷ 37 ∷ 33 ∷ []))
vprintf-escape_example = vprintf-escape 256 (53 ∷ 48 ∷ 37 ∷ 33 ∷ []) [] (omega arith)

vprintf-string_example :
    vprintf 256 (37 ∷ 115 ∷ []) (string (72 ∷ 105 ∷ []) ∷ []) ≡ some (returned 2 (72 ∷ 105 ∷ []))
vprintf-string_example =
    vprintf-string 256 (72 ∷ 105 ∷ []) (omega arith, (omega arith, tt)) (omega arith) (omega arith)

vprintf-unsigned_example :
    (digits : List ℕ) × (vprintf 256 (37 ∷ 117 ∷ []) (number 4_000_000_000 ∷ [])
      ≡ some (returned 16 digits))
    × (length digits ≡ 16)
    × (value 10 0 digits ≡ 4_000_000_000)
vprintf-unsigned_example = vprintf-unsigned 256 4_000_000_000 (omega arith) (omega arith)
