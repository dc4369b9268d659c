-- ===== src/Logger/Copy.antt =====
-- `kout::do_write`: the strings that are copied into one.
use feline_os.Base.{
  ℕ, zero, suc, ◌+◌, ◌<◌, ◌≡◌, refl, ap, sym, ◌∙◌, true, some, List, [], ◌∷◌, ◌++◌, length, set,
  ltb, arith, length-append,
}
use feline_os.Logger.{nulls, copy_at, copy_strings, total_length}

abbrev pub concat : List (List ℕ) → List ℕ
concat [] = []
concat (str ∷ strs) = str ++ concat strs

pub append_assoc : (a b c : List ℕ) → (a ++ b) ++ c ≡ a ++ (b ++ c)
append_assoc [] b c = refl
append_assoc (x ∷ a) b c = ap (λ l. x ∷ l) (append_assoc a b c)

pub append_nil : (a : List ℕ) → a ++ [] ≡ a
append_nil [] = refl
append_nil (x ∷ a) = ap (λ l. x ∷ l) (append_nil a)

pub concat-append : (xs ys : List (List ℕ)) → concat (xs ++ ys) ≡ concat xs ++ concat ys
concat-append [] ys = refl
concat-append (x ∷ xs) ys =
    ap (λ l. x ++ l) (concat-append xs ys) ∙ sym (append_assoc x (concat xs) (concat ys))

set-append : (a b : List ℕ) (x c : ℕ) → set (a ++ (x ∷ b)) (length a) c ≡ a ++ (c ∷ b)
set-append [] b x c = refl
set-append (y ∷ a) b x c = ap (λ l. y ∷ l) (set-append a b x c)

copy_at-nulls :
    (str a : List ℕ) (i n rest : ℕ)
    → i ≡ length a
    → n ≡ length str + rest
    → copy_at str i (a ++ nulls n) ≡ (a ++ str) ++ nulls rest
unfolding copy_at
copy_at-nulls [] a i n rest at len =
    let e : n ≡ rest = omega arith in rw e (ap (λ l. l ++ nulls rest) (sym (append_nil a)))
copy_at-nulls (c ∷ cs) a i zero rest at len = absurd (omega arith)
copy_at-nulls (c ∷ cs) a i (suc n) rest at len =
    ap (λ q. copy_at cs (i + 1) (set (a ++ nulls (suc n)) q c)) at
    ∙ ap (λ l. copy_at cs (i + 1) l)
        (set-append a (nulls n) 0 c ∙ sym (append_assoc a (c ∷ []) (nulls n)))
    ∙ copy_at-nulls cs (a ++ (c ∷ [])) (i + 1) n rest (omega (arith, length-append a (c ∷ [])))
        (omega arith)
    ∙ ap (λ l. l ++ nulls rest) (append_assoc a (c ∷ []) cs)

length-nulls : (n : ℕ) → length (nulls n) ≡ n
length-nulls zero = refl
length-nulls (suc n) = ap suc (length-nulls n)

total_length-end : (strs : List (List ℕ)) (last : ℕ) → 0 < total_length (strs ++ ((last ∷ []) ∷ []))
total_length-end [] last = omega arith
total_length-end (str ∷ strs) last = omega (arith, total_length-end strs last)

-- One after another, where a string that is not empty comes last: then no index is out of bounds.
pub copy_strings-concat :
    (strs : List (List ℕ)) (last : ℕ) (a : List ℕ) (i n : ℕ)
    → i ≡ length a
    → n ≡ total_length (strs ++ ((last ∷ []) ∷ []))
    → copy_strings (strs ++ ((last ∷ []) ∷ [])) i (a ++ nulls n)
      ≡ some (a ++ concat (strs ++ ((last ∷ []) ∷ [])))
unfolding copy_strings
copy_strings-concat [] last a i n at len =
    let inside : ltb i (length (a ++ nulls n)) ≡ true =
      ground (arith, at, len, length-append a (nulls n), length-nulls n) in
    simp inside
      (ap some (copy_at-nulls (last ∷ []) a i n 0 at (omega arith) ∙ append_nil (a ++ (last ∷ []))))
copy_strings-concat (str ∷ strs) last a i n at len =
    let more = total_length (strs ++ ((last ∷ []) ∷ [])) in
    let inside : ltb i (length (a ++ nulls n)) ≡ true =
      ground
        (arith, at, len, length-append a (nulls n), length-nulls n, total_length-end strs last) in
    simp inside (
      ap (λ l. copy_strings (strs ++ ((last ∷ []) ∷ [])) (i + length str) l)
        (copy_at-nulls str a i n more at (omega arith))
      ∙ copy_strings-concat strs last (a ++ str) (i + length str) more
          (omega (arith, length-append a str)) refl
      ∙ ap some (append_assoc a str (concat (strs ++ ((last ∷ []) ∷ [])))))
