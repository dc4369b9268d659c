-- ===== src/Numbers/Value.antt =====
-- The value of the digits that `ntostr` writes.
use feline_os.Base.{
  ℕ, zero, suc, ◌+◌, ◌-◌, ◌*◌, ◌/◌, ◌%◌, ◌^◌, ◌≤◌, ◌<◌, ◌≡◌, refl, sym, ap, ◌∙◌, subst, inl, inr,
  Bool-cases, Bool, true, some, ◌&&◌, List, [], ◌∷◌, length, ltb, ◌==◌, arith,
}
use native.Mathlib.Nat.{
  pow-zero, pow-suc, mod-eq_of_lt, div-div-eq-div-mul, div-lt_iff_lt-mul, mod-add-div',
}
use feline_os.Numbers.{u64_mod, write_digits, ntostr_buffer}

-- The number that digits stand for, the first one in front, behind digits that stand for `n`.
abbrev pub value : ℕ → ℕ → List ℕ → ℕ
value base n [] = n
value base n (c ∷ cs) = value base (n * base + (c - 48)) cs

-- The powers of the base that `offset` digits divide by, from `d` on, do not wrap around.
powers_fit : ℕ → ℕ → ℕ → Bool
powers_fit base zero d = true
powers_fit base (suc zero) d = true
powers_fit base (suc (suc o)) d = ltb (d * base) u64_mod && powers_fit base (suc o) (d * base)

write_digits-value :
    (base num offset d q : ℕ) (str : List ℕ)
    → 2 ≤ base
    → powers_fit base offset d ≡ true
    → num / d ≡ q
    → q < base ^ offset
    → value base 0 (write_digits offset num base d str) ≡ value base q str
unfolding write_digits powers_fit
write_digits-value base num zero d q str two fits e lt =
    ap (λ n. value base n str) (omega (arith, pow-zero base))
write_digits-value base num (suc zero) d q str two fits e lt =
    let small : q < base =
      omega (arith, subst (λ p. q < p) (pow-suc base 0 ∙ ap (λ p. p * base) (pow-zero base)) lt) in
    ap (λ n. value base n str) (omega (arith, ap (λ n. n % base) e, mod-eq_of_lt small))
write_digits-value base num (suc (suc o)) d q str two fits e lt =
    let below : d * base < u64_mod = ground arith in
    let rest : powers_fit base (suc o) (d * base) ≡ true = ground arith in
    let quotient : num / (d * base) ≡ q / base =
      sym (div-div-eq-div-mul num d base) ∙ ap (λ n. n / base) e in
    let less : q / base < base ^ suc o =
      (div-lt_iff_lt-mul (omega arith)).1 (subst (λ p. q < p) (pow-suc base (suc o)) lt) in
    let digit = num / d % base + 48 in
    let whole : q / base * base + (num / d % base + 48 - 48) ≡ q =
      omega (arith, ap (λ n. n % base) e, mod-add-div' q base) in
    ap (λ p. value base 0 (write_digits (suc o) num base p (digit ∷ str))) (mod-eq_of_lt below)
    ∙ write_digits-value base num (suc o) (d * base) (q / base) (digit ∷ str) two rest quotient less
    ∙ ap (λ n. value base n str) whole

-- For every base up to a bound.
all_fit : ℕ → Bool
all_fit zero = true
all_fit (suc n) = powers_fit (suc n) 16 1 && all_fit n

all_fit-at : (n base : ℕ) → all_fit n ≡ true → 1 ≤ base → base ≤ n → powers_fit base 16 1 ≡ true
unfolding all_fit
all_fit-at zero base all pos le = absurd (omega arith)
all_fit-at (suc n) base all pos le = elim (Bool-cases (base == suc n)) [
  | inl e ↦
      let at : suc n ≡ base = ground arith in
      subst (λ b. powers_fit b 16 1 ≡ true) at (ground arith)
  | inr e ↦ all_fit-at n base (ground arith) pos (ground arith)
]

all_sixteen : all_fit 16 ≡ true
unfolding all_fit powers_fit
all_sixteen = refl

pub write_digits-length :
    (num base offset d : ℕ) (str : List ℕ)
    → length (write_digits offset num base d str) ≡ offset + length str
unfolding write_digits
write_digits-length num base zero d str = omega arith
write_digits-length num base (suc o) d str =
    omega (arith, write_digits-length num base o (d * base % u64_mod) ((num / d % base + 48) ∷ str))

pub sixteen_digits-value :
    (num base : ℕ)
    → 2 ≤ base
    → base ≤ 16
    → num < base ^ 16
    → value base 0 (write_digits 16 num base 1 []) ≡ num
sixteen_digits-value num base two le lt =
    write_digits-value base num 16 1 num [] two (all_fit-at 16 base all_sixteen (omega arith) le)
      (omega arith) lt

-- In a base from 2 to 16, `ntostr` to a buffer writes 16 digits for a number that has at most 16: their
-- value in that base is the number.
pub ntostr_buffer-value :
    (num base : ℕ)
    → 2 ≤ base
    → base ≤ 16
    → num < base ^ 16
    → (digits : List ℕ) × (ntostr_buffer num base ≡ some digits)
      × (length digits ≡ 16)
      × (value base 0 digits ≡ num)
unfolding ntostr_buffer
ntostr_buffer-value num base two le lt = (
  write_digits 16 num base 1 [],
  ground arith,
  write_digits-length num base 16 1 [],
  sixteen_digits-value num base two le lt,
)
