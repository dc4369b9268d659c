-- ===== src/Logger/Digits.antt =====
-- `itostr` on the numbers of a source location, which have 32 bits.
use feline_os.Base.{
  ℕ, suc, ◌*◌, ◌+◌, ◌%◌, ◌<◌, ◌≡◌, refl, false, some, List, [], ◌∷◌, leb, ltb, ◌==◌, if◌then◌else◌,
  Bool-cases, ◌⊎◌, inl, inr, arith, u32_mod,
}
use feline_os.Numbers.{u64_mod, count_digits, write_digits, ntostr}
use feline_os.Logger.{dec}

module _ (num : ℕ) where
  -- The loop that counts digits ends from `n` on, by `fuel` steps.
  abbrev Counts : ℕ → ℕ → Type 0
  Counts fuel n = (k : ℕ) → (d : ℕ) × (count_digits fuel num 10 n k ≡ some d)

  Counts-end : (fuel n : ℕ) → num < n → Counts (suc fuel) n
  unfolding count_digits
  Counts-end fuel n lt k = let large : leb n num ≡ false = ground arith in (k, simp large refl)

  Counts-step : (fuel n : ℕ) → Counts fuel (n * 10 % u64_mod) → Counts (suc fuel) n
  unfolding count_digits
  Counts-step fuel n next k = elim (Bool-cases (leb n num)) [
    | inl more ↦ let (d, run) = next (k + 1) in (d, simp more run)
    | inr over ↦ (k, simp over refl)
  ]

  Counts-one : num < u32_mod → Counts 11 1
  Counts-one lt = Counts-step 10 1 (
      Counts-step 9 10 (
        Counts-step 8 100 (
          Counts-step 7 1_000 (
            Counts-step 6 10_000 (
              Counts-step 5 100_000 (
                Counts-step 4 1_000_000 (
                  Counts-step 3 10_000_000 (
                    Counts-step 2 100_000_000 (
                      Counts-step 1 1_000_000_000
                        (Counts-end 0 10_000_000_000 (omega arith)))))))))))

  -- Either 0, or what the second loop of `ntostr` writes.
  pub dec-digits :
      num < u32_mod
      → (str : List ℕ) × (dec 11 num 1 ≡ some str)
        × ((str ≡ 48 ∷ []) ⊎ ((width : ℕ) × (str ≡ write_digits width num 10 1 [])))
  unfolding ntostr
  dec-digits lt = elim (Bool-cases (num == 0)) [
    | inl none_left ↦ (48 ∷ [], simp none_left refl, inl refl)
    | inr some_left ↦
        let (d, counted) = Counts-one lt 0 in
        let width = if ltb d 1 then 1 else d in
        (write_digits width num 10 1 [], simp (some_left, counted) refl, inr (width, refl))
  ]

  pub dec-ends : num < u32_mod → (str : List ℕ) × (dec 11 num 1 ≡ some str)
  dec-ends lt = let (str, run, made) = dec-digits lt in (str, run)
