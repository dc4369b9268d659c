-- ===== src/Numbers/Count.antt =====
-- The loop of `ntostr` that counts the digits of a number.
use feline_os.Base.{
  ℕ, zero, suc, ◌+◌, ◌*◌, ◌%◌, ◌≤◌, ◌≡◌, refl, true, false, none, leb, ◌==◌, arith,
}
use feline_os.Numbers.{u64_mod, count_digits, ntostr}

module _ (num : ℕ) where
  -- From `n` on the loop does not end, whatever its fuel.
  pub Spins : ℕ → Type 0
  Spins n = (fuel str_len : ℕ) → count_digits fuel num 16 n str_len ≡ none

  Spins-zero : Spins 0
  unfolding Spins count_digits
  Spins-zero zero str_len = refl
  Spins-zero (suc fuel) str_len = ground (arith, Spins-zero fuel (str_len + 1))

  Spins-step : (n : ℕ) → n ≤ num → Spins (n * 16 % u64_mod) → Spins n
  unfolding Spins count_digits
  Spins-step n le h zero str_len = refl
  Spins-step n le h (suc fuel) str_len =
      let small : leb n num ≡ true = ground arith in simp small (h fuel (str_len + 1))

  Spins-one : 1_152_921_504_606_846_976 ≤ num → Spins 1
  Spins-one le = Spins-step 1 (omega arith) (
      Spins-step 16 (omega arith) (
        Spins-step 256 (omega arith) (
          Spins-step 4_096 (omega arith) (
            Spins-step 65_536 (omega arith) (
              Spins-step 1_048_576 (omega arith) (
                Spins-step 16_777_216 (omega arith) (
                  Spins-step 268_435_456 (omega arith) (
                    Spins-step 4_294_967_296 (omega arith) (
                      Spins-step 68_719_476_736 (omega arith) (
                        Spins-step 1_099_511_627_776 (omega arith) (
                          Spins-step 17_592_186_044_416 (omega arith) (
                            Spins-step 281_474_976_710_656 (omega arith) (
                              Spins-step 4_503_599_627_370_496 (omega arith) (
                                Spins-step 72_057_594_037_927_936 (omega arith)
                                  (Spins-step 1_152_921_504_606_846_976 le Spins-zero)))))))))))))))

  -- In base 16, `ntostr` does not end for a number from 2 ^ 60 on: the power that it counts with wraps
  -- to 0, and stays there.
  pub ntostr-spins :
      (fuel min_width : ℕ) → 1_152_921_504_606_846_976 ≤ num → ntostr fuel num 16 min_width ≡ none
  unfolding ntostr Spins
  ntostr-spins fuel min_width le =
      let ne : (num == 0) ≡ false = ground arith in simp (ne, Spins-one le fuel 0) refl
