-- ===== src/Run/Ends.antt =====
-- What holds of the results of a command, if it has one.
use feline_os.Base.{◌≡◌, ◌≢◌, refl, Bool, true, false, if◌then◌else◌}
use feline_os.Run.{Run, Cmd, done, aborted, stuck, ◌>>=◌}

module _ {S A : Type 0} where
  abbrev pub Ends : (A → S → Type 0) → Run S A → Type 0
  Ends Q (done a t) = Q a t
  Ends Q aborted = Unit {0}
  Ends Q stuck = Unit {0}

  -- A run of which nothing holds does not end with a result.
  pub Ends-never : (r : Run S A) → Ends (λ a t. ⊥) r → (a : A) (t : S) → r ≢ done a t
  Ends-never (done b u) h a t e = h
  Ends-never aborted h a t e = cc
  Ends-never stuck h a t e = cc

  pub Ends-if :
      (Q : A → S → Type 0) (b : Bool) (m k : Cmd S A) (s : S)
      → (b ≡ true → Ends Q (m s))
      → (b ≡ false → Ends Q (k s))
      → Ends Q ((if b then m else k) s)
  Ends-if Q true m k s h l = h refl
  Ends-if Q false m k s h l = l refl

module _ {S A B : Type 0} where
  pub Ends-bind :
      (Q : A → S → Type 0) (R : B → S → Type 0) (m : Cmd S A) (f : A → Cmd S B) (s : S)
      → Ends Q (m s)
      → ((a : A) (t : S) → Q a t → Ends R (f a t))
      → Ends R ((m >>= f) s)
  Ends-bind Q R m f s first second = after (m s) first
    where
      after : (r : Run S A) → Ends Q r → Ends R (((λ (u : S). r) >>= f) s)
      after (done a t) h = second a t h
      after aborted h = tt
      after stuck h = tt
