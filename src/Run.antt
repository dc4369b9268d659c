-- ===== src/Run.antt =====
-- Kernel code as commands over a state: a result with the new state, `std::abort` (a failed assertion
-- too), or a call that does not return: a lock that is never got, or a loop beyond its fuel.
pub mod Sequence
pub mod Ends
use feline_os.Base.{◌≡◌, ap, Bool, true, false}

pub data Run (S A : Type 0) : Type 0 where
  done : A → S → Run S A
  aborted : Run S A
  stuck : Run S A

abbrev pub Cmd : Type 0 → Type 0 → Type 0
Cmd S A = S → Run S A

module _ {S : Type 0} where
  abbrev pub pure : {A : Type 0} → A → Cmd S A
  pure a s = done a s

  infixl 5 ◌>>=◌ ◌>>◌
  abbrev pub ◌>>=◌ : {A B : Type 0} → Cmd S A → (A → Cmd S B) → Cmd S B
  ◌>>=◌ m f s = elim (m s) [ done a t ↦ f a t | aborted ↦ aborted | stuck ↦ stuck ]

  abbrev pub ◌>>◌ : {B : Type 0} → Cmd S (Unit {0}) → Cmd S B → Cmd S B
  m >> k = m >>= λ _. k

  abbrev pub abort : {A : Type 0} → Cmd S A
  abort s = aborted

  abbrev pub get : Cmd S S
  get s = done s s

  abbrev pub modify : (S → S) → Cmd S (Unit {0})
  modify f s = done tt (f s)

  abbrev pub assert : Bool → Cmd S (Unit {0})
  assert true s = done tt s
  assert false s = aborted

  -- What follows a call that ends.
  pub bind-done :
      {A B : Type 0} (m : Cmd S A) (f : A → Cmd S B) (s t : S) (a : A)
      → m s ≡ done a t
      → (m >>= f) s ≡ f a t
  bind-done m f s t a h =
      ap (λ r. elim r [ done x y ↦ f x y | aborted ↦ aborted | stuck ↦ stuck ]) h
