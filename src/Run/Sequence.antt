-- ===== src/Run/Sequence.antt =====
-- Commands run one after another, and a list of them.
use feline_os.Base.{◌≡◌, refl, ap, fun_ext, ◌∙◌, List, [], ◌∷◌, ◌++◌}
use feline_os.Run.{Run, Cmd, done, aborted, stuck, pure, ◌>>=◌, ◌>>◌, bind-done}

module _ {S : Type 0} where
  after_run :
      {A : Type 0} (g : A → Cmd S A) (l : Cmd S (Unit {0})) (q r : A) (u : Run S (Unit {0}))
      → ((s' : S) → g q s' ≡ (l >>= λ _. pure r) s')
      → ((λ (s : S). elim u as (λ v. Run S A) [
        | done a t ↦ done q t
        | aborted ↦ aborted
        | stuck ↦ stuck
      ])
          >>= g)
        ≡ ((λ (s : S). u) >> l >>= λ _. pure r)
  after_run g l q r (done tt t) second = fun_ext (λ s. second t)
  after_run g l q r aborted second = refl
  after_run g l q r stuck second = refl

  -- A command that does what `k` does and gives `q`, and then one that does what `l` does and gives `r`.
  pub bind-steps :
      {A : Type 0} (f : Cmd S A) (g : A → Cmd S A) (k l : Cmd S (Unit {0})) (q r : A) (s : S)
      → f s ≡ (k >>= λ _. pure q) s
      → ((s' : S) → g q s' ≡ (l >>= λ _. pure r) s')
      → (f >>= g) s ≡ ((k >> l) >>= λ _. pure r) s
  bind-steps {A} f g k l q r s first second =
      ap (λ u. elim u as (λ v. Run S A) [ done a t ↦ g a t | aborted ↦ aborted | stuck ↦ stuck ])
        first
      ∙ ap (λ h. h s) (after_run g l q r (k s) second)

  pub call_run :
      {A : Type 0} (g : Cmd S A) (l : Cmd S (Unit {0})) (r : A) (u : Run S (Unit {0}))
      → ((s' : S) → g s' ≡ (l >>= λ _. pure r) s')
      → ((λ (s : S). u) >> g) ≡ ((λ (s : S). u) >> l >>= λ _. pure r)
  call_run g l r (done tt t) second = fun_ext (λ s. second t)
  call_run g l r aborted second = refl
  call_run g l r stuck second = refl

  pub drop_result :
      {A : Type 0} (u : Run S (Unit {0})) (r : A)
      → (elim (elim u as (λ v. Run S A) [ done a t ↦ done r t | aborted ↦ aborted | stuck ↦ stuck ])
          as (λ v. Run S (Unit {0})) [ done a t ↦ done tt t | aborted ↦ aborted | stuck ↦ stuck ])
        ≡ u
  drop_result (done tt t) r = refl
  drop_result aborted r = refl
  drop_result stuck r = refl

  abbrev pub run_all : {A : Type 0} → (A → Cmd S (Unit {0})) → List A → Cmd S (Unit {0})
  run_all f [] = pure tt
  run_all f (a ∷ rest) = f a >> run_all f rest

  bind_assoc_run :
      (g h k : Cmd S (Unit {0})) (u : Run S (Unit {0}))
      → ((t : S) → k t ≡ (g >> h) t)
      → ((λ (s : S). u) >> k) ≡ ((λ (s : S). u) >> g >> h)
  bind_assoc_run g h k (done tt t) same = fun_ext (λ s. same t)
  bind_assoc_run g h k aborted same = refl
  bind_assoc_run g h k stuck same = refl

  pub run_all-append :
      {A : Type 0} (f : A → Cmd S (Unit {0})) (xs ys : List A) (s : S)
      → run_all f (xs ++ ys) s ≡ (run_all f xs >> run_all f ys) s
  run_all-append f [] ys s = refl
  run_all-append f (x ∷ xs) ys s =
      ap (λ l. l s)
        (bind_assoc_run (run_all f xs) (run_all f ys) (run_all f (xs ++ ys)) (f x s)
          (run_all-append f xs ys))

  pub run_all-step :
      {A : Type 0} (f : A → Cmd S (Unit {0})) (a : A) (rest : List A) (s t : S)
      → f a s ≡ done tt t
      → run_all f (a ∷ rest) s ≡ run_all f rest t
  run_all-step f a rest s t first = bind-done (f a) (λ _. run_all f rest) s t tt first
