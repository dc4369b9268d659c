-- ===== src/KVector/Items.antt =====
-- The items of the vector's storage, from an index on, as a list.
use feline_os.Base.{
  zero_plus, plus_zero, plus_suc, ℕ, zero, suc, ◌+◌, ◌-◌, ◌≤◌, ◌<◌, ◌≡◌, refl, sym, ap, ap₂, ◌∙◌,
  none, some, List, [], ◌∷◌, ◌++◌, arith, get_elem?, remove_at, ltb, if◌then◌else◌,
}
use feline_os.KVector.{KVector}

suc_plus : (n k : ℕ) → suc n + k ≡ suc (n + k)
suc_plus n k = omega arith

pub suc_pred : (n k : ℕ) → k < n → suc (n - 1) ≡ n
suc_pred n k lt = omega arith

module _ {A : Type 0} where
  -- The `n` items from index `i` on.
  abbrev pub items_from : ℕ → ℕ → (ℕ → A) → List A
  items_from zero i f = []
  items_from (suc n) i f = f i ∷ items_from n (i + 1) f

  abbrev pub to_list : KVector A → List A
  to_list v = items_from v.num_items 0 v.items

  pub items_from-same :
      (n i j : ℕ) (f g : ℕ → A)
      → ((k : ℕ) → k < n → f (i + k) ≡ g (j + k))
      → items_from n i f ≡ items_from n j g
  items_from-same zero i j f g same = refl
  items_from-same (suc n) i j f g same =
      ap₂ (λ (x : A) xs. x ∷ xs)
        (ap f (sym (plus_zero i)) ∙ same 0 (omega arith) ∙ ap g (plus_zero j))
        (items_from-same n (i + 1) (j + 1) f g
          (λ k lt. ap f (sym (plus_suc i k)) ∙ same (suc k) (omega arith) ∙ ap g (plus_suc j k)))

  pub items_from-append :
      (n m i : ℕ) (f : ℕ → A) → items_from (n + m) i f ≡ items_from n i f ++ items_from m (i + n) f
  items_from-append zero m i f = ap₂ (λ n k. items_from n k f) (zero_plus m) (sym (plus_zero i))
  items_from-append (suc n) m i f =
      ap (λ k. items_from k i f) (suc_plus n m)
      ∙ ap (λ xs. f i ∷ xs)
          (items_from-append n m (i + 1) f
            ∙ ap (λ k. items_from n (i + 1) f ++ items_from m k f) (sym (plus_suc i n)))

  pub get_elem?-items :
      (n i index : ℕ) (f : ℕ → A)
      → get_elem? (items_from n i f) index ≡ (if ltb index n then some (f (i + index)) else none)
  get_elem?-items zero i index f = ground arith
  get_elem?-items (suc n) i zero f = ap (λ k. some (f k)) (sym (plus_zero i)) ∙ ground arith
  get_elem?-items (suc n) i (suc index) f =
      get_elem?-items n (i + 1) index f
      ∙ ap (λ k. if ltb index n then some (f k) else none) (sym (plus_suc i index))
      ∙ ground arith

  -- Storage `g` without the item of `f` at an index.
  pub remove_at-items :
      (n i pos : ℕ) (f g : ℕ → A)
      → pos ≤ n
      → ((k : ℕ) → k < pos → g (i + k) ≡ f (i + k))
      → ((k : ℕ) → pos ≤ k → k < n → g (i + k) ≡ f (i + 1 + k))
      → items_from n i g ≡ remove_at (items_from (suc n) i f) pos
  remove_at-items n i zero f g le before after =
      items_from-same n i (i + 1) g f (λ k lt. after k (omega arith) lt)
  remove_at-items zero i (suc pos) f g le before after = absurd (omega arith)
  remove_at-items (suc n) i (suc pos) f g le before after =
      ap₂ (λ (x : A) xs. x ∷ xs)
        (ap g (sym (plus_zero i)) ∙ before 0 (omega arith) ∙ ap f (plus_zero i))
        (remove_at-items n (i + 1) pos f g (omega arith)
          (λ k lt. ap g (sym (plus_suc i k)) ∙ before (suc k) (omega arith) ∙ ap f (plus_suc i k))
          (λ k le lt.
            ap g (sym (plus_suc i k))
            ∙ after (suc k) (omega arith) (omega arith)
            ∙ ap f (plus_suc (i + 1) k)))
