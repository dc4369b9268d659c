-- ===== src/KVector/Storage.antt =====
-- The vector's storage: `reserve`, and what an index holds after a write to one or to all from one on.
use feline_os.Base.{
  ℕ, ◌+◌, ◌≤◌, ◌<◌, ◌≡◌, inl, inr, arith, ltb, leb, ◌==◌, Bool-cases, if◌then◌else◌,
}
use feline_os.KVector.{KVector, reserve}

module _ {A : Type 0} where
  -- The storage is as large as the items.
  abbrev pub IsKVector : KVector A → Type 0
  IsKVector v = v.num_items ≤ v.m_capacity

  pub reserve-room :
      (fresh : ℕ → A) (num : ℕ) (v : KVector A)
      → IsKVector v
      → num ≤ (reserve fresh num v).m_capacity
  unfolding reserve
  reserve-room fresh num v room = elim (Bool-cases (leb num v.m_capacity)) [
    | inl fits ↦ ground (arith, fits)
    | inr grows ↦ ground (arith, grows)
  ]

  pub reserve-num_items :
      (fresh : ℕ → A) (num : ℕ) (v : KVector A) → (reserve fresh num v).num_items ≡ v.num_items
  unfolding reserve
  reserve-num_items fresh num v = elim (Bool-cases (leb num v.m_capacity)) [
    | inl fits ↦ ground (arith, fits)
    | inr grows ↦ ground (arith, grows)
  ]

  pub reserve-items :
      (fresh : ℕ → A) (num : ℕ) (v : KVector A) (i : ℕ)
      → i < v.num_items
      → (reserve fresh num v).items i ≡ v.items i
  unfolding reserve
  reserve-items fresh num v i lt = elim (Bool-cases (leb num v.m_capacity)) [
    | inl fits ↦ ground (arith, fits)
    | inr grows ↦ ground (arith, grows)
  ]

  -- What the storage holds after an operation, at the indices below and from `n` on.
  pub equal_below : (k n : ℕ) (x y : A) → k < n → (if (0 + k) == n then x else y) ≡ y
  equal_below k n x y lt = ground (arith, lt)

  pub unequal_below : (k n : ℕ) (x y : A) → k < n → (if k == n then x else y) ≡ y
  unequal_below k n x y lt = ground (arith, lt)

  pub equal_self : (n : ℕ) (x y : A) → (if n == n then x else y) ≡ x
  equal_self n x y = ground arith

  pub equal_at : (n : ℕ) (x y : A) → (if (0 + n) == n then x else y) ≡ x
  equal_at n x y = ground arith

  pub less_below : (k n : ℕ) (x y : A) → k < n → (if ltb (0 + k) n then x else y) ≡ x
  less_below k n x y lt = ground (arith, lt)

  pub less_from : (k n : ℕ) (x y : A) → (if ltb (0 + n + k) n then x else y) ≡ y
  less_from k n x y = ground arith
