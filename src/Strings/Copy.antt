-- ===== src/Strings/Copy.antt =====
-- What `memset`, `memcpy` and `memmove` leave in memory.
use feline_os.Base.{
  ℕ, zero, suc, ◌+◌, ◌%◌, ◌≤◌, ◌<◌, ◌≡◌, ◌⊎◌, inl, inr, refl, ◌∙◌, false, ltb, leb, ◌==◌, ◌&&◌,
  if◌then◌else◌, arith, Bool-cases,
}
use feline_os.Strings.{Bytes, poke, memset, memset_loop, memcpy, memmove, copy_up, copy_down}

-- `m'` is `m` but for the `n` bytes from `dst` on, which are those that `m` has from `src` on.
pub record IsCopy (dst src n : ℕ) (m m' : Bytes) : Type 0 where
  pub copied : (i : ℕ) → i < n → m' (dst + i) ≡ m (src + i)
  pub kept : (q : ℕ) → (leb dst q && ltb q (dst + n)) ≡ false → m' q ≡ m q

copy_up-kept :
    (n i dst src q : ℕ) (m : Bytes)
    → (leb (dst + i) q && ltb q (dst + i + n)) ≡ false
    → copy_up n i dst src m q ≡ m q
unfolding copy_up poke
copy_up-kept zero i dst src q m h = refl
copy_up-kept (suc n) i dst src q m h =
    copy_up-kept n (i + 1) dst src q (poke m (dst + i) (m (src + i))) (ground arith) ∙ ground arith

copy_up-copied :
    (n i dst src j : ℕ) (m : Bytes)
    → (dst ≤ src) ⊎ (src + i + n ≤ dst + i)
    → i ≤ j
    → j < i + n
    → copy_up n i dst src m (dst + j) ≡ m (src + j)
unfolding copy_up poke
copy_up-copied zero i dst src j m h le lt = absurd (omega arith)
copy_up-copied (suc n) i dst src j m h le lt =
    let m' = poke m (dst + i) (m (src + i)) in
    elim (Bool-cases (i == j)) [
      | inl e ↦ copy_up-kept n (i + 1) dst src (dst + j) m' (ground arith) ∙ ground arith
      | inr e ↦
          copy_up-copied n (i + 1) dst src j m' (ground arith) (ground arith) (ground arith)
          ∙ ground arith
    ]

copy_down-kept :
    (n dst src q : ℕ) (m : Bytes)
    → (leb dst q && ltb q (dst + n)) ≡ false
    → copy_down n dst src m q ≡ m q
unfolding copy_down poke
copy_down-kept zero dst src q m h = refl
copy_down-kept (suc n) dst src q m h =
    copy_down-kept n dst src q (poke m (dst + n) (m (src + n))) (ground arith) ∙ ground arith

copy_down-copied :
    (n dst src j : ℕ) (m : Bytes)
    → src ≤ dst
    → j < n
    → copy_down n dst src m (dst + j) ≡ m (src + j)
unfolding copy_down poke
copy_down-copied zero dst src j m h lt = absurd (omega arith)
copy_down-copied (suc n) dst src j m h lt =
    let m' = poke m (dst + n) (m (src + n)) in
    elim (Bool-cases (n == j)) [
      | inl e ↦ copy_down-kept n dst src (dst + j) m' (ground arith) ∙ ground arith
      | inr e ↦ copy_down-copied n dst src j m' h (ground arith) ∙ ground arith
    ]

-- `memmove` copies all the bytes, whether the two areas overlap or not, and changes no other byte.
pub memmove-IsCopy : (dst src n : ℕ) (m : Bytes) → IsCopy dst src n m (memmove dst src n m)
unfolding memmove
memmove-IsCopy dst src n m = elim (Bool-cases (ltb dst src)) [
  | inl e ↦ record {
    copied = λ i lt.
        ground (
          arith,
          e,
          copy_up-copied n 0 dst src i m (inl (ground arith)) (omega arith) (omega arith),
        );
    kept = λ q h. ground (arith, e, copy_up-kept n 0 dst src q m (ground arith));
  }
  | inr e ↦ record {
    copied = λ i lt. ground (arith, e, copy_down-copied n dst src i m (ground arith) lt);
    kept = λ q h. ground (arith, e, copy_down-kept n dst src q m h);
  }
]

-- `memcpy` copies all the bytes when the areas do not overlap, or the destination begins first, and
-- changes no other byte.
pub memcpy-IsCopy :
    (dst src n : ℕ) (m : Bytes)
    → (dst ≤ src) ⊎ (src + n ≤ dst)
    → IsCopy dst src n m (memcpy dst src n m)
unfolding memcpy
memcpy-IsCopy dst src n m apart = record {
  copied = λ i lt. copy_up-copied n 0 dst src i m (ground arith) (omega arith) (omega arith);
  kept = λ q h. copy_up-kept n 0 dst src q m (ground arith);
}

memset_loop_lem :
    (n i buf value q : ℕ) (m : Bytes)
    → memset_loop n i buf value m q
      ≡ (if leb (buf + i) q && ltb q (buf + i + n) then value % 256 else m q)
unfolding memset_loop poke
memset_loop_lem zero i buf value q m = ground arith
memset_loop_lem (suc n) i buf value q m =
    memset_loop_lem n (i + 1) buf value q (poke m (buf + i) (value % 256)) ∙ ground arith

-- `memset` writes the low byte of `value` to the bytes of its area, and to no other.
pub memset_lem :
    (buf value n q : ℕ) (m : Bytes)
    → memset buf value n m q ≡ (if leb buf q && ltb q (buf + n) then value % 256 else m q)
unfolding memset
memset_lem buf value n q m = memset_loop_lem n 0 buf value q m ∙ ground arith
