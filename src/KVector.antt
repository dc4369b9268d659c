-- ===== src/KVector.antt =====
-- system/libFeline/include/feline/kvector.h and system/libFeline/src/vector/kvector.cpp: the kernel's
-- vector. Its storage is a function from indices; that of a new allocation is a parameter, `fresh`. An
-- iterator is its index. A size is cut to 32 bits. `moved` is what moving out of an object leaves of it. Destructors have no effect
-- here, and the allocator gives what it is asked for.
pub mod Items
pub mod Storage
pub mod Laws
use feline_os.Base.{
  ℕ, zero, suc, ◌+◌, ◌-◌, Bool, true, false, Option, none, some, List, [], ◌∷◌, ltb, leb, ◌==◌,
  if◌then◌else◌, wrap32,
}

pub record KVector (A : Type 0) : Type 0 where
  pub items : ℕ → A
  pub num_items : ℕ
  pub m_capacity : ℕ

module _ {A : Type 0} where
  unfoldable pub empty : (ℕ → A) → KVector A
  empty nothing = record { items = nothing; num_items = 0; m_capacity = 0 }

  -- `get` and `operator[]`; none is the fatal error of `check_index`.
  unfoldable pub get : ℕ → KVector A → Option A
  get index v = if ltb index v.num_items then some (v.items index) else none

  unfoldable pub set : A → ℕ → KVector A → Option (KVector A)
  set item index v =
      if ltb index v.num_items
      then some (record v { items = λ i. if i == index then item else v.items i })
      else none

  unfoldable pub reserve : (ℕ → A) → ℕ → KVector A → KVector A
  reserve fresh num v = if leb num v.m_capacity then v else record v {
    items = λ i. if ltb i v.num_items then v.items i else fresh i;
    m_capacity = num;
  }

  unfoldable pub push_back : (ℕ → A) → A → KVector A → KVector A
  unfolding reserve
  push_back fresh item v =
      let w = reserve fresh (wrap32 (v.num_items + 1)) v in
      record w {
        items = λ i. if i == w.num_items then item else w.items i;
        num_items = wrap32 (w.num_items + 1);
      }

  -- `n` objects from index `at` on, each moved out of `item`.
  unfoldable pub fill : (A → A) → ℕ → ℕ → A → (ℕ → A) → ℕ → A
  fill moved zero at item items = items
  fill moved (suc n) at item items =
      fill moved n (at + 1) (moved item) (λ i. if i == wrap32 at then item else items i)

  -- `append(item, count)`
  unfoldable pub append_item : (ℕ → A) → (A → A) → A → ℕ → KVector A → KVector A
  unfolding reserve fill
  append_item fresh moved item count v =
      let w = reserve fresh (wrap32 (v.num_items + count)) v in
      record w {
        items = fill moved count w.num_items item w.items;
        num_items = wrap32 (w.num_items + count);
      }

  -- `append(other)`
  unfoldable pub append : (ℕ → A) → KVector A → KVector A → KVector A
  unfolding reserve
  append fresh other v =
      let w = reserve fresh (wrap32 (v.num_items + other.num_items)) v in
      record w {
        items = λ i. if ltb i w.num_items then w.items i else other.items (i - w.num_items);
        num_items = wrap32 (w.num_items + other.num_items);
      }

  -- `erase(first, last)`, with the iterator that it returns. The objects behind keep their old storage.
  unfoldable pub erase_range : ℕ → ℕ → KVector A → ℕ × KVector A
  erase_range first last v = if first == last then (last, v) else (
    last,
    record v {
      items = λ i.
          if leb first i
          then if ltb (i + (last - first)) v.num_items
            then v.items (i + (last - first))
            else v.items i
          else v.items i;
      num_items = v.num_items - (last - first);
    },
  )

  -- `erase(pos)`
  unfoldable pub erase : ℕ → KVector A → ℕ × KVector A
  erase pos v = if pos == v.num_items then (pos, v) else (
    pos,
    record v {
      items = λ i.
          if leb pos i
          then if ltb (i + 1) v.num_items then v.items (i + 1) else v.items i
          else v.items i;
      num_items = v.num_items - 1;
    },
  )

  unfoldable pub clear : KVector A → KVector A
  clear v = record v { num_items = 0 }

  -- `swap`, and the move that is made of it.
  unfoldable pub swap : KVector A × KVector A → KVector A × KVector A
  swap (first, second) = (second, first)
