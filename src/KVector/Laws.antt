-- ===== src/KVector/Laws.antt =====
-- The vector as the list of its items.
use feline_os.Base.{
  zero_plus, ℕ, zero, suc, ◌+◌, ◌-◌, ◌≤◌, ◌<◌, ◌≡◌, refl, sym, ap, ap₂, ◌∙◌, inl, inr, none, some,
  List, [], ◌∷◌, ◌++◌, arith, get_elem?, remove_at, ltb, leb, ◌==◌, Bool-cases, if◌then◌else◌,
  wrap32, u32_mod,
}
use feline_os.KVector.Storage.{
  IsKVector, reserve-room, reserve-num_items, reserve-items, equal_below, unequal_below, equal_self,
  equal_at, less_below, less_from,
}
use feline_os.KVector.Items.{
  suc_pred, items_from, to_list, items_from-same, items_from-append, get_elem?-items,
  remove_at-items,
}
use feline_os.KVector.{KVector, get, reserve, push_back, fill, append_item, append, erase}

exact : (w v n : ℕ) → w ≡ v → v + n < u32_mod → wrap32 (w + n) ≡ w + n
exact w v n same small = omega arith

module _ {A : Type 0} where
  get-to_list : (index : ℕ) (v : KVector A) → get index v ≡ get_elem? (to_list v) index
  unfolding get
  get-to_list index v = sym (
      get_elem?-items v.num_items 0 index v.items
      ∙ ap (λ k. if ltb index v.num_items then some (v.items k) else none) (zero_plus index))

  push_back-to_list :
      (fresh : ℕ → A) (x : A) (v : KVector A)
      → v.num_items + 1 < u32_mod
      → to_list (push_back fresh x v) ≡ to_list v ++ (x ∷ [])
  unfolding push_back
  push_back-to_list fresh x v small =
      let w = reserve fresh (wrap32 (v.num_items + 1)) v in
      let count = reserve-num_items fresh (wrap32 (v.num_items + 1)) v in
      ap (λ n. items_from n 0 (push_back fresh x v).items)
        (exact w.num_items v.num_items 1 count small)
      ∙ items_from-append w.num_items 1 0 (push_back fresh x v).items
      ∙ ap₂ (λ (xs : List A) (y : A). xs ++ (y ∷ []))
          (items_from-same w.num_items 0 0 (push_back fresh x v).items v.items (λ k lt.
              equal_below k w.num_items x (w.items (0 + k)) lt
              ∙ reserve-items fresh (wrap32 (v.num_items + 1)) v (0 + k) (omega arith))
            ∙ ap (λ k. items_from k 0 v.items) count)
          (equal_at w.num_items x (w.items (0 + w.num_items)))

  append-to_list :
      (fresh : ℕ → A) (other v : KVector A)
      → v.num_items + other.num_items < u32_mod
      → to_list (append fresh other v) ≡ to_list v ++ to_list other
  unfolding append
  append-to_list fresh other v small =
      let w = reserve fresh (wrap32 (v.num_items + other.num_items)) v in
      let count = reserve-num_items fresh (wrap32 (v.num_items + other.num_items)) v in
      ap (λ n. items_from n 0 (append fresh other v).items)
        (exact w.num_items v.num_items other.num_items count small)
      ∙ items_from-append w.num_items other.num_items 0 (append fresh other v).items
      ∙ ap₂ (λ (xs ys : List A). xs ++ ys)
          (items_from-same w.num_items 0 0 (append fresh other v).items v.items (λ k lt.
              less_below k w.num_items (w.items (0 + k)) (other.items (0 + k - w.num_items)) lt
              ∙ reserve-items fresh (wrap32 (v.num_items + other.num_items)) v (0 + k)
                  (omega arith))
            ∙ ap (λ k. items_from k 0 v.items) count)
          (items_from-same other.num_items (0 + w.num_items) 0 (append fresh other v).items
            other.items
            (λ k lt.
              less_from k w.num_items (w.items (0 + w.num_items + k))
                (other.items (0 + w.num_items + k - w.num_items))
              ∙ ap other.items (omega arith)))

  shifted : ℕ → KVector A → ℕ → A
  shifted pos v = λ i.
      if leb pos i
      then if ltb (i + 1) v.num_items then v.items (i + 1) else v.items i
      else v.items i

  shifted-before : (pos : ℕ) (v : KVector A) (k : ℕ) → k < pos → shifted pos v k ≡ v.items k
  unfolding shifted
  shifted-before pos v k lt = ground (arith, lt)

  shifted-after :
      (pos : ℕ) (v : KVector A) (k : ℕ)
      → pos ≤ k
      → k + 1 < v.num_items
      → shifted pos v k ≡ v.items (k + 1)
  unfolding shifted
  shifted-after pos v k le lt = ground (arith, le, lt)

  erase-items :
      (pos : ℕ) (v : KVector A) → pos < v.num_items → (erase pos v).1.items ≡ shifted pos v
  unfolding erase shifted
  erase-items pos v lt = ground (arith, lt)

  erase-num_items :
      (pos : ℕ) (v : KVector A) → pos < v.num_items → (erase pos v).1.num_items ≡ v.num_items - 1
  unfolding erase
  erase-num_items pos v lt = ground (arith, lt)

  erase-to_list :
      (pos : ℕ) (v : KVector A)
      → pos < v.num_items
      → to_list (erase pos v).1 ≡ remove_at (to_list v) pos
  erase-to_list pos v lt =
      ap₂ (λ n (f : ℕ → A). items_from n 0 f) (erase-num_items pos v lt) (erase-items pos v lt)
      ∙ remove_at-items (v.num_items - 1) 0 pos v.items (shifted pos v) (omega arith)
          (λ k before. shifted-before pos v (0 + k) (omega arith))
          (λ k after before.
            shifted-after pos v (0 + k) (omega arith) (omega arith) ∙ ap v.items (omega arith))
      ∙ ap (λ n. remove_at (items_from n 0 v.items) pos) (suc_pred v.num_items pos lt)

  -- The items that `append_item` stores: each but the first is moved out of one that was moved from before.
  abbrev pub moves : (A → A) → ℕ → A → List A
  moves moved zero item = []
  moves moved (suc n) item = item ∷ moves moved n (moved item)

  fill-below :
      (moved : A → A) (n at : ℕ) (item : A) (items : ℕ → A) (i : ℕ)
      → i < at
      → at + n ≤ u32_mod
      → fill moved n at item items i ≡ items i
  unfolding fill
  fill-below moved zero at item items i lt small = refl
  fill-below moved (suc n) at item items i lt small =
      fill-below moved n (at + 1) (moved item) (λ j. if j == wrap32 at then item else items j) i
        (omega arith) (omega arith)
      ∙ unequal_below i (wrap32 at) item (items i) (omega arith)

  fill-moves :
      (moved : A → A) (n at : ℕ) (item : A) (items : ℕ → A)
      → at + n ≤ u32_mod
      → items_from n at (fill moved n at item items) ≡ moves moved n item
  unfolding fill
  fill-moves moved zero at item items small = refl
  fill-moves moved (suc n) at item items small =
      let word : wrap32 at ≡ at = omega arith in
      ap₂ (λ (x : A) xs. x ∷ xs)
        (fill-below moved n (at + 1) (moved item) (λ j. if j == wrap32 at then item else items j) at
            (omega arith) (omega arith)
          ∙ ap (λ k. if at == k then item else items at) word
          ∙ equal_self at item (items at))
        (fill-moves moved n (at + 1) (moved item) (λ j. if j == wrap32 at then item else items j)
          (omega arith))

  append_item-to_list :
      (fresh : ℕ → A) (moved : A → A) (item : A) (count : ℕ) (v : KVector A)
      → v.num_items + count < u32_mod
      → to_list (append_item fresh moved item count v) ≡ to_list v ++ moves moved count item
  unfolding append_item
  append_item-to_list fresh moved item count v small =
      let w = reserve fresh (wrap32 (v.num_items + count)) v in
      let same_count = reserve-num_items fresh (wrap32 (v.num_items + count)) v in
      ap (λ n. items_from n 0 (append_item fresh moved item count v).items)
        (exact w.num_items v.num_items count same_count small)
      ∙ items_from-append w.num_items count 0 (append_item fresh moved item count v).items
      ∙ ap₂ (λ (xs ys : List A). xs ++ ys)
          (items_from-same w.num_items 0 0 (append_item fresh moved item count v).items v.items
              (λ k lt.
                fill-below moved count w.num_items item w.items (0 + k) (omega arith) (omega arith)
                ∙ reserve-items fresh (wrap32 (v.num_items + count)) v (0 + k) (omega arith))
            ∙ ap (λ k. items_from k 0 v.items) same_count)
          (ap (λ at. items_from count at (fill moved count w.num_items item w.items))
              (zero_plus w.num_items)
            ∙ fill-moves moved count w.num_items item w.items (omega arith))

  push_back-IsKVector :
      (fresh : ℕ → A) (item : A) (v : KVector A)
      → IsKVector v
      → v.num_items + 1 < u32_mod
      → IsKVector (push_back fresh item v)
  unfolding push_back
  push_back-IsKVector fresh item v room small =
      let enough = reserve-room fresh (wrap32 (v.num_items + 1)) v room in
      let count = reserve-num_items fresh (wrap32 (v.num_items + 1)) v in omega arith

  append-IsKVector :
      (fresh : ℕ → A) (other v : KVector A)
      → IsKVector v
      → v.num_items + other.num_items < u32_mod
      → IsKVector (append fresh other v)
  unfolding append
  append-IsKVector fresh other v room small =
      let enough = reserve-room fresh (wrap32 (v.num_items + other.num_items)) v room in
      let count = reserve-num_items fresh (wrap32 (v.num_items + other.num_items)) v in omega arith

  append_item-IsKVector :
      (fresh : ℕ → A) (moved : A → A) (item : A) (count : ℕ) (v : KVector A)
      → IsKVector v
      → v.num_items + count < u32_mod
      → IsKVector (append_item fresh moved item count v)
  unfolding append_item
  append_item-IsKVector fresh moved item count v room small =
      let enough = reserve-room fresh (wrap32 (v.num_items + count)) v room in
      let same_count = reserve-num_items fresh (wrap32 (v.num_items + count)) v in omega arith

  erase-IsKVector : (pos : ℕ) (v : KVector A) → IsKVector v → IsKVector (erase pos v).1
  unfolding erase
  erase-IsKVector pos v room = elim (Bool-cases (pos == v.num_items)) [
    | inl same ↦ ground (arith, same, room)
    | inr other ↦ ground (arith, other, room)
  ]

  -- On a vector whose storage is as large as its items, and where no number of items reaches 2 ^ 32, with the list of its items as the abstract view:
  -- `get` is indexing, and fails out of range; `push_back` adds one item at the end, `append` those of the
  -- other vector; `append_item` adds items of which each but the first is what moving out of the one before
  -- leaves; `erase` at an index of an item removes it. All leave the storage as large as the items.
  pub operations-to_list :
      (fresh : ℕ → A) (moved : A → A) (item : A) (index count pos : ℕ) (other v : KVector A)
      → IsKVector v
      → pos < v.num_items
      → v.num_items + 1 < u32_mod
      → v.num_items + other.num_items < u32_mod
      → v.num_items + count < u32_mod
      → (get index v ≡ get_elem? (to_list v) index)
        × (to_list (push_back fresh item v) ≡ to_list v ++ (item ∷ []))
        × (to_list (append fresh other v) ≡ to_list v ++ to_list other)
        × (to_list (append_item fresh moved item count v) ≡ to_list v ++ moves moved count item)
        × (to_list (erase pos v).1 ≡ remove_at (to_list v) pos)
        × (IsKVector (push_back fresh item v))
        × (IsKVector (append fresh other v))
        × (IsKVector (append_item fresh moved item count v))
        × (IsKVector (erase pos v).1)
  operations-to_list fresh moved item index count pos other v room lt one many some_more = (
    get-to_list index v,
    push_back-to_list fresh item v one,
    append-to_list fresh other v many,
    append_item-to_list fresh moved item count v some_more,
    erase-to_list pos v lt,
    push_back-IsKVector fresh item v room (omega arith),
    append-IsKVector fresh other v room (omega arith),
    append_item-IsKVector fresh moved item count v room (omega arith),
    erase-IsKVector pos v room,
  )
