-- ===== src/Tests/Vectors.antt =====
-- The theorem on the kernel's vector.
use feline_os.Base.{ℕ, ◌≡◌, some, [], ◌∷◌, if◌then◌else◌, ◌==◌, arith}
use feline_os.KVector.{KVector, get, push_back, append, append_item, erase}
use feline_os.KVector.Items.{to_list}
use feline_os.KVector.Storage.{IsKVector}
use feline_os.KVector.Laws.{operations-to_list}

-- 5 and 7, in storage for three.
abbrev pair_of_numbers : KVector ℕ
pair_of_numbers = record { items = λ i. if i == 0 then 5 else 7; num_items = 2; m_capacity = 3 }

operations-to_list_example :
    (get 1 pair_of_numbers ≡ some 7)
    × (to_list (push_back (λ i. 0) 9 pair_of_numbers) ≡ 5 ∷ 7 ∷ 9 ∷ [])
    × (to_list (append (λ i. 0) pair_of_numbers pair_of_numbers) ≡ 5 ∷ 7 ∷ 5 ∷ 7 ∷ [])
    × (to_list (append_item (λ i. 0) (λ x. 0) 9 2 pair_of_numbers) ≡ 5 ∷ 7 ∷ 9 ∷ 0 ∷ [])
    × (to_list (erase 0 pair_of_numbers).1 ≡ 7 ∷ [])
    × (IsKVector (push_back (λ i. 0) 9 pair_of_numbers))
    × (IsKVector (append (λ i. 0) pair_of_numbers pair_of_numbers))
    × (IsKVector (append_item (λ i. 0) (λ x. 0) 9 2 pair_of_numbers))
    × (IsKVector (erase 0 pair_of_numbers).1)
operations-to_list_example =
    operations-to_list (λ i. 0) (λ x. 0) 9 1 2 0 pair_of_numbers pair_of_numbers (omega arith)
      (omega arith) (omega arith) (omega arith) (omega arith)
