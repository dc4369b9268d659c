-- ===== src/Page/Laws.antt =====
-- Alignment of page objects, their arithmetic, and the number of pages that some bytes take.
use feline_os.Base.{ℕ, ◌+◌, ◌*◌, ◌%◌, ◌≤◌, ◌<◌, ◌≡◌, some, arith, u32_mod}
use feline_os.Page.{
  Page, small, page, pre_increment, pre_decrement, add_assign, sub_assign, bytes_to_pages,
}

-- An aligned page, in the range of a 32-bit address.
pub record IsAligned (p : Page) : Type 0 where
  pub aligned : p.addr % 4_096 ≡ 0
  pub word : p.addr < u32_mod

pub page-IsAligned : (a : ℕ) → a < u32_mod → IsAligned (page a)
unfolding page
page-IsAligned a h = ground arith

-- Stepping an aligned page forwards from below the last page and back again changes nothing, and both
-- results are aligned.
pub pre_decrement-pre_increment :
    (p : Page)
    → IsAligned p
    → p.class ≡ small
    → p.addr < 4_294_963_200
    → (pre_decrement (pre_increment p) ≡ p) × IsAligned (pre_increment p)
unfolding pre_increment pre_decrement
pre_decrement-pre_increment p v e h = (ground arith, ground arith)

-- Where `+=` does not abort, the sum is exact and below 2 ^ 32, and `-=` of the same page does not abort
-- either and gives the first page back.
pub sub_assign-add_assign :
    (p q r : Page)
    → add_assign p q ≡ some r
    → (r.addr ≡ p.addr + q.addr) × (r.addr < u32_mod) × (sub_assign r q ≡ some p)
unfolding add_assign sub_assign
sub_assign-add_assign p q r h = (ground arith, ground arith, ground arith)

-- Up to 2 ^ 32 - 4096 bytes, `bytes_to_pages` is a number of pages that holds the bytes, and no number
-- `n` of pages that holds them is below it.
pub bytes_to_pages_least :
    (bytes n : ℕ)
    → bytes ≤ 4_294_963_200
    → bytes ≤ n * 4_096
    → (bytes ≤ bytes_to_pages bytes * 4_096) × (bytes_to_pages bytes ≤ n)
unfolding bytes_to_pages
bytes_to_pages_least bytes n h le = (ground arith, ground arith)

-- Above that it is one page short: the pages it counts do not hold the bytes.
bytes_to_pages_short :
    (bytes : ℕ) → 4_294_963_200 < bytes → bytes < u32_mod → bytes_to_pages bytes * 4_096 < bytes
unfolding bytes_to_pages
bytes_to_pages_short bytes h k = ground arith
