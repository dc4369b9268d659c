-- ===== src/Tests/Words.antt =====
-- The theorems on pages, and on the arithmetic and the numbers of system/libFeline.
use feline_os.Base.{ℕ}
use feline_os.Page.{Page, small}

abbrev page_at : ℕ → Page
page_at a = record { addr = a; class = small }
