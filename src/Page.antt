-- ===== src/Page.antt =====
-- system/kernel/kernel/page.cpp, the classes `page` and `largePage` and the functions that turn bytes
-- into pages of system/kernel/include/kernel/mem.h. `addr & ~(chunk - 1)` is written by `/` and `*`.
pub mod Laws
use feline_os.Base.{
  ℕ, ◌+◌, ◌-◌, ◌*◌, ◌/◌, ◌%◌, Bool, true, false, Option, none, some, ltb, leb, ◌==◌, if◌then◌else◌,
  wrap32, uintptr_max,
}

abbrev pub phys_mem_chunk_size : ℕ
phys_mem_chunk_size = 4_096

abbrev pub large_chunk_size : ℕ
large_chunk_size = 1_048_576

-- The class of the object, which its virtual `get_chunk_size` goes by.
pub data PageClass : Type 0 where
  small large : PageClass

pub record Page : Type 0 where
  pub addr : ℕ
  pub class : PageClass

abbrev pub get_chunk_size : PageClass → ℕ
get_chunk_size small = phys_mem_chunk_size
get_chunk_size large = large_chunk_size

-- `addr & ~(chunk - 1)`
abbrev pub round_down : ℕ → ℕ → ℕ
round_down chunk addr = addr / chunk * chunk

unfoldable pub page : ℕ → Page
page virt_addr = record { addr = round_down (get_chunk_size small) virt_addr; class = small }

-- The constructor of the base class runs first, and its `get_chunk_size` is that of `page`.
unfoldable pub large_page : ℕ → Page
unfolding page
large_page virt_addr = record { addr = (page virt_addr).addr; class = large }

-- `++p` and `p++`; the second gives the old value as well.
unfoldable pub pre_increment : Page → Page
pre_increment p =
    if leb p.addr (uintptr_max - get_chunk_size p.class)
    then record p { addr = p.addr + get_chunk_size p.class }
    else record p { addr = uintptr_max }

-- The copy that is returned is a `page`.
unfoldable pub post_increment : Page → Page × Page
unfolding pre_increment
post_increment p = (record p { class = small }, pre_increment p)

unfoldable pub pre_decrement : Page → Page
pre_decrement p =
    if leb (get_chunk_size p.class) p.addr
    then record p { addr = p.addr - get_chunk_size p.class }
    else record p { addr = 0 }

unfoldable pub post_decrement : Page → Page × Page
unfolding pre_decrement
post_decrement p = (record p { class = small }, pre_decrement p)

-- `p += q` and `p -= q`; none is `std::abort`.
unfoldable pub add_assign : Page → Page → Option Page
add_assign p q =
    if ltb p.addr (uintptr_max - q.addr) then some (record p { addr = p.addr + q.addr }) else none

unfoldable pub sub_assign : Page → Page → Option Page
sub_assign p q = if leb q.addr p.addr then some (record p { addr = p.addr - q.addr }) else none

unfoldable pub set_addr : Page → ℕ → Page
set_addr p new_addr = record p { addr = round_down (get_chunk_size p.class) new_addr }

unfoldable pub is_null : Page → Bool
is_null p = p.addr == 0

unfoldable pub bytes_to_pages : ℕ → ℕ
bytes_to_pages bytes =
    if ltb (uintptr_max - bytes) (phys_mem_chunk_size - 1)
    then uintptr_max / phys_mem_chunk_size
    else (bytes + (phys_mem_chunk_size - 1)) / phys_mem_chunk_size

unfoldable pub bytes_to_large_pages : ℕ → ℕ
bytes_to_large_pages bytes =
    if ltb (uintptr_max - bytes) (large_chunk_size - 1)
    then uintptr_max / large_chunk_size
    else (bytes + (large_chunk_size - 1)) / large_chunk_size

-- The overload for `largePage`.
unfoldable pub bytes_to_large_pages_of : Page → ℕ
unfolding bytes_to_pages
bytes_to_large_pages_of bytes = bytes_to_pages bytes.addr
