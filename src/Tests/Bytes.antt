-- ===== src/Tests/Bytes.antt =====
-- The theorems on system/libc/string and on system/kernel/drivers/vga/vga.cpp.
use feline_os.Base.{ℕ, ◌+◌, ◌%◌, ◌<◌, ◌≡◌, ◌≢◌, refl, true, none, ◌==◌, if◌then◌else◌, arith}
use feline_os.Strings.{Bytes, equal, memmove, strncmp, strncmp_loop, char_lt, strstr}
use feline_os.Strings.Copy.{IsCopy, memmove-IsCopy}
use feline_os.Strings.Compare.{strlen-first, strstr-spins}
use feline_os.Vga.{Vga, putchar}
use feline_os.Vga.Cursor.{IsOnScreen, IsUpdate, putchar-IsUpdate}

-- "ab" at 16, "b" at 32, and null bytes elsewhere.
abbrev text : Bytes
text p = if p == 16 then 97 else if p == 17 then 98 else if p == 32 then 98 else 0

-- The areas overlap.
memmove-IsCopy_example : IsCopy 17 16 8 text (memmove 17 16 8 text)
memmove-IsCopy_example = memmove-IsCopy 17 16 8 text

two_letters : (j : ℕ) → j < 2 → text (16 + j) ≢ 0
two_letters j h = ground arith

one_letter : (j : ℕ) → j < 1 → text (32 + j) ≢ 0
one_letter j h = ground arith

b_is_not_first : strncmp 16 32 1 text ≢ equal
unfolding strncmp strncmp_loop char_lt
b_is_not_first e = ground arith

-- "b" is in "ab", but is not found.
strstr-spins_example : strstr 1_000 16 32 text ≡ none
strstr-spins_example =
    strstr-spins 1_000 16 32 1 text (omega arith) (omega arith) (omega arith) (omega arith)
      (strlen-first 1_000 32 1 text (omega arith) refl one_letter) b_is_not_first

-- A terminal with its cursor at the end of the last line.
abbrev terminal : Vga
terminal = record { vga_hardware_mem = λ q. q % 256; mapped = true; x = 79; y = 24; color = 15 }

terminal-IsOnScreen : IsOnScreen terminal
terminal-IsOnScreen = record { column = omega arith; line = omega arith }

putchar-IsUpdate_example : IsUpdate terminal (putchar 65 terminal).1
putchar-IsUpdate_example = putchar-IsUpdate 65 terminal terminal-IsOnScreen
