-- ===== src/Vga.antt =====
-- system/kernel/drivers/vga/vga.cpp and system/kernel/drivers/include/drivers/terminal.h: the text
-- terminal. The video memory is a function from a cell's index to the cell, 16 bits; a byte pattern that
-- `memset` writes is its two halves. A `char` is its byte, so the signed test `c < ' '` of `iscntrl`
-- (system/libc/ctype/iscntrl.cpp) holds from 128 on too.
pub mod Cursor
pub mod Scroll
use feline_os.Base.{
  ℕ, zero, suc, ◌+◌, ◌-◌, ◌*◌, ◌/◌, ◌%◌, Bool, true, false, List, [], ◌∷◌, not, ◌&&◌, ◌||◌, ltb,
  leb, ◌==◌, if◌then◌else◌,
}

pub record Vga : Type 0 where
  pub vga_hardware_mem : ℕ → ℕ
  -- Whether the pointer to it is set.
  pub mapped : Bool
  pub x : ℕ
  pub y : ℕ
  pub color : ℕ

abbrev pub vga_text_height : ℕ
vga_text_height = 25

abbrev pub vga_text_width : ℕ
vga_text_width = 80

abbrev pub tabstop : ℕ
tabstop = 4

abbrev pub vga_color_black : ℕ
vga_color_black = 0

abbrev pub vga_color_white : ℕ
vga_color_white = 15

-- `(vga_text_char)uc | (vga_text_char)color << 8`
unfoldable pub vga_entry : ℕ → ℕ → ℕ
vga_entry uc color = uc + color * 256

unfoldable pub iscntrl : ℕ → Bool
iscntrl c = leb 128 c || ltb c 32 || c == 127

abbrev pub write : (ℕ → ℕ) → ℕ → ℕ → ℕ → ℕ
write m p v q = if p == q then v else m q

-- `memcpy` and `memset` of `n` cells.
abbrev pub copy_cells : ℕ → ℕ → ℕ → (ℕ → ℕ) → ℕ → ℕ
copy_cells dst src n m q = if leb dst q && ltb q (dst + n) then m (src + (q - dst)) else m q

abbrev pub fill_cells : ℕ → ℕ → ℕ → (ℕ → ℕ) → ℕ → ℕ
fill_cells dst byte n m q = if leb dst q && ltb q (dst + n) then byte + byte * 256 else m q

-- `(color & 0xf0) | (color >> 4)`
unfoldable pub blank : ℕ → ℕ
blank color = color / 16 * 16 + color / 16

unfoldable pub clear : Vga → Vga
clear s = record s {
  vga_hardware_mem =
      fill_cells 0 (blank s.color) (vga_text_width * vga_text_height) s.vga_hardware_mem;
}

-- The loop of `scroll` from `line` on, with `n` lines to go.
unfoldable pub scroll_loop : ℕ → ℕ → (ℕ → ℕ) → ℕ → ℕ
scroll_loop zero line m = m
scroll_loop (suc n) line m =
    scroll_loop n (line + 1)
      (copy_cells (line * vga_text_width) ((line + 1) * vga_text_width) vga_text_width m)

unfoldable pub scroll : Vga → Vga
scroll s = record s {
  vga_hardware_mem =
      fill_cells ((vga_text_height - 1) * vga_text_width) (blank s.color) vga_text_width
        (scroll_loop (vga_text_height - 1) 0 s.vga_hardware_mem);
}

-- A line down, and up again by scrolling.
unfoldable pub next_line : Vga → Vga
next_line s =
    let t = record s { x = 0; y = s.y + 1 } in
    if leb vga_text_height t.y then record (scroll t) { y = t.y - 1 } else t

-- A cell at the cursor's line.
unfoldable pub put_at : ℕ → ℕ → Vga → Vga
put_at column uc s = record s {
  vga_hardware_mem =
      write s.vga_hardware_mem (s.y * vga_text_width + column) (vga_entry uc s.color);
}

unfoldable pub tab : Vga → Vga
tab s =
    let x' = s.x + (tabstop - s.x % tabstop) in
    record s { x = if leb vga_text_width x' then vga_text_width - 1 else x' }

unfoldable pub backspace : Vga → Vga
backspace s =
    if s.x == 0
    then if s.y == 0
      then s
      else put_at (vga_text_width - 1) 32 (record s { y = s.y - 1; x = vga_text_width - 1 })
    else put_at (s.x - 1) 32 (record s { x = s.x - 1 })

unfoldable pub put_normal : ℕ → Vga → Vga
put_normal c s =
    let t = put_at s.x c s in
    if leb vga_text_width (t.x + 1) then next_line t else record t { x = t.x + 1 }

-- The result, and the terminal.
unfoldable pub putchar : ℕ → Vga → ℕ × Vga
putchar c s =
    if not s.mapped
    then (1, s)
    else if iscntrl c && c == 10
    then (0, next_line s)
    else if iscntrl c && c == 13
    then (0, record s { x = 0 })
    else if iscntrl c && c == 9
    then (0, tab s)
    else if iscntrl c && c == 8
    then (0, backspace s)
    else if iscntrl c && c == 127
    then (0, put_at s.x 32 s)
    else if iscntrl c && c == 27
    then (0, s)
    else (0, put_normal c s)

unfoldable pub putstr : List ℕ → Vga → Vga
putstr [] s = s
putstr (c ∷ cs) s =
    let (r, t) = putchar c s in let rest = putstr cs t in if s.mapped then rest else s

-- The result is whether the colour was taken; otherwise nothing changes.
unfoldable pub setfg : ℕ → Vga → Bool × Vga
setfg fg s = if ltb 15 fg then (false, s) else (true, record s { color = s.color / 16 * 16 + fg })

unfoldable pub setbg : ℕ → Vga → Bool × Vga
setbg bg s = if ltb 15 bg then (false, s) else (true, record s { color = s.color % 16 + bg * 16 })

unfoldable pub reset : Vga → Vga
unfolding setfg setbg clear
reset s = let (_, s) = setfg vga_color_white s in let (_, s) = setbg vga_color_black s in clear s
