-- ===== src/Vga/Cursor.antt =====
-- The cursor stays on the screen, and only the screen is written to.
use feline_os.Base.{
  ℕ, ◌+◌, ◌-◌, ◌%◌, ◌≤◌, ◌<◌, ◌≡◌, refl, ◌∙◌, List, [], ◌∷◌, leb, ◌==◌, ◌&&◌, not, if◌then◌else◌,
  arith, if-cases,
}
use feline_os.Vga.{
  Vga, scroll, next_line, put_at, tab, backspace, put_normal, putchar, putstr, iscntrl,
}
use feline_os.Vga.Scroll.{scroll_lem}

-- The cursor of `s` is on the screen.
pub record IsOnScreen (s : Vga) : Type 0 where
  pub column : s.x < 80
  pub line : s.y < 25

-- `t` has its cursor on the screen, and differs from `s` only in what is on the screen.
pub record IsUpdate (s t : Vga) : Type 0 where
  pub on_screen : IsOnScreen t
  pub color : t.color ≡ s.color
  pub mapped : t.mapped ≡ s.mapped
  pub outside : (q : ℕ) → 2_000 ≤ q → t.vga_hardware_mem q ≡ s.vga_hardware_mem q

scroll-outside :
    (s : Vga) (q : ℕ) → 2_000 ≤ q → (scroll s).vga_hardware_mem q ≡ s.vga_hardware_mem q
scroll-outside s q h = scroll_lem s q ∙ ground arith

next_line-IsUpdate : (s : Vga) → s.y < 25 → IsUpdate s (next_line s)
unfolding next_line scroll
next_line-IsUpdate s h =
    if-cases (IsUpdate s) (leb 25 (s.y + 1)) _ _
      (λ e. record {
        on_screen = record { column = omega arith; line = omega arith };
        color = refl;
        mapped = refl;
        outside = λ q le. scroll-outside (record s { x = 0; y = s.y + 1 }) q le;
      })
      (λ e. record {
        on_screen = record { column = omega arith; line = ground arith };
        color = refl;
        mapped = refl;
        outside = λ q le. refl;
      })

put_at-IsUpdate :
    (column uc : ℕ) (s : Vga) → IsOnScreen s → column < 80 → IsUpdate s (put_at column uc s)
unfolding put_at
put_at-IsUpdate column uc s h lt =
    let line = h.line in
    record {
      on_screen = record { column = h.column; line = h.line };
      color = refl;
      mapped = refl;
      outside = λ q le. ground arith;
    }

IsUpdate-trans : (s t u : Vga) → IsUpdate s t → IsUpdate t u → IsUpdate s u
IsUpdate-trans s t u a b = record {
  on_screen = b.on_screen;
  color = b.color ∙ a.color;
  mapped = b.mapped ∙ a.mapped;
  outside = λ q le. b.outside q le ∙ a.outside q le;
}

-- To move the cursor on the screen.
move-IsUpdate : (s : Vga) (x y : ℕ) → x < 80 → y < 25 → IsUpdate s (record s { x = x; y = y })
move-IsUpdate s x y hx hy = record {
  on_screen = record { column = hx; line = hy };
  color = refl;
  mapped = refl;
  outside = λ q le. refl;
}

put_normal-IsUpdate : (c : ℕ) (s : Vga) → IsOnScreen s → IsUpdate s (put_normal c s)
unfolding put_normal put_at
put_normal-IsUpdate c s h =
    let t = put_at s.x c s in
    let put = put_at-IsUpdate s.x c s h h.column in
    let line = h.line in
    if-cases (IsUpdate s) (leb 80 (s.x + 1)) (next_line t) (record t { x = s.x + 1 })
      (λ e. IsUpdate-trans s t (next_line t) put (next_line-IsUpdate t line))
      (λ e.
        IsUpdate-trans s t (record t { x = s.x + 1 }) put
          (move-IsUpdate t (s.x + 1) s.y (ground arith) line))

tab-IsUpdate : (s : Vga) → IsOnScreen s → IsUpdate s (tab s)
unfolding tab
tab-IsUpdate s h =
    let x' = s.x + (4 - s.x % 4) in
    move-IsUpdate s (if leb 80 x' then 79 else x') s.y (ground arith) h.line

backspace-IsUpdate : (s : Vga) → IsOnScreen s → IsUpdate s (backspace s)
unfolding backspace
backspace-IsUpdate s h =
    let line = h.line in
    let column = h.column in
    let up = record s { y = s.y - 1; x = 79 } in
    let back = record s { x = s.x - 1 } in
    let moved = move-IsUpdate s 79 (s.y - 1) (omega arith) (omega arith) in
    let moved' = move-IsUpdate s (s.x - 1) s.y (omega arith) line in
    if-cases (IsUpdate s) (s.x == 0) _ _
      (λ e.
        if-cases (IsUpdate s) (s.y == 0) _ _ (λ e'. move-IsUpdate s s.x s.y column line)
          (λ e'.
            IsUpdate-trans s up (put_at 79 32 up) moved
              (put_at-IsUpdate 79 32 up moved.on_screen (omega arith))))
      (λ e.
        IsUpdate-trans s back (put_at (s.x - 1) 32 back) moved'
          (put_at-IsUpdate (s.x - 1) 32 back moved'.on_screen (omega arith)))

-- Whatever byte it is given, `putchar` leaves a cursor on the screen, writes to no memory behind the
-- screen, and keeps the colour.
pub putchar-IsUpdate : (c : ℕ) (s : Vga) → IsOnScreen s → IsUpdate s (putchar c s).1
unfolding putchar
putchar-IsUpdate c s h =
    let P : ℕ × Vga → Type 0 = λ r. IsUpdate s r.1 in
    let line = h.line in
    let column = h.column in
    let still = move-IsUpdate s s.x s.y column line in
    if-cases P (not s.mapped) _ _ (λ _. still)
      (λ _.
        if-cases P (iscntrl c && c == 10) _ _ (λ _. next_line-IsUpdate s line)
          (λ _.
            if-cases P (iscntrl c && c == 13) _ _ (λ _. move-IsUpdate s 0 s.y (omega arith) line)
              (λ _.
                if-cases P (iscntrl c && c == 9) _ _ (λ _. tab-IsUpdate s h)
                  (λ _.
                    if-cases P (iscntrl c && c == 8) _ _ (λ _. backspace-IsUpdate s h)
                      (λ _.
                        if-cases P (iscntrl c && c == 127) _ _
                          (λ _. put_at-IsUpdate s.x 32 s h column)
                          (λ _.
                            if-cases P (iscntrl c && c == 27) _ _ (λ _. still)
                              (λ _. put_normal-IsUpdate c s h)))))))

-- So does `putstr`, for any string.
pub putstr-IsUpdate : (cs : List ℕ) (s : Vga) → IsOnScreen s → IsUpdate s (putstr cs s)
unfolding putstr
putstr-IsUpdate [] s h = move-IsUpdate s s.x s.y h.column h.line
putstr-IsUpdate (c ∷ cs) s h =
    let t = (putchar c s).1 in
    let first = putchar-IsUpdate c s h in
    if-cases (IsUpdate s) s.mapped _ _
      (λ _. IsUpdate-trans s t (putstr cs t) first (putstr-IsUpdate cs t first.on_screen))
      (λ _. move-IsUpdate s s.x s.y h.column h.line)
