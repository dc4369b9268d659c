-- ===== src/Framebuffer/Drawing.antt =====
-- What the drawing functions write.
use feline_os.Base.{
  ℕ, zero, suc, ◌+◌, ◌*◌, ◌/◌, ◌%◌, ◌<◌, ◌≡◌, ◌≢◌, refl, sym, ap, ◌∙◌, wrap32, u32_mod, arith,
  plus_suc,
}
use native.Mathlib.Nat.{mul-lt-mul_of_pos_left}
use feline_os.Framebuffer.{
  Pixel, PixelBgr, FbInfo, Pixels, Status, drawn, check_parms, draw, write_pixel, fill_columns,
  fill_rows, put_pixel, put_rect, rgb2bgr,
}

wrap_plus : (a b : ℕ) → wrap32 (wrap32 a + b) ≡ wrap32 (a + b)
wrap_plus a b = omega arith

next_row :
    (point stride i j : ℕ)
    → wrap32 (point + (suc j * stride + i) * 4)
      ≡ wrap32 (wrap32 (point + stride * 4) + (j * stride + i) * 4)
next_row point stride i j =
    let sum : point + (suc j * stride + i) * 4 ≡ point + stride * 4 + (j * stride + i) * 4 =
      grind arith in
    ap wrap32 sum ∙ sym (wrap_plus (point + stride * 4) ((j * stride + i) * 4))

first_row :
    (point stride i : ℕ) → wrap32 (point + (0 * stride + i) * 4) ≡ wrap32 (point + (0 + i) * 4)
first_row point stride i = omega arith

pixel_offset :
    (addr stride x y i j : ℕ)
    → wrap32 (addr + ((y + j) * stride + (x + i)) * 4)
      ≡ wrap32 (wrap32 (addr + (y * stride + x) * 4) + (j * stride + i) * 4)
pixel_offset addr stride x y i j =
    let sum : addr + ((y + j) * stride + (x + i)) * 4
        ≡ addr + (y * stride + x) * 4 + (j * stride + i) * 4 =
      grind arith in
    ap wrap32 sum ∙ sym (wrap_plus (addr + (y * stride + x) * 4) ((j * stride + i) * 4))

pitch_differs :
    (addr x y pitch : ℕ)
    → 0 < y
    → 0 < pitch
    → addr + (y * pitch + x) * 4 < u32_mod
    → wrap32 (addr + (y * pitch + x) * 4) ≢ wrap32 (addr + (y * (pitch / 4) + x) * 4)
pitch_differs addr x y pitch below wide inside e =
    let less : y * (pitch / 4) < y * pitch = mul-lt-mul_of_pos_left (omega arith) below in
    omega arith

write_pixel-elsewhere : (at q : ℕ) (p : PixelBgr) (m : Pixels) → at ≢ q → write_pixel at p m q ≡ m q
unfolding write_pixel
write_pixel-elsewhere at q p m ne = ground (arith, ne)

check_parms-zero : (right down : ℕ) (p : PixelBgr) (fb : FbInfo) → check_parms right down p fb ≡ 0
unfolding check_parms
check_parms-zero right down p fb = ground arith

put_pixel-write :
    (x y : ℕ) (p : Pixel) (fb : FbInfo) (m : Pixels)
    → put_pixel x y p fb m
      ≡ (drawn, write_pixel (wrap32 (fb.addr + (y * fb.pitch + x) * 4)) (rgb2bgr p) m)
unfolding put_pixel
put_pixel-write x y p fb m =
    ap (λ e. draw e (write_pixel (wrap32 (fb.addr + (y * fb.pitch + x) * 4)) (rgb2bgr p) m) m)
      (check_parms-zero x y (rgb2bgr p) fb)

put_rect-fill :
    (x y width height : ℕ) (p : Pixel) (fb : FbInfo) (m : Pixels)
    → put_rect x y width height p fb m ≡ (
      drawn,
      fill_rows height width
          (fb.pitch / 4)
          (wrap32 (fb.addr + (y * (fb.pitch / 4) + x) * 4))
          (rgb2bgr p)
          m,
    )
unfolding put_rect
put_rect-fill x y width height p fb m =
    ap
      (λ e.
        draw e
          (fill_rows height width (fb.pitch / 4) (wrap32 (fb.addr + (y * (fb.pitch / 4) + x) * 4))
            (rgb2bgr p) m)
          m)
      (check_parms-zero ((x + width) % 65_536) ((y + height) % 65_536) (rgb2bgr p) fb)

fill_columns-outside :
    (n col point q : ℕ) (p : PixelBgr) (m : Pixels)
    → ((i : ℕ) → i < n → wrap32 (point + (col + i) * 4) ≢ q)
    → fill_columns n col point p m q ≡ m q
unfolding fill_columns
fill_columns-outside zero col point q p m away = refl
fill_columns-outside (suc n) col point q p m away =
    fill_columns-outside n (col + 1) point q p (write_pixel (wrap32 (point + col * 4)) p m)
      (λ i lt e. away (suc i) (omega arith) (omega arith))
    ∙ ground (arith, away 0 (omega arith))

-- Writing `p` again leaves `p`.
fill_columns-keeps :
    (n col point q : ℕ) (p : PixelBgr) (m : Pixels) → m q ≡ p → fill_columns n col point p m q ≡ p
unfolding fill_columns
fill_columns-keeps zero col point q p m e = e
fill_columns-keeps (suc n) col point q p m e =
    fill_columns-keeps n (col + 1) point q p (write_pixel (wrap32 (point + col * 4)) p m)
      (ground (arith, e))

fill_columns-inside :
    (n col point i : ℕ) (p : PixelBgr) (m : Pixels)
    → i < n
    → fill_columns n col point p m (wrap32 (point + (col + i) * 4)) ≡ p
unfolding fill_columns
fill_columns-inside zero col point i p m lt = absurd (omega arith)
fill_columns-inside (suc n) col point zero p m lt =
    fill_columns-keeps n (col + 1) point (wrap32 (point + (col + 0) * 4)) p
      (write_pixel (wrap32 (point + col * 4)) p m) (ground arith)
fill_columns-inside (suc n) col point (suc i) p m lt =
    ap
      (λ k.
        fill_columns n (col + 1) point p (write_pixel (wrap32 (point + col * 4)) p m)
          (wrap32 (point + k * 4)))
      (plus_suc col i)
    ∙ fill_columns-inside n (col + 1) point i p (write_pixel (wrap32 (point + col * 4)) p m)
        (omega arith)

fill_rows-keeps :
    (n width stride point q : ℕ) (p : PixelBgr) (m : Pixels)
    → m q ≡ p
    → fill_rows n width stride point p m q ≡ p
unfolding fill_rows
fill_rows-keeps zero width stride point q p m e = e
fill_rows-keeps (suc n) width stride point q p m e =
    fill_rows-keeps n width stride (wrap32 (point + stride * 4)) q p
      (fill_columns width 0 point p m) (fill_columns-keeps width 0 point q p m e)

fill_rows-inside :
    (n width stride point i j q : ℕ) (p : PixelBgr) (m : Pixels)
    → i < width
    → j < n
    → q ≡ wrap32 (point + (j * stride + i) * 4)
    → fill_rows n width stride point p m q ≡ p
unfolding fill_rows
fill_rows-inside zero width stride point i j q p m iw jn e = absurd (omega arith)
fill_rows-inside (suc n) width stride point i zero q p m iw jn e =
    fill_rows-keeps n width stride (wrap32 (point + stride * 4)) q p
      (fill_columns width 0 point p m)
      (ap (fill_columns width 0 point p m) (e ∙ first_row point stride i)
        ∙ fill_columns-inside width 0 point i p m iw)
fill_rows-inside (suc n) width stride point i (suc j) q p m iw jn e =
    fill_rows-inside n width stride (wrap32 (point + stride * 4)) i j q p
      (fill_columns width 0 point p m) iw (omega arith) (e ∙ next_row point stride i j)

fill_rows-outside :
    (n width stride point q : ℕ) (p : PixelBgr) (m : Pixels)
    → ((i j : ℕ) → i < width → j < n → wrap32 (point + (j * stride + i) * 4) ≢ q)
    → fill_rows n width stride point p m q ≡ m q
unfolding fill_rows
fill_rows-outside zero width stride point q p m away = refl
fill_rows-outside (suc n) width stride point q p m away =
    fill_rows-outside n width stride (wrap32 (point + stride * 4)) q p
      (fill_columns width 0 point p m)
      (λ i j iw jn e. away i (suc j) iw (omega arith) (next_row point stride i j ∙ e))
    ∙ fill_columns-outside width 0 point q p m
        (λ i iw e. away i 0 iw (omega arith) (first_row point stride i ∙ e))

-- The 32-bit address of a pixel in the framebuffer: lines are `pitch` bytes long.
abbrev pub pixel_at : FbInfo → ℕ → ℕ → ℕ
pixel_at fb x y = wrap32 (fb.addr + (y * (fb.pitch / 4) + x) * 4)

-- Whatever its arguments, with addresses of 32 bits, also off the screen and with no framebuffer set up, `put_rect` says that all is
-- well, writes the colour to each pixel of the rectangle, and leaves all other memory as it is.
pub put_rect-pixels :
    (x y width height : ℕ) (p : Pixel) (fb : FbInfo) (m : Pixels)
    → ((put_rect x y width height p fb m).0 ≡ drawn)
      × ((i j : ℕ)
          → i < width
          → j < height
          → (put_rect x y width height p fb m).1 (pixel_at fb (x + i) (y + j)) ≡ rgb2bgr p)
      × ((q : ℕ)
          → ((i j : ℕ) → i < width → j < height → pixel_at fb (x + i) (y + j) ≢ q)
          → (put_rect x y width height p fb m).1 q ≡ m q)
put_rect-pixels x y width height p fb m =
    let run = put_rect-fill x y width height p fb m in
    let stride = fb.pitch / 4 in
    let point = wrap32 (fb.addr + (y * stride + x) * 4) in
    (
      ap (λ r. r.0) run,
      λ i j iw jh.
          ap (λ (r : Status × Pixels). r.1 (pixel_at fb (x + i) (y + j))) run
          ∙ fill_rows-inside height width stride point i j (pixel_at fb (x + i) (y + j)) (rgb2bgr p)
              m iw jh (pixel_offset fb.addr stride x y i j),
      λ q away.
          ap (λ (r : Status × Pixels). r.1 q) run
          ∙ fill_rows-outside height width stride point q (rgb2bgr p) m
              (λ i j iw jh e. away i j iw jh (pixel_offset fb.addr stride x y i j ∙ e)),
    )

-- Below the first line `put_pixel` misses: where lines are longer than no byte, and `pitch` pixels for each line do
-- not lead out of the address space, it says that all is well, and leaves the pixel that it is asked for
-- as it is.
pub put_pixel-misses :
    (x y : ℕ) (p : Pixel) (fb : FbInfo) (m : Pixels)
    → 0 < y
    → 0 < fb.pitch
    → fb.addr + (y * fb.pitch + x) * 4 < u32_mod
    → ((put_pixel x y p fb m).0 ≡ drawn)
      × ((put_pixel x y p fb m).1 (pixel_at fb x y) ≡ m (pixel_at fb x y))
put_pixel-misses x y p fb m below wide inside = (
  ap (λ r. r.0) (put_pixel-write x y p fb m),
  ap (λ (r : Status × Pixels). r.1 (pixel_at fb x y)) (put_pixel-write x y p fb m)
      ∙ write_pixel-elsewhere (wrap32 (fb.addr + (y * fb.pitch + x) * 4)) (pixel_at fb x y)
          (rgb2bgr p) m (λ e. absurd (pitch_differs fb.addr x y fb.pitch below wide inside e)),
)
