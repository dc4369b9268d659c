-- ===== src/Framebuffer.antt =====
-- system/kernel/drivers/framebuffer/framebuffer.cpp and its header. The memory of the pixels is a function
-- from addresses to pixels, of 4 bytes each; addresses are cut to 32 bits. The results -1, -2 and -3 have names. `map_range`,
-- `unmap_range` and `ensure_not_allocatable` are parameters.
pub mod Drawing
use Prim.Native.Nat.{bit_and}
use feline_os.Base.{
  ℕ, zero, suc, ◌+◌, ◌*◌, ◌/◌, ◌%◌, Bool, true, false, ◌||◌, not, leb, ◌==◌, if◌then◌else◌, wrap32,
}
use feline_os.Run.{Run, Cmd, done, aborted, stuck, pure, ◌>>=◌, ◌>>◌, assert}
use feline_os.Paging.{MapResults, map_success}

-- `pixel_t`
pub record Pixel : Type 0 where
  pub red : ℕ
  pub green : ℕ
  pub blue : ℕ

-- `pixel_bgr_t`
pub record PixelBgr : Type 0 where
  pub blue : ℕ
  pub green : ℕ
  pub red : ℕ
  pub fb_padding : ℕ

unfoldable pub bgr2rgb : PixelBgr → Pixel
bgr2rgb p = record { red = p.red; green = p.green; blue = p.blue }

unfoldable pub rgb2bgr : Pixel → PixelBgr
rgb2bgr p = record { blue = p.blue; green = p.green; red = p.red; fb_padding = 0 }

-- `fbInfo_t`
pub record FbInfo : Type 0 where
  pub addr : ℕ
  pub width : ℕ
  pub height : ℕ
  pub pitch : ℕ
  pub bpp : ℕ

abbrev pub Pixels : Type 0
Pixels = ℕ → PixelBgr

-- 0, -1, -2 and -3
pub data Status : Type 0 where
  drawn not_setup bad_padding off_screen : Status

unfoldable pub check_parms : ℕ → ℕ → PixelBgr → FbInfo → ℕ
check_parms max_right max_down p fb =
    let errors : ℕ = if fb.addr == 0 then bit_and 0 1 else 0 in
    let errors' : ℕ =
      if leb fb.width max_right || leb fb.height max_down then bit_and errors 4 else errors in
    if not (p.fb_padding == 0) then bit_and errors' 2 else errors'

-- What a drawing function does with the result of `check_parms`.
unfoldable pub refuse : ℕ → Status
refuse inval =
    if not (bit_and inval 1 == 0)
    then not_setup
    else if not (bit_and inval 2 == 0)
    then bad_padding
    else if not (bit_and inval 4 == 0)
    then off_screen
    else drawn

unfoldable pub write_pixel : ℕ → PixelBgr → Pixels → Pixels
write_pixel at p m q = if at == q then p else m q

-- A drawing function with the result `inval` of `check_parms`, and the memory if it draws and if not.
unfoldable pub draw : ℕ → Pixels → Pixels → Status × Pixels
unfolding refuse
draw inval m' m = elim (refuse inval) [ drawn ↦ (drawn, m') | other ↦ (other, m) ]

unfoldable pub put_pixel_bgr : ℕ → ℕ → PixelBgr → FbInfo → Pixels → Status × Pixels
unfolding draw write_pixel
put_pixel_bgr x y p fb m =
    draw (check_parms x y p fb) (write_pixel (wrap32 (fb.addr + (y * fb.pitch + x) * 4)) p m) m

-- `n` columns to go, from `col` on.
unfoldable pub fill_columns : ℕ → ℕ → ℕ → PixelBgr → Pixels → Pixels
unfolding write_pixel
fill_columns zero col point p m = m
fill_columns (suc n) col point p m =
    fill_columns n (col + 1) point p (write_pixel (wrap32 (point + col * 4)) p m)

-- `n` rows to go; `stride` is `fb.pitch / sizeof(pixel_bgr_t)`.
unfoldable pub fill_rows : ℕ → ℕ → ℕ → ℕ → PixelBgr → Pixels → Pixels
unfolding fill_columns
fill_rows zero width stride point p m = m
fill_rows (suc n) width stride point p m =
    fill_rows n width stride (wrap32 (point + stride * 4)) p (fill_columns width 0 point p m)

unfoldable pub put_rect_bgr : ℕ → ℕ → ℕ → ℕ → PixelBgr → FbInfo → Pixels → Status × Pixels
unfolding draw fill_rows
put_rect_bgr x y width height p fb m =
    draw (check_parms ((x + width) % 65_536) ((y + height) % 65_536) p fb)
      (fill_rows height width (fb.pitch / 4) (wrap32 (fb.addr + (y * (fb.pitch / 4) + x) * 4)) p m)
      m

unfoldable pub put_pixel : ℕ → ℕ → Pixel → FbInfo → Pixels → Status × Pixels
unfolding put_pixel_bgr
put_pixel x y p fb m = put_pixel_bgr x y (rgb2bgr p) fb m

unfoldable pub put_rect : ℕ → ℕ → ℕ → ℕ → Pixel → FbInfo → Pixels → Status × Pixels
unfolding put_rect_bgr
put_rect x y width height p fb m = put_rect_bgr x y width height (rgb2bgr p) fb m

unfoldable pub get_max : FbInfo → ℕ × ℕ
get_max fb = (fb.width, fb.height)

-- `fb.pitch * fb.height * sizeof(pixel_bgr_t)`
unfoldable pub mapped_length : ℕ → ℕ → ℕ
mapped_length pitch height = wrap32 (pitch * height * 4)

module _ {S : Type 0} where
  unfoldable pub init :
      (ℕ → ℕ → Cmd S (Unit {0}))
      → (ℕ → ℕ → ℕ → Cmd S (MapResults × ℕ))
      → ℕ
      → ℕ
      → ℕ
      → ℕ
      → ℕ
      → Cmd S (MapResults × FbInfo)
  unfolding mapped_length
  init ensure_not_allocatable map_range phys width height pitch bpp = do
    assert (bpp == 32)
    ensure_not_allocatable phys (mapped_length pitch height)
    (result, addr) ← map_range phys (mapped_length pitch height) 0
    pure (result, record { addr = addr; width = width; height = height; pitch = pitch; bpp = bpp })

  -- 0 and -1 as truth values: -1 where all went well.
  unfoldable pub wrap_up :
      (ℕ → ℕ → ℕ → Cmd S MapResults) → Bool → FbInfo → Pixels → Cmd S (Bool × Pixels)
  unfolding put_rect mapped_length
  wrap_up unmap_range clear_screen fb m = do
    let m' =
        if clear_screen
        then (put_rect 0 0 fb.width fb.height (record { red = 0; green = 0; blue = 0 }) fb m).1
        else m
    unmap ← unmap_range fb.addr (mapped_length fb.pitch fb.height) 0
    elim unmap [ map_success ↦ pure (true, m') | _ ↦ pure (false, m') ]
