-- ===== src/Tests/Drawings.antt =====
-- The theorems on the framebuffer and on `strtoul`.
use feline_os.Base.{ℕ, ◌+◌, ◌≤◌, ◌<◌, ◌≡◌, ◌≢◌, refl, none, some, ◌==◌, if◌then◌else◌, arith}
use feline_os.Strings.{Bytes}
use feline_os.Framebuffer.{Pixel, FbInfo, Pixels, drawn, put_pixel, put_rect, rgb2bgr}
use feline_os.Framebuffer.Drawing.{pixel_at, put_rect-pixels, put_pixel-misses}
use feline_os.Numbers.{isspace}
use feline_os.Numbers.Strtoul.{einval, erange, skip_space, digit_to_num, strtoul}
use feline_os.Numbers.Refuse.{digits_at, strtoul_cases}

abbrev screen : FbInfo
screen = record { addr = 4_096; width = 10; height = 5; pitch = 40; bpp = 32 }

abbrev white : Pixel
white = record { red = 255; green = 255; blue = 255 }

abbrev black : Pixels
black q = record { blue = 0; green = 0; red = 0; fb_padding = 0 }

put_rect-pixels_example :
    ((put_rect 8 4 3 2 white screen black).0 ≡ drawn)
    × ((i j : ℕ)
        → i < 3
        → j < 2
        → (put_rect 8 4 3 2 white screen black).1 (pixel_at screen (8 + i) (4 + j)) ≡ rgb2bgr white)
    × ((q : ℕ)
        → ((i j : ℕ) → i < 3 → j < 2 → pixel_at screen (8 + i) (4 + j) ≢ q)
        → (put_rect 8 4 3 2 white screen black).1 q ≡ black q)
put_rect-pixels_example = put_rect-pixels 8 4 3 2 white screen black

put_pixel-misses_example :
    ((put_pixel 2 1 white screen black).0 ≡ drawn)
    × ((put_pixel 2 1 white screen black).1 (pixel_at screen 2 1) ≡ black (pixel_at screen 2 1))
put_pixel-misses_example =
    put_pixel-misses 2 1 white screen black (omega arith) (omega arith) (omega arith)

-- " 12" at 100
abbrev twelve : Bytes
twelve q = if q == 100 then 32 else if q == 101 then 49 else if q == 102 then 50 else 0

strtoul_cases_example :
    ((digits_at twelve 10 101).0 ≤ digit_to_num (twelve (digits_at twelve 10 101).1)
      → strtoul 34 twelve 100 10
        ≡ some (record { result = 0; errno = some einval; endptr = some 100 }))
    × (digit_to_num (twelve (digits_at twelve 10 101).1) ≡ 0
        → 0 < (digits_at twelve 10 101).0
        → strtoul 34 twelve 100 10 ≡ none)
    × (0 < digit_to_num (twelve (digits_at twelve 10 101).1)
        → digit_to_num (twelve (digits_at twelve 10 101).1) < (digits_at twelve 10 101).0
        → strtoul 34 twelve 100 10
          ≡ some (record { result = 0; errno = some erange; endptr = none }))
unfolding skip_space isspace
strtoul_cases_example = strtoul_cases 34 100 101 10 twelve refl (omega arith)
