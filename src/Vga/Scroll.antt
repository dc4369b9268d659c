-- ===== src/Vga/Scroll.antt =====
-- Scrolling and colours.
use feline_os.Base.{
  Bool-cases, inl, inr, ℕ, zero, suc, ◌+◌, ◌-◌, ◌*◌, ◌≤◌, ◌<◌, ◌≡◌, ◌∙◌, true, ltb, leb, ◌&&◌,
  if◌then◌else◌, arith,
}
use feline_os.Vga.{Vga, scroll, scroll_loop, blank, copy_cells, setfg, setbg}

copy_cells-line :
    (line q : ℕ) (m : ℕ → ℕ)
    → copy_cells (line * 80) ((line + 1) * 80) 80 m q
      ≡ (if leb (line * 80) q && ltb q (line * 80 + 80) then m (q + 80) else m q)
copy_cells-line line q m = elim (Bool-cases (leb (line * 80) q)) [
  | inl e ↦ let at : (line + 1) * 80 + (q - line * 80) ≡ q + 80 = ground arith in ground arith
  | inr e ↦ ground arith
]

scroll_loop-cells :
    (n line q : ℕ) (m : ℕ → ℕ)
    → scroll_loop n line m q
      ≡ (if leb (line * 80) q && ltb q ((line + n) * 80) then m (q + 80) else m q)
unfolding scroll_loop
scroll_loop-cells zero line q m = ground arith
scroll_loop-cells (suc n) line q m =
    let m' = copy_cells (line * 80) ((line + 1) * 80) 80 m in
    let here : m' q ≡ (if leb (line * 80) q && ltb q (line * 80 + 80) then m (q + 80) else m q) =
      copy_cells-line line q m in
    let below : line * 80 ≤ q → line * 80 + 80 ≤ q → m' (q + 80) ≡ m (q + 80) =
      λ a b. ground arith in
    scroll_loop-cells n (line + 1) q m' ∙ ground arith

-- After `scroll`, each line but the last shows what the line below it showed, the last one shows the
-- background colour in both bytes of its cells, and memory behind the screen is as before.
pub scroll_lem :
    (s : Vga) (q : ℕ)
    → (scroll s).vga_hardware_mem q ≡ (
        if ltb q 1_920
        then s.vga_hardware_mem (q + 80)
        else if ltb q 2_000
        then blank s.color + blank s.color * 256
        else s.vga_hardware_mem q)
unfolding scroll
scroll_lem s q = ground (arith, scroll_loop-cells 24 0 q s.vga_hardware_mem)

-- A foreground and a background colour below 16 are both taken, whatever the colour was, in either order.
pub setfg-setbg :
    (s : Vga) (fg bg : ℕ)
    → fg < 16
    → bg < 16
    → s.color < 256
    → (setfg fg (setbg bg s).1 ≡ (true, record s { color = bg * 16 + fg }))
      × (setbg bg (setfg fg s).1 ≡ (true, record s { color = bg * 16 + fg }))
unfolding setfg setbg
setfg-setbg s fg bg hf hb hc = (ground arith, ground arith)
