-- ===== src/PhysMem/Spare.antt =====
-- Getting a new header while a chunk has a spare one, and the split that uses it.
use feline_os.Base.{
  ℕ, zero, suc, ◌+◌, ◌*◌, ◌≤◌, ◌<◌, ◌≡◌, ◌≢◌, sym, subst, inl, inr, true, false, arith, Bool-cases,
  uintptr_max,
}
use feline_os.Run.{done}
use feline_os.PhysMem.{Pmm, Vmm, update, headers_per_chunk}
use feline_os.PhysMem.Headers.{scan_headers, get_new_header, split_header_at_len}
use feline_os.PhysMem.Chain.{Headers, IsGood, update_ne, update_self}
use feline_os.PhysMem.Split.{with_split, link_split-done}

-- A slot that holds no area, with its canary.
abbrev pub Unused : Headers → ℕ → Type 0
Unused f p = (f p).header_in_use ≡ false

-- Two headers are left, so that no new chunk is needed; one of the slots is unused, and every unused
-- slot has its canary.
pub record HasSpare {L V : Type 0} (s : Pmm L V) : Type 0 where
  pub room : s.headers_in_use + 1 < s.headers_allocated
  pub slot : (k : ℕ) × (k < s.num_chunks * headers_per_chunk) × Unused s.headers (1 + k)
  pub canary :
      (p : ℕ) → Unused s.headers p → ((s.headers p).canary0 ≡ 0xCD) × ((s.headers p).canary1 ≡ 0xEF)

-- The headers when slot `t` is marked as used.
abbrev pub taken : Headers → ℕ → Headers
taken f t = update f t (record (f t) { header_in_use = true })

module _ {L V : Type 0} where
  scan_headers-taken :
      (s : Pmm L V) (n first k : ℕ)
      → ((p : ℕ)
          → Unused s.headers p
          → ((s.headers p).canary0 ≡ 0xCD) × ((s.headers p).canary1 ≡ 0xEF))
      → k < n
      → Unused s.headers (first + k)
      → (t : ℕ) × (first ≤ t)
        × Unused s.headers t
        × (scan_headers n first s ≡ done t (record s { headers = taken s.headers t }))
  unfolding scan_headers
  scan_headers-taken s zero first k can lt u = absurd (omega arith)
  scan_headers-taken s (suc n) first zero can lt u =
      let z : first + 0 ≡ first = omega arith in
      let free : Unused s.headers first = subst (λ m. Unused s.headers m) z u in
      (first, omega arith, free, ground (arith, free, can first free))
  scan_headers-taken s (suc n) first (suc k) can lt u =
      let z : first + suc k ≡ first + 1 + k = omega arith in
      let (t, le, ut, run) =
        scan_headers-taken s n (first + 1) k can (omega arith)
          (subst (λ m. Unused s.headers m) z u) in
      elim (Bool-cases (s.headers first).header_in_use) [
        | inl used ↦ (t, omega arith, ut, ground (arith, used, run))
        | inr free ↦ (first, omega arith, free, ground (arith, free, can first free))
      ]

  pub get_new_header-taken :
      (vmm : Vmm V) (fuel : ℕ) (s : Pmm L V)
      → HasSpare s
      → (t : ℕ) × (t ≢ 0)
        × Unused s.headers t
        × (get_new_header vmm fuel s ≡ done t (record s { headers = taken s.headers t }))
  unfolding get_new_header
  get_new_header-taken vmm fuel s v =
      let (k, lt, u) = v.slot in
      let (t, le, ut, run) =
        scan_headers-taken s (s.num_chunks * headers_per_chunk) 1 k v.canary lt u in
      (t, (λ e. omega arith), ut, ground (arith, v.room, run))

  -- With a spare header, a header in use that is longer than `len` is split there.
  pub split_header_at_len-done :
      (vmm : Vmm V) (fuel i len : ℕ) (s : Pmm L V)
      → HasSpare s
      → IsGood s.headers i
      → (s.headers i).in_use ≡ true
      → len < (s.headers i).size
      → (s.headers i).memory + (s.headers i).size < uintptr_max
      → (s.headers i).next ≢ i
      → ((s.headers i).next ≢ 0 → (s.headers (s.headers i).next).header_in_use ≡ true)
      → (t : ℕ) × (t ≢ 0)
        × Unused s.headers t
        × (split_header_at_len vmm fuel i len s
            ≡ done tt (record s {
              headers = with_split (taken s.headers t) i t len;
              headers_in_use = s.headers_in_use + 1;
            }))
  unfolding split_header_at_len
  split_header_at_len-done vmm fuel i len s spare good busy lt bound self nextgood =
      let (t, nz, ut, run) = get_new_header-taken vmm fuel s spare in
      let it : i ≢ t = (λ e. ground (arith, good.used)) in
      let nt : (s.headers i).next ≢ t = (λ e. ground (arith, nextgood)) in
      let same : taken s.headers t i ≡ s.headers i = update_ne s.headers t i _ (λ e. it (sym e)) in
      let own : taken s.headers t t ≡ record (s.headers t) { header_in_use = true } =
        update_self s.headers t _ in
      let link =
        link_split-done (record s { headers = taken s.headers t }) i t len
          (ground (arith, own, spare.canary t ut)) (ground (arith, own, spare.canary t ut)) it
          (λ e. self (ground (arith, same))) (λ e. nt (ground (arith, same))) (ground (arith, same))
          (ground (arith, same)) in
      (t, nz, ut, ground (arith, good.used, good.canary0, good.canary1, run, nz, link))
