-- ===== src/PhysMem/Split.antt =====
-- `split_header_at_len` on a chain.
use feline_os.Base.{
  ℕ, ◌+◌, ◌-◌, ◌≤◌, ◌<◌, ◌≡◌, ◌≢◌, refl, sym, subst, inl, inr, true, false, List, [], ◌∷◌, arith,
  ◌==◌, Bool-cases, if◌then◌else◌, uintptr_max,
}
use feline_os.Run.{done}
use feline_os.Page.{add_assign, sub_assign}
use feline_os.PhysMem.{PhysMemHeader, Pmm, null, update}
use feline_os.PhysMem.Headers.{link_split}
use feline_os.PhysMem.Chain.{
  Headers, IsChain, IsGood-at, NotIn, Distinct, SameAt, update_ne, update_self, IsChain-same,
}

-- The header that `link_split` builds for the second part.
abbrev pub split_off : PhysMemHeader → ℕ → ℕ → PhysMemHeader
split_off h i len = record {
  next = h.next;
  prev = i;
  memory = h.memory + len;
  size = h.size - len;
  in_use = false;
  canary0 = 0xCD;
  canary1 = 0xEF;
  header_in_use = true;
}

-- The headers after `link_split i t len`.
pub with_split : Headers → ℕ → ℕ → ℕ → Headers
with_split f i t len =
    let h = f i in
    let f1 = update f t (split_off h i len) in
    let f2 = if h.next == null then f1 else update f1 h.next (record (f1 h.next) { prev = t }) in
    update f2 i (record (f2 i) { next = t; size = len })

module _ {L V : Type 0} where
  pub link_split-done :
      (s : Pmm L V) (i t len : ℕ)
      → (s.headers t).canary0 ≡ 0xCD
      → (s.headers t).canary1 ≡ 0xEF
      → i ≢ t
      → (s.headers i).next ≢ i
      → (s.headers i).next ≢ t
      → len ≤ (s.headers i).size
      → (s.headers i).memory + (s.headers i).size < uintptr_max
      → link_split i t len s
        ≡ done tt (record s {
          headers = with_split s.headers i t len;
          headers_in_use = s.headers_in_use + 1;
        })
  unfolding link_split add_assign sub_assign with_split
  link_split-done s i t len c0 c1 ne self nt le bound =
      elim (Bool-cases ((s.headers i).next == null)) [
        | inl end ↦ ground (
          arith,
          end,
          update_ne s.headers t i (split_off (s.headers i) i len),
          update_self s.headers t (split_off (s.headers i) i len),
        )
        | inr more ↦
            let h = s.headers i in
            let f1 = update s.headers t (split_off h i len) in
            let n' = record (f1 h.next) { prev = t } in
            ground (
              arith,
              more,
              update_ne s.headers t i (split_off h i len),
              update_self s.headers t (split_off h i len),
              update_ne f1 h.next i n',
              update_ne f1 h.next t n',
            )
      ]

-- What the split does to each header.
pub with_split-temp :
    (f : Headers) (i t len : ℕ)
    → i ≢ t
    → (f i).next ≢ t
    → with_split f i t len t ≡ split_off (f i) i len
unfolding with_split update
with_split-temp f i t len ne nt = ground arith

pub with_split-head :
    (f : Headers) (i t len : ℕ)
    → i ≢ t
    → (f i).next ≢ i
    → with_split f i t len i ≡ record (f i) { next = t; size = len }
unfolding with_split update
with_split-head f i t len ne self = ground arith

pub with_split-next :
    (f : Headers) (i t len n : ℕ)
    → (f i).next ≡ n
    → n ≢ i
    → n ≢ t
    → n ≢ 0
    → with_split f i t len n ≡ record (f n) { prev = t }
unfolding with_split update
with_split-next f i t len n e self nt nn = ground arith

with_split-other :
    (f : Headers) (i t len j : ℕ) → i ≢ j → t ≢ j → (f i).next ≢ j → with_split f i t len j ≡ f j
unfolding with_split update
with_split-other f i t len j a b c = ground arith

pub with_split-SameAt :
    (f : Headers) (i t len : ℕ) (ids : List ℕ)
    → NotIn i ids
    → NotIn t ids
    → NotIn (f i).next ids
    → SameAt f (with_split f i t len) ids
with_split-SameAt f i t len [] a b c = tt
with_split-SameAt f i t len (j ∷ js) a b c =
    (with_split-other f i t len j a.0 b.0 c.0, with_split-SameAt f i t len js a.1 b.1 c.1)

-- The chain from the split header on has the new header behind it.
pub with_split-IsChain :
    (f : Headers) (p i t len : ℕ) (ys : List ℕ)
    → IsChain f p i (i ∷ ys)
    → Distinct (i ∷ ys)
    → t ≢ 0
    → NotIn t (i ∷ ys)
    → IsChain (with_split f i t len) p i (i ∷ t ∷ ys)
with_split-IsChain f p i t len [] (at, back, v, c) d nz out =
    let g = with_split f i t len in
    let e : (f i).next ≡ 0 = c in
    let head : g i ≡ record (f i) { next = t; size = len } =
      with_split-head f i t len (λ q. out.0 (sym q)) (λ q. v.ne_null (ground arith)) in
    let temp : g t ≡ split_off (f i) i len =
      with_split-temp f i t len (λ q. out.0 (sym q)) (λ q. nz (ground arith)) in
    (
      refl,
      ground (arith, head),
      IsGood-at g i (record (f i) { next = t; size = len }) v.ne_null head v.used v.canary0
          v.canary1,
      (
        ground (arith, head),
        ground (arith, temp),
        IsGood-at g t (split_off (f i) i len) nz temp refl refl refl,
        ground (arith, temp),
      ),
    )
with_split-IsChain f p i t len (j ∷ ys) (at, back, v, (e, backj, vj, c)) (ni, (nj, dj)) nz out =
    let g = with_split f i t len in
    let head : g i ≡ record (f i) { next = t; size = len } =
      with_split-head f i t len (λ q. out.0 (sym q)) (λ q. ni.0 (ground arith)) in
    let temp : g t ≡ split_off (f i) i len =
      with_split-temp f i t len (λ q. out.0 (sym q)) (λ q. (out.1).0 (ground arith)) in
    let after : g j ≡ record (f j) { prev = t } =
      with_split-next f i t len j e (λ q. ni.0 (sym q)) (λ q. (out.1).0 (sym q)) vj.ne_null in
    let same : SameAt f g ys =
      with_split-SameAt f i t len ys ni.1 (out.1).1 (subst (λ k. NotIn k ys) (sym e) nj) in
    let rest : IsChain g j (f j).next ys = IsChain-same f g j (f j).next ys same c in
    (
      refl,
      ground (arith, head),
      IsGood-at g i (record (f i) { next = t; size = len }) v.ne_null head v.used v.canary0
          v.canary1,
      (
        ground (arith, head),
        ground (arith, temp),
        IsGood-at g t (split_off (f i) i len) nz temp refl refl refl,
        (
          ground (arith, temp, e),
          ground (arith, after),
          IsGood-at g j (record (f j) { prev = t }) vj.ne_null after vj.used vj.canary0 vj.canary1,
          subst (λ (h : PhysMemHeader). IsChain g j h.next ys) (sym after) rest,
        ),
      ),
    )
