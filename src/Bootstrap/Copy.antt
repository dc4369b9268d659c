-- ===== src/Bootstrap/Copy.antt =====
-- What `bootstrap_phys_mem_manager` makes of the available entries of the memory map.
use feline_os.Base.{
  zero_plus, ℕ, zero, suc, ◌+◌, ◌-◌, ◌*◌, ◌/◌, ◌≤◌, ◌<◌, ◌≡◌, ◌≢◌, refl, sym, ap, ap₂, ◌∙◌, inl,
  inr, Bool, true, false, some, List, [], ◌∷◌, not, ◌&&◌, ◌||◌, ltb, ◌==◌, arith, Bool-cases,
  Option-cases, if-cases, if◌then◌else◌, wrap32,
}
use feline_os.PhysMem.Start.{BootloaderMemRegion, end_of}
use feline_os.Bootstrap.{
  MemoryMapEntry, memory_available, entry_end, Sorting, write, merge_loop, insert_loop,
  add_unavailable, copy_unavailable, should_drop, copy_available, find_space, initial,
  bootstrap_regions, slice,
}

abbrev pub Memory : Type 0
Memory = ℕ → BootloaderMemRegion

-- The entries that are available and not inside one of the first `n` regions, as regions.
unfoldable pub kept : ℕ → Memory → List MemoryMapEntry → List BootloaderMemRegion
kept n memory [] = []
kept n memory (e ∷ es) =
    if (e.kind == memory_available) && not (should_drop n 0 e memory)
    then record { addr = wrap32 e.addr; len = wrap32 e.len } ∷ kept n memory es
    else kept n memory es

should_drop-same :
    (n i : ℕ) (e : MemoryMapEntry) (f g : Memory)
    → ((q : ℕ) → q < i + n → f q ≡ g q)
    → should_drop n i e f ≡ should_drop n i e g
unfolding should_drop
should_drop-same zero i e f g same = refl
should_drop-same (suc n) i e f g same =
    ap₂ (λ r (b : Bool). (ltb r.addr e.addr && ltb (entry_end e) (end_of r)) || b)
      (same i (omega arith)) (should_drop-same n (i + 1) e f g (λ q lt. same q (omega arith)))

pub slice-same :
    (n i : ℕ) (f g : Memory) → ((q : ℕ) → q < i + n → f q ≡ g q) → slice n i f ≡ slice n i g
unfolding slice
slice-same zero i f g same = refl
slice-same (suc n) i f g same =
    ap₂ (λ (r : BootloaderMemRegion) rs. r ∷ rs) (same i (omega arith))
      (slice-same n (i + 1) f g (λ q lt. same q (omega arith)))

abbrev add_available : MemoryMapEntry → Sorting → Sorting
add_available e s = record s {
  memory = write s.memory s.new_memory (record { addr = wrap32 e.addr; len = wrap32 e.len });
  new_memory = s.new_memory + 1;
}

-- What the loop leaves: the regions it added, and all before them.
abbrev pub Copies : Memory → List MemoryMapEntry → ℕ → Sorting → Type 0
Copies m es start s =
    (t : Sorting) × (k : ℕ) × (copy_available es start s ≡ (t, start + k))
    × (slice k s.new_memory t.memory ≡ kept s.num_unavailable_regions m es)
    × ((q : ℕ) → q < s.new_memory → t.memory q ≡ s.memory q)
    × (t.num_unavailable_regions ≡ s.num_unavailable_regions)

written_before : (f : Memory) (p q : ℕ) (r : BootloaderMemRegion) → q < p → write f p r q ≡ f q
unfolding write
written_before f p q r lt = ground arith

written_at : (f : Memory) (p : ℕ) (r : BootloaderMemRegion) → write f p r p ≡ r
unfolding write
written_at f p r = ground arith

-- Whether the loop adds an entry.
abbrev adds : MemoryMapEntry → ℕ → Memory → Bool
adds e n m = (e.kind == memory_available) && not (should_drop n 0 e m)

run_keep :
    (e : MemoryMapEntry) (es : List MemoryMapEntry) (start : ℕ) (s : Sorting)
    → adds e s.num_unavailable_regions s.memory ≡ true
    → copy_available (e ∷ es) start s ≡ copy_available es (start + 1) (add_available e s)
unfolding copy_available
run_keep e es start s a = simp a refl

run_skip :
    (e : MemoryMapEntry) (es : List MemoryMapEntry) (start : ℕ) (s : Sorting)
    → adds e s.num_unavailable_regions s.memory ≡ false
    → copy_available (e ∷ es) start s ≡ copy_available es start s
unfolding copy_available
run_skip e es start s a = simp a refl

kept_keep :
    (e : MemoryMapEntry) (es : List MemoryMapEntry) (n : ℕ) (m : Memory)
    → adds e n m ≡ true
    → kept n m (e ∷ es) ≡ record { addr = wrap32 e.addr; len = wrap32 e.len } ∷ kept n m es
unfolding kept
kept_keep e es n m a = simp a refl

kept_skip :
    (e : MemoryMapEntry) (es : List MemoryMapEntry) (n : ℕ) (m : Memory)
    → adds e n m ≡ false
    → kept n m (e ∷ es) ≡ kept n m es
unfolding kept
kept_skip e es n m a = simp a refl

Copies-keep :
    (m : Memory) (e : MemoryMapEntry) (es : List MemoryMapEntry) (start : ℕ) (s : Sorting)
    → adds e s.num_unavailable_regions s.memory ≡ true
    → adds e s.num_unavailable_regions m ≡ true
    → Copies m es (start + 1) (add_available e s)
    → Copies m (e ∷ es) start s
unfolding slice
Copies-keep m e es start s here there (t, k, run, added, before, num) = (
  t,
  suc k,
  run_keep e es start s here ∙ run ∙ ap (λ n. (t, n)) (omega arith),
  ap₂ (λ (r : BootloaderMemRegion) rs. r ∷ rs)
        (before s.new_memory (omega arith) ∙ written_at s.memory s.new_memory _) added
      ∙ sym (kept_keep e es s.num_unavailable_regions m there),
  λ q lt. before q (omega arith) ∙ written_before s.memory s.new_memory q _ lt,
  num,
)

Copies-skip :
    (m : Memory) (e : MemoryMapEntry) (es : List MemoryMapEntry) (start : ℕ) (s : Sorting)
    → adds e s.num_unavailable_regions s.memory ≡ false
    → adds e s.num_unavailable_regions m ≡ false
    → Copies m es start s
    → Copies m (e ∷ es) start s
Copies-skip m e es start s here there (t, k, run, added, before, num) = (
  t,
  k,
  run_skip e es start s here ∙ run,
  added ∙ sym (kept_skip e es s.num_unavailable_regions m there),
  before,
  num,
)

copies :
    (m : Memory) (es : List MemoryMapEntry) (start : ℕ) (s : Sorting)
    → s.num_unavailable_regions ≤ s.new_memory
    → ((q : ℕ) → q < s.num_unavailable_regions → s.memory q ≡ m q)
    → Copies m es start s
unfolding copy_available kept slice
copies m [] start s le same = (s, 0, ap (λ n. (s, n)) (omega arith), refl, λ q lt. refl, refl)
copies m (e ∷ es) start s le same =
    let n = s.num_unavailable_regions in
    let drop : should_drop n 0 e s.memory ≡ should_drop n 0 e m =
      should_drop-same n 0 e s.memory m (λ q lt. same q (omega arith)) in
    let agree : adds e n s.memory ≡ adds e n m =
      ap (λ b. (e.kind == memory_available) && not b) drop in
    elim (Bool-cases (adds e n s.memory)) [
      | inl here ↦ Copies-keep m e es start s here (sym agree ∙ here) (
          copies m es (start + 1) (add_available e s) (omega arith)
            (λ q lt. written_before s.memory s.new_memory q _ (omega arith) ∙ same q lt))
      | inr here ↦ Copies-skip m e es start s here (sym agree ∙ here) (copies m es start s le same)
    ]

-- The array has no fewer regions than are counted as unavailable.
pub Counted : Sorting → Type 0
Counted s = s.num_unavailable_regions ≤ s.new_memory

insert_loop-Counted :
    (n i : ℕ) (e : MemoryMapEntry) (s t : Sorting)
    → insert_loop n i e s ≡ some t
    → (t.num_unavailable_regions ≡ s.num_unavailable_regions + 1) × (t.new_memory ≡ s.new_memory)
unfolding insert_loop
insert_loop-Counted zero i e s t h = cc
insert_loop-Counted (suc n) i e s t h = elim (Bool-cases (ltb (s.memory i).addr e.addr)) [
  | inl here ↦ (ground (arith, h, here), ground (arith, h, here))
  | inr there ↦ insert_loop-Counted n (i + 1) e s t (ground (arith, h, there))
]

-- One more unavailable entry.
add_unavailable-Counted :
    (e : MemoryMapEntry) (s : Sorting) → Counted s → Counted (add_unavailable e s)
unfolding add_unavailable Counted
add_unavailable-Counted e s v =
    elim (Bool-cases (ltb 0 s.new_memory && ltb e.addr (end_of (s.memory (s.new_memory - 1))))) [
      | inl overlaps ↦ elim (Option-cases (merge_loop s.num_unavailable_regions 0 e s.memory)) [
        | inl apart ↦ elim (Option-cases (insert_loop s.num_unavailable_regions 0 e s)) [
          | inl last ↦ ground (arith, overlaps, apart, last)
          | inr (t, put) ↦
              let (n, p) = insert_loop-Counted s.num_unavailable_regions 0 e s t put in
              ground (arith, overlaps, apart, put, n, p)
        ]
        | inr (m, merged) ↦ ground (arith, overlaps, merged)
      ]
      | inr behind ↦ ground (arith, behind)
    ]

copy_unavailable-Counted :
    (es : List MemoryMapEntry) (s : Sorting) → Counted s → Counted (copy_unavailable es s)
unfolding copy_unavailable
copy_unavailable-Counted [] s v = v
copy_unavailable-Counted (e ∷ es) s v =
    copy_unavailable-Counted es (if e.kind == memory_available then s else add_unavailable e s) (
      if-cases Counted (e.kind == memory_available) s (add_unavailable e s) (λ _. v)
        (λ _. add_unavailable-Counted e s v))

-- An entry that begins behind the start of one of the regions and ends before the end of it. One that shares a
-- start or an end with a region, is equal to it, or only overlaps it, is not inside.
unfoldable pub is_inside : MemoryMapEntry → List BootloaderMemRegion → Bool
is_inside e [] = false
is_inside e (r ∷ rs) = (ltb r.addr e.addr && ltb (entry_end e) (end_of r)) || is_inside e rs

-- The available entries that are inside none of the regions, in order.
unfoldable pub available_outside :
    List BootloaderMemRegion → List MemoryMapEntry → List BootloaderMemRegion
available_outside us [] = []
available_outside us (e ∷ es) =
    if (e.kind == memory_available) && not (is_inside e us)
    then record { addr = wrap32 e.addr; len = wrap32 e.len } ∷ available_outside us es
    else available_outside us es

is_inside-slice :
    (n i : ℕ) (e : MemoryMapEntry) (m : Memory) → should_drop n i e m ≡ is_inside e (slice n i m)
unfolding should_drop is_inside slice
is_inside-slice zero i e m = refl
is_inside-slice (suc n) i e m =
    ap (λ b. (ltb (m i).addr e.addr && ltb (entry_end e) (end_of (m i))) || b)
      (is_inside-slice n (i + 1) e m)

kept-outside :
    (n : ℕ) (m : Memory) (es : List MemoryMapEntry)
    → kept n m es ≡ available_outside (slice n 0 m) es
unfolding kept available_outside
kept-outside n m [] = refl
kept-outside n m (e ∷ es) =
    ap₂
      (λ (b : Bool) (rest : List BootloaderMemRegion).
        if (e.kind == memory_available) && not b
        then record { addr = wrap32 e.addr; len = wrap32 e.len } ∷ rest
        else rest)
      (is_inside-slice n 0 e m) (kept-outside n m es)

-- Where there is space for the array, and not at the start of the kernel, `bootstrap_phys_mem_manager`
-- hands on two lists: the unavailable regions, as the loop over the unavailable entries leaves them, and
-- with them, in order, exactly those available entries of the map that are strictly inside none of these
-- regions, on both sides, cut to 32 bits. So an available entry that is equal to an unavailable region, or
-- that overlaps it in part, is handed on, and one that is out of order too. The second loop does not
-- touch the regions of the first.
pub bootstrap_regions-outside :
    (map_start map_length kernel_start kernel_end found : ℕ) (memory : Memory)
    (entries : List MemoryMapEntry)
    → find_space
        (wrap32 ((map_length / 24 + 3) * 8))
        kernel_end
        map_start
        (map_start + map_length / 24 * 24)
        entries
      ≡ some found
    → found ≢ kernel_start
    → (us : List BootloaderMemRegion) × (bootstrap_regions map_start map_length kernel_start
          kernel_end memory entries
        ≡ some (us, available_outside us entries))
      × (let s =
            copy_unavailable entries
              (initial found (wrap32 ((map_length / 24 + 3) * 8)) kernel_start kernel_end memory) in
          us ≡ slice s.num_unavailable_regions 0 s.memory)
unfolding bootstrap_regions initial Counted
bootstrap_regions-outside map_start map_length kernel_start kernel_end found memory entries space
      ne =
    let first : Sorting =
      initial found (wrap32 ((map_length / 24 + 3) * 8)) kernel_start kernel_end memory in
    let s = copy_unavailable entries first in
    let counted = copy_unavailable-Counted entries first (omega arith) in
    let (t, k, run, added, before, num) = copies s.memory entries 0 s counted (λ q lt. refl) in
    let elsewhere : (found == kernel_start) ≡ false = ground arith in
    let step : bootstrap_regions map_start map_length kernel_start kernel_end memory entries
        ≡ some (slice t.num_unavailable_regions 0 t.memory, slice (0 + k) s.new_memory t.memory) =
      ground (arith, space, elsewhere, run) in
    (
      slice s.num_unavailable_regions 0 s.memory,
      step
          ∙ ap₂ (λ (a b : List BootloaderMemRegion). some (a, b))
              (ap (λ n. slice n 0 t.memory) num
                ∙ slice-same s.num_unavailable_regions 0 t.memory s.memory
                    (λ q lt. before q (omega (arith, counted))))
              (ap (λ n. slice n s.new_memory t.memory) (zero_plus k)
                ∙ added
                ∙ kept-outside s.num_unavailable_regions s.memory entries),
      refl,
    )
