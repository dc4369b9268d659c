-- ===== src/Malloc/Reject.antt =====
-- The pointers that `free` does not take.
use feline_os.Base.{
  ℕ, zero, suc, ◌+◌, ◌<◌, ◌≡◌, ◌≢◌, ◌⊎◌, inl, inr, refl, ap, ◌∙◌, true, false, not, ◌&&◌, List, [],
  ◌∷◌, length, none, some, ◌==◌, arith, wrap32, Bool-cases,
}
use feline_os.Run.{Run, done, aborted, stuck, bind-done}
use feline_os.Spinlock.{LockOps}
use feline_os.Malloc.{Header, Heap, Backend, load, acquire_lock}
use feline_os.Malloc.Free.{find_pointer, free}
use feline_os.Malloc.Split.{load-done}

-- From `hdr` on the headers `before` are not the one of `ptr`, and `last` is the one behind: that of `ptr`, or
-- the end of the list.
abbrev pub Reaches : ℕ → (ℕ → Header) → ℕ → List ℕ → ℕ → Type 0
Reaches ptr f hdr [] last =
    (hdr ≡ last) × (last ≢ 0) × (((f last).next ≡ 0) ⊎ (wrap32 (last + 16) ≡ ptr))
Reaches ptr f hdr (p ∷ ps) last =
    (hdr ≡ p)
    × (p ≢ 0)
    × ((f p).next ≢ 0)
    × (wrap32 (p + 16) ≢ ptr)
    × Reaches ptr f (f p).next ps last

goes_on : (next a ptr : ℕ) → next ≢ 0 → a ≢ ptr → (not (next == 0) && not (a == ptr)) ≡ true
goes_on next a ptr ne away = ground (arith, ne, away)

stops : (next a ptr : ℕ) → (next ≡ 0) ⊎ (a ≡ ptr) → (not (next == 0) && not (a == ptr)) ≡ false
stops next a ptr (inl e) = ground (arith, e)
stops next a ptr (inr e) = ground (arith, e)

last_is_some :
    (ptr : ℕ) (f : ℕ → Header) (hdr : ℕ) (before : List ℕ) (last : ℕ)
    → Reaches ptr f hdr before last
    → last ≢ 0
last_is_some ptr f hdr [] last path = path.1
last_is_some ptr f hdr (p ∷ ps) last path = last_is_some ptr f (f p).next ps last path.4

is_false : (a b : ℕ) → a ≢ b → (a == b) ≡ false
is_false a b ne = ground (arith, ne)

module _ {L M : Type 0} where
  find_pointer-last :
      (fuel ptr hdr : ℕ) (before : List ℕ) (last : ℕ) (s : Heap L M)
      → Reaches ptr s.headers hdr before last
      → length before < fuel
      → find_pointer fuel ptr hdr s ≡ done last s
  unfolding find_pointer
  find_pointer-last zero ptr hdr before last s path enough = absurd (omega arith)
  find_pointer-last (suc fuel) ptr hdr [] last s path enough =
      ap (λ q. find_pointer (suc fuel) ptr q s) path.0
      ∙ bind-done (load last) _ s s (s.headers last) (load-done last s path.1)
      ∙ simp (stops (s.headers last).next (wrap32 (last + 16)) ptr path.2) refl
  find_pointer-last (suc fuel) ptr hdr (p ∷ ps) last s path enough =
      ap (λ q. find_pointer (suc fuel) ptr q s) path.0
      ∙ bind-done (load p) _ s s (s.headers p) (load-done p s path.1)
      ∙ simp (goes_on (s.headers p).next (wrap32 (p + 16)) ptr path.2 path.3)
          (find_pointer-last fuel ptr (s.headers p).next ps last s path.4 (omega arith))

  -- No header of the heap that is in use belongs to `ptr`; `last` is where the search for one ends.
  abbrev pub IsForeign : ℕ → List ℕ → ℕ → Heap L M → Type 0
  IsForeign ptr before last s =
      (s.first_header ≡ 0)
      ⊎ ((s.first_header ≢ 0)
          × Reaches ptr s.headers s.first_header before last
          × ((wrap32 (last + 16) ≢ ptr) ⊎ ((s.headers last).in_use ≡ false)))

  -- `free` aborts on a pointer that is not null where there is no header, where no header of the list is the
  -- one of the pointer, and where that header is not in use.
  pub free_rejects :
      (ops : LockOps L) (backend : Backend M) (fuel ptr : ℕ) (before : List ℕ) (last : ℕ) (l : L)
      (s : Heap L M)
      → ptr ≢ 0
      → ops.acquire s.allocation_lock ≡ some l
      → length before < fuel
      → IsForeign ptr before last s
      → free ops backend fuel ptr s ≡ aborted
  unfolding free
  free_rejects ops backend fuel ptr before last l s ne got enough bad =
      let s1 : Heap L M = record s { allocation_lock = l } in
      let locked : acquire_lock {M = M} ops s ≡ done tt s1 =
        ap
          (λ o. elim o as (λ v. Run (Heap L M) (Unit {0})) [
            | none ↦ stuck
            | some k ↦ done tt (record s { allocation_lock = k })
          ])
          got in
      simp (is_false ptr 0 ne) (
        bind-done (acquire_lock ops) _ s s1 tt locked ∙ elim bad [
          | inl none_first ↦ simp none_first refl
          | inr (first, path, why) ↦ simp (is_false s.first_header 0 first) (
              bind-done (find_pointer fuel ptr s.first_header) _ s1 s1 last
                (find_pointer-last fuel ptr s.first_header before last s1 path enough)
              ∙ bind-done (load last) _ s1 s1 (s.headers last)
                  (load-done last s1 (last_is_some ptr s.headers s.first_header before last path))
              ∙ elim why [
                | inl away ↦ simp (is_false (wrap32 (last + 16)) ptr away) refl
                | inr unused ↦ elim (Bool-cases (wrap32 (last + 16) == ptr)) [
                  | inl same ↦ simp (same, unused) refl
                  | inr other ↦ simp other refl
                ]
              ])
        ])
