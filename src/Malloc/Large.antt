-- ===== src/Malloc/Large.antt =====
-- `malloc` of more than `allocate_more_mem` ever gives.
use feline_os.Base.{
  ℕ, zero, suc, ◌+◌, ◌<◌, ◌≡◌, ◌≢◌, inl, inr, refl, ap, ◌∙◌, Bool, true, false, ◌||◌, ltb, ◌==◌,
  if◌then◌else◌, Option, none, some, arith, wrap32, Bool-cases,
}
use feline_os.Run.{Run, Cmd, done, aborted, stuck, pure, ◌>>=◌, ◌>>◌, abort, modify}
use feline_os.Run.Ends.{Ends, Ends-bind, Ends-if, Ends-never}
use feline_os.Feline.{round_to_multiple_of}
use feline_os.Memory.{MemResults}
use feline_os.Spinlock.{LockOps}
use feline_os.Malloc.{
  Header, Heap, Backend, is_success, load, store, set_prev, set_next, with_memory, acquire_lock,
  new_chunk, split_header, allocate_more_mem, find_header, malloc,
}

-- What the loop of `malloc` passes over.
abbrev pub passed : ℕ → Header → Bool
passed size h = h.in_use || ltb h.len size

differ : (b : Bool) → b ≡ true → b ≡ false → ⊥
differ true yes_it no_it = cc
differ false yes_it no_it = cc

passed-if :
    (size : ℕ) (b : Bool) (x y : Header)
    → passed size x ≡ true
    → passed size y ≡ true
    → passed size (if b then x else y) ≡ true
passed-if size true x y hx hy = hx
passed-if size false x y hx hy = hy

-- The new header, of 4,080 bytes.
abbrev fresh : Header
fresh = record { next = 0; prev = 0; len = 4_080; in_use = false; start_of_allocation = true }

module _ {L M : Type 0} (size : ℕ) where
  -- No header, wherever it is, is free and long enough.
  abbrev pub NoneFits : Heap L M → Type 0
  NoneFits s = (q : ℕ) → passed size (s.headers q) ≡ true

  abbrev Passes : {A : Type 0} → A → Heap L M → Type 0
  Passes a t = NoneFits t

  abbrev Loads : ℕ → Header → Heap L M → Type 0
  Loads p h t = (h ≡ t.headers p) × NoneFits t

  store-NoneFits :
      (p : ℕ) (h : Header) (s : Heap L M)
      → NoneFits s
      → passed size h ≡ true
      → Ends Passes (store p h s)
  store-NoneFits p h s none_fits pass = elim (Bool-cases (p == 0)) [
    | inl e ↦ simp e tt
    | inr e ↦ simp e (λ q. passed-if size (p == q) h (s.headers q) pass (none_fits q))
  ]

  load-NoneFits : (p : ℕ) (s : Heap L M) → NoneFits s → Ends (Loads p) (load p s)
  load-NoneFits p s none_fits = elim (Bool-cases (p == 0)) [
    | inl e ↦ simp e tt
    | inr e ↦ simp e (refl, none_fits)
  ]

  set_next-NoneFits : (p next : ℕ) (s : Heap L M) → NoneFits s → Ends Passes (set_next p next s)
  set_next-NoneFits p next s none_fits =
      Ends-if Passes (p == 0) (pure tt) (load p >>= λ h. store p (record h { next = next })) s
        (λ _. none_fits)
        (λ _.
          Ends-bind (Loads p) Passes (load p) (λ h. store p (record h { next = next })) s
            (load-NoneFits p s none_fits)
            (λ h t at.
              store-NoneFits p (record h { next = next }) t at.1 (ap (passed size) at.0 ∙ at.1 p)))

  set_prev-NoneFits : (p prev : ℕ) (s : Heap L M) → NoneFits s → Ends Passes (set_prev p prev s)
  set_prev-NoneFits p prev s none_fits =
      Ends-if Passes (p == 0) (pure tt) (load p >>= λ h. store p (record h { prev = prev })) s
        (λ _. none_fits)
        (λ _.
          Ends-bind (Loads p) Passes (load p) (λ h. store p (record h { prev = prev })) s
            (load-NoneFits p s none_fits)
            (λ h t at.
              store-NoneFits p (record h { prev = prev }) t at.1 (ap (passed size) at.0 ∙ at.1 p)))

  with_memory-NoneFits :
      {A : Type 0} (m : Cmd M A) (s : Heap L M) → NoneFits s → Ends Passes (with_memory m s)
  with_memory-NoneFits {A} m s none_fits = after (m s.memory)
    where
      after :
          (r : Run M A)
          → Ends {A = A}
              (λ a t. NoneFits t)
              (elim r as (λ v. Run (Heap L M) A) [
                | done a t ↦ done a (record s { memory = t })
                | aborted ↦ aborted
                | stuck ↦ stuck
              ])
      after (done a t) = none_fits
      after aborted = tt
      after stuck = tt

  module _ (large : 4_080 < size) where
    new_chunk-NoneFits : (p : ℕ) (s : Heap L M) → NoneFits s → Ends Passes (new_chunk size p s)
    unfolding new_chunk
    new_chunk-NoneFits p s none_fits =
        Ends-bind Passes Passes (store p fresh) _ s
          (store-NoneFits p fresh s none_fits (ground arith))
          (λ _ t ok.
            Ends-bind Passes Passes (if ltb size 4_064 then split_header p size else pure tt) _ t
              (Ends-if Passes (ltb size 4_064) (split_header p size) (pure tt) t
                (λ e. absurd (ground arith)) (λ _. ok))
              (λ _ u ok'. ok'))

    allocate_more_mem-NoneFits :
        (backend : Backend M) (s : Heap L M)
        → NoneFits s
        → Ends Passes (allocate_more_mem backend size s)
    unfolding allocate_more_mem
    allocate_more_mem-NoneFits backend s none_fits =
        Ends-bind Passes Passes
          (with_memory (backend.get_mem (wrap32 (round_to_multiple_of (wrap32 (size + 16)) 4_096))))
          (λ (result, hdr). if is_success result then new_chunk size hdr else abort) s
          (with_memory-NoneFits
            (backend.get_mem (wrap32 (round_to_multiple_of (wrap32 (size + 16)) 4_096))) s
            none_fits)
          (λ (r : MemResults × ℕ) t ok.
            Ends-if Passes (is_success r.0) (new_chunk size r.1) abort t
              (λ _. new_chunk-NoneFits r.1 t ok) (λ _. tt))

    link_never :
        (backend : Backend M) (hdr new : ℕ) (s : Heap L M)
        → NoneFits s
        → (k : Cmd (Heap L M) ℕ) → ((t : Heap L M) → NoneFits t → Ends (λ a u. ⊥) (k t))
        → Ends (λ a u. ⊥) ((set_next hdr new >> (set_prev new hdr >> k)) s)
    link_never backend hdr new s none_fits k rest =
        Ends-bind Passes (λ a u. ⊥) (set_next hdr new) _ s (set_next-NoneFits hdr new s none_fits)
          (λ _ t ok.
            Ends-bind Passes (λ a u. ⊥) (set_prev new hdr) _ t (set_prev-NoneFits new hdr t ok)
              (λ _ u ok'. rest u ok'))

    find_header-never :
        (backend : Backend M) (fuel hdr : ℕ) (s : Heap L M)
        → NoneFits s
        → Ends (λ a t. ⊥) (find_header backend size fuel hdr s)
    unfolding find_header
    find_header-never backend zero hdr s none_fits = tt
    find_header-never backend (suc fuel) hdr s none_fits =
        Ends-bind (Loads hdr) (λ a t. ⊥) (load hdr) _ s (load-NoneFits hdr s none_fits)
          (λ h t at.
            Ends-if (λ a t. ⊥) (passed size h) _ (pure hdr) t
              (λ _.
                Ends-if (λ a t. ⊥) (h.next == 0)
                  (allocate_more_mem backend size >>= λ new.
                    set_next hdr new >> (set_prev new hdr >> find_header backend size fuel new))
                  (find_header backend size fuel h.next) t
                  (λ _.
                    Ends-bind Passes (λ a t. ⊥) (allocate_more_mem backend size) _ t
                      (allocate_more_mem-NoneFits backend t at.1)
                      (λ new u ok.
                        link_never backend hdr new u ok (find_header backend size fuel new)
                          (λ v ok'. find_header-never backend fuel new v ok')))
                  (λ _. find_header-never backend fuel h.next t at.1))
              (λ e. absurd (differ (passed size h) (ap (passed size) at.0 ∙ at.1 hdr) e)))

    acquire_lock-NoneFits :
        (ops : LockOps L) (s : Heap L M) → NoneFits s → Ends Passes (acquire_lock {M = M} ops s)
    acquire_lock-NoneFits ops s none_fits = after (ops.acquire s.allocation_lock)
      where
        after :
            (o : Option L)
            → Ends {A = Unit {0}}
                (λ a t. NoneFits t)
                (elim o as (λ v. Run (Heap L M) (Unit {0})) [
                  | none ↦ stuck
                  | some l ↦ done tt (record s { allocation_lock = l })
                ])
        after none = tt
        after (some l) = none_fits

    -- Where no header, wherever it is, is free and long enough, as in an empty heap, `malloc` of more than
    -- 4,080 bytes never comes back with a pointer, whatever the memory manager gives.
    pub malloc-never :
        (ops : LockOps L) (backend : Backend M) (fuel : ℕ) (s : Heap L M)
        → NoneFits s
        → (ptr : ℕ) (t : Heap L M) → malloc ops backend fuel size s ≢ done ptr t
    unfolding malloc
    malloc-never ops backend fuel s none_fits = Ends-never (malloc ops backend fuel size s) (
        Ends-bind Passes (λ a t. ⊥) (acquire_lock ops) _ s (acquire_lock-NoneFits ops s none_fits)
          (λ _ t ok.
            Ends-bind Passes (λ a t. ⊥)
              (if t.first_header == 0
                then (allocate_more_mem backend size >>= λ first.
                    modify (λ u. record u { first_header = first }))
                else pure tt)
              _ t
              (Ends-if Passes (t.first_header == 0)
                (allocate_more_mem backend size >>= λ first.
                  modify (λ u. record u { first_header = first }))
                (pure tt) t
                (λ _.
                  Ends-bind Passes Passes (allocate_more_mem backend size) _ t
                    (allocate_more_mem-NoneFits backend t ok) (λ first u ok'. ok'))
                (λ _. ok))
              (λ _ u ok'.
                Ends-bind (λ a v. ⊥) (λ a v. ⊥) (find_header backend size fuel u.first_header) _ u
                  (find_header-never backend fuel u.first_header u ok') (λ a v h. absurd h))))
