-- ===== src/Spinlock/Laws.antt =====
-- What the lock does over the documented `std::atomic_flag`.
use feline_os.Base.{ℕ, suc, ◌+◌, ◌≡◌, Bool, true, false, some, arith, if◌then◌else◌}
use feline_os.Spinlock.{Spinlock, AtomicFlag, spin, acquire_lock, try_acquire_lock, release_lock}

-- The C++ standard: `test_and_set` sets the flag and returns what it held before; `clear` clears it.
pub record IsStandard (a : AtomicFlag) : Type 0 where
  pub sets : (b : Bool) → a.test_and_set b ≡ (b, true)
  pub clears : (b : Bool) → a.clear b ≡ false

module _ (a : AtomicFlag) (std : IsStandard a) where
  spin-set : (fuel : ℕ) → spin a (suc fuel) true ≡ some true
  unfolding spin
  spin-set fuel = ground (arith, std.sets true)

  spin_two : (fuel : ℕ) (b : Bool) → spin a (suc (suc fuel)) b ≡ some true
  unfolding spin
  spin_two fuel true = ground (arith, std.sets true)
  spin_two fuel false = ground (arith, std.sets false, std.sets true)

  -- From every state, held or not, `acquire_lock` returns within two rounds of its loop, with the
  -- flag set, interrupts off and the caller's interrupt state stored: it never waits for a holder.
  pub acquire_lock-never-waits :
      (fuel : ℕ) (s : Spinlock)
      → acquire_lock a (fuel + 2) s
        ≡ some (record { lock = true; stored_flags = s.interrupts; interrupts = false })
  unfolding acquire_lock
  acquire_lock-never-waits fuel s = ground (arith, spin_two fuel s.lock)

  -- `try_acquire_lock` returns true exactly when the lock was held already. The flag is set either
  -- way; on true interrupts are off and the old interrupt state overwrites the stored one, and on
  -- false both are as before.
  try_acquire_lock-result :
      (s : Spinlock)
      → let (got, t) = try_acquire_lock a s in
        (got ≡ s.lock)
        × (t.lock ≡ true)
        × (t.interrupts ≡ (if s.lock then false else s.interrupts))
        × (t.stored_flags ≡ (if s.lock then s.interrupts else s.stored_flags))
  unfolding try_acquire_lock
  try_acquire_lock-result s = ground (arith, std.sets s.lock)

  -- An `acquire_lock` followed by a `release_lock` clears the flag and gives back the interrupt state
  -- that the caller had.
  release_lock-acquire_lock :
      (fuel : ℕ) (s t : Spinlock)
      → acquire_lock a (fuel + 2) s ≡ some t
      → ((release_lock a t).lock ≡ false) × ((release_lock a t).interrupts ≡ s.interrupts)
  unfolding release_lock
  release_lock-acquire_lock fuel s t h =
      ground (arith, acquire_lock-never-waits fuel s, std.clears t.lock)
