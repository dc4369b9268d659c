-- ===== src/Spinlock.antt =====
-- system/libFeline/src/locking/spinlock.cpp and system/libFeline/include/feline/spinlock.h, for i386.
-- `std::atomic_flag` is not part of the repository: its two operations are parameters. Of the
-- processor's flags only the interrupt flag is kept. `LockOps` is what the lock's clients see.
pub mod Laws
use feline_os.Base.{ℕ, zero, suc, Bool, true, false, Option, none, some, if◌then◌else◌}

pub record Spinlock : Type 0 where
  pub lock : Bool
  pub stored_flags : Bool
  -- Whether the processor takes interrupts.
  pub interrupts : Bool

-- `std::atomic_flag`: each operation returns the flag it leaves, and `test_and_set` a result too.
pub record AtomicFlag : Type 0 where
  pub test_and_set : Bool → Bool × Bool
  pub clear : Bool → Bool

-- The operations of a lock, for its clients. `none` means that the call never returns.
pub record LockOps (L : Type 0) : Type 0 where
  pub acquire : L → Option L
  pub try_acquire : L → Bool × L
  pub release : L → L

-- The flags before the call, and the state with interrupts off.
pub disable_interrupts : Spinlock → Bool × Spinlock
disable_interrupts s = (s.interrupts, record s { interrupts = false })

pub restore_interrupts : Bool → Spinlock → Spinlock
restore_interrupts flags s = record s { interrupts = flags }

module _ (a : AtomicFlag) where
  -- The loop of `acquire_lock`, on fuel; `none` when it still spins.
  pub spin : ℕ → Bool → Option Bool
  spin zero flag = none
  spin (suc fuel) flag =
      let (result, flag') = a.test_and_set flag in
      let rest = spin fuel flag' in if result then some flag' else rest

  pub acquire_lock : ℕ → Spinlock → Option Spinlock
  unfolding spin disable_interrupts
  acquire_lock fuel s =
      let (flags, s') = disable_interrupts s in
      elim (spin fuel s'.lock) [
        | none ↦ none
        | some flag ↦ some (record s' { lock = flag; stored_flags = flags })
      ]

  pub try_acquire_lock : Spinlock → Bool × Spinlock
  unfolding disable_interrupts restore_interrupts
  try_acquire_lock s =
      let (flags, s') = disable_interrupts s in
      let (result, flag) = a.test_and_set s'.lock in
      if result
      then (result, record s' { lock = flag; stored_flags = flags })
      else (result, restore_interrupts flags (record s' { lock = flag }))

  pub release_lock : Spinlock → Spinlock
  unfolding restore_interrupts
  release_lock s =
      let flags = s.stored_flags in restore_interrupts flags (record s { lock = a.clear s.lock })

  -- The lock behind the interface. Two rounds are all that the loop takes (`Laws`).
  abbrev pub spinlock_ops : LockOps Spinlock
  spinlock_ops = record {
    acquire = acquire_lock 2;
    try_acquire = try_acquire_lock;
    release = release_lock;
  }
