-- ===== src/Tests/Locks.antt =====
-- The theorems on system/libFeline/src/locking/spinlock.cpp with a standard flag.
use feline_os.Base.{◌+◌, ◌≡◌, refl, true, false, some}
use feline_os.Spinlock.{Spinlock, AtomicFlag, acquire_lock}
use feline_os.Spinlock.Laws.{IsStandard, acquire_lock-never-waits}

abbrev flag : AtomicFlag
flag = record { test_and_set = λ b. (b, true); clear = λ b. false }

flag-IsStandard : IsStandard flag
flag-IsStandard = record { sets = λ b. refl; clears = λ b. refl }

-- A lock that another task holds.
abbrev held : Spinlock
held = record { lock = true; stored_flags = false; interrupts = true }

acquire_lock-never-waits_example :
    acquire_lock flag (0 + 2) held
    ≡ some (record { lock = true; stored_flags = true; interrupts = false })
acquire_lock-never-waits_example = acquire_lock-never-waits flag flag-IsStandard 0 held
