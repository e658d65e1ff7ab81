-- ===== src/Atomic.antt =====
-- src/kernel/lib/atomic/atomic_main.cppm and lock.cpp: the atomic operations, each one step on the
-- cell that it is given, and the operations of a spin lock.
pub mod Exclusion
use closure_os.Base.{ℕ, ◌+◌, ◌-◌, ◌%◌, ◌^◌, ◌<◌, Bool, true, false, ◌==◌, ltb, leb, if◌then◌else◌}

-- An `atomic_t` is an `int32_t`, kept as its bit pattern.
abbrev pub minus_one : ℕ
minus_one = 2 ^ 32 - 1

abbrev pub is_negative : ℕ → Bool
is_negative v = leb (2 ^ 31) v

-- The value that an operation returns, and what it leaves in the cell.
pub record Access (A : Type 0) : Type 0 where
  pub result : A
  pub cell : ℕ

unfoldable pub atomic_compare_and_swap : ℕ → ℕ → ℕ → Access Bool
atomic_compare_and_swap cell oldval newval =
    if cell == oldval
    then record { result = true; cell = newval }
    else record { result = false; cell = cell }

unfoldable pub atomic_set : ℕ → ℕ → Access ℕ
atomic_set cell newval = record { result = cell; cell = newval }

unfoldable pub atomic_inc : ℕ → Access ℕ
atomic_inc cell = record { result = cell; cell = (cell + 1) % 2 ^ 32 }

unfoldable pub atomic_dec : ℕ → Access ℕ
atomic_dec cell = record { result = cell; cell = (cell + 2 ^ 32 - 1) % 2 ^ 32 }

unfoldable pub atomic_read : ℕ → Access ℕ
atomic_read cell = record { result = cell; cell = (cell + 0) % 2 ^ 32 }

abbrev pub spinlock_locked : ℕ
spinlock_locked = 1

abbrev pub spinlock_free : ℕ
spinlock_free = 0

-- One round of the loop of `SpinLock::Lock`, and the whole of `SpinLock::TryLock`.
unfoldable pub try_lock : ℕ → Access Bool
unfolding atomic_compare_and_swap
try_lock counter = atomic_compare_and_swap counter spinlock_free spinlock_locked

unfoldable pub unlock : ℕ → Access ℕ
unfolding atomic_set
unlock counter = atomic_set counter spinlock_free

unfoldable pub reset : ℕ → Access ℕ
unfolding atomic_set
reset counter = atomic_set counter spinlock_free
