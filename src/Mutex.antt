-- ===== src/Mutex.antt =====
-- mutex.hpp: `Mutex`. Contracts and assertions that fail are traps.
pub mod Handover
pub mod Frame
pub mod Calls
pub mod Events
use coo_rtos.Config.{rtos_assert}
use coo_rtos.Base.{
  ℕ, Bool, true, false, not, Option, none, some, front, ◌==◌, if◌then◌else◌, Run, ok, trap, ◌>>=◌,
}
use coo_rtos.Kernel.{Kernel, block_current, wake, unlink_wait}

-- `waiters` is the number of the mutex's wait list.
pub record Mutex : Type 0 where
  pub owner : Option ℕ
  pub waiters : ℕ

-- Equality of two task pointers, either of which may be null.
abbrev pub same_task : Option ℕ → Option ℕ → Bool
same_task none none = true
same_task none (some b) = false
same_task (some a) none = false
same_task (some a) (some b) = a == b

lock_owned : Option ℕ → Mutex → ℕ → ℕ → Kernel → Run (Bool × Mutex × Kernel)
lock_owned none m w h k = ok (false, record m { owner = k.current }, k)
lock_owned (some o) m w h k =
    if same_task (some o) k.current
    then trap
    else (block_current w (some m.waiters) h none k >>= λ k'. ok (true, m, k'))

-- `LockAwaiter::await_suspend`: whether the task is suspended.
pub lock_suspend : Mutex → ℕ → ℕ → Kernel → Run (Bool × Mutex × Kernel)
unfolding lock_owned
lock_suspend m w h k = lock_owned m.owner m w h k

try_lock_by : Option ℕ → Option ℕ → Mutex → Run (Bool × Mutex)
try_lock_by none owner m = trap
try_lock_by (some t) (some o) m = ok (false, m)
try_lock_by (some t) none m = ok (true, record m { owner = some t })

unfoldable pub try_lock : Mutex → Kernel → Run (Bool × Mutex)
unfolding try_lock_by
try_lock m k = try_lock_by k.current m.owner m

unlock_to : Option ℕ → Mutex → Kernel → Run (Mutex × Kernel)
unlock_to none m k = ok (record m { owner = none }, k)
unlock_to (some w) m k =
    let m' = record m { owner = (k.nodes w).task } in
    wake w false (unlink_wait w k) >>= λ k'. ok (m', k')

-- The assertion of `unlock`: there is a current task, and it is the owner.
abbrev pub owns : Option ℕ → Option ℕ → Bool
owns none owner = false
owns (some t) owner = same_task owner (some t)

pub unlock : Mutex → Kernel → Run (Mutex × Kernel)
unfolding unlock_to
unlock m k = rtos_assert (owns k.current m.owner) (unlock_to (front (k.wait_lists m.waiters)) m k)

abbrev pub has_owner : Option ℕ → Bool
has_owner none = false
has_owner (some t) = true

pub locked : Mutex → Bool
locked m = has_owner m.owner
