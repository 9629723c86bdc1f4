-- ===== src/Semaphore.antt =====
-- semaphore.hpp: `CountingSemaphore`. A function that runs in a critical section takes the
-- semaphore and the kernel, and returns what they become.
pub mod Grant
pub mod Timeout
pub mod Release
pub mod Calls
pub mod Permits
mod Tests
use coo_rtos.Base.{
  ℕ, ◌+◌, ◌-◌, ◌%◌, ◌^◌, Bool, true, false, not, ◌||◌, Option, none, some, front, ltb,
  if◌then◌else◌, Run, ok, ◌>>=◌,
}
use coo_rtos.Tick.{add_tick}
use coo_rtos.Kernel.{now, Kernel, block_current, wake, unlink_wait}

-- `waiters` is the number of the semaphore's wait list.
pub record Semaphore : Type 0 where
  pub count : ℕ
  pub max : ℕ
  pub waiters : ℕ

-- `AcquireAwaiter::await_suspend`: whether the task is suspended. The awaiter's node is `w`.
unfoldable pub acquire_suspend : Semaphore → ℕ → ℕ → Kernel → Run (Bool × Semaphore × Kernel)
acquire_suspend s w h k =
    if ltb 0 s.count
    then ok (false, record s { count = s.count - 1 }, k)
    else (block_current w (some s.waiters) h none k >>= λ k'. ok (true, s, k'))

-- `AcquireForAwaiter::await_suspend`: also what `got` becomes.
pub acquire_for_suspend : Semaphore → ℕ → ℕ → ℕ → Kernel → Run (Bool × Bool × Semaphore × Kernel)
acquire_for_suspend s timeout w h k =
    if ltb 0 s.count
    then ok (false, true, record s { count = s.count - 1 }, k)
    else (block_current w (some s.waiters) h (some (add_tick (now k) timeout)) k >>= λ k'.
        ok (true, false, s, k'))

-- `AcquireForAwaiter::await_resume`
pub acquire_for_resume : Bool → ℕ → Kernel → Bool
acquire_for_resume got w k = got || not (k.nodes w).timed_out

pub try_acquire : Semaphore → Bool × Semaphore
try_acquire s = if ltb 0 s.count then (true, record s { count = s.count - 1 }) else (false, s)

-- `++count_`, on uint32_t
abbrev pub increment : ℕ → ℕ
increment n = (n + 1) % 2 ^ 32

abbrev release_to : Option ℕ → Semaphore → Kernel → Run (Bool × Semaphore × Kernel)
release_to (some w) s k = wake w false (unlink_wait w k) >>= λ k'. ok (true, s, k')
release_to none s k =
    if ltb s.count s.max
    then ok (true, record s { count = increment s.count }, k)
    else ok (false, s, k)

unfoldable pub release : Semaphore → Kernel → Run (Bool × Semaphore × Kernel)
release s k = release_to (front (k.wait_lists s.waiters)) s k

-- `CountingSemaphore(initial, max_count)`, and `BinarySemaphore`.
abbrev pub counting : ℕ → ℕ → ℕ → Semaphore
counting initial max_count l = record { count = initial; max = max_count; waiters = l }

abbrev pub binary : Bool → ℕ → Semaphore
binary available l = counting (if available then 1 else 0) 1 l
