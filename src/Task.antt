-- ===== src/Task.antt =====
-- task.hpp with pool.hpp and kernel.hpp: the life of a task, from the allocation of its frame to its
-- end. The number of a task is that of its frame, the address of a block of the pool.
pub mod Life
mod Tests
use coo_rtos.Base.{ℕ, ◌-◌, Bool, Option, none, some, Run, ok, ◌>>=◌}
use coo_rtos.Kernel.{created, TaskPromise, Kernel, set_task, start}
use coo_rtos.FramePool.{FramePool, allocate_frame, deallocate_frame}

pub record Runtime : Type 0 where
  pub pool : FramePool
  pub kernel : Kernel

-- The promise of a task that waits at its `initial_suspend`; it has no resume point yet.
abbrev pub new_promise : Kernel → TaskPromise
new_promise k = record { resume_point = 0; priority = k.num_priorities - 1; state = created }

-- `get_return_object`, and `get_return_object_on_allocation_failure` for a null pointer.
abbrev pub return_object : Option ℕ → Runtime → Option ℕ × Runtime
return_object none r = (none, r)
return_object (some h) r =
    (some h, record r { kernel = set_task h (new_promise r.kernel) r.kernel })

-- The call of a coroutine that returns a `Task` and has a frame of `n` bytes: `operator new`, and
-- the promise. `hook` is `alloc_failed_hook`.
pub make_task : Option (ℕ → FramePool → Run FramePool) → ℕ → Runtime → Run (Option ℕ × Runtime)
make_task hook n r =
    allocate_frame hook n r.pool >>= λ (h, pool). ok (return_object h (record r { pool = pool }))

-- `kernel::start`, which takes over the handle.
pub start_task : Option ℕ → ℕ → Runtime → Bool × Runtime
start_task h prio r = let (b, k) = start h prio r.kernel in (b, record r { kernel = k })

-- `h.destroy()`, by `~Task` of a task that was not started or by `FinalAwaiter::await_suspend` of one
-- that ends: `operator delete`. A null handle is left alone.
pub destroy_task : Option ℕ → Runtime → Run Runtime
destroy_task none r = ok r
destroy_task (some h) r = deallocate_frame (some h) r.pool >>= λ pool. ok (record r { pool = pool })

-- `kernel::start(f(), prio)`
pub spawn : Option (ℕ → FramePool → Run FramePool) → ℕ → ℕ → Runtime → Run (Bool × Runtime)
unfolding make_task start_task
spawn hook n prio r = make_task hook n r >>= λ (h, r'). ok (start_task h prio r')
