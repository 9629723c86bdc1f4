-- ===== src/Async.antt =====
-- task.hpp: `Async`, the nested coroutines, and the handle of a `Task`. A frame is a number, and the
-- heap of frames holds a promise where a frame is alive. The body of a coroutine is the compiler's;
-- here are the steps that the library hooks into it.
pub mod Calls
pub mod Void
pub mod Frame
mod Tests
use coo_rtos.Base.{
  ℕ, Bool, true, false, Option, none, some, List, [], ◌∷◌, update, Run, ok, trap, ◌>>=◌,
}

-- `Async<T>::promise_type`; `result` is `none` while `has_result` is false.
pub record Promise {ℓ} (T : Type ℓ) : Type ℓ where
  pub continuation : Option ℕ
  pub result : Option T

-- Reading through a handle, or the result of a promise.
abbrev pub follow {ℓ} : {A : Type ℓ} → Option A → Run A
follow none = trap
follow (some a) = ok a

-- `Awaiter::await_ready`, which asserts that the frame could be allocated.
pub await_ready : Option ℕ → Run Bool
await_ready none = trap
await_ready (some h) = ok false

abbrev pub Frames {ℓ} : Type ℓ → Type ℓ
Frames T = ℕ → Option (Promise T)

module _ {ℓ} {T : Type ℓ} where
  -- The promise of a coroutine that has not started, as `get_return_object` finds it.
  pub create : ℕ → Frames T → Frames T
  create h f = update f h (some (record { continuation = none; result = none }))

  -- `Awaiter::await_suspend`: the caller `cont` goes to sleep, and the handle to run next.
  pub await_suspend : ℕ → ℕ → Frames T → Run (ℕ × Frames T)
  await_suspend h cont f = do
    p ← follow (f h)
    ok (h, update f h (some (record p { continuation = some cont })))

  -- `return_value`
  pub return_value : ℕ → T → Frames T → Run (Frames T)
  return_value h v f = do p ← follow (f h); ok (update f h (some (record p { result = some v })))

  -- `FinalAwaiter::await_suspend`: the handle to run next.
  pub final_suspend : ℕ → Frames T → Run ℕ
  final_suspend h f = follow (f h) >>= λ p. follow p.continuation

  -- `Awaiter::await_resume`: the result is moved out, of a promise that still has one.
  pub await_resume : ℕ → Frames T → Run T
  await_resume h f = follow (f h) >>= λ p. follow p.result

  -- `~Async` and `~Task`, of a handle that may have been given away.
  pub destroy : Option ℕ → Frames T → Frames T
  destroy none f = f
  destroy (some h) f = update f h none

-- `Task::release` and the move constructors: the handle, and what is left.
pub release : Option ℕ → Option ℕ × Option ℕ
release h = (h, none)
