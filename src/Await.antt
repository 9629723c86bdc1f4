-- ===== src/Await.antt =====
-- The awaiters that the calls of semaphore.hpp, mutex.hpp, queue.hpp, event_group.hpp, time.hpp and
-- kernel.hpp make, and `co_await` of them, which the C++ standard defines by their three functions.
-- `w` is the number of the wait node in the awaiter.
pub mod Meet
mod Tests
use coo_rtos.Base.{ℕ, Bool, true, false, Option, none, some, if◌then◌else◌, Run, ok, ◌>>=◌}
use coo_rtos.Tick.{Duration, to_ticks}
use coo_rtos.Kernel.{Kernel, yield_suspend}
use coo_rtos.Semaphore.{Semaphore, acquire_suspend, acquire_for_suspend, acquire_for_resume}
use coo_rtos.Mutex.{Mutex, lock_suspend}
use coo_rtos.EventGroup.{
  WaitInfo, EventGroup, set_info, wait_suspend, wait_for_suspend, wait_for_resume,
}
use coo_rtos.Queue.{
  Queue, receive_suspend, receive_for_suspend, receive_resume, receive_for_resume, send_suspend,
  send_for_suspend, send_for_resume,
}
use coo_rtos.Sleep.{sleep_ready, sleep_suspend}

-- `S` is the state that the awaiter works on, with its own fields that change, and `R` the type of the
-- result. An `await_suspend` that answers nothing always suspends.
pub record Awaiter {ℓ κ} (S : Type ℓ) (R : Type κ) : Type (ℓ ⊔ κ) where
  pub await_ready : Bool
  pub await_suspend : ℕ → S → Run (Bool × S)
  pub await_resume : S → Run (R × S)

pub data Outcome {ℓ κ} (S : Type ℓ) (R : Type κ) : Type (ℓ ⊔ κ) where
  goes_on : R → S → Outcome S R
  suspends : S → Outcome S R

module _ {ℓ κ} {S : Type ℓ} {R : Type κ} where
  pub go_on : Awaiter S R → S → Run (Outcome S R)
  go_on a s = a.await_resume s >>= λ (r, s'). ok (goes_on r s')

  -- `co_await` in the coroutine `h`, up to where it goes on or is suspended.
  pub co_await : Awaiter S R → ℕ → S → Run (Outcome S R)
  unfolding go_on
  co_await a h s =
      if a.await_ready
      then go_on a s
      else (a.await_suspend h s >>= λ (suspended, s').
          if suspended then ok (suspends s') else go_on a s')

-- The answer of an `await_suspend` together with the state that it leaves.
abbrev pub with_state {ℓ} : {A : Type ℓ} → Bool × A × Kernel → Run (Bool × (A × Kernel))
with_state (b, a, k) = ok (b, (a, k))

-- `CountingSemaphore::acquire`
pub acquire : ℕ → Awaiter (Semaphore × Kernel) (Unit {0})
acquire w = record {
  await_ready = false;
  await_suspend = λ h (s, k). acquire_suspend s w h k >>= with_state;
  await_resume = λ s. ok (tt, s);
}

-- `CountingSemaphore::try_acquire_for`; the state has the awaiter's `got`.
pub try_acquire_for : ℕ → ℕ → Awaiter (Bool × Semaphore × Kernel) Bool
try_acquire_for timeout w = record {
  await_ready = false;
  await_suspend = λ h (got, s, k).
      acquire_for_suspend s timeout w h k >>= λ (b, got', s', k'). ok (b, (got', s', k'));
  await_resume = λ (got, s, k). ok (acquire_for_resume got w k, (got, s, k));
}

-- `Mutex::lock`
pub lock : ℕ → Awaiter (Mutex × Kernel) (Unit {0})
lock w = record {
  await_ready = false;
  await_suspend = λ h (m, k). lock_suspend m w h k >>= with_state;
  await_resume = λ s. ok (tt, s);
}

-- The awaiter of `wait_any` or `wait_all` holds `info`.
pub wait : WaitInfo → ℕ → Awaiter (EventGroup × Kernel) ℕ
wait info w = record {
  await_ready = false;
  await_suspend = λ h (g, k). wait_suspend w h (set_info w info g) k >>= with_state;
  await_resume = λ (g, k). ok ((g.infos w).result, (g, k));
}

-- `kernel::yield`
pub yield : Awaiter Kernel (Unit {0})
yield = record {
  await_ready = false;
  await_suspend = λ h k. yield_suspend h k >>= λ k'. ok (true, k');
  await_resume = λ k. ok (tt, k);
}

-- `sleep_for`
pub sleep_for : ℕ → ℕ → Awaiter Kernel (Unit {0})
sleep_for ticks w = record {
  await_ready = sleep_ready ticks;
  await_suspend = λ h k. sleep_suspend ticks w h k >>= λ k'. ok (true, k');
  await_resume = λ k. ok (tt, k);
}

-- `SleepRequest`
pub record SleepRequest : Type 0 where
  pub ticks : ℕ

-- What `co_await` may stand before in a coroutine, and what `await_transform` makes of it: a duration
-- becomes a request to sleep, and everything else stays what it is. `hz` is RTOS_TICK_HZ.
pub data Operand {ℓ} (A : Type ℓ) : Type ℓ where
  awaitable : A → Operand A
  duration : Duration → Operand A

pub data Transformed {ℓ} (A : Type ℓ) : Type ℓ where
  passed : A → Transformed A
  request : SleepRequest → Transformed A

pub await_transform {ℓ} : {A : Type ℓ} → ℕ → Operand A → Transformed A
await_transform hz (awaitable a) = passed a
await_transform hz (duration d) = request (record { ticks = to_ticks hz d })

-- `operator co_await` of a request to sleep.
pub requested : SleepRequest → ℕ → Awaiter Kernel (Unit {0})
unfolding sleep_for
requested r w = sleep_for r.ticks w

module _ {ℓ} {T : Type ℓ} where
  -- `Queue::receive`
  pub receive : ℕ → Awaiter (Queue T × Kernel) T
  receive w = record {
    await_ready = false;
    await_suspend = λ h (q, k). receive_suspend w h q k >>= with_state;
    await_resume = λ (q, k). receive_resume w q >>= λ (v, q'). ok (v, (q', k));
  }

  -- `Queue::receive_for`; the state has the awaiter's `got`, which a value sets.
  pub receive_for : ℕ → ℕ → Awaiter (Bool × Queue T × Kernel) (Option T)
  receive_for timeout w = record {
    await_ready = false;
    await_suspend = λ h (got, q, k). receive_for_suspend timeout w h q k >>= λ (b, q', k').
        ok (b, (if b then got else true, q', k'));
    await_resume = λ (got, q, k). receive_for_resume got w q k >>= λ (o, q'). ok (o, (got, q', k));
  }

  -- `Queue::send`
  pub send : T → ℕ → Awaiter (Queue T × Kernel) (Unit {0})
  send v w = record {
    await_ready = false;
    await_suspend = λ h (q, k). send_suspend v w h q k >>= with_state;
    await_resume = λ s. ok (tt, s);
  }

  -- `Queue::send_for`; the state has the awaiter's `done`.
  pub send_for : T → ℕ → ℕ → Awaiter (Bool × Queue T × Kernel) Bool
  send_for v timeout w = record {
    await_ready = false;
    await_suspend = λ h (done, q, k). send_for_suspend v timeout w h q k >>= λ (b, q', k').
        ok (b, (if b then done else true, q', k'));
    await_resume = λ (done, q, k). ok (send_for_resume done w k, (done, q, k));
  }
