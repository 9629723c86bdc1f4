-- ===== src/SyncWait.antt =====
-- sync_wait.hpp: an `Async` run to its end from code that is no coroutine, by a task of its own and
-- a pump that the caller provides.
pub mod Pump
mod Tests
use coo_rtos.Config.{rtos_assert}
use coo_rtos.Base.{
  ℕ, zero, suc, Bool, true, false, Option, none, some, if◌then◌else◌, Run, ok, trap, out_of_fuel,
  ◌>>=◌,
}
use coo_rtos.Kernel.{Kernel, start}

pub record SyncSlot {ℓ} (T : Type ℓ) : Type ℓ where
  pub value : Option T
  pub done : Bool

-- What the pump works on. The slot is in the frame of `sync_wait`, where the wrapper task finds it.
pub record World {ℓ} (T : Type ℓ) : Type ℓ where
  pub kernel : Kernel
  pub slot : SyncSlot T

-- `*slot.value` of a slot that may be empty.
abbrev pub take_value {ℓ} : {T : Type ℓ} → Option T → Run T
take_value none = trap
take_value (some v) = ok v

module _ {ℓ} {T : Type ℓ} where
  -- The end of `sync_wait_task`, when the `Async` that it awaited has returned `v`.
  unfoldable pub finish : T → World T → World T
  finish v w = record w { slot = record { value = some v; done = true } }

  -- The loop of `sync_wait`, on fuel, and the return of the value. `pump` is the caller's.
  pub pump_until_done : (World T → Run (World T)) → ℕ → World T → Run (T × World T)
  pump_until_done pump zero w = out_of_fuel
  pump_until_done pump (suc fuel) w =
      if w.slot.done
      then (take_value w.slot.value >>= λ v. ok (v, w))
      else (pump w >>= pump_until_done pump fuel)

  -- `sync_wait` with the wrapper task `task`, which is `none` when its frame could not be allocated.
  pub sync_wait : (World T → Run (World T)) → Option ℕ → ℕ → ℕ → Kernel → Run (T × World T)
  unfolding pump_until_done
  sync_wait pump task prio fuel k =
      let (started, k') = start task prio k in
      rtos_assert started (
        pump_until_done pump fuel
          (record { kernel = k'; slot = record { value = none; done = false } }))
