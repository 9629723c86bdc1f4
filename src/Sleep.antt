-- ===== src/Sleep.antt =====
-- time.hpp: `SleepAwaiter`, a wait with a node in the delay list only.
pub mod Ticks
pub mod Lasts
mod Tests
use coo_rtos.Base.{ℕ, zero, suc, Bool, Option, none, some, Run, ok, ◌>>=◌, ◌==◌}
use coo_rtos.Tick.{add_tick, Duration, to_ticks}
use coo_rtos.Kernel.{now, Kernel, block_current, tick_isr}

-- `SleepAwaiter::await_ready`
pub sleep_ready : ℕ → Bool
sleep_ready ticks = ticks == 0

-- `SleepAwaiter::await_suspend`
pub sleep_suspend : ℕ → ℕ → ℕ → Kernel → Run Kernel
sleep_suspend ticks w h k = block_current w none h (some (add_tick (now k) ticks)) k

-- The awaiter of `sleep_for` with a duration, and of `co_await` with one: `await_transform` makes it a
-- `SleepRequest`, and that becomes the same awaiter. The first argument is RTOS_TICK_HZ.
unfoldable pub sleep_duration : ℕ → Duration → ℕ → ℕ → Kernel → Run Kernel
unfolding sleep_suspend
sleep_duration hz d w h k = sleep_suspend (to_ticks hz d) w h k

-- `n` timer interrupts with nothing in between.
abbrev pub run_ticks : ℕ → Kernel → Run Kernel
run_ticks zero k = ok k
run_ticks (suc n) k = tick_isr k >>= run_ticks n
