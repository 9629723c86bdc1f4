-- ===== src/Sleep/Lasts.antt =====
-- time.hpp and task.hpp: a sleep of a duration, as `sleep_for` and `co_await` of one make it.
use coo_rtos.Base.{ℕ, zero, suc, ◌+◌, ◌-◌, ◌*◌, ◌≤◌, ◌<◌, ◌≡◌, pos, some, arith, Returns}
use coo_rtos.Tick.{tick_mod, half_range, to_ticks}
use coo_rtos.Tick.Ceil.{to_ticks_ceil}
use coo_rtos.Kernel.{ready, running, blocked, Kernel}
use coo_rtos.Kernel.Invariant.{Inv}
use coo_rtos.Kernel.Delay.{Timely}
use coo_rtos.Kernel.Link.{Unlinked}
use coo_rtos.Sleep.{run_ticks, sleep_duration}
use coo_rtos.Sleep.Ticks.{sleep_suspend_lem}

pub factor_lt : (m n d : ℕ) → m * d < n * d → m < n
factor_lt m n d h = grind arith

factor_pos : (n d : ℕ) → 0 < n * d → 0 < n
factor_pos zero d h = absurd (omega arith)
factor_pos (suc n) d h = omega arith

-- A running task that sleeps for a positive duration of less than 2^31 ticks sleeps at least that
-- long and less than a tick longer: it is blocked after every number of ticks that is shorter than the
-- duration, and ready after the least one that is not. `scaled` is the duration in ticks times `den`.
pub sleep_duration_lem :
    (hz count num den t w h : ℕ) (k : Kernel)
    → 0 < den
    → 0 < count * num * hz
    → count * num * hz ≤ (half_range - 1) * den
    → Inv k
    → Timely k
    → k.current ≡ some t
    → (k.tasks t).state ≡ running
    → Unlinked k w
    → Returns
        (λ k'.
          ((m : ℕ)
            → m * den < count * num * hz
            → Returns (λ j. (j.tasks t).state ≡ blocked) (run_ticks m k'))
          × ((n : ℕ) × (count * num * hz ≤ n * den)
              × (n * den < count * num * hz + den)
              × Returns (λ j. (j.tasks t).state ≡ ready) (run_ticks n k')))
        (sleep_duration hz (record { count = pos count; num = num; den = den }) w h k)
unfolding sleep_duration
sleep_duration_lem hz count num den t w h k pd ps fits v tm e run u =
    let x = count * num * hz in
    let n = to_ticks hz (record { count = pos count; num = num; den = den }) in
    let wide : x ≤ (tick_mod - 1) * den = omega arith in
    let c = to_ticks_ceil hz count num den pd wide in
    let short : n < half_range = factor_lt n half_range den (omega (arith, c.1, fits)) in
    let (k', r, a) =
      sleep_suspend_lem t w n h k v tm e run u (factor_pos n den (omega arith)) short in
    (k', r, (λ m l. a.0 m (factor_lt m n den (omega (arith, c.0))), (n, c.0, c.1, a.1)))
