-- ===== src/Sleep/Tests.antt =====
-- A sleep of 2500 microseconds at 1000 Hz.
use coo_rtos.Base.{ℕ, ◌+◌, ◌*◌, ◌≤◌, ◌<◌, ◌≡◌, refl, arith, pos, Returns}
use coo_rtos.Kernel.{ready, blocked}
use coo_rtos.Sleep.{sleep_duration, run_ticks}
use coo_rtos.Sleep.Lasts.{sleep_duration_lem}
use coo_rtos.Scene.{waiting, waiting-Inv, waiting-Timely, waiting-Unlinked}

sleep_duration_lem_example :
    Returns
      (λ k'.
        ((m : ℕ)
          → m * 1000000 < 2500 * 1 * 1000
          → Returns (λ j. (j.tasks 7).state ≡ blocked) (run_ticks m k'))
        × ((n : ℕ) × (2500 * 1 * 1000 ≤ n * 1000000)
            × (n * 1000000 < 2500 * 1 * 1000 + 1000000)
            × Returns (λ j. (j.tasks 7).state ≡ ready) (run_ticks n k')))
      (sleep_duration 1000 (record { count = pos 2500; num = 1; den = 1000000 }) 4 70 (waiting 0))
sleep_duration_lem_example =
    sleep_duration_lem 1000 2500 1 1000000 7 4 70 (waiting 0) (ground arith) (ground arith)
      (ground arith) (waiting-Inv 0) (waiting-Timely 0) refl refl (waiting-Unlinked 0 4 refl)
