-- ===== src/Semaphore/Tests.antt =====
-- The theorems on semaphores: free, with a waiter, and between a timeout and a release.
use coo_rtos.Base.{ℕ, ◌≡◌, refl, false, arith, has, Returns}
use coo_rtos.Kernel.{Kernel, tick_isr}
use coo_rtos.Kernel.Delay.{Timely}
use coo_rtos.Semaphore.{Semaphore, acquire_for_resume, release}
use coo_rtos.Semaphore.Grant.{Sound}
use coo_rtos.Semaphore.Release.{Releases, release-Releases}
use coo_rtos.Semaphore.Timeout.{tick_before_release}
use coo_rtos.Scene.{advance-Inv, busy, busy-Inv, busy-Timely, waiting, waiting-Timely}

abbrev empty : Semaphore
empty = record { count = 0; max = 1; waiters = 0 }

abbrev full : Semaphore
full = record { count = 2; max = 2; waiters = 0 }

-- The task 8 waits, and its timeout runs out at the next tick.
abbrev last_tick : Kernel
last_tick = record (waiting 0) { tick_count = 99 }

last_tick-Timely : Timely last_tick
last_tick-Timely = record {
  clock = ground arith;
  stamps = (waiting-Timely 0).stamps;
  sorted = (ground arith, ground arith, tt);
}

full-Sound : Sound full busy
full-Sound = record {
  inv = busy-Inv;
  timely = busy-Timely;
  bounded = ground arith;
  width = ground arith;
  fair = λ ne. refl;
}

empty-Sound : Sound empty last_tick
empty-Sound = record {
  inv = advance-Inv 0 99;
  timely = last_tick-Timely;
  bounded = ground arith;
  width = ground arith;
  fair = λ ne. absurd (ne refl);
}

release-Releases_example :
    Returns (λ r. Sound r.1 r.2 × Releases empty last_tick r.0 r.1 r.2) (release empty last_tick)
release-Releases_example = release-Releases empty last_tick empty-Sound

tick_before_release_example :
    Returns
      (λ k'.
        Sound empty k'
        × (acquire_for_resume false 3 k' ≡ false)
        × ((l : ℕ) → has 3 (k'.wait_lists l) ≡ false))
      (tick_isr last_tick)
tick_before_release_example =
    tick_before_release empty last_tick empty-Sound 3 8 refl (ground arith) refl
