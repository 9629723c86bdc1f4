-- ===== src/Mutex/Frame.antt =====
-- A mutex while other objects, or the clock, are at work.
use coo_rtos.Kernel.{Kernel}
use coo_rtos.Kernel.Invariant.{Inv}
use coo_rtos.Kernel.Delay.{Timely}
use coo_rtos.Kernel.Thins.{Thins, Thins-nil}
use coo_rtos.Mutex.{Mutex}
use coo_rtos.Mutex.Handover.{Sound}

pub Thins-Sound :
    (m : Mutex) (k k' : Kernel) → Sound m k → Inv k' → Timely k' → Thins m.waiters k k' → Sound m k'
Thins-Sound m k k' v i tm a = record {
  inv = i;
  timely = tm;
  fair = λ e. Thins-nil m.waiters k k' a (v.fair e);
}
