-- ===== src/Preempt/Pending.antt =====
-- A pending preemption is served until none is pending, however often the tasks that run ask for
-- another one.
use coo_rtos.Base.{ℕ, ◌≡◌, Option, false, Bool}
use coo_rtos.Kernel.{Kernel}
use coo_rtos.Kernel.Invariant.{Inv}
use coo_rtos.Preempt.Settle.{Settled}

-- The number of priorities is a constant of the build.
abbrev pub Fixed : (ℕ → Kernel → Kernel) → Type 0
Fixed resume = (h : ℕ) (k : Kernel) → (resume h k).num_priorities ≡ k.num_priorities

-- Whether a preemption is pending, and which task runs, is not work.
abbrev pub Steady : (Kernel → ℕ) → Type 0
Steady work =
    (k : Kernel) (b : Bool) (c : Option ℕ) (pr : ℕ)
    → work (record k { preempt_pending = b; current = c; running_prio = pr }) ≡ work k

-- The handler was at work on `k`, with `top` as its limit.
pub record Served (top : ℕ) (k j : Kernel) : Type 0 where
  pub inv : Inv j
  pub settled : Settled top j
  pub same_current : j.current ≡ k.current
  pub same_prio : j.running_prio ≡ k.running_prio
  pub same_num : j.num_priorities ≡ k.num_priorities

cleared : Kernel → Kernel
cleared k = record k { preempt_pending = false }
