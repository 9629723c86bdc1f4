-- ===== src/Preempt.antt =====
-- kernel.hpp: `preempt_handler`, the body of PendSV, and `preempt_dispatch`, which runs it on a host.
-- What a resumed coroutine does until it suspends or ends is the argument `resume`.
pub mod Settle
pub mod Pending
mod Tests
use coo_rtos.Base.{
  ℕ, zero, suc, ◌+◌, Bool, true, false, Option, none, some, ltb, if◌then◌else◌, Run, ok,
  out_of_fuel, ◌>>=◌,
}
use coo_rtos.Kernel.{Kernel, pick, dispatch}

-- `limit`: only tasks above the interrupted one run.
abbrev pub limit : Kernel → ℕ
limit k = if ltb k.running_prio k.num_priorities then k.running_prio else k.num_priorities

round : Option ℕ → (ℕ → Kernel → Kernel) → (Kernel → Run Kernel) → Kernel → Run Kernel
round none resume rest k = ok k
round (some t) resume rest k = let k₁ = dispatch t k in rest (resume (k₁.tasks t).resume_point k₁)

-- The loop of `preempt_handler`, on fuel, with its limit, which no round changes.
handler_loop : ℕ → ℕ → (ℕ → Kernel → Kernel) → Kernel → Run Kernel
unfolding round
handler_loop zero top resume k = out_of_fuel
handler_loop (suc f) top resume k =
    round (pick top 0 k.ready_lists) resume (handler_loop f top resume) k

-- `preempt_handler`, on fuel for its rounds.
pub preempt_handler : ℕ → (ℕ → Kernel → Kernel) → Kernel → Run Kernel
unfolding handler_loop
preempt_handler f resume k = handler_loop f (limit k) resume k >>= λ j.
    ok (record j { current = k.current; running_prio = k.running_prio })

-- The loop of `preempt_dispatch`, on fuel `n`: as long as a preemption is pending.
dispatch_loop : ℕ → ℕ → (ℕ → Kernel → Kernel) → Kernel → Run Kernel
unfolding preempt_handler
dispatch_loop zero f resume k = out_of_fuel
dispatch_loop (suc n) f resume k =
    if k.preempt_pending
    then (preempt_handler f resume (record k { preempt_pending = false })
        >>= dispatch_loop n f resume)
    else ok k

-- `preempt_dispatch`; `active` is `preempt_active`.
pub preempt_dispatch : Bool → ℕ → ℕ → (ℕ → Kernel → Kernel) → Kernel → Run Kernel
unfolding dispatch_loop
preempt_dispatch active n f resume k = if active then ok k else dispatch_loop n f resume k
