-- ===== src/MainLoop/Tests.antt =====
-- The main loop with tasks that end at once.
use coo_rtos.Base.{ℕ, ◌≤◌, ◌<◌, refl, inl, inr, none, some, false, arith, subst, sym}
use coo_rtos.Kernel.{Kernel, start}
use coo_rtos.Kernel.Invariant.{Inv}
use coo_rtos.Kernel.Schedule.{run_one-RunOne}
use coo_rtos.Kernel.Start.{start-Queued}
use coo_rtos.HostPort.{Port as HostState, in_critical}
use coo_rtos.Ports.Host.{host}
use coo_rtos.MainLoop.Work.{Works, Idles, rounds-Idles}
use coo_rtos.MainLoop.Masked.{Deadlocks, run-Deadlocks}
use coo_rtos.Scene.Work.{ends, ready_above, ready_above-remove_lt}
use coo_rtos.Scene.{busy, busy-Inv}

abbrev work : Kernel → ℕ
work k = ready_above k.num_priorities k.ready_lists

ends-Works : Works work ends
ends-Works k v d = elim (run_one-RunOne ends k v) [
  | inl a ↦ absurd (ground (arith, a.0))
  | inr (t, c, e, r) ↦
      subst (λ j. work j < work k) (sym r)
        (ready_above-remove_lt k.num_priorities t (k.tasks t).priority k.ready_lists (v.in_range t)
          (v.ready_in t c.is_ready))
]

abbrev two_ready : Kernel
two_ready = (start (some 9) 0 busy).1

two_ready-Inv : Inv two_ready
two_ready-Inv = (start-Queued busy 9 0 busy-Inv (ground arith) refl).1

rounds-Idles_example : (n : ℕ) × (n ≤ work two_ready) × Idles ends (λ k. k) two_ready n
rounds-Idles_example =
    rounds-Idles ends (λ k. k) (λ h k v. v) work ends-Works two_ready two_ready-Inv

abbrev allowed : HostState (Unit {0})
allowed = record { critical_depth = 0; preempt_pending = false; state = tt }

run-Deadlocks_example :
    (n : ℕ) × (n ≤ work two_ready) × Deadlocks (host none) ends allowed two_ready n
unfolding in_critical
run-Deadlocks_example =
    run-Deadlocks (host none) allowed refl refl ends (λ h k v. v) work ends-Works two_ready
      two_ready-Inv
