-- ===== src/MainLoop.antt =====
-- kernel.hpp: `run`, the loop of the scheduler, which does not return. A round checks the ready lists
-- and goes to sleep, or not, with interrupts disabled, so that nothing comes between.
pub mod Round
pub mod Work
pub mod Masked
mod Tests
use coo_rtos.Base.{ℕ, zero, suc, Bool, true, false, List, [], ◌∷◌, ◌||◌, if◌then◌else◌}
use coo_rtos.Base.{Option, none, some, Run, ok, trap, out_of_fuel, ◌>>=◌}
use coo_rtos.Kernel.{Kernel, run_one}
use coo_rtos.Ports.{Port}

abbrev pub is_nonempty : List ℕ → Bool
is_nonempty [] = false
is_nonempty (t ∷ ts) = true

-- The scan for `any_ready`, of `n` lists from the priority `pr` on.
pub any_ready : ℕ → ℕ → (ℕ → List ℕ) → Bool
any_ready zero pr lists = false
any_ready (suc n) pr lists = is_nonempty (lists pr) || any_ready n (suc pr) lists

-- One round of `run` as the kernel sees it, without the port; `port_round` has its calls. `idle` is
-- what the port's idle and the interrupt that ends it do.
pub run_round : (ℕ → Kernel → Kernel) → (Kernel → Kernel) → Kernel → Kernel
unfolding any_ready
run_round resume idle k =
    if any_ready k.num_priorities 0 k.ready_lists then (run_one resume k).1 else idle k

-- `n` rounds.
pub rounds : (ℕ → Kernel → Kernel) → (Kernel → Kernel) → ℕ → Kernel → Kernel
unfolding run_round
rounds resume idle zero k = k
rounds resume idle (suc n) k = rounds resume idle n (run_round resume idle k)

-- One round of `run` on the port `p`: interrupts are masked from the scan on, and the port's `idle` is
-- called while they are.
pub port_round :
    (p : Port)
    → (ℕ → Kernel → Kernel)
    → (p.State → Kernel → Run (p.State × Kernel))
    → p.State
    → Kernel
    → Run (p.State × Kernel)
unfolding any_ready
port_round p resume idle s k =
    let s₁ = p.irq_disable s in
    if any_ready k.num_priorities 0 k.ready_lists
    then (p.irq_enable s₁ >>= λ s₂. ok (s₂, (run_one resume k).1))
    else (idle s₁ k >>= λ (s₂, k₂). p.irq_enable s₂ >>= λ s₃. ok (s₃, k₂))

-- The loop of `run`, which does not return, on fuel. `preempt_init`, which the preemptive build calls
-- before it, sets registers of the port and stands in Ports/CortexM.
pub run :
    (p : Port)
    → (ℕ → Kernel → Kernel)
    → (p.State → Kernel → Run (p.State × Kernel))
    → ℕ
    → p.State
    → Kernel
    → Run (p.State × Kernel)
unfolding port_round
run p resume idle zero s k = out_of_fuel
run p resume idle (suc f) s k =
    port_round p resume idle s k >>= λ (s', k'). run p resume idle f s' k'

-- `port::idle` of port/host.hpp: with no hook there is nothing that could ever wake a task.
pub host_idle : {S : Type 0} → Option (Kernel → Kernel) → S → Kernel → Run (S × Kernel)
host_idle none s k = trap
host_idle (some hook) s k = ok (s, hook k)
