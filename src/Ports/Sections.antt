-- ===== src/Ports/Sections.antt =====
-- Code in critical sections runs alike on every port.
use coo_rtos.Base.{Option, ◌<◌, ◌^◌, ℕ, ◌≡◌, refl, ◌∙◌, Bool, true, false, Run, ok}
use coo_rtos.HostPort.{Port as HostState}
use coo_rtos.Ports.CortexM.{Cpu, cortex_m}
use coo_rtos.Ports.Riscv32.{riscv32}
use coo_rtos.Ports.Host.{host}
use coo_rtos.Ports.{Port, Code, looks, section, masked, then_do, run, Nests, sees}

-- On every port that keeps the laws, code whose sections nest sees interrupts masked exactly in its
-- sections, whatever they are nested in, does not trap, and leaves the state as it found it.
pub run-sees :
    (p : Port) (c : Code) (s : p.State) (inside : Bool)
    → p.Valid s
    → p.in_critical s ≡ inside
    → Nests inside c
    → run p c s ≡ ok (sees inside c, s)
unfolding run
run-sees p looks s inside v e n = rw e refl
run-sees p (section c) s inside v e n =
    let r = p.irq_save s in
    rw (run-sees p c r.1 true (p.save_valid s v) (p.save_masks s v) n, p.restores s v) refl
run-sees p (masked c) s inside v e n =
    let m = run-sees p c (p.irq_disable s) true (p.disable_valid s v) (p.disable_masks s v) n.1 in
    rw (m, p.enables s v (e ∙ n.0)) refl
run-sees p (then_do c d) s inside v e n =
    rw (run-sees p c s inside v e n.0, run-sees p d s inside v e n.1) refl

-- On the host, on Cortex-M and on RV32 code whose sections nest sees interrupts masked in the same
-- places, namely in its sections, from states that agree on whether they are masked; it does not trap
-- and leaves each state as it was. The host has no preemption pending, and the registers hold words.
pub ports_alike :
    (d : Option (HostState (Unit {0}) → Run (HostState (Unit {0})))) (c : Code) (inside : Bool)
    (p : HostState (Unit {0})) (cpu : Cpu) (mstatus : ℕ)
    → p.preempt_pending ≡ false
    → cpu.primask < 2
    → mstatus < 2 ^ 32
    → (host d).in_critical p ≡ inside
    → cortex_m.in_critical cpu ≡ inside
    → riscv32.in_critical mstatus ≡ inside
    → Nests inside c
    → (run (host d) c p ≡ ok (sees inside c, p))
      × (run cortex_m c cpu ≡ ok (sees inside c, cpu))
      × (run riscv32 c mstatus ≡ ok (sees inside c, mstatus))
ports_alike d c inside p cpu mstatus u v w a b e n = (
  run-sees (host d) c p inside u a n,
  run-sees cortex_m c cpu inside v b n,
  run-sees riscv32 c mstatus inside w e n,
)
