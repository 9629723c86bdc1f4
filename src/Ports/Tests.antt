-- ===== src/Ports/Tests.antt =====
-- Code on every port: a section in a section after an idle step.
use coo_rtos.Base.{◌≡◌, refl, true, false, [], ◌∷◌, none, ok, arith}
use coo_rtos.HostPort.{Port as HostState, in_critical as host_critical}
use coo_rtos.Ports.{Code, looks, section, masked, then_do, run}
use coo_rtos.Ports.CortexM.{Cpu, in_critical as cortex_critical, cortex_m}
use coo_rtos.Ports.Riscv32.{riscv32, in_critical as riscv_critical}
use coo_rtos.Ports.Host.{host}
use coo_rtos.Ports.Sections.{ports_alike}

abbrev code : Code
code = then_do (masked looks) (section (then_do (section looks) looks))

abbrev outside : HostState (Unit {0})
outside = record { critical_depth = 0; preempt_pending = false; state = tt }

abbrev cpu : Cpu
cpu = record { primask = 0; shpr3 = 0x40000080; pend_sv = false }

ports_alike_example :
    (run (host none) code outside ≡ ok (true ∷ true ∷ true ∷ [], outside))
    × (run cortex_m code cpu ≡ ok (true ∷ true ∷ true ∷ [], cpu))
    × (run riscv32 code 0x1888 ≡ ok (true ∷ true ∷ true ∷ [], 0x1888))
unfolding host_critical cortex_critical riscv_critical
ports_alike_example =
    ports_alike none code false outside cpu 0x1888 refl (ground arith) (ground arith) refl refl refl
      ((refl, tt), (tt, tt))
