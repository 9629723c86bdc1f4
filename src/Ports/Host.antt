-- ===== src/Ports/Host.antt =====
-- port/host.hpp as a port: its critical sections with no preemption pending.
use coo_rtos.Base.{◌≡◌, ◌∙◌, false, Option, Run}
use coo_rtos.HostPort.{Port as HostState, irq_disable, irq_enable, in_critical}
use coo_rtos.HostPort.Nesting.{pending-irq_disable, irq_enable-irq_disable, in_critical-irq_disable}
use coo_rtos.Ports.{Port}

-- With whatever dispatcher: none is called, since no preemption is pending.
abbrev pub host : Option (HostState (Unit {0}) → Run (HostState (Unit {0}))) → Port
host dispatch = record {
  State = HostState (Unit {0});
  Valid = λ p. p.preempt_pending ≡ false;
  irq_save = λ p. (0, irq_disable p);
  irq_restore = λ prev p. irq_enable dispatch p;
  irq_disable = irq_disable;
  irq_enable = irq_enable dispatch;
  in_critical = in_critical;
  save_valid = λ p v. pending-irq_disable p ∙ v;
  save_masks = λ p v. in_critical-irq_disable p;
  restores = λ p v. irq_enable-irq_disable dispatch p v;
  disable_valid = λ p v. pending-irq_disable p ∙ v;
  disable_masks = λ p v. in_critical-irq_disable p;
  enables = λ p v e. irq_enable-irq_disable dispatch p v;
}
