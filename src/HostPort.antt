-- ===== src/HostPort.antt =====
-- port/host.hpp: critical sections as a count of their nesting, and the dispatch of a pending
-- preemption when the outermost one ends.
pub mod Nesting
mod Tests
use coo_rtos.Base.{
  ℕ, zero, suc, ◌+◌, ◌-◌, Bool, true, false, ◌&&◌, Option, none, some, ltb, ◌==◌, if◌then◌else◌,
  Run, ok, trap, ◌>>=◌,
}

-- `state` is what the code in the critical sections works on.
pub record Port {ℓ} (S : Type ℓ) : Type ℓ where
  pub critical_depth : ℕ
  pub preempt_pending : Bool
  pub state : S

module _ {ℓ} {S : Type ℓ} where
  pub irq_disable : Port S → Port S
  irq_disable p = record p { critical_depth = p.critical_depth + 1 }

  unfoldable pub in_critical : Port S → Bool
  in_critical p = ltb 0 p.critical_depth

  abbrev pub pend_preempt : Port S → Port S
  pend_preempt p = record p { preempt_pending = true }

  -- The call of `preempt_dispatch`, a pointer that may be null.
  abbrev pub call_dispatch : Option (Port S → Run (Port S)) → Port S → Run (Port S)
  call_dispatch none p = ok p
  call_dispatch (some dispatch) p = dispatch p

  pub irq_enable : Option (Port S → Run (Port S)) → Port S → Run (Port S)
  irq_enable dispatch p =
      if p.critical_depth == 0
      then trap
      else (let p' = record p { critical_depth = p.critical_depth - 1 } in
          if (p'.critical_depth == 0) && p'.preempt_pending
          then call_dispatch dispatch p'
          else ok p')

  -- The scope of a `CriticalSection` around `body`.
  pub critical_section :
      Option (Port S → Run (Port S)) → (Port S → Run (Port S)) → Port S → Run (Port S)
  unfolding irq_disable irq_enable
  critical_section dispatch body p = body (irq_disable p) >>= irq_enable dispatch
