-- ===== src/HostPort/Nesting.antt =====
-- Critical sections nest, and only the outermost one lets a preemption through.
use coo_rtos.Base.{
  ℕ, ◌+◌, ◌-◌, ◌≡◌, refl, true, false, ◌&&◌, Option, none, some, arith, ◌==◌, if◌then◌else◌, Run,
  ok, Returns,
}
use coo_rtos.HostPort.{Port, irq_disable, irq_enable, call_dispatch, in_critical}

module _ {ℓ} {S : Type ℓ} where
  -- Code that returns at the depth of nesting at which it was called.
  abbrev pub Balanced : (Port S → Run (Port S)) → Type ℓ
  Balanced f = (p : Port S) → Returns (λ q. q.critical_depth ≡ p.critical_depth) (f p)

  abbrev pub Hook : Option (Port S → Run (Port S)) → Type ℓ
  Hook none = Unit
  Hook (some f) = Balanced f

  -- What the end of a critical section at depth `n` does to the port `q` that the body has left.
  abbrev pub leave : Option (Port S → Run (Port S)) → ℕ → Port S → Run (Port S)
  leave d n q =
      let q' = record q { critical_depth = n } in
      if (n == 0) && q.preempt_pending then call_dispatch d q' else ok q'

  pub pending-irq_disable : (p : Port S) → (irq_disable p).preempt_pending ≡ p.preempt_pending
  unfolding irq_disable
  pending-irq_disable p = refl

  pub in_critical-irq_disable : (p : Port S) → in_critical (irq_disable p) ≡ true
  unfolding in_critical irq_disable
  in_critical-irq_disable p = ground arith

  -- With no preemption pending, leaving a section gives back the state in which it was entered.
  pub irq_enable-irq_disable :
      (d : Option (Port S → Run (Port S))) (p : Port S)
      → p.preempt_pending ≡ false
      → irq_enable d (irq_disable p) ≡ ok p
  unfolding irq_enable irq_disable
  irq_enable-irq_disable d p v =
      let n : p.critical_depth + 1 - 1 ≡ p.critical_depth = omega arith in
      let c : (p.critical_depth + 1 == 0) ≡ false = ground arith in
      let off : ((p.critical_depth == 0) && p.preempt_pending) ≡ false = ground arith in
      rw (c, n) (rw off refl)
