-- ===== src/Ports.antt =====
-- What kernel.hpp asks of a port in port/: operations that mask interrupts, with the laws that its
-- critical sections rely on, and code that runs in such sections.
pub mod CortexM
pub mod Host
pub mod Riscv32
pub mod Sections
mod Tests
use coo_rtos.Base.{ℕ, ◌≡◌, Bool, true, false, List, [], ◌∷◌, ◌++◌, Run, ok, ◌>>=◌}

-- The laws hold of the states that `Valid` describes. `irq_disable` and `irq_enable` do not nest on
-- hardware: they are only asked to undo each other where interrupts are not masked.
pub record Port : Type 1 where
  pub State : Type 0
  pub Valid : State → Type 0
  pub irq_save : State → ℕ × State
  pub irq_restore : ℕ → State → Run State
  pub irq_disable : State → State
  pub irq_enable : State → Run State
  pub in_critical : State → Bool
  pub save_valid : (s : State) → Valid s → Valid (irq_save s).1
  pub save_masks : (s : State) → Valid s → in_critical (irq_save s).1 ≡ true
  pub restores : (s : State) → Valid s → irq_restore (irq_save s).0 (irq_save s).1 ≡ ok s
  pub disable_valid : (s : State) → Valid s → Valid (irq_disable s)
  pub disable_masks : (s : State) → Valid s → in_critical (irq_disable s) ≡ true
  pub enables : (s : State) → Valid s → in_critical s ≡ false → irq_enable (irq_disable s) ≡ ok s

-- Code that looks whether interrupts are masked, in the scope of a `CriticalSection`, between
-- `irq_disable` and `irq_enable` like the idle step of `run`, or one part after the other.
pub data Code : Type 0 where
  looks : Code
  section : Code → Code
  masked : Code → Code
  then_do : Code → Code → Code

-- What the code sees, and the state that it leaves.
pub run : (p : Port) → Code → p.State → Run (List Bool × p.State)
run p looks s = ok (p.in_critical s ∷ [], s)
run p (section c) s =
    let r = p.irq_save s in
    run p c r.1 >>= λ (seen, s'). p.irq_restore r.0 s' >>= λ s''. ok (seen, s'')
run p (masked c) s =
    run p c (p.irq_disable s) >>= λ (seen, s'). p.irq_enable s' >>= λ s''. ok (seen, s'')
run p (then_do c d) s =
    run p c s >>= λ (seen, s'). run p d s' >>= λ (more, s''). ok (seen ++ more, s'')

-- `masked` stands outside of every section.
abbrev pub Nests : Bool → Code → Type 0
Nests inside looks = Unit {0}
Nests inside (section c) = Nests true c
Nests inside (masked c) = (inside ≡ false) × Nests true c
Nests inside (then_do c d) = Nests inside c × Nests inside d

-- What the code is to see: interrupts are masked in a section, and as they were outside.
abbrev pub sees : Bool → Code → List Bool
sees inside looks = inside ∷ []
sees inside (section c) = sees true c
sees inside (masked c) = sees true c
sees inside (then_do c d) = sees inside c ++ sees inside d
