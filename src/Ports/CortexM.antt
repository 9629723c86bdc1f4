-- ===== src/Ports/CortexM.antt =====
-- port/cortex_m.hpp. The registers that it reaches are the state; an instruction does to them what
-- the architecture documents.
use Prim.Native.Nat.{bit_and, bit_or}
use coo_rtos.Base.{
  ℕ, zero, suc, ◌%◌, ◌<◌, ◌≡◌, refl, ap, sym, ◌∙◌, inl, inr, Bool, true, false, not, ok, ◌==◌,
  arith, digit, digit-bit_or, digit-above, digit-small, every-holds, ==→eq, ltb→lt, leb, ltb, ◌&&◌,
  Bool-cases, if◌then◌else◌,
}
use coo_rtos.Ports.{Port}

-- PRIMASK, of which only bit 0 can be written; SHPR3, with the priority of PendSV in its bits 16 to
-- 23; and whether PendSV is pending.
pub record Cpu : Type 0 where
  pub primask : ℕ
  pub shpr3 : ℕ
  pub pend_sv : Bool

-- `mrs` and `cpsid i`
pub irq_save : Cpu → ℕ × Cpu
irq_save c = (c.primask, record c { primask = 1 })

-- `msr`
pub irq_restore : ℕ → Cpu → Cpu
irq_restore pm c = record c { primask = pm % 2 }

pub irq_disable : Cpu → Cpu
irq_disable c = record c { primask = 1 }

pub irq_enable : Cpu → Cpu
irq_enable c = record c { primask = 0 }

unfoldable pub in_critical : Cpu → Bool
in_critical c = not (bit_and c.primask 1 == 0)

pub preempt_init : Cpu → Cpu
preempt_init c = record c { shpr3 = bit_or c.shpr3 0x00FF0000 }

-- A write of ICSR with PENDSVSET, which is 1 << 28, sets PendSV pending.
pub pend_preempt : Cpu → Cpu
pend_preempt c = record c { pend_sv = true }

masks : (pm : ℕ) → pm < 2 → (not (bit_and pm 1 == 0) ≡ false) → pm ≡ 0
masks zero l e = refl
masks (suc zero) l e = absurd (ground arith)
masks (suc (suc n)) l e = absurd (omega arith)

pub irq_restore-irq_save : (c : Cpu) → c.primask < 2 → irq_restore (irq_save c).0 (irq_save c).1 ≡ c
unfolding irq_restore irq_save
irq_restore-irq_save c v =
    let same : c.primask % 2 ≡ c.primask = omega arith in ap (λ pm. record c { primask = pm }) same

pub irq_enable-irq_disable :
    (c : Cpu) → c.primask < 2 → in_critical c ≡ false → irq_enable (irq_disable c) ≡ c
unfolding in_critical irq_enable irq_disable
irq_enable-irq_disable c v e = ap (λ pm. record c { primask = pm }) (sym (masks c.primask v e))

pub irq_save-small : (c : Cpu) → (irq_save c).1.primask < 2
unfolding irq_save
irq_save-small c = omega arith

pub in_critical-irq_save : (c : Cpu) → in_critical (irq_save c).1 ≡ true
unfolding irq_save in_critical
in_critical-irq_save c = refl

pub irq_disable-small : (c : Cpu) → (irq_disable c).primask < 2
unfolding irq_disable
irq_disable-small c = omega arith

pub in_critical-irq_disable : (c : Cpu) → in_critical (irq_disable c) ≡ true
unfolding irq_disable in_critical
in_critical-irq_disable c = refl

abbrev pub cortex_m : Port
cortex_m = record {
  State = Cpu;
  Valid = λ c. c.primask < 2;
  irq_save = irq_save;
  irq_restore = λ pm c. ok (irq_restore pm c);
  irq_disable = irq_disable;
  irq_enable = λ c. ok (irq_enable c);
  in_critical = in_critical;
  save_valid = λ c v. irq_save-small c;
  save_masks = λ c v. in_critical-irq_save c;
  restores = λ c v. ap ok (irq_restore-irq_save c v);
  disable_valid = λ c v. irq_disable-small c;
  disable_masks = λ c v. in_critical-irq_disable c;
  enables = λ c v e. ap ok (irq_enable-irq_disable c v e);
}

-- The bits of PendSV's priority in SHPR3.
abbrev pub in_field : ℕ → Bool
in_field i = leb 16 i && ltb i 24

field-digit : (i : ℕ) → digit i 0x00FF0000 ≡ (if in_field i then 1 else 0)
field-digit i = elim (Bool-cases (ltb i 24)) [
  | inl l ↦ ==→eq (digit i 0x00FF0000) (if in_field i then 1 else 0) (
      every-holds 24 (λ j. digit j 0x00FF0000 == (if in_field j then 1 else 0)) refl i
        (ltb→lt i 24 l))
  | inr l ↦ digit-above 24 i 0x00FF0000 (omega arith) (ground arith) ∙ rw l (ground arith)
]

-- `preempt_init` gives PendSV the lowest priority, all of its bits set, and leaves the other
-- priorities in the register alone.
pub preempt_init_lem :
    (c : Cpu) (i : ℕ) → digit i (preempt_init c).shpr3 ≡ (if in_field i then 1 else digit i c.shpr3)
unfolding preempt_init
preempt_init_lem c i =
    let f = field-digit i in
    let d = digit-small i c.shpr3 in
    digit-bit_or i c.shpr3 0x00FF0000
    ∙ elim (Bool-cases (in_field i)) [ inl h ↦ ground arith | inr h ↦ ground arith ]
