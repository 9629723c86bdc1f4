-- ===== src/EventGroup/Frame.antt =====
-- An event group while other objects, or the clock, are at work.
use coo_rtos.Base.{ℕ, ap, ◌∙◌, inl, inr, ◌==◌, has, arith, Bool-cases, ==→eq}
use coo_rtos.Kernel.{Kernel}
use coo_rtos.Kernel.Invariant.{Inv}
use coo_rtos.Kernel.Delay.{Timely}
use coo_rtos.Kernel.Thins.{Thins, Thins-has}
use coo_rtos.Kernel.Link.{Unlinked}
use coo_rtos.EventGroup.{WaitInfo, EventGroup, set_info}
use coo_rtos.EventGroup.Bits.{Fewer, Fewer-unmet}
use coo_rtos.EventGroup.Set.{Sound}

pub Thins-Sound :
    (g : EventGroup) (k k' : Kernel)
    → Sound g k
    → Inv k'
    → Timely k'
    → Thins g.waiters k k'
    → Sound g k'
Thins-Sound g k k' v i tm a = record {
  inv = i;
  timely = tm;
  unmet = λ w j. v.unmet w (Thins-has g.waiters k k' a w j).0;
  addressed = λ w j. a.payload w j ∙ v.addressed w (Thins-has g.waiters k k' a w j).0;
}

-- An awaiter that does not wait may have any block, and bits may be cleared.
pub cleared-Sound :
    (g : EventGroup) (k : Kernel) (w : ℕ) (info : WaitInfo) (b : ℕ)
    → Sound g k
    → Unlinked k w
    → Fewer b g.bits
    → Sound (record (set_info w info g) { bits = b }) k
cleared-Sound g k w info b v u f = record {
  inv = v.inv;
  timely = v.timely;
  addressed = v.addressed;
  unmet = λ y j. elim (Bool-cases (y == w)) [
    | inl e ↦ absurd (
        ground
          (arith, u.not_waiting g.waiters, ap (λ c. has c (k.wait_lists g.waiters)) (==→eq y w e)))
    | inr e ↦ rw e (Fewer-unmet (g.infos y) b g.bits f (v.unmet y j))
  ];
}
