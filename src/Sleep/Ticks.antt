-- ===== src/Sleep/Ticks.antt =====
-- A sleeping task wakes at its tick, and not before.
use coo_rtos.Base.{
  has-reject, ℕ, zero, suc, ◌+◌, ◌<◌, ◌≡◌, refl, ap, sym, ◌∙◌, inl, true, false, none, some, arith,
  has, Returns, subst, ◌-◌,
}
use coo_rtos.Tick.{tick_mod, half_range, add_tick, sub_tick}
use coo_rtos.Kernel.{ready, running, blocked, Kernel, tick_isr}
use coo_rtos.Kernel.Invariant.{Inv, waits_for}
use coo_rtos.Kernel.Delay.{Timely, remaining}
use coo_rtos.Kernel.Link.{Unlinked}
use coo_rtos.Kernel.Block.{Blocks, block_current-Blocks}
use coo_rtos.Kernel.Tick.{runs_out, tick_isr-Ticked}
use coo_rtos.Sleep.{sleep_suspend, run_ticks}

-- The task `t` is asleep on the node `w` for `d` more ticks.
pub record Asleep (t w d : ℕ) (k : Kernel) : Type 0 where
  pub inv : Inv k
  pub timely : Timely k
  pub delayed : has w k.delay_list ≡ true
  pub own : (k.nodes w).task ≡ some t
  pub left : remaining k w ≡ d
  pub short : d < half_range

Asleep-blocked : (t w d : ℕ) (k : Kernel) → Asleep t w d k → (k.tasks t).state ≡ blocked
Asleep-blocked t w d k a =
    let q = a.inv.linked_waits w (inl a.delayed) in
    let r : waits_for (some t) k.tasks ≡ true = ap (λ o. waits_for o k.tasks) (sym a.own) ∙ q in
    ground arith

-- Of a running task, `sleep_for` returns, and blocks it on its node in the delay list alone.
pub sleep_suspend-Blocks :
    (n t w h : ℕ) (k : Kernel)
    → Inv k
    → Timely k
    → k.current ≡ some t
    → (k.tasks t).state ≡ running
    → Unlinked k w
    → n < half_range
    → Returns
        (λ k'. Inv k' × Timely k' × Blocks t w none h (some (add_tick k.tick_count n)) k k')
        (sleep_suspend n w h k)
unfolding sleep_suspend
sleep_suspend-Blocks n t w h k v tm e run u short =
    let c = tm.clock in
    block_current-Blocks k w t none h (some (add_tick k.tick_count n)) v tm e run u
      (omega arith, omega arith)

one_less :
    (due now d : ℕ)
    → now < tick_mod
    → due < tick_mod
    → sub_tick due now ≡ suc (suc d)
    → sub_tick due (add_tick now 1) ≡ suc d
one_less due now d hn hd e = omega arith

module _ (t w : ℕ) where
  tick-Asleep :
      (d : ℕ) (k : Kernel) → Asleep t w (suc (suc d)) k → Returns (Asleep t w (suc d)) (tick_isr k)
  tick-Asleep d k a =
      let (k', r, b) = tick_isr-Ticked k a.inv a.timely in
      let late : runs_out k w ≡ false = rw a.left (ground arith) in
      let same = b.kept w (rw late (ground arith)) in
      (
        k',
        r,
        record {
          inv = b.valid;
          timely = b.timely;
          delayed =
              rw (b.delay, has-reject (runs_out k) w k.delay_list, late)
                (ground (arith, a.delayed));
          own = ap (λ (n : _). n.task) same ∙ a.own;
          left =
              rw (ap (λ (n : _). n.deadline) same, b.clock)
                (one_less (k.nodes w).deadline k.tick_count d a.timely.clock (a.timely.stamps w)
                  a.left);
          short = omega (arith, a.short);
        },
      )

  still-Asleep :
      (m d : ℕ) (k : Kernel)
      → Asleep t w (m + suc d) k
      → Returns (Asleep t w (suc d)) (run_ticks m k)
  still-Asleep zero d k a =
      let e : 0 + suc d ≡ suc d = omega arith in (k, refl, subst (λ n. Asleep t w n k) e a)
  still-Asleep (suc m) d k a =
      let e : m + suc d ≡ suc (m + d) = omega arith in
      let e₂ : suc m + suc d ≡ suc (suc (m + d)) = omega arith in
      let (k', r, b) = tick-Asleep (m + d) k (subst (λ n. Asleep t w n k) e₂ a) in
      let (k'', q, c) = still-Asleep m d k' (subst (λ n. Asleep t w n k') (sym e) b) in
      (k'', rw r q, c)

  wakes :
      (d : ℕ) (k : Kernel)
      → Asleep t w (suc d) k
      → Returns
          (λ j. ((j.tasks t).state ≡ ready) × ((j.nodes w).timed_out ≡ true))
          (run_ticks (suc d) k)
  wakes zero k a =
      let (k', r, b) = tick_isr-Ticked k a.inv a.timely in
      let f = b.fired w t a.delayed (rw a.left (ground arith)) a.own in (k', rw r refl, (f.1, f.0))
  wakes (suc d) k a =
      let (k', r, b) = tick-Asleep d k a in let (k'', q, c) = wakes d k' b in (k'', rw r q, c)

  -- Of a running task, `sleep_for` with `n` ticks, `n` positive and less than 2^31, returns, and the
  -- task is blocked until the `n`-th tick from then on, at which it becomes ready.
  pub sleep_suspend_lem :
      (n h : ℕ) (k : Kernel)
      → Inv k
      → Timely k
      → k.current ≡ some t
      → (k.tasks t).state ≡ running
      → Unlinked k w
      → 0 < n
      → n < half_range
      → Returns
          (λ k'.
            ((m : ℕ) → m < n → Returns (λ j. (j.tasks t).state ≡ blocked) (run_ticks m k'))
            × Returns (λ j. (j.tasks t).state ≡ ready) (run_ticks n k'))
          (sleep_suspend n w h k)
  sleep_suspend_lem zero h k v tm e run u p short = absurd (omega arith)
  sleep_suspend_lem (suc n) h k v tm e run u p short =
      let now = tm.clock in
      let (k', r, b) = sleep_suspend-Blocks (suc n) t w h k v tm e run u short in
      let a : Asleep t w (suc n) k' = record {
        inv = b.0;
        timely = b.1;
        delayed = b.2.delayed w ∙ ground arith;
        own = b.2.own;
        left = rw (b.2.due, b.2.tick) (omega arith);
        short = short;
      } in
      let (j, q, c) = wakes n k' a in
      (
        k',
        r,
        (
          λ m l.
              let i : m + suc (n - m) ≡ suc n = omega arith in
              let (j, q, c) = still-Asleep m (n - m) k' (subst (λ d. Asleep t w d k') (sym i) a) in
              (j, q, Asleep-blocked t w (suc (n - m)) j c),
          (j, q, c.0),
        ),
      )
