-- ===== src/EventGroup/Wait.antt =====
-- `wait_any`, `wait_all`, their `_for` forms and `sync`.
use coo_rtos.Base.{
  ℕ, ◌<◌, ◌≡◌, refl, ap, ◌∙◌, inl, inr, Bool, true, false, Option, none, some, [], ◌∷◌, ◌++◌, arith,
  ◌==◌, ==→eq, if◌then◌else◌, Bool-cases, has, has-append, Returns,
}
use coo_rtos.Tick.{add_tick, half_range}
use coo_rtos.Kernel.{running, WaitNode, Kernel, set_payload}
use coo_rtos.Kernel.Invariant.{Inv}
use coo_rtos.Kernel.Delay.{Timely}
use coo_rtos.Kernel.Link.{Unlinked}
use coo_rtos.Kernel.Block.{Blocks, Ahead}
use coo_rtos.Kernel.Payload.{pointed-Blocks}
use coo_rtos.EventGroup.Bits.{Fewer, mask_off-Fewer}
use coo_rtos.EventGroup.Frame.{cleared-Sound}
use coo_rtos.EventGroup.{
  WaitInfo, EventGroup, set_info, mask_off, try_take, wait_after, wait_suspend, wait_for_suspend,
}
use coo_rtos.EventGroup.Visit.{holds_for}
use coo_rtos.EventGroup.Set.{Sound}

-- The condition holds, and the task goes on with the bits as its result; or the task is the last
-- of the waiters.
pub data Waits (t w h : ℕ) (deadline : Option ℕ) (g : EventGroup) (k : Kernel) (suspended : Bool)
    (g' : EventGroup) (k' : Kernel) : Type 0 where
  goes_on :
      holds_for g w ≡ true
      → suspended ≡ false
      → k' ≡ k
      → (g'.infos w).result ≡ g.bits
      → g'.bits ≡ (if (g.infos w).clear then mask_off g.bits (g.infos w).want else g.bits)
      → g'.waiters ≡ g.waiters
      → Waits t w h deadline g k suspended g' k'
  waits :
      holds_for g w ≡ false
      → suspended ≡ true
      → g' ≡ g
      → Blocks t w (some g.waiters) h deadline (set_payload w k) k'
      → Waits t w h deadline g k suspended g' k'

joined-old :
    (k k' : Kernel) (l w y : ℕ)
    → k'.wait_lists l ≡ k.wait_lists l ++ w ∷ []
    → has y (k'.wait_lists l) ≡ true
    → (y == w) ≡ false
    → has y (k.wait_lists l) ≡ true
joined-old k k' l w y e j c = ground (arith, ap (has y) e, has-append y (k.wait_lists l) (w ∷ []))

cleared-Fewer :
    (g : EventGroup) (info : WaitInfo)
    → Fewer (if info.clear then mask_off g.bits info.want else g.bits) g.bits
cleared-Fewer g info i = elim (Bool-cases info.clear) [
  | inl c ↦ rw c (mask_off-Fewer g.bits info.want i)
  | inr c ↦ rw c (omega arith)
]

module _ (g : EventGroup) (k : Kernel) (v : Sound g k) (t w h : ℕ) (e : k.current ≡ some t)
    (run : (k.tasks t).state ≡ running) (u : Unlinked k w) where
  pub blocked-Sound :
      (deadline : Option ℕ)
      → (k' : Kernel) → Inv k'
      → Timely k'
      → Blocks t w (some g.waiters) h deadline (set_payload w k) k'
      → holds_for g w ≡ false
      → Sound g k'
  blocked-Sound deadline k' i tm b n = record {
    inv = i;
    timely = tm;
    unmet = λ y j. elim (Bool-cases (y == w)) [
      | inl c ↦ ap (holds_for g) (==→eq y w c) ∙ n
      | inr c ↦ v.unmet y (joined-old k k' g.waiters w y (b.waits g.waiters ∙ ground arith) j c)
    ];
    addressed = λ y j. elim (Bool-cases (y == w)) [
      | inl c ↦ rw (==→eq y w c) (b.slot ∙ ground arith)
      | inr c ↦
          let old = joined-old k k' g.waiters w y (b.waits g.waiters ∙ ground arith) j c in
          let same : k'.nodes y ≡ k.nodes y = b.other_nodes y (ground arith) ∙ rw c refl in
          ap (λ (n : WaitNode). n.payload) same ∙ v.addressed y old
    ];
  }

  wait_after-Waits :
      (deadline : Option ℕ)
      → Ahead k.tick_count deadline
      → Returns
          (λ r. Sound r.1 r.2 × Waits t w h deadline g k r.0 r.1 r.2)
          (wait_after deadline w h (try_take w g) k)
  unfolding wait_after try_take
  wait_after-Waits deadline a = elim (Bool-cases (holds_for g w)) [
    | inl c ↦
        let info = g.infos w in
        let g' : EventGroup = record (set_info w (record info { result = g.bits }) g) {
          bits = if info.clear then mask_off g.bits info.want else g.bits;
        } in
        (
          (false, g', k),
          rw c refl,
          (
            cleared-Sound g k w (record info { result = g.bits }) g'.bits v u
                (cleared-Fewer g info),
            goes_on c refl refl (ground arith) refl refl,
          ),
        )
    | inr c ↦
        let (k', r, b) = pointed-Blocks k v.inv v.timely t w h deadline e run u a g.waiters in
        (
          (true, g, k'),
          rw (c, r) refl,
          (blocked-Sound deadline k' b.0 b.1 b.2 c, waits c refl refl b.2),
        )
  ]

  -- Of a running task, `wait_any` and `wait_all` go on at once when their condition holds, with the
  -- bits as their result and the wanted ones cleared if asked for; else they suspend the task as the
  -- last waiter. They do not trap.
  pub wait_suspend-Waits :
      Returns (λ r. Sound r.1 r.2 × Waits t w h none g k r.0 r.1 r.2) (wait_suspend w h g k)
  unfolding wait_suspend
  wait_suspend-Waits = wait_after-Waits none tt

  -- The forms with a timeout, which is less than 2^31 ticks, do the same, and a suspended task has
  -- its deadline in the delay list.
  pub wait_for_suspend-Waits :
      (timeout : ℕ)
      → timeout < half_range
      → Returns
          (λ r. Sound r.1 r.2 × Waits t w h (some (add_tick k.tick_count timeout)) g k r.0 r.1 r.2)
          (wait_for_suspend timeout w h g k)
  unfolding wait_for_suspend
  wait_for_suspend-Waits timeout short =
      let n = v.timely.clock in
      wait_after-Waits (some (add_tick k.tick_count timeout)) (omega arith, omega arith)
