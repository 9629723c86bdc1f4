-- ===== src/Semaphore/Grant.antt =====
-- Every operation of `CountingSemaphore` on every branch: who gets a unit, and that none is lost.
use coo_rtos.Base.{
  ℕ, ◌+◌, ◌-◌, ◌^◌, ◌≤◌, ◌<◌, ◌≡◌, refl, ap, ◌∙◌, ◌≢◌, ◌⊎◌, inl, inr, Bool, true, false, not,
  Option, none, some, [], arith, ltb, ltb→lt, Bool-cases, ok, Returns, ◌>>=◌,
}
use coo_rtos.Tick.{add_tick, half_range}
use coo_rtos.Kernel.{running, Kernel}
use coo_rtos.Kernel.Invariant.{Inv}
use coo_rtos.Kernel.Delay.{Timely}
use coo_rtos.Kernel.Link.{Unlinked}
use coo_rtos.Kernel.Block.{Blocks, block_current-Blocks}
use coo_rtos.Semaphore.{Semaphore, acquire_suspend, acquire_for_suspend}

-- The counter is in its range, and nobody waits while there is a unit to take.
pub record Sound (s : Semaphore) (k : Kernel) : Type 0 where
  pub inv : Inv k
  pub timely : Timely k
  pub bounded : s.count ≤ s.max
  pub width : s.max < 2 ^ 32
  pub fair : s.count ≢ 0 → k.wait_lists s.waiters ≡ []

-- A unit is taken off the counter.
pub record Takes (s s' : Semaphore) : Type 0 where
  pub had : 0 < s.count
  pub less : s'.count + 1 ≡ s.count
  pub same_max : s'.max ≡ s.max
  pub same_list : s'.waiters ≡ s.waiters

pub Takes-Sound : (s s' : Semaphore) (k : Kernel) → Sound s k → Takes s s' → Sound s' k
Takes-Sound s s' k v a = record {
  inv = v.inv;
  timely = v.timely;
  bounded = omega (arith, v.bounded, a.less, a.same_max);
  width = omega (arith, v.width, a.same_max);
  fair = λ ne. ap k.wait_lists a.same_list ∙ v.fair (omega (arith, a.had));
}

pub taken : (s : Semaphore) → 0 < s.count → Takes s (record s { count = s.count - 1 })
taken s h = record { had = h; less = omega arith; same_max = refl; same_list = refl }

blocked-Sound :
    (s : Semaphore) (k k' : Kernel) → Sound s k → s.count ≡ 0 → Inv k' → Timely k' → Sound s k'
blocked-Sound s k k' v z i t = record {
  inv = i;
  timely = t;
  bounded = v.bounded;
  width = v.width;
  fair = λ ne. absurd (ne z);
}

-- A unit is there and is taken at once, or the task goes to the end of the wait list.
abbrev pub Acquires : ℕ → ℕ → ℕ → Option ℕ → Semaphore → Kernel → Bool → Semaphore → Kernel → Type 0
Acquires t w h deadline s k suspended s' k' =
    ((suspended ≡ false) × Takes s s' × (k' ≡ k))
    ⊎ ((suspended ≡ true) × (s.count ≡ 0) × (s' ≡ s) × Blocks t w (some s.waiters) h deadline k k')

module _ (s : Semaphore) (k : Kernel) (v : Sound s k) (t w h : ℕ) (e : k.current ≡ some t)
    (run : (k.tasks t).state ≡ running) (u : Unlinked k w) where
  -- `acquire`: a unit is taken at once if there is one, and the task is suspended at the end of the
  -- wait list if not; it never traps.
  pub acquire_suspend-Acquires :
      Returns (λ r. Sound r.1 r.2 × Acquires t w h none s k r.0 r.1 r.2) (acquire_suspend s w h k)
  unfolding acquire_suspend
  acquire_suspend-Acquires = elim (Bool-cases (ltb 0 s.count)) [
    | inl c ↦
        let a = taken s (ltb→lt 0 s.count c) in
        (
          (false, record s { count = s.count - 1 }, k),
          rw c refl,
          (Takes-Sound s (record s { count = s.count - 1 }) k v a, inl (refl, a, refl)),
        )
    | inr c ↦
        let z : s.count ≡ 0 = ground arith in
        let (k', r, b) =
          block_current-Blocks k w t (some s.waiters) h none v.inv v.timely e run u tt in
        (
          (true, s, k'),
          rw c (ap (λ m. m >>= λ j. ok (true, s, j)) r),
          (blocked-Sound s k k' v z b.0 b.1, inr (refl, z, refl, b.2)),
        )
  ]

  -- `try_acquire_for`: the same, with a deadline when it is suspended; `got` records which.
  pub acquire_for_suspend-Acquires :
      (timeout : ℕ)
      → timeout < half_range
      → Returns
          (λ r.
            Sound r.2 r.3
            × Acquires t w h (some (add_tick k.tick_count timeout)) s k r.0 r.2 r.3
            × (r.1 ≡ not r.0))
          (acquire_for_suspend s timeout w h k)
  unfolding acquire_for_suspend
  acquire_for_suspend-Acquires timeout short = elim (Bool-cases (ltb 0 s.count)) [
    | inl c ↦
        let a = taken s (ltb→lt 0 s.count c) in
        (
          (false, true, record s { count = s.count - 1 }, k),
          rw c refl,
          (Takes-Sound s (record s { count = s.count - 1 }) k v a, inl (refl, a, refl), refl),
        )
    | inr c ↦
        let z : s.count ≡ 0 = ground arith in
        let d = add_tick k.tick_count timeout in
        let n = v.timely.clock in
        let (k', r, b) =
          block_current-Blocks k w t (some s.waiters) h (some d) v.inv v.timely e run u
            (omega arith, omega arith) in
        (
          (true, false, s, k'),
          rw c (ap (λ m. m >>= λ j. ok (true, false, s, j)) r),
          (blocked-Sound s k k' v z b.0 b.1, inr (refl, z, refl, b.2), refl),
        )
  ]
