-- ===== src/Semaphore/Timeout.antt =====
-- A waiter of `try_acquire_for` between `tick_isr` and `release`.
use coo_rtos.Base.{
  ℕ, ◌≤◌, ◌≡◌, refl, ap, Bool, true, false, some, List, ◌∷◌, arith, has, has-remove, Returns,
}
use coo_rtos.Kernel.{Kernel, tick_isr}
use coo_rtos.Kernel.Delay.{remaining, Timely}
use coo_rtos.Kernel.Tick.{Ticked, Ticked-gone, tick_isr-Ticked}
use coo_rtos.Kernel.Invariant.{Inv}
use coo_rtos.Kernel.Thins.{Thins, Thins-nil, Ticked-Thins}
use coo_rtos.Semaphore.{Semaphore, acquire_for_resume, release}
use coo_rtos.Semaphore.Grant.{Sound}
use coo_rtos.Semaphore.Release.{Releases, hands, counts, loses, release-Releases}

-- Waiters may leave, for whatever reason.
pub Thins-Sound :
    (s : Semaphore) (k k' : Kernel)
    → Sound s k
    → Inv k'
    → Timely k'
    → Thins s.waiters k k'
    → Sound s k'
Thins-Sound s k k' v i tm a = record {
  inv = i;
  timely = tm;
  bounded = v.bounded;
  width = v.width;
  fair = λ ne. Thins-nil s.waiters k k' a (v.fair ne);
}

module _ (s : Semaphore) (k : Kernel) (v : Sound s k) where
  -- A tick keeps the semaphore as it must be: waiters only leave.
  pub Ticked-Sound : (k' : Kernel) → Ticked k k' → Sound s k'
  Ticked-Sound k' a = Thins-Sound s k k' v a.valid a.timely (Ticked-Thins s.waiters k k' a)

handed :
    (s s' : Semaphore) (k k' : Kernel) (w : ℕ) (ws : List ℕ) (done : Bool)
    → k.wait_lists s.waiters ≡ w ∷ ws
    → Releases s k done s' k'
    → (done ≡ true) × ((k'.nodes w).timed_out ≡ false) × (has w k'.delay_list ≡ false)
handed s s' k k' w ws done e (hands x t xs e' own d q a r) =
    let same : x ≡ w = ground arith in
    let n = ap (λ f. f w) a.nodes in
    (d, ground arith, rw (a.delay, same) (ground (arith, has-remove w w k.delay_list)))
handed s s' k k' w ws done e (counts z room d q r) = absurd (ground arith)
handed s s' k k' w ws done e (loses z top d q r) = absurd (ground arith)

module _ (s : Semaphore) (k : Kernel) (v : Sound s k) where
  -- A waiter whose timeout has run out at a tick is told that it has nothing, and is in no wait
  -- list, so that no release after the tick can hand it a unit.
  pub tick_before_release :
      (w t : ℕ)
      → has w k.delay_list ≡ true
      → remaining k w ≤ 1
      → (k.nodes w).task ≡ some t
      → Returns
          (λ k'.
            Sound s k'
            × (acquire_for_resume false w k' ≡ false)
            × ((l : ℕ) → has w (k'.wait_lists l) ≡ false))
          (tick_isr k)
  unfolding acquire_for_resume
  tick_before_release w t i r own =
      let (k', e, a) = tick_isr-Ticked k v.inv v.timely in
      (
        k',
        e,
        (Ticked-Sound s k v k' a, rw (a.fired w t i r own).0 refl, λ l. Ticked-gone k k' l w a i r),
      )

  -- The first waiter is handed the unit of a release, and keeps it over a tick that comes before
  -- it runs, even if its timeout was about to run out.
  pub release_before_tick :
      (w : ℕ) (ws : List ℕ)
      → k.wait_lists s.waiters ≡ w ∷ ws
      → Returns
          (λ r.
            (r.0 ≡ true)
            × Returns
                (λ k''. Sound r.1 k'' × (acquire_for_resume false w k'' ≡ true))
                (tick_isr r.2))
          (release s k)
  unfolding acquire_for_resume
  release_before_tick w ws e =
      let (r, q, b) = release-Releases s k v in
      let (k'', q', a) = tick_isr-Ticked r.2 b.0.inv b.0.timely in
      let h = handed s r.1 k r.2 w ws r.0 e b.1 in
      let kept = a.kept w (rw h.2 refl) in
      (r, q, (h.0, (k'', q', (Ticked-Sound r.1 r.2 b.0 k'' a, rw (kept, h.1) refl))))
