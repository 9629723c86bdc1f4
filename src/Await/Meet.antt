-- ===== src/Await/Meet.antt =====
-- Two tasks that meet: one is suspended in `co_await`, and the other gives it what it waits for.
use coo_rtos.Base.{
  ℕ, ◌≡◌, refl, ap, sym, ◌∙◌, inl, inr, Bool, true, false, none, some, List, [], ◌∷◌, arith,
  ==_refl, ok, Returns, subst, ◌>>=◌,
}
use coo_rtos.Kernel.{Kernel, set_payload, ready, blocked}
use coo_rtos.Kernel.Thins.{Acts}
use coo_rtos.Kernel.Block.{Blocks}
use coo_rtos.Semaphore.{Semaphore, release}
use coo_rtos.Semaphore.Grant.{Sound as Permitted, Acquires, acquire_suspend-Acquires}
use coo_rtos.Semaphore.Release.{Releases, counts, loses, release-Releases}
use coo_rtos.Semaphore.Release.{hands as hands_permit}
use coo_rtos.Queue.{Queue, try_send, set_slot, receive_resume, empty_slot}
use coo_rtos.Queue.Backlog.{Sound}
use coo_rtos.Queue.Send.{Delivers, hands, stores, refuses, try_send-Delivers}
use coo_rtos.Queue.Await.{Receives, gets, waits, receive_suspend-Receives}
use coo_rtos.Base.{Run, trap, out_of_fuel, if◌then◌else◌}
use coo_rtos.Tick.{Duration, to_ticks}
use coo_rtos.Sleep.{sleep_ready, sleep_suspend, sleep_duration}
use coo_rtos.Await.{
  SleepRequest, await_transform, duration, request, requested, sleep_for, Outcome, goes_on,
  suspends, co_await, go_on, receive, acquire,
}

-- The one waiter of a list, and the task that waits on it.
only_waiter :
    (j : Kernel) (w t x u : ℕ) (ws : List ℕ)
    → x ∷ ws ≡ w ∷ []
    → (j.nodes x).task ≡ some u
    → (j.nodes w).task ≡ some t
    → (x ≡ w) × (u ≡ t)
only_waiter j w t x u ws e o own =
    let n : x ≡ w = cc in
    let m : some u ≡ some t = sym o ∙ ap (λ y. (j.nodes y).task) n ∙ own in (n, cc)

module _ {ℓ} {T : Type ℓ} (q : Queue T) (k : Kernel) (t w h : ℕ) (a : Acts t w k) where
  -- With a value in the queue, `co_await q.receive()` goes on with the oldest one.
  pub receive_goes_on :
      (v : T) (xs vs : List T)
      → Sound q k (v ∷ xs) vs
      → Returns
          (λ o. (q' : Queue T) × (k' : Kernel) × (o ≡ goes_on v (q', k')))
          (co_await (receive w) h (q, k))
  unfolding co_await go_on receive receive_resume
  receive_goes_on v xs vs s =
      let (r, e, d) = receive_suspend-Receives q k (v ∷ xs) vs s t w h a.current a.runs a.fresh in
      let (b, g) = got v xs vs r.0 r.1 r.2 d in
      (goes_on v (empty_slot w r.1, r.2), rw (e, b, g) refl, (empty_slot w r.1, r.2, refl))
    where
      got :
          (v : T) (xs vs : List T) (b : Bool) (q' : Queue T) (k' : Kernel)
          → Receives t w h none q k (v ∷ xs) vs b q' k'
          → (b ≡ false) × (q'.slots w ≡ some v)
      got v xs vs b q' k' (gets x rest left offers e z y o i r n c) =
          (z, y ∙ ap some (sym (first e)))
        where
          first : v ∷ xs ≡ x ∷ rest → v ≡ x
          first e = cc
      got v xs vs b q' k' (waits e z y o i) = absurd (ground (arith, e))

  module _ (vs : List T) (s : Sound q k [] vs) where
    waits_empty :
        (b : Bool) (q' : Queue T) (k' : Kernel)
        → Receives t w h none q k [] vs b q' k'
        → (b ≡ true)
          × (q' ≡ q)
          × Sound q k' [] vs
          × Blocks t w (some q.receivers) h none (set_payload w k) k'
    waits_empty b q' k' (gets x rest left offers e z y o i r n c) = absurd (ground (arith, e))
    waits_empty b q' k' (waits e z y o i) = (z, y, subst (λ p. Sound p k' [] vs) y o, i)

    handed_over :
        (v : T) (j : Kernel) (b : Bool) (q' : Queue T) (k' : Kernel)
        → j.wait_lists q.receivers ≡ w ∷ []
        → (j.nodes w).task ≡ some t
        → Delivers v q j [] vs b q' k'
        → (b ≡ true) × ((k'.tasks t).state ≡ ready) × (q' ≡ set_slot w v q)
    handed_over v j b q' k' l own (hands x u ws e o d z c r y n) =
        let same = only_waiter j w t x u ws (sym e ∙ l) o own in
        (
          d,
          ap (λ i. (k'.tasks i).state) (sym same.1) ∙ c.woken,
          z ∙ ap (λ i. set_slot i v q) same.0,
        )
    handed_over v j b q' k' l own (stores e d z y n r i o) = absurd (ground (arith, l, e))
    handed_over v j b q' k' l own (refuses e d z y n) = absurd (ground (arith, l, e))

    -- In a running task with an unused wait node, of a sound queue with no value and no other receiver,
    -- `co_await q.receive()` suspends the task. A value that is then sent is accepted, the task is
    -- ready, and goes on with that value.
    pub receive_meets_send :
        (v : T)
        → k.wait_lists q.receivers ≡ []
        → Returns
            (λ o.
              (k₁ : Kernel) × (o ≡ suspends (q, k₁))
              × ((k₁.tasks t).state ≡ blocked)
              × Returns
                  (λ r.
                    (r.0 ≡ true)
                    × ((r.2.tasks t).state ≡ ready)
                    × Returns (λ p. p.0 ≡ v) ((receive w).await_resume (r.1, r.2)))
                  (try_send v q k₁))
            (co_await (receive w) h (q, k))
    unfolding co_await go_on receive receive_resume
    receive_meets_send v none_waits =
        let (r, e, d) = receive_suspend-Receives q k [] vs s t w h a.current a.runs a.fresh in
        let (b, same, sound, asleep) = waits_empty r.0 r.1 r.2 d in
        let alone : r.2.wait_lists q.receivers ≡ w ∷ [] =
          asleep.waits q.receivers ∙ rw (==_refl q.receivers) (rw none_waits refl) in
        let (p, e', d') = try_send-Delivers v q r.2 [] vs sound in
        let (b', awake, put) = handed_over v r.2 p.0 p.1 p.2 alone asleep.own d' in
        (
          suspends (q, r.2),
          rw (e, b, same) refl,
          (
            r.2,
            refl,
            asleep.asleep,
            (p, e', (b', awake, ((v, (empty_slot w p.1, p.2)), rw (put, ==_refl w) refl, refl))),
          ),
        )

module _ (s : Semaphore) (k : Kernel) (v : Permitted s k) (t w h : ℕ) (a : Acts t w k) where
  waits_for_permit :
      (b : Bool) (s' : Semaphore) (k' : Kernel)
      → s.count ≡ 0
      → Acquires t w h none s k b s' k'
      → (b ≡ true) × (s' ≡ s) × Blocks t w (some s.waiters) h none k k'
  waits_for_permit b s' k' z (inl c) = absurd (omega (arith, z, c.1.had))
  waits_for_permit b s' k' z (inr c) = (c.0, c.2, c.3)

  permit_handed :
      (j : Kernel) (b : Bool) (s' : Semaphore) (k' : Kernel)
      → j.wait_lists s.waiters ≡ w ∷ []
      → (j.nodes w).task ≡ some t
      → Releases s j b s' k'
      → (b ≡ true) × ((k'.tasks t).state ≡ ready) × (s' ≡ s)
  permit_handed j b s' k' l own (hands_permit x u ws e o d z c r) =
      let same = only_waiter j w t x u ws (sym e ∙ l) o own in
      (d, ap (λ i. (k'.tasks i).state) (sym same.1) ∙ c.woken, z)
  permit_handed j b s' k' l own (counts e d z y n) = absurd (ground (arith, l, e))
  permit_handed j b s' k' l own (loses e d z y n) = absurd (ground (arith, l, e))

  -- In a running task with an unused wait node, of a sound semaphore with no permit and no waiter,
  -- `co_await s.acquire()` suspends the task. The release that follows makes it ready and leaves the
  -- counter at zero, where no other task can take the permit first.
  pub acquire_meets_release :
      s.count ≡ 0
      → k.wait_lists s.waiters ≡ []
      → Returns
          (λ o.
            (k₁ : Kernel) × (o ≡ suspends (s, k₁))
            × ((k₁.tasks t).state ≡ blocked)
            × Returns
                (λ r. (r.0 ≡ true) × ((r.2.tasks t).state ≡ ready) × (r.1.count ≡ 0))
                (release s k₁))
          (co_await (acquire w) h (s, k))
  unfolding co_await go_on acquire
  acquire_meets_release z none_waits =
      let (r, e, d) = acquire_suspend-Acquires s k v t w h a.current a.runs a.fresh in
      let (b, same, asleep) = waits_for_permit r.0 r.1 r.2 z d.1 in
      let alone : r.2.wait_lists s.waiters ≡ w ∷ [] =
        asleep.waits s.waiters ∙ rw (==_refl s.waiters) (rw none_waits refl) in
      let sound = subst (λ x. Permitted x r.2) same d.0 in
      let (p, e', d') = release-Releases s r.2 sound in
      let (b', awake, kept) = permit_handed r.2 p.0 p.1 p.2 alone asleep.own d'.1 in
      (
        suspends (s, r.2),
        rw (e, b, same) refl,
        (r.2, refl, asleep.asleep, (p, e', (b', awake, ap (λ (x : Semaphore). x.count) kept ∙ z))),
      )

-- `co_await` of a duration of at least a tick suspends the task as `sleep_for` of the duration does.
pub co_await-duration {ℓ} :
    {A : Type ℓ} (hz : ℕ) (d : Duration) (w h : ℕ) (k : Kernel)
    → sleep_ready (to_ticks hz d) ≡ false
    → (r : SleepRequest) × (await_transform {A = A} hz (duration d) ≡ request r)
      × (co_await (requested r w) h k ≡ (sleep_duration hz d w h k >>= λ k'. ok (suspends k')))
unfolding await_transform co_await requested sleep_for sleep_duration
co_await-duration hz d w h k e =
    (record { ticks = to_ticks hz d }, refl, rw e (slept (sleep_suspend (to_ticks hz d) w h k)))
  where
    slept :
        (r : Run Kernel)
        → let answer : Bool × Kernel → Run (Outcome Kernel (Unit {0})) =
            λ (b, k'). if b then ok (suspends k') else go_on (sleep_for (to_ticks hz d) w) k' in
          ((r >>= λ k'. ok (true, k')) >>= answer) ≡ (r >>= λ k'. ok (suspends k'))
    slept (ok k') = refl
    slept trap = refl
    slept out_of_fuel = refl
