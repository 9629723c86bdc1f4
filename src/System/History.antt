-- ===== src/System/History.antt =====
-- What goes through a queue while the whole system runs.
use coo_rtos.Base.{
  ℕ, ◌+◌, ◌-◌, ◌<◌, ◌≡◌, ◌≢◌, refl, ap, sym, ◌∙◌, inl, inr, false, some, List, [], ◌++◌, arith,
  ==_refl, ◌==◌, ==→eq, if◌then◌else◌, Bool-cases, length, subst,
}
use coo_rtos.Kernel.{Config, Kernel, initial}
use coo_rtos.Queue.{Queue}
use coo_rtos.Queue.Moves.{reject_fewer}
use coo_rtos.Queue.Omits.{nothing_left_out}
use coo_rtos.Queue.Calls.{Calls as QueueCalls}
use coo_rtos.Queue.Calls.{sent_by, received_by}
use coo_rtos.Queue.Traffic.{Traffic, idle, then_step, Carried}
use coo_rtos.Queue.Traffic.{Step as QueueStep, calls as queue_calls, elsewhere as queue_elsewhere}
use coo_rtos.Queue.Fifo.{Traffic-Carried}
use coo_rtos.System.{
  Object, semaphore, mutex, group, queue, System, Step, on_semaphore, on_mutex, on_group, on_queue,
  turns, called, Reach, stays, steps, boot,
}
use coo_rtos.System.Sound.{Good}
use coo_rtos.System.Steps.{touched, Step-Good, Reach-Good}
use coo_rtos.System.Safe.{Fresh, Apart, boot-Good, empty-Sound}
use coo_rtos.System.Undisturbed.{Step-Undisturbed, kind, other_kind, some_inj}

queue_inj : {T : Type 0} {p q : Queue T} → queue p ≡ queue q → p ≡ q
queue_inj e = cc

module _ {T : Type 0} where
  -- The senders that are blocked on a queue.
  abbrev pub senders_blocked : Object T → Kernel → ℕ
  senders_blocked (queue q) k = length (k.wait_lists q.senders)
  senders_blocked o k = 0

  module _ (i : ℕ) where
    -- The values that a step sends to the object `i`, the values of it that reach receivers, and how
    -- many of its senders leave otherwise than by a call of it.
    abbrev pub sent_in : {s s' : System T} → Step s s' → List T
    sent_in (on_queue j x x' k' e c z) = if j == i then sent_by c else []
    sent_in a = []

    abbrev pub received_in : {s s' : System T} → Step s s' → List T
    received_in (on_queue j x x' k' e c z) = if j == i then received_by c else []
    received_in a = []

    abbrev pub left_by : System T → System T → ℕ
    left_by s s' = senders_blocked (s.objects i) s.kernel - senders_blocked (s'.objects i) s'.kernel

    abbrev pub withdrawn_in : {s s' : System T} → Step s s' → ℕ
    withdrawn_in {s} {s'} (on_queue j x x' k' e c z) = if j == i then 0 else left_by s s'
    withdrawn_in {s} {s'} a = left_by s s'

    -- The same of a whole run.
    abbrev pub sent : {s s' : System T} → Reach s s' → List T
    sent stays = []
    sent (steps r a) = sent r ++ sent_in a

    abbrev pub received : {s s' : System T} → Reach s s' → List T
    received stays = []
    received (steps r a) = received r ++ received_in a

    abbrev pub withdrawn : {s s' : System T} → Reach s s' → ℕ
    withdrawn stays = 0
    withdrawn (steps r a) = withdrawn_in a + withdrawn r

    -- The queue after a step, or a run, that came to it by a history with these values.
    abbrev Stepped : (q : Queue T) (k : Kernel) → List T → List T → ℕ → System T → Type 0
    Stepped q k came went gone s' =
        (q' : Queue T) × (s'.objects i ≡ queue q') × QueueStep q k came went gone q' s'.kernel

    module _ (s s' : System T) (g : Good s) (q : Queue T) (e : s.objects i ≡ queue q) where
      aside : (a : Step s s') → touched a ≢ some i → Stepped q s.kernel [] [] (left_by s s') s'
      aside a ne =
          let d = Step-Undisturbed s s' g i a ne in
          let n = Step-Good s s' g a in
          let same : s'.objects i ≡ queue q = d.same ∙ e in
          let r = d.thins q.receivers (rw e (ground arith)) in
          let t = d.thins q.senders (rw e (ground arith)) in
          let few = reject_fewer t.less (s.kernel.wait_lists q.senders) in
          rw (same, e)
            (
              q,
              refl,
              queue_elsewhere _ s'.kernel (record {
                inv = n.inv;
                timely = n.timely;
                receivers = r;
                senders = t;
                counted = omega (arith, few, ap length t.thinned);
              }),
            )

      own :
          (x x' : Queue T) (k' : Kernel) (c : QueueCalls x s.kernel x' k')
          → s.objects i ≡ queue x
          → s' ≡ called i (queue x') k' s
          → Stepped q s.kernel (sent_by c) (received_by c) 0 s'
      own x x' k' c f z =
          let h : q ≡ x = queue_inj (sym e ∙ f) in
          rw (z, h) (x', rw (==_refl i) refl, queue_calls x' k' c)

      not_called :
          (j : ℕ) (o : Object T)
          → s.objects j ≡ o
          → (kind (queue q) == kind o) ≡ false
          → some j ≢ some i
      not_called j o f ne = other_kind s i j (queue q) o e f ne

      Step-Stepped :
          (a : Step s s') → Stepped q s.kernel (sent_in a) (received_in a) (withdrawn_in a) s'
      Step-Stepped (on_queue j x x' k' f c z) = elim (Bool-cases (j == i)) [
        | inl d ↦ rw d (
            own x x' k' c (ap s.objects (sym (==→eq j i d)) ∙ f)
              (z ∙ ap (λ n. called n (queue x') k' s) (==→eq j i d)))
        | inr d ↦ rw d (aside (on_queue j x x' k' f c z) (λ h. ground (arith, some_inj h)))
      ]
      Step-Stepped (on_semaphore j x x' k' f c z) =
          aside (on_semaphore j x x' k' f c z) (not_called j (semaphore x) f refl)
      Step-Stepped (on_mutex j x x' k' f c z) =
          aside (on_mutex j x x' k' f c z) (not_called j (mutex x) f refl)
      Step-Stepped (on_group j x x' k' f c z) =
          aside (on_group j x x' k' f c z) (not_called j (group x) f refl)
      Step-Stepped (turns a) = aside (turns a) (λ d. ground arith)

    Reach-Traffic :
        (s s' : System T) (g : Good s) (q : Queue T)
        → s.objects i ≡ queue q
        → (r : Reach s s')
        → (q' : Queue T) × (s'.objects i ≡ queue q')
          × Traffic q s.kernel (sent r) (received r) (withdrawn r) q' s'.kernel
    Reach-Traffic s _ g q e stays = (q, e, idle)
    Reach-Traffic s s' g q e (steps {s₁} r a) =
        let (p, f, t) = Reach-Traffic s s₁ g q e r in
        let (q', f', n) = Step-Stepped s₁ s' (Reach-Good s s₁ g r) p f a in
        (
          q',
          f',
          then_step (sent r) (received r) (withdrawn r) p s₁.kernel (sent_in a) (received_in a)
              (withdrawn_in a) q' s'.kernel t n,
        )

    -- From the boot of a system with at least one priority, whose objects are as made and share no wait
    -- list, in every run of tasks, interrupts and the scheduler, and for every queue of the system: the
    -- values that reached its receivers, which are those found in the awaiters of receivers that a call
    -- has served and the answers of `try_receive`, followed by those in its buffer and those of its
    -- blocked senders, are the values that the run sent to it, each once and in the order in which they
    -- were sent, less exactly as many as senders that left without being served.
    pub boot-Reach-Carried :
        (c : Config) (os : ℕ → Object T) (s : System T)
        → 0 < c.num_priorities
        → ((j : ℕ) → Fresh (os j))
        → Apart os
        → (r : Reach (boot c os) s) → (q : Queue T) → os i ≡ queue q
        → (q' : Queue T) × (s.objects i ≡ queue q')
          × Carried [] [] (sent r) (received r) (withdrawn r) q' s.kernel
    boot-Reach-Carried c os s n f a r q e =
        let g = boot-Good c os n f a in
        let (q', e', t) = Reach-Traffic (boot c os) s g q e r in
        let fresh : Fresh (queue q) = subst Fresh e (f i) in
        let v = empty-Sound c q n fresh.0 fresh.1 in
        (
          q',
          e',
          Traffic-Carried q (initial c) [] [] v (sent r) (received r) (withdrawn r) q' s.kernel t,
        )

    -- From such a boot, in every run and for every queue of which no sender left without being served,
    -- the values that reached its receivers are the first part of the values that were sent to it.
    pub boot-Reach_in_order :
        (c : Config) (os : ℕ → Object T) (s : System T)
        → 0 < c.num_priorities
        → ((j : ℕ) → Fresh (os j))
        → Apart os
        → (r : Reach (boot c os) s) → (q : Queue T) → os i ≡ queue q
        → withdrawn r ≡ 0
        → (left : List T) × (sent r ≡ received r ++ left)
    boot-Reach_in_order c os s n f a r q e z =
        let (q', e', t) = boot-Reach-Carried c os s n f a r q e in
        (
          t.values ++ t.offers,
          sym (
              nothing_left_out (received r ++ (t.values ++ t.offers)) (sent r) (withdrawn r) z
                t.order),
        )
