-- ===== src/System/Owners.antt =====
-- The owners of a mutex while the whole system runs.
use coo_rtos.Base.{
  ℕ, ◌<◌, ◌≡◌, ◌≢◌, refl, ap, sym, ◌∙◌, inl, inr, false, Option, none, some, List, [], ◌++◌, arith,
  ==_refl, ◌==◌, ==→eq, if◌then◌else◌, Bool-cases, subst,
}
use coo_rtos.Kernel.{Config, Kernel}
use coo_rtos.Mutex.{Mutex}
use coo_rtos.Mutex.Calls.{Calls as MutexCalls}
use coo_rtos.Mutex.Events.{Event, events_of, replay, replay-append, Calls-replay}
use coo_rtos.System.{
  Object, semaphore, mutex, group, queue, System, Step, on_semaphore, on_mutex, on_group, on_queue,
  turns, called, Reach, stays, steps, boot,
}
use coo_rtos.System.Sound.{SoundAt, Good}
use coo_rtos.System.Steps.{touched, Reach-Good}
use coo_rtos.System.Safe.{Fresh, Apart, boot-Good}
use coo_rtos.System.Undisturbed.{Step-Undisturbed, kind, other_kind, some_inj}

mutex_inj : {T : Type 0} (o : Object T) (p q : Mutex) → o ≡ mutex p → o ≡ mutex q → p ≡ q
mutex_inj o p q e f = cc

module _ {T : Type 0} (i : ℕ) where
  -- What happens to the ownership of the object `i` in a step, and in a run.
  abbrev pub events_in : {s s' : System T} → Step s s' → List Event
  events_in (on_mutex j x x' k' e c z) = if j == i then events_of c else []
  events_in a = []

  abbrev pub events : {s s' : System T} → Reach s s' → List Event
  events stays = []
  events (steps r a) = events r ++ events_in a

  -- The object is still a mutex, and its owner is the holder after the events.
  abbrev pub Replayed : Option ℕ → List Event → System T → Type 0
  Replayed o es s = (m : Mutex) × (s.objects i ≡ mutex m) × (replay (some o) es ≡ some m.owner)

  module _ (s s' : System T) (g : Good s) (q : Mutex) (e : s.objects i ≡ mutex q) where
    aside : (a : Step s s') → touched a ≢ some i → Replayed q.owner [] s'
    aside a ne = (q, (Step-Undisturbed s s' g i a ne).same ∙ e, refl)

    own :
        (x x' : Mutex) (k' : Kernel) (c : MutexCalls x s.kernel x' k')
        → s.objects i ≡ mutex x
        → s' ≡ called i (mutex x') k' s
        → Replayed q.owner (events_of c) s'
    own x x' k' c f z =
        let h : q ≡ x = mutex_inj (s.objects i) q x e f in
        let v = subst (λ o. SoundAt o s.kernel) f (g.sound i) in
        rw (z, h) (x', rw (==_refl i) refl, Calls-replay x s.kernel v x' k' c)

    not_called : (j : ℕ) (o : Object T) → s.objects j ≡ o → (1 == kind o) ≡ false → some j ≢ some i
    not_called j o f ne = other_kind s i j (mutex q) o e f ne

    Step-Replayed : (a : Step s s') → Replayed q.owner (events_in a) s'
    Step-Replayed (on_semaphore j x x' k' f c z) =
        aside (on_semaphore j x x' k' f c z) (not_called j (semaphore x) f refl)
    Step-Replayed (on_mutex j x x' k' f c z) = elim (Bool-cases (j == i)) [
      | inl d ↦ rw d (
          own x x' k' c (ap s.objects (sym (==→eq j i d)) ∙ f)
            (z ∙ ap (λ n. called n (mutex x') k' s) (==→eq j i d)))
      | inr d ↦ rw d (aside (on_mutex j x x' k' f c z) (λ h. ground (arith, some_inj h)))
    ]
    Step-Replayed (on_group j x x' k' f c z) =
        aside (on_group j x x' k' f c z) (not_called j (group x) f refl)
    Step-Replayed (on_queue j x x' k' f c z) =
        aside (on_queue j x x' k' f c z) (not_called j (queue x) f refl)
    Step-Replayed (turns a) = aside (turns a) (λ d. ground arith)

  Reach-Replayed :
      (s s' : System T)
      → Good s
      → (m : Mutex) → s.objects i ≡ mutex m
      → (r : Reach s s') → Replayed m.owner (events r) s'
  Reach-Replayed s _ g m e stays = (m, e, refl)
  Reach-Replayed s s' g m e (steps {s₁} r a) =
      let (y, f, b) = Reach-Replayed s s₁ g m e r in
      let (z, f', b') = Step-Replayed s₁ s' (Reach-Good s s₁ g r) y f a in
      (
        z,
        f',
        replay-append (some m.owner) (events r) (events_in a)
            ∙ ap (λ o. replay o (events_in a)) b
            ∙ b',
      )

  -- From the boot of a system with at least one priority, whose objects are as made and share no wait
  -- list, in every run of tasks, interrupts and the scheduler, and for every mutex of the system: the
  -- machine of a lock, which is free at first, accepts all that the run does to the ownership, and ends
  -- with the mutex's owner. So a task becomes the owner only when no other is, and only the owner gives
  -- the mutex back.
  pub boot-Reach-Replayed :
      (c : Config) (os : ℕ → Object T) (s : System T)
      → 0 < c.num_priorities
      → ((j : ℕ) → Fresh (os j))
      → Apart os
      → (r : Reach (boot c os) s) → (m : Mutex) → os i ≡ mutex m
      → (m' : Mutex) × (s.objects i ≡ mutex m') × (replay (some none) (events r) ≡ some m'.owner)
  boot-Reach-Replayed c os s n f a r m e =
      let g = boot-Good c os n f a in
      let free : m.owner ≡ none = subst Fresh e (f i) in
      let (y, h, b) = Reach-Replayed (boot c os) s g m e r in
      (y, h, ap (λ o. replay (some o) (events r)) (sym free) ∙ b)
