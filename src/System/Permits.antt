-- ===== src/System/Permits.antt =====
-- The permits of a semaphore while the whole system runs.
use coo_rtos.Base.{
  ℕ, ◌+◌, ◌≤◌, ◌<◌, ◌≡◌, ◌≢◌, refl, ap, sym, ◌∙◌, inl, inr, false, some, arith, ==_refl, ◌==◌,
  ==→eq, if◌then◌else◌, Bool-cases, subst,
}
use coo_rtos.Kernel.{Config, Kernel}
use coo_rtos.Semaphore.{Semaphore}
use coo_rtos.Semaphore.Calls.{Calls as SemaphoreCalls, Calls-Kept}
use coo_rtos.Semaphore.Permits.{given_by, granted_by, Calls-balance}
use coo_rtos.Semaphore.Grant.{Sound}
use coo_rtos.System.{
  Object, semaphore, mutex, group, queue, System, Step, on_semaphore, on_mutex, on_group, on_queue,
  turns, called, Reach, stays, steps, boot,
}
use coo_rtos.System.Sound.{SoundAt, Good}
use coo_rtos.System.Steps.{touched, Reach-Good}
use coo_rtos.System.Safe.{Fresh, Apart, boot-Good}
use coo_rtos.System.Undisturbed.{Step-Undisturbed, kind, other_kind, some_inj}

semaphore_inj :
    {T : Type 0} (o : Object T) (p q : Semaphore) → o ≡ semaphore p → o ≡ semaphore q → p ≡ q
semaphore_inj o p q e f = cc

module _ {T : Type 0} (i : ℕ) where
  -- The permits that a step puts into the object `i`, and those that tasks get from it.
  abbrev pub given_in : {s s' : System T} → Step s s' → ℕ
  given_in (on_semaphore j x x' k' e c z) = if j == i then given_by c else 0
  given_in a = 0

  abbrev pub granted_in : {s s' : System T} → Step s s' → ℕ
  granted_in (on_semaphore j x x' k' e c z) = if j == i then granted_by c else 0
  granted_in a = 0

  -- The same of a whole run.
  abbrev pub given : {s s' : System T} → Reach s s' → ℕ
  given stays = 0
  given (steps r a) = given r + given_in a

  abbrev pub granted : {s s' : System T} → Reach s s' → ℕ
  granted stays = 0
  granted (steps r a) = granted r + granted_in a

  -- The object is still a semaphore with the same maximum; what is in its counter and what was granted
  -- is what was in it and what was given.
  abbrev pub Balanced : Semaphore → ℕ → ℕ → System T → Type 0
  Balanced x out more s =
      (x' : Semaphore) × (s.objects i ≡ semaphore x')
      × (x'.max ≡ x.max)
      × (x'.count + out ≡ x.count + more)

  module _ (s s' : System T) (g : Good s) (q : Semaphore) (e : s.objects i ≡ semaphore q) where
    aside : (a : Step s s') → touched a ≢ some i → Balanced q 0 0 s'
    aside a ne = (q, (Step-Undisturbed s s' g i a ne).same ∙ e, refl, refl)

    own :
        (x x' : Semaphore) (k' : Kernel) (c : SemaphoreCalls x s.kernel x' k')
        → s.objects i ≡ semaphore x
        → s' ≡ called i (semaphore x') k' s
        → Balanced q (granted_by c) (given_by c) s'
    own x x' k' c f z =
        let h : q ≡ x = semaphore_inj (s.objects i) q x e f in
        let v = subst (λ o. SoundAt o s.kernel) f (g.sound i) in
        rw (z, h)
          (
            x',
            rw (==_refl i) refl,
            (Calls-Kept x s.kernel v x' k' c).same_max,
            Calls-balance x s.kernel v x' k' c,
          )

    not_called : (j : ℕ) (o : Object T) → s.objects j ≡ o → (0 == kind o) ≡ false → some j ≢ some i
    not_called j o f ne = other_kind s i j (semaphore q) o e f ne

    Step-Balanced : (a : Step s s') → Balanced q (granted_in a) (given_in a) s'
    Step-Balanced (on_semaphore j x x' k' f c z) = elim (Bool-cases (j == i)) [
      | inl d ↦ rw d (
          own x x' k' c (ap s.objects (sym (==→eq j i d)) ∙ f)
            (z ∙ ap (λ n. called n (semaphore x') k' s) (==→eq j i d)))
      | inr d ↦ rw d (aside (on_semaphore j x x' k' f c z) (λ h. ground (arith, some_inj h)))
    ]
    Step-Balanced (on_mutex j x x' k' f c z) =
        aside (on_mutex j x x' k' f c z) (not_called j (mutex x) f refl)
    Step-Balanced (on_group j x x' k' f c z) =
        aside (on_group j x x' k' f c z) (not_called j (group x) f refl)
    Step-Balanced (on_queue j x x' k' f c z) =
        aside (on_queue j x x' k' f c z) (not_called j (queue x) f refl)
    Step-Balanced (turns a) = aside (turns a) (λ d. ground arith)

  Reach-Balanced :
      (s s' : System T)
      → Good s
      → (x : Semaphore) → s.objects i ≡ semaphore x
      → (r : Reach s s') → Balanced x (granted r) (given r) s'
  Reach-Balanced s _ g x e stays = (x, e, refl, refl)
  Reach-Balanced s s' g x e (steps {s₁} r a) =
      let (y, f, m, b) = Reach-Balanced s s₁ g x e r in
      let (z, f', m', b') = Step-Balanced s₁ s' (Reach-Good s s₁ g r) y f a in
      (z, f', m' ∙ m, omega (arith, b, b'))

  -- From the boot of a system with at least one priority, whose objects are as made and share no wait
  -- list, in every run of tasks, interrupts and the scheduler, and for every semaphore of the system:
  -- what is in its counter together with the permits that tasks got, callers or waiters that a release
  -- has made ready and that are told so, is what was in the counter at the boot together with the permits that were released, without those that `release` refused because the
  -- counter was at its maximum; and the counter is not above the maximum.
  pub boot-Reach-Balanced :
      (c : Config) (os : ℕ → Object T) (s : System T)
      → 0 < c.num_priorities
      → ((j : ℕ) → Fresh (os j))
      → Apart os
      → (r : Reach (boot c os) s) → (x : Semaphore) → os i ≡ semaphore x
      → (x' : Semaphore) × (s.objects i ≡ semaphore x')
        × (x'.count + granted r ≡ x.count + given r)
        × (x'.count ≤ x.max)
  boot-Reach-Balanced c os s n f a r x e =
      let g = boot-Good c os n f a in
      let (y, f, m, b) = Reach-Balanced (boot c os) s g x e r in
      let v : Sound y s.kernel =
        subst (λ o. SoundAt o s.kernel) f ((Reach-Good (boot c os) s g r).sound i) in
      (y, f, b, omega (arith, v.bounded, m))
