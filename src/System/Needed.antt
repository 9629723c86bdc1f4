-- ===== src/System/Needed.antt =====
-- Nobody sleeps on something that is there.
use coo_rtos.Base.{
  ℕ, ◌<◌, ◌≡◌, refl, ap, ◌∙◌, true, false, some, List, [], ◌∷◌, arith, has, Option-cases, inl, inr,
  Bool-cases, ==→eq, ◌==◌, length,
}
use coo_rtos.Kernel.{blocked, Config, Kernel}
use coo_rtos.Kernel.Invariant.{Inv}
use coo_rtos.Kernel.Wake.{owner_asleep, wake-Linked}
use coo_rtos.Semaphore.{Semaphore}
use coo_rtos.Semaphore.Grant.{Sound as SemaphoreSound}
use coo_rtos.Mutex.{Mutex}
use coo_rtos.Mutex.Handover.{Sound as MutexSound}
use coo_rtos.EventGroup.{met}
use coo_rtos.Queue.{Queue}
use coo_rtos.Queue.Ring.{Holds}
use coo_rtos.System.{Object, semaphore, mutex, group, queue, System, Reach, boot}
use coo_rtos.System.Sound.{SoundAt}
use coo_rtos.System.Safe.{Fresh, Apart, boot-Reach-Good}

-- A list that has a member starts with one.
has-front : (w : ℕ) (ws : List ℕ) → has w ws ≡ true → (x : ℕ) × (xs : List ℕ) × (ws ≡ x ∷ xs)
has-front w [] i = absurd (ground arith)
has-front w (x ∷ xs) i = (x, xs, refl)

-- A node in a wait list belongs to a blocked task.
abbrev pub Asleep : Kernel → Type 0
Asleep k =
    (l w : ℕ)
    → has w (k.wait_lists l) ≡ true
    → (t : ℕ) × ((k.nodes w).task ≡ some t) × ((k.tasks t).state ≡ blocked)

Inv-Asleep : (k : Kernel) → Inv k → Asleep k
Inv-Asleep k v l w i =
    let (t, own, r) = wake-Linked k w false v (inr (l, i)) in
    (t, own, owner_asleep k w t v (inr (l, i)) own)

no_permit :
    (s : Semaphore) (k : Kernel)
    → SemaphoreSound s k
    → (w : ℕ) → has w (k.wait_lists s.waiters) ≡ true
    → s.count ≡ 0
no_permit s k v w i = elim (Bool-cases (s.count == 0)) [
  | inl z ↦ ==→eq s.count 0 z
  | inr n ↦
      let none_waits = v.fair (λ e. ground (arith, n, e)) in
      absurd (ground (arith, i, ap (has w) none_waits))
]

owner_of :
    (m : Mutex) (k : Kernel)
    → MutexSound m k
    → (w : ℕ) → has w (k.wait_lists m.waiters) ≡ true
    → (t : ℕ) × (m.owner ≡ some t)
owner_of m k v w i = elim (Option-cases m.owner) [
  | inl free ↦ absurd (ground (arith, i, ap (has w) (v.fair free)))
  | inr o ↦ o
]

module _ {T : Type 0} where
  no_value : (q : Queue T) (xs : List T) → Holds q xs → xs ≡ [] → q.count ≡ 0
  no_value q xs h e = h.counted ∙ ap length e

  -- Of every waiter of the object, that what it waits for is not there.
  abbrev pub Needed : Object T → Kernel → Type 0
  Needed (semaphore s) k = (w : ℕ) → has w (k.wait_lists s.waiters) ≡ true → s.count ≡ 0
  Needed (mutex m) k =
      (w : ℕ) → has w (k.wait_lists m.waiters) ≡ true → (t : ℕ) × (m.owner ≡ some t)
  Needed (group g) k =
      (w : ℕ) → has w (k.wait_lists g.waiters) ≡ true → met (g.infos w) g.bits ≡ false
  Needed (queue q) k =
      ((w : ℕ) → has w (k.wait_lists q.receivers) ≡ true → q.count ≡ 0)
      × ((w : ℕ) → has w (k.wait_lists q.senders) ≡ true → q.count ≡ q.capacity)

  SoundAt-Needed : (o : Object T) (k : Kernel) → SoundAt o k → Needed o k
  SoundAt-Needed (semaphore s) k v = no_permit s k v
  SoundAt-Needed (mutex m) k v = owner_of m k v
  SoundAt-Needed (group g) k v = v.unmet
  SoundAt-Needed (queue q) k (xs, vs, v) = (
    λ w i.
        let (x, ws, e) = has-front w (k.wait_lists q.receivers) i in
        no_value q xs v.holds (v.starved x ws e),
    λ w i. let (x, ws, e) = has-front w (k.wait_lists q.senders) i in v.crowded x ws e,
  )

  -- From the boot of a system with at least one priority, whose objects are as made and share no wait
  -- list, in every state that it reaches: the node of a waiter belongs to a blocked task, a semaphore
  -- with a waiter has no permit, a mutex with a waiter has an owner, the bits of an event group meet no
  -- waiter's condition, a queue with a waiting receiver is empty and one with a waiting sender full.
  pub boot-Reach-Needed :
      (c : Config) (os : ℕ → Object T) (s : System T)
      → 0 < c.num_priorities
      → ((i : ℕ) → Fresh (os i))
      → Apart os
      → Reach (boot c os) s
      → Asleep s.kernel × ((i : ℕ) → Needed (s.objects i) s.kernel)
  boot-Reach-Needed c os s n f a r =
      let g = boot-Reach-Good c os s n f a r in
      (Inv-Asleep s.kernel g.inv, λ i. SoundAt-Needed (s.objects i) s.kernel (g.sound i))
