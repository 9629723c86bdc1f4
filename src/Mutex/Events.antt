-- ===== src/Mutex/Events.antt =====
-- A mutex against the machine that a lock is: free, or held by one task, which alone gives it back.
use coo_rtos.Base.{
  ℕ, ◌≡◌, refl, ap, ap₂, sym, ◌∙◌, inl, inr, Bool, Option, none, some, front, List, [], ◌∷◌, ◌++◌,
  ◌==◌, ==_refl, if◌then◌else◌, Returns-ok, trap_ok,
}
use coo_rtos.Kernel.{Kernel}
use coo_rtos.Mutex.{Mutex}
use coo_rtos.Mutex.Handover.{
  Sound, Locks, Unlocks, frees, hands, lock_suspend-Locks, lock_twice, try_lock_lem, unlock-Unlocks,
  unlock_trap,
}
use coo_rtos.Mutex.Calls.{Calls, locks, tries, unlocks, owner_or}

-- A task becomes the owner, or gives the mutex back.
pub data Event : Type 0 where
  takes : ℕ → Event
  gives : ℕ → Event

-- `none` is the state of a machine that was told to take a mutex that is held, or to give back one
-- that the task does not hold; it never leaves it.
abbrev pub next_holder : Option (Option ℕ) → Event → Option (Option ℕ)
next_holder none e = none
next_holder (some none) (takes t) = some (some t)
next_holder (some none) (gives t) = none
next_holder (some (some o)) (takes t) = none
next_holder (some (some o)) (gives t) = if o == t then some none else none

abbrev pub replay : Option (Option ℕ) → List Event → Option (Option ℕ)
replay o [] = o
replay o (e ∷ es) = replay (next_holder o e) es

pub replay-append :
    (o : Option (Option ℕ)) (es fs : List Event) → replay o (es ++ fs) ≡ replay (replay o es) fs
replay-append o [] fs = refl
replay-append o (e ∷ es) fs = replay-append (next_holder o e) es fs

abbrev pub taken_by : Option ℕ → List Event
taken_by none = []
taken_by (some t) = takes t ∷ []

abbrev pub given_by : Option ℕ → List Event
given_by none = []
given_by (some t) = gives t ∷ []

-- The task of the first waiter.
abbrev pub first_task : Option ℕ → Kernel → Option ℕ
first_task none k = none
first_task (some w) k = (k.nodes w).task

given_back : (t : ℕ) (n : Option ℕ) → replay (some (some t)) (gives t ∷ taken_by n) ≡ some n
given_back t none = rw (==_refl t) refl
given_back t (some s) = rw (==_refl t) refl

module _ {m : Mutex} {k : Kernel} {m' : Mutex} {k' : Kernel} where
  -- What the tasks see happen in a call: the caller goes on as the owner or is told that it is, or
  -- the caller gives the mutex back and the first waiter is woken as the owner.
  abbrev pub events_of : Calls m k m' k' → List Event
  events_of (locks t w h b a e) = if b then [] else takes t ∷ []
  events_of (tries t b c e z) = if b then takes t ∷ [] else []
  events_of (unlocks e) =
      given_by k.current ++ taken_by (first_task (front (k.wait_lists m.waiters)) k)

module _ (m : Mutex) (k : Kernel) (v : Sound m k) (m' : Mutex) (k' : Kernel) where
  Locks-replay :
      (t w h : ℕ) (b : Bool)
      → Locks t w h m k b m' k'
      → replay (some m.owner) (if b then [] else takes t ∷ []) ≡ some m'.owner
  Locks-replay t w h b (inl a) = rw (a.0, a.1, a.2) refl
  Locks-replay t w h b (inr a) = rw (a.0, a.2) refl

  passed_on : Unlocks m k m' k' → first_task (front (k.wait_lists m.waiters)) k ≡ m'.owner
  passed_on (frees z q r) =
      ap (λ ws. first_task (front ws) k) z ∙ sym (ap (λ (x : Mutex). x.owner) q)
  passed_on (hands w s ws e own q a r) =
      ap (λ ws. first_task (front ws) k) e ∙ own ∙ sym (ap (λ (x : Mutex). x.owner) q)

  Unlocks-replay :
      (t : ℕ)
      → k.current ≡ some t
      → m.owner ≡ some t
      → Unlocks m k m' k'
      → replay
          (some m.owner)
          (given_by k.current ++ taken_by (first_task (front (k.wait_lists m.waiters)) k))
        ≡ some m'.owner
  Unlocks-replay t c o a =
      let n = first_task (front (k.wait_lists m.waiters)) k in
      ap₂ (λ p d. replay (some p) (given_by d ++ taken_by n)) o c
      ∙ given_back t n
      ∙ ap some (passed_on a)

  -- The events of a call lead from the owner before it to the owner after it.
  pub Calls-replay : (c : Calls m k m' k') → replay (some m.owner) (events_of c) ≡ some m'.owner
  Calls-replay (locks t w h b a e) = elim (owner_or (some t) m.owner) [
    | inl q ↦
        absurd (trap_ok (sym (lock_twice m k v t a.current w h a.runs a.fresh (q.2 ∙ sym q.1)) ∙ e))
    | inr ne ↦
        let r =
          Returns-ok (b, m', k')
            (lock_suspend-Locks m k v t a.current w h a.runs a.fresh (ne t refl)) e in
        Locks-replay t w h b r.1
  ]
  Calls-replay (tries t b c e z) =
      let r = Returns-ok (b, m') (try_lock_lem m k v t c) e in
      elim r.1 [ inl a ↦ rw (a.0, a.1, a.2) refl | inr a ↦ rw (a.0, a.2) refl ]
  Calls-replay (unlocks e) = elim (owner_or k.current m.owner) [
    | inl q ↦
        let r = Returns-ok (m', k') (unlock-Unlocks m k v q.0 q.1 q.2) e in
        Unlocks-replay q.0 q.1 q.2 r.1
    | inr ne ↦ absurd (trap_ok (sym (unlock_trap m k v ne) ∙ e))
  ]
