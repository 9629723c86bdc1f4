-- ===== src/Semaphore/Permits.antt =====
-- The permits of a semaphore: none is made up, and none is lost.
use coo_rtos.Base.{
  ℕ, ◌+◌, ◌≡◌, refl, inl, inr, Bool, Option, none, some, front, arith, if◌then◌else◌, Returns-ok,
  subst,
}
use coo_rtos.Tick.{add_tick}
use coo_rtos.Kernel.{Kernel}
use coo_rtos.Kernel.Woken.{served, Wakes-served}
use coo_rtos.Semaphore.{Semaphore}
use coo_rtos.Semaphore.Grant.{
  Sound, Acquires, acquire_suspend-Acquires, acquire_for_suspend-Acquires,
}
use coo_rtos.Semaphore.Release.{Releases, hands, counts, loses, release-Releases, try_acquire-Takes}
use coo_rtos.Semaphore.Calls.{Calls, acquires, acquires_for, tries, releases, Tried}

-- Whether the waiter that was the first before a call has been served by it.
abbrev pub woken_by : Option ℕ → Semaphore → Kernel → ℕ
woken_by none s k' = 0
woken_by (some w) s k' = if served s.waiters w k' then 1 else 0

module _ {s : Semaphore} {k : Kernel} {s' : Semaphore} {k' : Kernel} where
  -- The permits that a call puts in: a release that finds the counter at its maximum puts in none.
  abbrev pub given_by : Calls s k s' k' → ℕ
  given_by (releases b e) = if b then 1 else 0
  given_by c = 0

  -- The permits that tasks get in a call: the caller, or the waiter that is ready after a release, is
  -- in the wait list no more, and is told that it has the permit.
  abbrev pub granted_by : Calls s k s' k' → ℕ
  granted_by (acquires t w h b a e) = if b then 0 else 1
  granted_by (acquires_for timeout t w h b got short a e) = if b then 0 else 1
  granted_by (tries b e z) = if b then 1 else 0
  granted_by (releases b e) = woken_by (front (k.wait_lists s.waiters)) s k'

module _ (s : Semaphore) (k : Kernel) (v : Sound s k) (s' : Semaphore) (k' : Kernel) where
  Acquires-balance :
      (t w h : ℕ) (deadline : Option ℕ) (b : Bool)
      → Acquires t w h deadline s k b s' k'
      → s'.count + (if b then 0 else 1) ≡ s.count
  Acquires-balance t w h deadline b (inl a) = rw a.0 a.1.less
  Acquires-balance t w h deadline b (inr a) = rw (a.0, a.2) (omega arith)

  Releases-balance :
      (b : Bool)
      → Releases s k b s' k'
      → s'.count + woken_by (front (k.wait_lists s.waiters)) s k' ≡ s.count + (if b then 1 else 0)
  Releases-balance b (hands w t ws e own d q a r) =
      rw (e, d, q, Wakes-served s.waiters w t k k' a own) refl
  Releases-balance b (counts z room d q r) = rw (z, d, q) (omega arith)
  Releases-balance b (loses z top d q r) = rw (z, d, q) refl

  Tried-balance : (b : Bool) → Tried s k v s' k' (b, s') → s'.count + (if b then 1 else 0) ≡ s.count
  Tried-balance b (inl a) = rw a.0 a.1.less
  Tried-balance b (inr a) = rw (a.0, a.2) (omega arith)

  -- What is in the counter and what tasks got in a call is what was in the counter and what was put
  -- in.
  pub Calls-balance : (c : Calls s k s' k') → s'.count + granted_by c ≡ s.count + given_by c
  Calls-balance (acquires t w h b a e) =
      let r =
        Returns-ok (b, s', k') (acquire_suspend-Acquires s k v t w h a.current a.runs a.fresh) e in
      omega (arith, Acquires-balance t w h none b r.1)
  Calls-balance (acquires_for timeout t w h b got short a e) =
      let r =
        Returns-ok (b, got, s', k')
          (acquire_for_suspend-Acquires s k v t w h a.current a.runs a.fresh timeout short) e in
      omega (arith, Acquires-balance t w h (some (add_tick k.tick_count timeout)) b r.1)
  Calls-balance (tries b e z) =
      let r =
        subst (λ (x : Bool × Semaphore). Sound x.1 k × Tried s k v s' k' x) e
          (try_acquire-Takes s k v) in
      omega (arith, Tried-balance b r.1)
  Calls-balance (releases b e) =
      Releases-balance b (Returns-ok (b, s', k') (release-Releases s k v) e).1
