-- ===== src/Semaphore/Calls.antt =====
-- The calls of a semaphore, as they reach it from tasks and interrupts: they keep it as it must be,
-- and take from other wait lists at most.
use coo_rtos.Base.{
  ℕ, ◌<◌, ◌≡◌, ap, sym, inl, inr, ◌⊎◌, Bool, true, false, [], Option, none, some, ok, ◌==◌,
  Returns-ok, subst,
}
use coo_rtos.Tick.{half_range, add_tick}
use coo_rtos.Kernel.{Kernel}
use coo_rtos.Kernel.Link.{Unlinked}
use coo_rtos.Kernel.Thins.{Thins, Thins-eq, Wakes-Thins, Blocks-Thins, Acts}
use coo_rtos.Semaphore.{Semaphore, acquire_suspend, acquire_for_suspend, try_acquire, release}
use coo_rtos.Semaphore.Grant.{
  Sound, Takes, Acquires, acquire_suspend-Acquires, acquire_for_suspend-Acquires,
}
use coo_rtos.Semaphore.Release.{Releases, hands, counts, loses, release-Releases, try_acquire-Takes}

pub data Calls (s : Semaphore) (k : Kernel) (s' : Semaphore) (k' : Kernel) : Type 0 where
  acquires :
      (t w h : ℕ) (b : Bool)
      → Acts t w k
      → acquire_suspend s w h k ≡ ok (b, s', k')
      → Calls s k s' k'
  acquires_for :
      (timeout t w h : ℕ) (b got : Bool)
      → timeout < half_range
      → Acts t w k
      → acquire_for_suspend s timeout w h k ≡ ok (b, got, s', k')
      → Calls s k s' k'
  tries : (b : Bool) → try_acquire s ≡ (b, s') → k' ≡ k → Calls s k s' k'
  releases : (b : Bool) → release s k ≡ ok (b, s', k') → Calls s k s' k'

-- What a call leaves behind.
pub record Kept (s : Semaphore) (k : Kernel) (s' : Semaphore) (k' : Kernel) : Type 0 where
  pub sound : Sound s' k'
  pub same_list : s'.waiters ≡ s.waiters
  pub same_max : s'.max ≡ s.max
  pub others : (l : ℕ) → (l == s.waiters) ≡ false → Thins l k k'

module _ (s : Semaphore) (k : Kernel) (v : Sound s k) (s' : Semaphore) (k' : Kernel) where
  Acquires-Kept :
      (t w h : ℕ) (deadline : Option ℕ) (b : Bool)
      → Unlinked k w
      → Sound s' k'
      → Acquires t w h deadline s k b s' k'
      → Kept s k s' k'
  Acquires-Kept t w h deadline b u n (inl a) = record {
    sound = n;
    same_list = a.1.same_list;
    same_max = a.1.same_max;
    others = λ l ne. Thins-eq l k k' a.2;
  }
  Acquires-Kept t w h deadline b u n (inr a) = record {
    sound = n;
    same_list = ap (λ (x : Semaphore). x.waiters) a.2;
    same_max = ap (λ (x : Semaphore). x.max) a.2;
    others = λ l ne. Blocks-Thins l w k u t h (some s.waiters) deadline k' ne a.3;
  }

  Releases-Kept : (b : Bool) → Sound s' k' → Releases s k b s' k' → Kept s k s' k'
  Releases-Kept b n (hands w t ws e own d q a r) = record {
    sound = n;
    same_list = ap (λ (x : Semaphore). x.waiters) q;
    same_max = ap (λ (x : Semaphore). x.max) q;
    others = λ l ne. Wakes-Thins l k k' w t false a;
  }
  Releases-Kept b n (counts z room d q r) = record {
    sound = n;
    same_list = ap (λ (x : Semaphore). x.waiters) q;
    same_max = ap (λ (x : Semaphore). x.max) q;
    others = λ l ne. Thins-eq l k k' r;
  }
  Releases-Kept b n (loses z top d q r) = record {
    sound = n;
    same_list = ap (λ (x : Semaphore). x.waiters) q;
    same_max = ap (λ (x : Semaphore). x.max) q;
    others = λ l ne. Thins-eq l k k' r;
  }

  abbrev pub Tried : Bool × Semaphore → Type 0
  Tried x =
      ((x.0 ≡ true) × Takes s x.1 × (k.wait_lists s.waiters ≡ []))
      ⊎ ((x.0 ≡ false) × (s.count ≡ 0) × (x.1 ≡ s))

  Tried-list : (b : Bool) → Tried (b, s') → s'.waiters ≡ s.waiters
  Tried-list b (inl a) = a.1.same_list
  Tried-list b (inr a) = ap (λ (x : Semaphore). x.waiters) a.2

  Tried-max : (b : Bool) → Tried (b, s') → s'.max ≡ s.max
  Tried-max b (inl a) = a.1.same_max
  Tried-max b (inr a) = ap (λ (x : Semaphore). x.max) a.2

  pub Calls-Kept : Calls s k s' k' → Kept s k s' k'
  Calls-Kept (acquires t w h b a e) =
      let r =
        Returns-ok (b, s', k') (acquire_suspend-Acquires s k v t w h a.current a.runs a.fresh) e in
      Acquires-Kept t w h none b a.fresh r.0 r.1
  Calls-Kept (acquires_for timeout t w h b got short a e) =
      let r =
        Returns-ok (b, got, s', k')
          (acquire_for_suspend-Acquires s k v t w h a.current a.runs a.fresh timeout short) e in
      Acquires-Kept t w h (some (add_tick k.tick_count timeout)) b a.fresh r.0 r.1
  Calls-Kept (tries b e z) =
      let r = subst (λ (x : Bool × Semaphore). Sound x.1 k × Tried x) e (try_acquire-Takes s k v) in
      record {
        sound = subst (Sound s') (sym z) r.0;
        same_list = Tried-list b r.1;
        same_max = Tried-max b r.1;
        others = λ l ne. Thins-eq l k k' z;
      }
  Calls-Kept (releases b e) =
      let r = Returns-ok (b, s', k') (release-Releases s k v) e in Releases-Kept b r.0 r.1
