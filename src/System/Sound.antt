-- ===== src/System/Sound.antt =====
-- The invariant of the whole system: the kernel's, that of every object, and that no two objects
-- share a wait list.
use coo_rtos.Base.{
  ℕ, ◌≡◌, ◌≢◌, refl, ap, sym, ◌∙◌, true, false, List, ◌==◌, Bool-cases, inl, inr, update, arith,
  ==→eq, subst,
}
use coo_rtos.Kernel.{Kernel}
use coo_rtos.Kernel.Invariant.{Inv}
use coo_rtos.Kernel.Delay.{Timely}
use coo_rtos.Kernel.Calm.{Calm}
use coo_rtos.Kernel.Thins.{Thins}
use coo_rtos.Semaphore.Grant.{Sound as SemaphoreSound}
use coo_rtos.Mutex.Handover.{Sound as MutexSound}
use coo_rtos.EventGroup.Set.{Sound as GroupSound}
use coo_rtos.Queue.Backlog.{Sound as QueueSound}
use coo_rtos.Semaphore.Timeout.{Thins-Sound as Thins-SemaphoreSound}
use coo_rtos.Mutex.Frame.{Thins-Sound as Thins-MutexSound}
use coo_rtos.EventGroup.Frame.{Thins-Sound as Thins-GroupSound}
use coo_rtos.Queue.Frame.{still_offered, Thins-Sound as Thins-QueueSound}
use coo_rtos.System.{Object, semaphore, mutex, group, queue, uses, System, called}

module _ {T : Type 0} where
  -- The invariant of one object; for a queue, with the values that it holds and that its senders
  -- offer.
  abbrev pub SoundAt : Object T → Kernel → Type 0
  SoundAt (semaphore s) k = SemaphoreSound s k
  SoundAt (mutex m) k = MutexSound m k
  SoundAt (group g) k = GroupSound g k
  SoundAt (queue q) k = (xs : List T) × (vs : List T) × QueueSound q k xs vs

  pub record Good (s : System T) : Type 0 where
    pub inv : Inv s.kernel
    pub timely : Timely s.kernel
    pub sound : (i : ℕ) → SoundAt (s.objects i) s.kernel
    pub apart :
        (i j : ℕ) → i ≢ j → (l : ℕ) → uses (s.objects i) l ≡ true → uses (s.objects j) l ≡ false

  -- An object does not mind what else is done to the kernel, as long as its lists lose waiters at
  -- most.
  pub Thins-SoundAt :
      (o : Object T) (k k' : Kernel)
      → SoundAt o k
      → Inv k'
      → Timely k'
      → ((l : ℕ) → uses o l ≡ true → Thins l k k')
      → SoundAt o k'
  Thins-SoundAt (semaphore s) k k' v i tm a =
      Thins-SemaphoreSound s k k' v i tm (a s.waiters (ground arith))
  Thins-SoundAt (mutex m) k k' v i tm a =
      Thins-MutexSound m k k' v i tm (a m.waiters (ground arith))
  Thins-SoundAt (group g) k k' v i tm a =
      Thins-GroupSound g k k' v i tm (a g.waiters (ground arith))
  Thins-SoundAt (queue q) k k' v i tm a =
      let r = a q.receivers (ground arith) in
      let s = a q.senders (ground arith) in
      (
        v.0,
        still_offered s.less (k.wait_lists q.senders) v.1,
        Thins-QueueSound q k k' v.0 v.1 v.2 i tm r s,
      )

  -- A step of the kernel alone.
  pub Calm-Good :
      (s : System T) (s' : System T)
      → Good s
      → s'.objects ≡ s.objects
      → Calm s.kernel s'.kernel
      → Good s'
  Calm-Good s s' g e a = record {
    inv = a.inv;
    timely = a.timely;
    sound = λ i.
        subst (λ os. SoundAt (os i) s'.kernel) (sym e)
          (Thins-SoundAt (s.objects i) s.kernel s'.kernel (g.sound i) a.inv a.timely
            λ l u. a.thins l);
    apart =
        subst
          (λ (os : ℕ → Object T).
            (i j : ℕ) → i ≢ j → (l : ℕ) → uses (os i) l ≡ true → uses (os j) l ≡ false)
          (sym e) g.apart;
  }

  -- What a call leaves behind: the object as it must be, at the wait lists it had, and all others
  -- with fewer waiters at most.
  pub record Kept (o : Object T) (k : Kernel) (o' : Object T) (k' : Kernel) : Type 0 where
    pub inv : Inv k'
    pub timely : Timely k'
    pub sound : SoundAt o' k'
    pub same_lists : (l : ℕ) → uses o' l ≡ uses o l
    pub others : (l : ℕ) → uses o l ≡ false → Thins l k k'

  module _ (s : System T) (g : Good s) (i : ℕ) (o' : Object T) (k' : Kernel)
      (a : Kept (s.objects i) s.kernel o' k') where
    called_sound : (j : ℕ) → SoundAt (update s.objects i o' j) k'
    called_sound j = elim (Bool-cases (j == i)) [
      | inl e ↦ rw e a.sound
      | inr e ↦ rw e (
          Thins-SoundAt (s.objects j) s.kernel k' (g.sound j) a.inv a.timely
            λ l u. a.others l (g.apart j i (ground arith) l u))
    ]

    called-uses : (j l : ℕ) → uses (update s.objects i o' j) l ≡ uses (s.objects j) l
    called-uses j l = elim (Bool-cases (j == i)) [
      | inl e ↦ rw e (a.same_lists l ∙ ap (λ m. uses (s.objects m) l) (sym (==→eq j i e)))
      | inr e ↦ rw e refl
    ]

    pub Kept-Good : Good (called i o' k' s)
    Kept-Good = record {
      inv = a.inv;
      timely = a.timely;
      sound = called_sound;
      apart = λ j m ne l u. called-uses m l ∙ g.apart j m ne l (sym (called-uses j l) ∙ u);
    }
