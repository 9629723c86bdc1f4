-- ===== src/System/Safe.antt =====
-- What the invariant of the whole system is good for, from its boot on.
use coo_rtos.Base.{
  ℕ, ◌≤◌, ◌<◌, ◌≡◌, ◌≢◌, refl, ◌^◌, true, false, none, some, List, [], arith, Returns,
}
use coo_rtos.Kernel.{Config, Kernel, initial, tick_isr}
use coo_rtos.Kernel.Invariant.{Inv}
use coo_rtos.Kernel.Delay.{Timely}
use coo_rtos.Kernel.Tick.{Ticked, tick_isr-Ticked}
use coo_rtos.Semaphore.{release}
use coo_rtos.Semaphore.Release.{Releases, release-Releases}
use coo_rtos.Mutex.{unlock}
use coo_rtos.Mutex.Handover.{Unlocks, unlock-Unlocks}
use coo_rtos.EventGroup.{set}
use coo_rtos.EventGroup.Set.{Sets, set-Sets}
use coo_rtos.Queue.{Queue, try_send, try_receive}
use coo_rtos.Queue.Ring.{Holds}
use coo_rtos.Queue.Backlog.{Sound}
use coo_rtos.Queue.Send.{Delivers, try_send-Delivers}
use coo_rtos.Queue.Receive.{Tried, try_receive-Tried}
use coo_rtos.System.{Object, semaphore, mutex, group, queue, uses, System, Reach, boot}
use coo_rtos.System.Sound.{SoundAt, Good}
use coo_rtos.System.Steps.{Reach-Good}

pub initial-Inv : (c : Config) → 0 < c.num_priorities → Inv (initial c)
initial-Inv c n = record {
  ready_has = λ pr t i. absurd (ground arith);
  ready_in = λ t e. absurd (ground arith);
  ready_distinct = λ pr. tt;
  in_range = λ t. omega arith;
  delay_distinct = tt;
  wait_distinct = λ l. tt;
  linked_waits = λ w i. absurd (ground arith);
  one_node = λ w x i j e. absurd (ground arith);
  one_list = λ l m w i j. absurd (ground arith);
}

initial-Timely : (c : Config) → Timely (initial c)
initial-Timely c = record { clock = ground arith; stamps = λ w. ground arith; sorted = tt }

module _ {T : Type 0} where
  -- An object as it is made: a semaphore's counter may have any value up to its maximum, a mutex is
  -- free, a queue is empty.
  abbrev pub Fresh : Object T → Type 0
  Fresh (semaphore s) = (s.count ≤ s.max) × (s.max < 2 ^ 32)
  Fresh (mutex m) = m.owner ≡ none
  Fresh (group g) = Unit {0}
  Fresh (queue q) = Holds q [] × (q.receivers ≢ q.senders)

  abbrev pub Apart : (ℕ → Object T) → Type 0
  Apart os = (i j : ℕ) → i ≢ j → (l : ℕ) → uses (os i) l ≡ true → uses (os j) l ≡ false

  pub empty-Sound :
      (c : Config) (q : Queue T)
      → 0 < c.num_priorities
      → Holds q []
      → q.receivers ≢ q.senders
      → Sound q (initial c) [] []
  empty-Sound c q n h ne = record {
    inv = initial-Inv c n;
    timely = initial-Timely c;
    holds = h;
    two_lists = ne;
    starved = λ w ws e. refl;
    crowded = λ w ws e. absurd (ground arith);
    addressed = λ w i. absurd (ground arith);
    pending = refl;
  }

  Fresh-SoundAt :
      (c : Config) (o : Object T) → 0 < c.num_priorities → Fresh o → SoundAt o (initial c)
  Fresh-SoundAt c (semaphore s) n f = record {
    inv = initial-Inv c n;
    timely = initial-Timely c;
    bounded = f.0;
    width = f.1;
    fair = λ ne. refl;
  }
  Fresh-SoundAt c (mutex m) n f = record {
    inv = initial-Inv c n;
    timely = initial-Timely c;
    fair = λ e. refl;
  }
  Fresh-SoundAt c (group g) n f = record {
    inv = initial-Inv c n;
    timely = initial-Timely c;
    addressed = λ w i. absurd (ground arith);
    unmet = λ w i. absurd (ground arith);
  }
  Fresh-SoundAt c (queue q) n f = ([], [], empty-Sound c q n f.0 f.1)

  pub boot-Good :
      (c : Config) (os : ℕ → Object T)
      → 0 < c.num_priorities
      → ((i : ℕ) → Fresh (os i))
      → Apart os
      → Good (boot c os)
  boot-Good c os n f a = record {
    inv = initial-Inv c n;
    timely = initial-Timely c;
    sound = λ i. Fresh-SoundAt c (os i) n (f i);
    apart = a;
  }

  -- Whatever steps tasks, interrupts and the scheduler take from the boot on, in whatever order, the
  -- kernel's invariant, that of every object and the order of the delay list hold.
  pub boot-Reach-Good :
      (c : Config) (os : ℕ → Object T) (s : System T)
      → 0 < c.num_priorities
      → ((i : ℕ) → Fresh (os i))
      → Apart os
      → Reach (boot c os) s
      → Good s
  boot-Reach-Good c os s n f a r = Reach-Good (boot c os) s (boot-Good c os n f a) r

  -- What interrupts may call returns; of a mutex, what its owner may call.
  abbrev pub Serves : Object T → Kernel → Type 0
  Serves (semaphore s) k = Returns (λ r. Releases s k r.0 r.1 r.2) (release s k)
  Serves (mutex m) k =
      (t : ℕ)
      → k.current ≡ some t
      → m.owner ≡ some t
      → Returns (λ r. Unlocks m k r.0 r.1) (unlock m k)
  Serves (group g) k = (bits : ℕ) → Returns (λ r. Sets bits g k r.0 r.1) (set bits g k)
  Serves (queue q) k =
      (xs : List T) × (vs : List T) × Sound q k xs vs
      × ((v : T) → Returns (λ r. Delivers v q k xs vs r.0 r.1 r.2) (try_send v q k))
      × Returns (Tried q k xs vs) (try_receive q k)

  SoundAt-Serves : (o : Object T) (k : Kernel) → SoundAt o k → Serves o k
  SoundAt-Serves (semaphore s) k v = let (r, e, a) = release-Releases s k v in (r, e, a.1)
  SoundAt-Serves (mutex m) k v = λ t c o. let (r, e, a) = unlock-Unlocks m k v t c o in (r, e, a.1)
  SoundAt-Serves (group g) k v = λ bits. set-Sets g k v bits
  SoundAt-Serves (queue q) k v =
      (v.0, v.1, v.2, λ x. try_send-Delivers x q k v.0 v.1 v.2, try_receive-Tried q k v.0 v.1 v.2)

  -- From the boot of a system with at least one priority, whose objects are as made and share no wait
  -- list, in every state that it reaches, an interrupt that calls any of its objects, or is the
  -- timer's, gets through without a trap, and so does the owner that unlocks a mutex, with the effects
  -- that are proved of each call. Those of a queue are on the values in its buffer and the offers of
  -- its blocked senders: `try_receive` answers that there is none exactly when the buffer is empty, and
  -- else takes the oldest value, and the first blocked sender is woken and its value moves in.
  pub boot-Reach-Serves :
      (c : Config) (os : ℕ → Object T) (s : System T)
      → 0 < c.num_priorities
      → ((i : ℕ) → Fresh (os i))
      → Apart os
      → Reach (boot c os) s
      → ((i : ℕ) → Serves (s.objects i) s.kernel) × Returns (Ticked s.kernel) (tick_isr s.kernel)
  boot-Reach-Serves c os s n f a r =
      let g = boot-Reach-Good c os s n f a r in
      (
        λ i. SoundAt-Serves (s.objects i) s.kernel (g.sound i),
        tick_isr-Ticked s.kernel g.inv g.timely,
      )
