-- ===== src/System.antt =====
-- The program as a whole: the kernel and its objects, which tasks, interrupts and the scheduler call
-- in turn. A step is one critical section, or a part of `run_one` or `preempt_handler` (kernel.hpp).
pub mod Sound
pub mod Steps
pub mod Undisturbed
pub mod History
pub mod Permits
pub mod Owners
pub mod Needed
pub mod Safe
mod Tests
use coo_rtos.Base.{
  ℕ, ◌<◌, ◌≡◌, Bool, false, ◌||◌, Option, none, some, List, [], ◌∷◌, ok, ◌==◌, update,
}
use coo_rtos.Tick.{half_range}
use coo_rtos.Kernel.{
  created, running, Config, Kernel, initial, tick_isr, start, yield_suspend, pick, dispatch,
}
use coo_rtos.Kernel.Thins.{Acts}
use coo_rtos.Semaphore.{Semaphore}
use coo_rtos.Mutex.{Mutex}
use coo_rtos.EventGroup.{EventGroup}
use coo_rtos.Queue.{Queue}
use coo_rtos.Semaphore.Calls.{Calls as SemaphoreCalls}
use coo_rtos.Mutex.Calls.{Calls as MutexCalls}
use coo_rtos.EventGroup.Calls.{Calls as GroupCalls}
use coo_rtos.Queue.Calls.{Calls as QueueCalls}
use coo_rtos.Preempt.{limit}
use coo_rtos.Sleep.{sleep_ready, sleep_suspend}

pub data Object (T : Type 0) : Type 0 where
  semaphore : Semaphore → Object T
  mutex : Mutex → Object T
  group : EventGroup → Object T
  queue : Queue T → Object T

module _ {T : Type 0} where
  -- The list is one of the object's wait lists.
  abbrev pub uses : Object T → ℕ → Bool
  uses (semaphore s) l = l == s.waiters
  uses (mutex m) l = l == m.waiters
  uses (group g) l = l == g.waiters
  uses (queue q) l = l == q.receivers || l == q.senders

-- `frames` is what the calls of `run_one` and `preempt_handler` that have not returned have saved, the
-- current task and its priority, the innermost first.
pub record System (T : Type 0) : Type 0 where
  pub kernel : Kernel
  pub objects : ℕ → Object T
  pub frames : List (Option ℕ × ℕ)

module _ {T : Type 0} where
  -- What a call of the object `i` makes of the system.
  abbrev pub called : ℕ → Object T → Kernel → System T → System T
  called i o k s = record s { kernel = k; objects = update s.objects i o }

  abbrev pub entered : ℕ → System T → System T
  entered t s = record s {
    kernel = dispatch t s.kernel;
    frames = (s.kernel.current, s.kernel.running_prio) ∷ s.frames;
  }

  abbrev pub interrupted : System T → System T
  interrupted s = record s {
    kernel = record s.kernel { preempt_pending = false };
    frames = (s.kernel.current, s.kernel.running_prio) ∷ s.frames;
  }

  abbrev pub left : Option ℕ → ℕ → List (Option ℕ × ℕ) → System T → System T
  left c pr fs s = record s {
    kernel = record s.kernel { current = c; running_prio = pr };
    frames = fs;
  }

  -- A step of the scheduler: a timer interrupt comes; a task starts another one, or yields, or goes to
  -- sleep; `run_one` picks a task to resume; the preemption handler interrupts a task, or picks one
  -- above that; and either of the two restores what it had saved.
  pub data Turn (s s' : System T) : Type 0 where
    ticks : (k' : Kernel) → tick_isr s.kernel ≡ ok k' → s' ≡ record s { kernel = k' } → Turn s s'
    starts :
        (t pr : ℕ)
        → (s.kernel.tasks t).state ≡ created
        → s' ≡ record s { kernel = (start (some t) pr s.kernel).1 }
        → Turn s s'
    yields :
        (t h : ℕ) (k' : Kernel)
        → s.kernel.current ≡ some t
        → (s.kernel.tasks t).state ≡ running
        → yield_suspend h s.kernel ≡ ok k'
        → s' ≡ record s { kernel = k' }
        → Turn s s'
    sleeps :
        (n t w h : ℕ) (k' : Kernel)
        → sleep_ready n ≡ false
        → n < half_range
        → Acts t w s.kernel
        → sleep_suspend n w h s.kernel ≡ ok k'
        → s' ≡ record s { kernel = k' }
        → Turn s s'
    enters :
        (t : ℕ)
        → pick s.kernel.num_priorities 0 s.kernel.ready_lists ≡ some t
        → s' ≡ entered t s
        → Turn s s'
    interrupts : s' ≡ interrupted s → Turn s s'
    enters_above :
        (t pr : ℕ) (c : Option ℕ) (fs : List (Option ℕ × ℕ))
        → s.frames ≡ (c, pr) ∷ fs
        → pick (limit (record s.kernel { running_prio = pr })) 0 s.kernel.ready_lists ≡ some t
        → s' ≡ record s { kernel = dispatch t s.kernel }
        → Turn s s'
    leaves :
        (c : Option ℕ) (pr : ℕ) (fs : List (Option ℕ × ℕ))
        → s.frames ≡ (c, pr) ∷ fs
        → s' ≡ left c pr fs s
        → Turn s s'

  -- A step is a call of an object or one of the scheduler.
  pub data Step (s s' : System T) : Type 0 where
    on_semaphore :
        (i : ℕ) (x x' : Semaphore) (k' : Kernel)
        → s.objects i ≡ semaphore x
        → SemaphoreCalls x s.kernel x' k'
        → s' ≡ called i (semaphore x') k' s
        → Step s s'
    on_mutex :
        (i : ℕ) (x x' : Mutex) (k' : Kernel)
        → s.objects i ≡ mutex x
        → MutexCalls x s.kernel x' k'
        → s' ≡ called i (mutex x') k' s
        → Step s s'
    on_group :
        (i : ℕ) (x x' : EventGroup) (k' : Kernel)
        → s.objects i ≡ group x
        → GroupCalls x s.kernel x' k'
        → s' ≡ called i (group x') k' s
        → Step s s'
    on_queue :
        (i : ℕ) (x x' : Queue T) (k' : Kernel)
        → s.objects i ≡ queue x
        → QueueCalls x s.kernel x' k'
        → s' ≡ called i (queue x') k' s
        → Step s s'
    turns : Turn s s' → Step s s'

  pub data Reach (s : System T) : System T → Type 0 where
    stays : Reach s s
    steps : {s₁ s₂ : System T} → Reach s s₁ → Step s₁ s₂ → Reach s s₂

  -- The system when its objects are made and no task is started yet.
  abbrev pub boot : Config → (ℕ → Object T) → System T
  boot c os = record { kernel = initial c; objects = os; frames = [] }
