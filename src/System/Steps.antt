-- ===== src/System/Steps.antt =====
-- Every step of the system keeps its invariant.
use coo_rtos.Base.{
  ℕ, ◌<◌, ◌≡◌, refl, ap, ap₂, sym, false, ◌||◌, Option, none, some, arith, ◌==◌, subst, Returns-ok,
}
use coo_rtos.Tick.{add_tick}
use coo_rtos.Kernel.{Kernel, start, dispatch, ready}
use coo_rtos.Kernel.Invariant.{Inv}
use coo_rtos.Kernel.Tick.{tick_isr-Ticked}
use coo_rtos.Kernel.Start.{start-Queued, yield_suspend-Queued}
use coo_rtos.Kernel.Schedule.{Picked, pick-Picked}
use coo_rtos.Kernel.Calm.{
  Calm, Ticked-Calm, Queued-Calm, dispatch-Calm, restored-Calm, pending-Calm, Blocks-Calm,
}
use coo_rtos.Semaphore.{Semaphore}
use coo_rtos.Mutex.{Mutex}
use coo_rtos.EventGroup.{EventGroup}
use coo_rtos.Queue.{Queue}
use coo_rtos.Semaphore.Grant.{Sound as SemaphoreSound}
use coo_rtos.Mutex.Handover.{Sound as MutexSound}
use coo_rtos.EventGroup.Set.{Sound as GroupSound}
use coo_rtos.Semaphore.Calls.{Calls as SemaphoreCalls, Calls-Kept as SemaphoreCalls-Kept}
use coo_rtos.Mutex.Calls.{Calls as MutexCalls, Calls-Kept as MutexCalls-Kept}
use coo_rtos.EventGroup.Calls.{Calls as GroupCalls, Calls-Kept as GroupCalls-Kept}
use coo_rtos.Queue.Calls.{Calls as QueueCalls, Calls-Kept as QueueCalls-Kept}
use coo_rtos.Sleep.Ticks.{sleep_suspend-Blocks}
use coo_rtos.Preempt.{limit}
use coo_rtos.System.{
  Object, semaphore, mutex, group, queue, System, Step, Turn, turns, on_semaphore, on_mutex,
  on_group, on_queue, ticks, starts, yields, sleeps, enters, interrupts, enters_above, leaves,
  interrupted, called, entered, left, Reach, stays, steps,
}
use coo_rtos.System.Sound.{SoundAt, Good, Calm-Good, Kept, Kept-Good}

Picked-ready :
    (k : Kernel) → Inv k → (n t : ℕ) → Picked n 0 k.ready_lists (some t) → (k.tasks t).state ≡ ready
Picked-ready k v n t p = (v.ready_has p.0 t (rw p.4 (ground arith))).0

module _ {T : Type 0} where
  semaphore_call :
      (x : Semaphore) (k : Kernel) (x' : Semaphore) (k' : Kernel)
      → SemaphoreSound x k
      → SemaphoreCalls x k x' k'
      → Kept {T = T} (semaphore x) k (semaphore x') k'
  semaphore_call x k x' k' v c =
      let a = SemaphoreCalls-Kept x k v x' k' c in
      record {
        inv = a.sound.inv;
        timely = a.sound.timely;
        sound = a.sound;
        same_lists = λ l. ap (λ m. l == m) a.same_list;
        others = a.others;
      }

  mutex_call :
      (x : Mutex) (k : Kernel) (x' : Mutex) (k' : Kernel)
      → MutexSound x k
      → MutexCalls x k x' k'
      → Kept {T = T} (mutex x) k (mutex x') k'
  mutex_call x k x' k' v c =
      let a = MutexCalls-Kept x k v x' k' c in
      record {
        inv = a.sound.inv;
        timely = a.sound.timely;
        sound = a.sound;
        same_lists = λ l. ap (λ m. l == m) a.same_list;
        others = a.others;
      }

  group_call :
      (x : EventGroup) (k : Kernel) (x' : EventGroup) (k' : Kernel)
      → GroupSound x k
      → GroupCalls x k x' k'
      → Kept {T = T} (group x) k (group x') k'
  group_call x k x' k' v c =
      let a = GroupCalls-Kept x k v x' k' c in
      record {
        inv = a.sound.inv;
        timely = a.sound.timely;
        sound = a.sound;
        same_lists = λ l. ap (λ m. l == m) a.same_list;
        others = a.others;
      }

  queue_call :
      (x : Queue T) (k : Kernel) (x' : Queue T) (k' : Kernel)
      → SoundAt (queue x) k
      → QueueCalls x k x' k'
      → Kept (queue x) k (queue x') k'
  queue_call x k x' k' v c =
      let a = QueueCalls-Kept x k v.0 v.1 v.2 x' k' c in
      record {
        inv = a.sound.inv;
        timely = a.sound.timely;
        sound = (a.values, a.offers, a.sound);
        same_lists = λ l. ap₂ (λ m n. l == m || l == n) a.same_receivers a.same_senders;
        others = λ l ne. a.others l (ground arith) (ground arith);
      }

  -- The object that a step calls, if it calls one.
  abbrev pub touched : {s s' : System T} → Step s s' → Option ℕ
  touched (on_semaphore i x x' k' e c z) = some i
  touched (on_mutex i x x' k' e c z) = some i
  touched (on_group i x x' k' e c z) = some i
  touched (on_queue i x x' k' e c z) = some i
  touched (turns a) = none

  -- What a step does: a part of the scheduler leaves the objects alone, and a call keeps the object
  -- that it is made of.
  pub data Effect (s s' : System T) : Option ℕ → Type 0 where
    quiet : s'.objects ≡ s.objects → Calm s.kernel s'.kernel → Effect s s' none
    calls :
        (i : ℕ) (o' : Object T) (k' : Kernel)
        → Kept (s.objects i) s.kernel o' k'
        → s' ≡ called i o' k' s
        → Effect s s' (some i)

  module _ (s s' : System T) (g : Good s) where
    call_step :
        (i : ℕ) (o o' : Object T) (k' : Kernel)
        → s.objects i ≡ o
        → Kept o s.kernel o' k'
        → s' ≡ called i o' k' s
        → Effect s s' (some i)
    call_step i o o' k' e a z = calls i o' k' (subst (λ x. Kept x s.kernel o' k') (sym e) a) z

    quiet_step :
        (s₁ : System T)
        → s₁.objects ≡ s.objects
        → Calm s.kernel s₁.kernel
        → s' ≡ s₁
        → Effect s s' none
    quiet_step s₁ e a z = rw z (quiet e a)

    at : (i : ℕ) (o : Object T) → s.objects i ≡ o → SoundAt o s.kernel
    at i o e = subst (λ x. SoundAt x s.kernel) e (g.sound i)

    Turn-Effect : Turn s s' → Effect s s' none
    Turn-Effect (ticks k' e z) =
        let a = Returns-ok k' (tick_isr-Ticked s.kernel g.inv g.timely) e in
        quiet_step (record s { kernel = k' }) refl (Ticked-Calm s.kernel k' a) z
    Turn-Effect (starts t pr c z) =
        let n : 0 < s.kernel.num_priorities = omega (arith, g.inv.in_range t) in
        let a = start-Queued s.kernel t pr g.inv n c in
        quiet_step (record s { kernel = (start (some t) pr s.kernel).1 }) refl
          (Queued-Calm s.kernel (start (some t) pr s.kernel).1 t t _ g.timely a.1 a.2) z
    Turn-Effect (yields t h k' c r e z) =
        let a = Returns-ok k' (yield_suspend-Queued s.kernel t h g.inv c r) e in
        quiet_step (record s { kernel = k' }) refl (Queued-Calm s.kernel k' t h _ g.timely a.0 a.1)
          z
    Turn-Effect (sleeps n t w h k' y short a e z) =
        let b =
          Returns-ok k'
            (sleep_suspend-Blocks n t w h s.kernel g.inv g.timely a.current a.runs a.fresh short)
            e in
        quiet_step (record s { kernel = k' }) refl
          (Blocks-Calm s.kernel k' t w h (some (add_tick s.kernel.tick_count n)) a.fresh b.0 b.1
            b.2)
          z
    Turn-Effect (enters t e z) =
        let n = s.kernel.num_priorities in
        let r =
          Picked-ready s.kernel g.inv n t
            (subst (Picked n 0 s.kernel.ready_lists) e (pick-Picked n 0 s.kernel.ready_lists)) in
        quiet_step (entered t s) refl (dispatch-Calm s.kernel t g.inv g.timely r) z
    Turn-Effect (interrupts z) =
        quiet_step (interrupted s) refl (pending-Calm s.kernel false g.inv g.timely) z
    Turn-Effect (enters_above t pr c fs f e z) =
        let n = limit (record s.kernel { running_prio = pr }) in
        let r =
          Picked-ready s.kernel g.inv n t
            (subst (Picked n 0 s.kernel.ready_lists) e (pick-Picked n 0 s.kernel.ready_lists)) in
        quiet_step (record s { kernel = dispatch t s.kernel }) refl
          (dispatch-Calm s.kernel t g.inv g.timely r) z
    Turn-Effect (leaves c pr fs e z) =
        quiet_step (left c pr fs s) refl (restored-Calm s.kernel c pr g.inv g.timely) z

    pub Step-Effect : (a : Step s s') → Effect s s' (touched a)
    Step-Effect (on_semaphore i x x' k' e c z) =
        call_step i (semaphore x) (semaphore x') k' e
          (semaphore_call x s.kernel x' k' (at i (semaphore x) e) c) z
    Step-Effect (on_mutex i x x' k' e c z) =
        call_step i (mutex x) (mutex x') k' e (mutex_call x s.kernel x' k' (at i (mutex x) e) c) z
    Step-Effect (on_group i x x' k' e c z) =
        call_step i (group x) (group x') k' e (group_call x s.kernel x' k' (at i (group x) e) c) z
    Step-Effect (on_queue i x x' k' e c z) =
        call_step i (queue x) (queue x') k' e (queue_call x s.kernel x' k' (at i (queue x) e) c) z
    Step-Effect (turns a) = Turn-Effect a

    Effect-Good : (o : Option ℕ) → Effect s s' o → Good s'
    Effect-Good _ (quiet e a) = Calm-Good s s' g e a
    Effect-Good _ (calls i o' k' a z) = subst Good (sym z) (Kept-Good s g i o' k' a)

    -- Every step of a sound system leads to a sound one.
    pub Step-Good : Step s s' → Good s'
    Step-Good a = Effect-Good (touched a) (Step-Effect a)

  pub Reach-Good : (s s' : System T) → Good s → Reach s s' → Good s'
  Reach-Good s _ g stays = g
  Reach-Good s s' g (steps {s₁} r a) = Step-Good s₁ s' (Reach-Good s s₁ g r) a
