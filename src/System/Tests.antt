-- ===== src/System/Tests.antt =====
-- The theorems on the whole system, for one with a semaphore, a queue, an event group and mutexes.
mod Parts
use coo_rtos.Base.{
  ℕ, ◌+◌, ◌*◌, ◌≤◌, ◌≡◌, refl, true, false, none, arith, ◌==◌, if◌then◌else◌, Bool-cases, inl, inr,
  Returns,
}
use coo_rtos.Kernel.{initial, make_ready, start, pick, tick_isr}
use coo_rtos.Kernel.Tick.{Ticked}
use coo_rtos.Semaphore.{acquire_suspend, counting}
use coo_rtos.Semaphore.Calls.{acquires}
use coo_rtos.System.{
  Object, semaphore, mutex, group, queue, uses, System, Reach, stays, steps, boot, turns, starts,
  enters, on_semaphore, called, entered,
}
use coo_rtos.System.Sound.{Good}
use coo_rtos.System.Safe.{Fresh, Apart, Serves, boot-Reach-Good, boot-Reach-Serves}
use coo_rtos.Base.{Bool, Option, some, List, [], ◌∷◌, ◌++◌, value_or}
use coo_rtos.Kernel.{Kernel}
use coo_rtos.Semaphore.{Semaphore}
use coo_rtos.Mutex.{Mutex, try_lock}
use coo_rtos.Mutex.Calls.{tries}
use coo_rtos.Mutex.Events.{takes, replay}
use coo_rtos.Queue.{Queue, try_send, try_receive}
use coo_rtos.Queue.Calls.{tries_send, tries_receive}
use coo_rtos.Queue.Traffic.{Carried}
use coo_rtos.System.{on_queue, on_mutex}
use coo_rtos.System.History.{boot-Reach-Carried, boot-Reach_in_order}
use coo_rtos.System.Permits.{boot-Reach-Balanced}
use coo_rtos.System.Owners.{boot-Reach-Replayed}
use coo_rtos.Queue.{receive_suspend, receive_at}
use coo_rtos.Queue.Calls.{receives}
use coo_rtos.Kernel.{block_current, wake}
use coo_rtos.Semaphore.{release}
use coo_rtos.Semaphore.Calls.{releases}
use coo_rtos.System.Needed.{Asleep, Needed, boot-Reach-Needed}
use coo_rtos.Scene.{small}
use coo_rtos.System.Tests.Parts.{empty, parts, parts-Fresh, parts-Apart}

abbrev started : System ℕ
started = record (boot small parts) { kernel = (start (some 7) 1 (initial small)).1 }

abbrev acquired : System ℕ
acquired =
    called 0 (semaphore (record { count = 0; max = 1; waiters = 0 })) (entered 7 started).kernel
      (entered 7 started)

run_acquires : Reach (boot small parts) acquired
unfolding make_ready start pick acquire_suspend
run_acquires =
    steps (steps (steps stays (turns (starts 7 1 refl refl))) (turns (enters 7 refl refl))) (
      on_semaphore 0 (counting 1 1 0) (record { count = 0; max = 1; waiters = 0 })
        (entered 7 started).kernel refl
        (acquires 7 4 70 false
          (record {
            current = refl;
            runs = refl;
            fresh = record { not_delayed = refl; not_waiting = λ l. refl };
          })
          refl)
        refl)

boot-Reach-Good_example : Good acquired
boot-Reach-Good_example =
    boot-Reach-Good small parts acquired (ground arith) parts-Fresh parts-Apart run_acquires

boot-Reach-Serves_example :
    ((i : ℕ) → Serves (acquired.objects i) acquired.kernel)
    × Returns (Ticked acquired.kernel) (tick_isr acquired.kernel)
boot-Reach-Serves_example =
    boot-Reach-Serves small parts acquired (ground arith) parts-Fresh parts-Apart run_acquires

-- The task then sends 5 through the queue, and locks a mutex.
abbrev busy : Kernel
busy = (entered 7 started).kernel

abbrev filled : Bool × Queue ℕ × Kernel
unfolding try_send
filled = value_or (false, empty, busy) (try_send 5 empty busy)

abbrev emptied : Option ℕ × Queue ℕ × Kernel
unfolding try_receive
emptied = value_or (none, empty, busy) (try_receive filled.1 filled.2)

abbrev sending : System ℕ
sending = called 1 (queue filled.1) filled.2 acquired

abbrev receiving : System ℕ
receiving = called 1 (queue emptied.1) emptied.2 sending

abbrev locking : System ℕ
locking = called 3 (mutex (record { owner = some 7; waiters = 6 })) emptied.2 receiving

run_locks : Reach (boot small parts) locking
unfolding try_send try_receive try_lock make_ready start pick
run_locks =
    steps
      (steps
        (steps run_acquires (on_queue 1 empty filled.1 filled.2 refl (tries_send 5 true refl) refl))
        (on_queue 1 filled.1 emptied.1 emptied.2 refl (tries_receive (some 5) refl) refl))
      (on_mutex 3 (record { owner = none; waiters = 6 }) (record { owner = some 7; waiters = 6 })
        emptied.2 refl (tries 7 true refl refl refl) refl)

boot-Reach-Replayed_example :
    (m : Mutex) × (locking.objects 3 ≡ mutex m) × (replay (some none) (takes 7 ∷ []) ≡ some m.owner)
unfolding run_locks run_acquires
boot-Reach-Replayed_example =
    boot-Reach-Replayed 3 small parts locking (ground arith) parts-Fresh parts-Apart run_locks
      (record { owner = none; waiters = 6 }) refl

-- At last the task waits for another value.
abbrev waited : Bool × Queue ℕ × Kernel
unfolding receive_suspend receive_at block_current
waited = value_or (false, empty, busy) (receive_suspend 8 70 emptied.1 emptied.2)

abbrev waiting : System ℕ
waiting = called 1 (queue waited.1) waited.2 locking

run_waits : Reach (boot small parts) waiting
unfolding try_send try_receive make_ready start pick receive_suspend receive_at block_current
run_waits = steps run_locks (
    on_queue 1 emptied.1 waited.1 waited.2 refl
      (receives 7 8 70 true
        (record {
          current = refl;
          runs = refl;
          fresh = record { not_delayed = refl; not_waiting = λ l. refl };
        })
        refl)
      refl)

boot-Reach-Needed_example :
    Asleep waiting.kernel × ((i : ℕ) → Needed (waiting.objects i) waiting.kernel)
boot-Reach-Needed_example =
    boot-Reach-Needed small parts waiting (ground arith) parts-Fresh parts-Apart run_waits

-- An interrupt sends 6, which the waiting task is handed.
abbrev handed_over : Bool × Queue ℕ × Kernel
unfolding try_send receive_suspend receive_at block_current wake
handed_over = value_or (false, empty, busy) (try_send 6 waited.1 waited.2)

abbrev handing : System ℕ
handing = called 1 (queue handed_over.1) handed_over.2 waiting

run_hands : Reach (boot small parts) handing
unfolding try_send try_receive make_ready start pick receive_suspend receive_at block_current wake
run_hands =
    steps run_waits
      (on_queue 1 waited.1 handed_over.1 handed_over.2 refl (tries_send 6 true refl) refl)

boot-Reach-Carried_example :
    (q : Queue ℕ) × (handing.objects 1 ≡ queue q)
    × Carried [] [] (5 ∷ 6 ∷ []) (5 ∷ 6 ∷ []) 0 q handing.kernel
unfolding run_hands run_waits run_locks run_acquires
boot-Reach-Carried_example =
    boot-Reach-Carried 1 small parts handing (ground arith) parts-Fresh parts-Apart run_hands empty
      refl

boot-Reach_in_order_example : (left : List ℕ) × (5 ∷ 6 ∷ [] ≡ (5 ∷ 6 ∷ []) ++ left)
unfolding run_hands run_waits run_locks run_acquires
boot-Reach_in_order_example =
    boot-Reach_in_order 1 small parts handing (ground arith) parts-Fresh parts-Apart run_hands empty
      refl refl

-- In another run the task acquires a second time, waits, and an interrupt releases.
abbrev no_permit : Semaphore
no_permit = record { count = 0; max = 1; waiters = 0 }

abbrev second : Bool × Semaphore × Kernel
unfolding acquire_suspend block_current
second = value_or (false, no_permit, busy) (acquire_suspend no_permit 5 71 acquired.kernel)

abbrev released : Bool × Semaphore × Kernel
unfolding release wake acquire_suspend block_current
released = value_or (false, no_permit, busy) (release second.1 second.2)

abbrev short_of_permits : System ℕ
short_of_permits = called 0 (semaphore second.1) second.2 acquired

abbrev given_back : System ℕ
given_back = called 0 (semaphore released.1) released.2 short_of_permits

run_releases : Reach (boot small parts) given_back
unfolding make_ready start pick acquire_suspend block_current release wake
run_releases =
    steps
      (steps run_acquires (
        on_semaphore 0 no_permit second.1 second.2 refl
          (acquires 7 5 71 true
            (record {
              current = refl;
              runs = refl;
              fresh = record { not_delayed = refl; not_waiting = λ l. refl };
            })
            refl)
          refl))
      (on_semaphore 0 second.1 released.1 released.2 refl (releases true refl) refl)

boot-Reach-Balanced_example :
    (x : Semaphore) × (given_back.objects 0 ≡ semaphore x) × (x.count + 2 ≡ 1 + 1) × (x.count ≤ 1)
unfolding run_releases run_acquires
boot-Reach-Balanced_example =
    boot-Reach-Balanced 0 small parts given_back (ground arith) parts-Fresh parts-Apart run_releases
      (counting 1 1 0) refl
