-- ===== src/Kernel/Tests.antt =====
-- The theorems on the scheduler at small kernels.
use coo_rtos.Base.{ℕ, ◌≡◌, refl, some, List, [], ◌∷◌, ok, Run, Returns}
use coo_rtos.Tick.{deadline_le}
use coo_rtos.Kernel.{Kernel, tick_isr, run_one, start, pick, initial, make_ready}
use coo_rtos.Kernel.Tick.{Ticked, tick_isr-Ticked}
use coo_rtos.Kernel.Schedule.{RunOne, run_one-RunOne}
use coo_rtos.Base.{value_or, arith}
use coo_rtos.Kernel.{yield_suspend, yield_task}
use coo_rtos.Kernel.Start.{start-Queued}
use coo_rtos.Kernel.RoundRobin.{Level, Yields, InTurn, runs, runs-InTurn}
use coo_rtos.Scene.{small, busy, busy-Inv, waiting, waiting-Inv, waiting-Timely}

-- One tick before its deadline the task 8 still waits.
tick_isr-Ticked_example : Returns (Ticked (waiting 0)) (tick_isr (waiting 0))
tick_isr-Ticked_example = tick_isr-Ticked (waiting 0) (waiting-Inv 0) (waiting-Timely 0)

-- A coroutine that ends at once.
abbrev ends : ℕ → Kernel → Kernel
ends h k = k

run_one-RunOne_example : RunOne ends busy (run_one ends busy)
run_one-RunOne_example = run_one-RunOne ends busy busy-Inv

-- The states that the code computes.
started : Kernel
unfolding start make_ready
started = (start (some 9) 1 (start (some 8) 1 (initial small)).1).1

started_fifo : started.ready_lists 1 ≡ 8 ∷ 9 ∷ []
unfolding started
started_fifo = refl

first_started : pick 4 0 started.ready_lists ≡ some 8
unfolding started pick
first_started = refl

delay_list_of : Run Kernel → List ℕ
delay_list_of (ok k) = k.delay_list
delay_list_of r = []

expired_at_100 : delay_list_of (tick_isr (record (waiting 0) { tick_count = 99 })) ≡ []
unfolding tick_isr delay_list_of deadline_le
expired_at_100 = refl

not_expired_at_99 : delay_list_of (tick_isr (record (waiting 0) { tick_count = 98 })) ≡ 3 ∷ []
unfolding tick_isr delay_list_of deadline_le
not_expired_at_99 = refl

-- A coroutine that yields whenever it is resumed.
abbrev yielding : ℕ → Kernel → Kernel
yielding h k = value_or k (yield_suspend h k)

yielding-Yields : (p : ℕ) → Yields p yielding
unfolding yield_suspend yield_task
yielding-Yields p t h j e r = rw e refl

-- Two tasks of the priority 1 are started.
abbrev sharing : Kernel
sharing = (start (some 9) 1 (start (some 8) 1 busy).1).1

sharing-Level : Level 1 (8 ∷ 9 ∷ []) sharing
unfolding start make_ready
sharing-Level =
    let first = start-Queued busy 8 1 busy-Inv (ground arith) refl in
    record {
      inv = (start-Queued (start (some 8) 1 busy).1 9 1 first.1 (ground arith) refl).1;
      those = refl;
      none_above = λ q l. ground arith;
    }

runs-InTurn_example :
    InTurn yielding (8 ∷ 9 ∷ []) sharing × Level 1 (8 ∷ 9 ∷ []) (runs yielding 2 sharing)
runs-InTurn_example = runs-InTurn 1 yielding (yielding-Yields 1) (8 ∷ 9 ∷ []) sharing sharing-Level
