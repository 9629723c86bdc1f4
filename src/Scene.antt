-- ===== src/Scene.antt =====
-- Concrete kernels that the tests of the components share.
pub mod Work
use coo_rtos.Base.{ℕ, ◌≡◌, refl, inl, inr, true, false, some, [], ◌∷◌, arith, ◌==◌, has, update}
use coo_rtos.Kernel.{running, blocked, Config, Kernel, set_task, set_node, initial}
use coo_rtos.Kernel.Invariant.{Inv, Linked}
use coo_rtos.Kernel.Delay.{Timely}
use coo_rtos.Kernel.Link.{Unlinked}

abbrev pub small : Config
small = record { num_priorities = 4; preemptive = true }

-- The task 7 runs.
abbrev pub busy : Kernel
busy =
    record (set_task 7 (record { resume_point = 7; priority = 2; state = running })
      (initial small)) { current = some 7; running_prio = 2 }

-- The task 7 runs, and the task 8 waits on the node 3 in the list `l`, until tick 100 at most.
abbrev pub waiting : ℕ → Kernel
waiting l =
    record (set_node 3
      (record { task = some 8; deadline = 100; timed_out = false; payload = some 3 })
      (set_task 8 (record { resume_point = 80; priority = 1; state = blocked }) busy)) {
        wait_lists = update (λ _. []) l (3 ∷ []);
        delay_list = 3 ∷ [];
      }

pub busy-Inv : Inv busy
busy-Inv = record {
  ready_has = λ pr t i. absurd (ground arith);
  ready_in = λ t e. absurd (ground arith);
  ready_distinct = λ pr. tt;
  in_range = λ t. ground arith;
  delay_distinct = tt;
  wait_distinct = λ l. tt;
  linked_waits = λ w i. absurd (ground arith);
  one_node = λ w x i j e. absurd (ground arith);
  one_list = λ l m w i j. absurd (ground arith);
}

pub busy-Timely : Timely busy
busy-Timely = record { clock = ground arith; stamps = λ w. ground arith; sorted = tt }

pub busy-Unlinked : (w : ℕ) → Unlinked busy w
busy-Unlinked w = record { not_delayed = refl; not_waiting = λ l. refl }

only_node : (l m w : ℕ) → has w ((waiting l).wait_lists m) ≡ true → (w ≡ 3) × (m ≡ l)
only_node l m w i = (ground arith, ground arith)

pub Linked-node : (l w : ℕ) → Linked (waiting l) w → w ≡ 3
Linked-node l w (inl i) = ground arith
Linked-node l w (inr (m, i)) = (only_node l m w i).0

pub waiting-Inv : (l : ℕ) → Inv (waiting l)
waiting-Inv l = record {
  ready_has = λ pr t i. absurd (ground arith);
  ready_in = λ t e. absurd (ground arith);
  ready_distinct = λ pr. tt;
  in_range = λ t. ground arith;
  delay_distinct = (refl, tt);
  wait_distinct = λ m. ground arith;
  linked_waits = λ w i. ground (arith, Linked-node l w i);
  one_node = λ w x i j e. ground (arith, Linked-node l w i, Linked-node l x j);
  one_list = λ m n w i j. ground (arith, only_node l m w i, only_node l n w j);
}

pub waiting-Timely : (l : ℕ) → Timely (waiting l)
waiting-Timely l = record {
  clock = ground arith;
  stamps = λ w. ground arith;
  sorted = (ground arith, ground arith, tt);
}

pub waiting-Unlinked : (l w : ℕ) → (w == 3) ≡ false → Unlinked (waiting l) w
waiting-Unlinked l w n = record { not_delayed = ground arith; not_waiting = λ m. ground arith }

-- Of the clock the invariant says nothing.
pub advance-Inv : (l now : ℕ) → Inv (record (waiting l) { tick_count = now })
advance-Inv l now =
    let v = waiting-Inv l in
    record {
      ready_has = v.ready_has;
      ready_in = v.ready_in;
      ready_distinct = v.ready_distinct;
      in_range = v.in_range;
      delay_distinct = v.delay_distinct;
      wait_distinct = v.wait_distinct;
      linked_waits = v.linked_waits;
      one_node = v.one_node;
      one_list = v.one_list;
    }
