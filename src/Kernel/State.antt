-- ===== src/Kernel/State.antt =====
-- kernel.hpp, task.hpp: the scheduler's state, and the assignments to a part of it.
use coo_rtos.Base.{ℕ, ◌-◌, Bool, true, false, Option, none, some, List, [], update, remove}

-- `TaskPromise::State`
pub data TaskState : Type 0 where
  created ready running blocked : TaskState

pub record TaskPromise : Type 0 where
  pub resume_point : ℕ
  pub priority : ℕ
  pub state : TaskState

-- `payload` is the number of the awaiter whose slot it points to.
pub record WaitNode : Type 0 where
  pub task : Option ℕ
  pub deadline : ℕ
  pub timed_out : Bool
  pub payload : Option ℕ

-- `num_priorities` is RTOS_NUM_PRIORITIES; `preemptive` says that RTOS_PREEMPTIVE_WAKE is defined.
pub record Config : Type 0 where
  pub num_priorities : ℕ
  pub preemptive : Bool

-- `wait_lists` are the `List` members of the queues, semaphores, mutexes and event groups.
pub record Kernel : Type 0 where
  pub config : Config
  pub open config use *
  pub ready_lists : ℕ → List ℕ
  pub delay_list : List ℕ
  pub wait_lists : ℕ → List ℕ
  pub tasks : ℕ → TaskPromise
  pub nodes : ℕ → WaitNode
  pub current : Option ℕ
  pub tick_count : ℕ
  pub running_prio : ℕ
  pub preempt_pending : Bool

abbrev pub no_running_task : ℕ
no_running_task = 0xFF

abbrev pub now : Kernel → ℕ
now k = k.tick_count

abbrev pub is_ready : TaskState → Bool
is_ready ready = true
is_ready s = false

abbrev pub set_task : ℕ → TaskPromise → Kernel → Kernel
set_task t p k = record k { tasks = update k.tasks t p }

abbrev pub set_node : ℕ → WaitNode → Kernel → Kernel
set_node w n k = record k { nodes = update k.nodes w n }

-- `w.payload = storage`, where the storage is the slot of the awaiter that holds `w`.
abbrev pub set_payload : ℕ → Kernel → Kernel
set_payload w k = set_node w (record (k.nodes w) { payload = some w }) k

-- `ready_link.unlink()`, `wait_link.unlink()` and `delay_link.unlink()`, whatever list they are in.
abbrev pub unlink_ready : ℕ → Kernel → Kernel
unlink_ready t k = record k { ready_lists = λ pr. remove t (k.ready_lists pr) }

abbrev pub unlink_wait : ℕ → Kernel → Kernel
unlink_wait w k = record k { wait_lists = λ l. remove w (k.wait_lists l) }

abbrev pub unlink_delay : ℕ → Kernel → Kernel
unlink_delay w k = record k { delay_list = remove w k.delay_list }

-- A kernel in which nothing has been started.
abbrev pub initial : Config → Kernel
initial c = record {
  config = c;
  ready_lists = λ _. [];
  delay_list = [];
  wait_lists = λ _. [];
  tasks = λ _. record { resume_point = 0; priority = c.num_priorities - 1; state = created };
  nodes = λ _. record { task = none; deadline = 0; timed_out = false; payload = none };
  current = none;
  tick_count = 0;
  running_prio = no_running_task;
  preempt_pending = false;
}
