-- ===== src/Kernel.antt =====
-- kernel.hpp: the scheduler, without preemption. `State` has its state.
-- A list is the sequence of the objects whose nodes are linked in it: `IntrusiveList.Store` proves
-- that `push_back`, `pop_front` and `unlink` do to such sequences what is done to them here.
-- Tasks, wait nodes, wait lists and coroutine handles are numbers.
pub mod State
pub mod Invariant
pub mod Wake
pub mod Woken
pub mod Handoff
pub mod Start
pub mod RoundRobin
pub mod Schedule
pub mod Link
pub mod Block
pub mod Payload
pub mod Thins
pub mod Calm
pub mod Tick
pub mod Expire
pub mod Delay
mod Tests
use coo_rtos.Base.{
  ℕ, zero, suc, ◌+◌, ◌-◌, ◌≡◌, Bool, true, false, ◌&&◌, not, Option, none, some, List, [], ◌∷◌,
  ◌++◌, ltb, ◌==◌, if◌then◌else◌, update, remove, front, length, Run, ok, trap, out_of_fuel, ◌>>=◌,
}
use coo_rtos.Tick.{deadline_le, add_tick}
pub use coo_rtos.Kernel.State.{
  TaskState, created, ready, running, blocked, TaskPromise, WaitNode, Config, Kernel,
  no_running_task, now, is_ready, set_task, set_node, set_payload, unlink_ready, unlink_wait,
  unlink_delay, initial,
}

-- A wake of a task above the running one asks for PendSV; an idle scheduler is not asked.
abbrev pub pends : ℕ → Kernel → Bool
pends t k =
    k.preemptive
    && not (k.running_prio == no_running_task)
    && ltb (k.tasks t).priority k.running_prio

abbrev pub enqueue_ready : ℕ → Kernel → Kernel
enqueue_ready t k =
    let pr = (k.tasks t).priority in
    record k {
      tasks = update k.tasks t (record (k.tasks t) { state = ready });
      ready_lists = update k.ready_lists pr (k.ready_lists pr ++ t ∷ []);
    }

-- `make_ready_locked`
unfoldable pub make_ready : ℕ → Kernel → Kernel
make_ready t k = if is_ready (k.tasks t).state then k else record (enqueue_ready t k) {
  preempt_pending = if pends t k then true else k.preempt_pending;
}

-- The walk of `delay_insert_locked`: `w` goes before the first node with a later deadline.
unfoldable pub insert_by_deadline : (ℕ → WaitNode) → ℕ → ℕ → List ℕ → List ℕ
insert_by_deadline nodes w deadline [] = w ∷ []
insert_by_deadline nodes w deadline (x ∷ xs) =
    if not (deadline_le (nodes x).deadline deadline)
    then w ∷ x ∷ xs
    else x ∷ insert_by_deadline nodes w deadline xs

-- `delay_insert_locked`
pub delay_insert : ℕ → ℕ → Kernel → Kernel
unfolding insert_by_deadline
delay_insert w deadline k =
    let k₁ = set_node w (record (k.nodes w) { deadline = deadline; timed_out = false }) k in
    record k₁ { delay_list = insert_by_deadline k₁.nodes w deadline k₁.delay_list }

-- The optional parts of `block_current_locked`.
abbrev pub join_wait : ℕ → Option ℕ → Kernel → Kernel
join_wait w none k = k
join_wait w (some l) k = record k { wait_lists = update k.wait_lists l (k.wait_lists l ++ w ∷ []) }

pub join_delay : ℕ → Option ℕ → Kernel → Kernel
unfolding delay_insert
join_delay w none k = k
join_delay w (some deadline) k = delay_insert w deadline k

block : ℕ → ℕ → Option ℕ → ℕ → Option ℕ → Kernel → Kernel
unfolding join_delay
block t w wait_list resume_point deadline k =
    let k₁ = set_node w (record (k.nodes w) { task = some t; timed_out = false }) k in
    let p = record (k.tasks t) { resume_point = resume_point; state = blocked } in
    join_delay w deadline (join_wait w wait_list (set_task t p k₁))

block_task : Option ℕ → ℕ → Option ℕ → ℕ → Option ℕ → Kernel → Run Kernel
unfolding block
block_task none w wait_list resume_point deadline k = trap
block_task (some t) w wait_list resume_point deadline k =
    ok (block t w wait_list resume_point deadline k)

-- `block_current_locked`: a trap when there is no current task. `deadline` is `none` for
-- has_deadline = false.
unfoldable pub block_current : ℕ → Option ℕ → ℕ → Option ℕ → Kernel → Run Kernel
unfolding block_task
block_current w wait_list resume_point deadline k =
    block_task k.current w wait_list resume_point deadline k

abbrev pub release_node : ℕ → Bool → Kernel → Kernel
release_node w timed_out k =
    let k₁ = unlink_delay w (unlink_wait w k) in
    set_node w (record (k₁.nodes w) { timed_out = timed_out }) k₁

-- `make_ready_locked(w->task)`
abbrev pub ready_task : Option ℕ → Kernel → Run Kernel
ready_task none k = trap
ready_task (some t) k = ok (make_ready t k)

-- `wake_locked`: a trap when the node has no task, by its contract.
unfoldable pub wake : ℕ → Bool → Kernel → Run Kernel
unfolding make_ready
wake w timed_out k = ready_task (k.nodes w).task (release_node w timed_out k)

-- One round of the loop of `tick_isr` at the front of the delay list; the rest of the rounds
-- are an argument.
abbrev expire_front : Option ℕ → Kernel → (Kernel → Run Kernel) → Run Kernel
expire_front none k rest = ok k
expire_front (some w) k rest =
    if not (deadline_le (k.nodes w).deadline k.tick_count) then ok k else wake w true k >>= rest

-- The loop of `tick_isr`, on fuel.
pub expire : ℕ → Kernel → Run Kernel
unfolding wake
expire zero k = out_of_fuel
expire (suc f) k = expire_front (front k.delay_list) k (expire f)

-- `tick_isr`
unfoldable pub tick_isr : Kernel → Run Kernel
unfolding expire
tick_isr k =
    let k₁ = record k { tick_count = add_tick k.tick_count 1 } in
    expire (length k₁.delay_list + 1) k₁

-- `priority < RTOS_NUM_PRIORITIES ? priority : RTOS_NUM_PRIORITIES - 1`
abbrev pub clamp_priority : ℕ → Kernel → ℕ
clamp_priority pr k = if ltb pr k.num_priorities then pr else k.num_priorities - 1

-- `start`: `none` is an invalid task, whose frame could not be allocated. The handle of a task is
-- its number.
unfoldable pub start : Option ℕ → ℕ → Kernel → Bool × Kernel
unfolding make_ready
start none priority k = (false, k)
start (some t) priority k =
    let p = record (k.tasks t) { priority = clamp_priority priority k; resume_point = t } in
    (true, make_ready t (set_task t p k))

-- The loop over `ready_lists` from priority `pr` on, `n` of them left: the first task found.
unfoldable pub pick : ℕ → ℕ → (ℕ → List ℕ) → Option ℕ
pick zero pr lists = none
pick (suc n) pr lists = elim (lists pr) [ t ∷ ts ↦ some t | [] ↦ pick n (suc pr) lists ]

-- `pop_front` of the list that starts with `t`, which becomes the running task.
abbrev pub dispatch : ℕ → Kernel → Kernel
dispatch t k = record (unlink_ready t k) {
  tasks = update k.tasks t (record (k.tasks t) { state = running });
  current = some t;
  running_prio = (k.tasks t).priority;
}

abbrev run_picked : Option ℕ → (ℕ → Kernel → Kernel) → Kernel → Bool × Kernel
run_picked none resume k = (false, k)
run_picked (some t) resume k =
    let k₁ = dispatch t k in
    let k₂ = resume (k₁.tasks t).resume_point k₁ in
    (true, record k₂ { current = k.current; running_prio = k.running_prio })

-- `run_one`, with what the resumed coroutine does until it suspends or ends as a parameter.
pub run_one : (ℕ → Kernel → Kernel) → Kernel → Bool × Kernel
unfolding pick
run_one resume k = run_picked (pick k.num_priorities 0 k.ready_lists) resume k

yield_task : Option ℕ → ℕ → Kernel → Run Kernel
unfolding make_ready
yield_task none h k = trap
yield_task (some t) h k = ok (make_ready t (set_task t (record (k.tasks t) { resume_point = h }) k))

-- `YieldAwaiter::await_suspend`
pub yield_suspend : ℕ → Kernel → Run Kernel
unfolding yield_task
yield_suspend h k = yield_task k.current h k
