-- ===== src/Kernel/Invariant.antt =====
-- What the scheduler's lists and states have to do with each other.
use coo_rtos.Base.{ℕ, ◌<◌, ◌≡◌, ◌⊎◌, Bool, true, false, Option, none, some, has, Distinct}
use coo_rtos.Kernel.{TaskState, ready, blocked, TaskPromise, Kernel}

abbrev pub is_blocked : TaskState → Bool
is_blocked blocked = true
is_blocked s = false

-- The node's task is blocked.
abbrev pub waits_for : Option ℕ → (ℕ → TaskPromise) → Bool
waits_for none tasks = false
waits_for (some t) tasks = is_blocked (tasks t).state

-- The node is in the delay list or in some wait list.
abbrev pub Linked : Kernel → ℕ → Type 0
Linked k w = (has w k.delay_list ≡ true) ⊎ ((l : ℕ) × (has w (k.wait_lists l) ≡ true))

pub record Inv (k : Kernel) : Type 0 where
  pub ready_has :
      (pr t : ℕ)
      → has t (k.ready_lists pr) ≡ true
      → ((k.tasks t).state ≡ ready) × ((k.tasks t).priority ≡ pr)
  pub ready_in :
      (t : ℕ) → (k.tasks t).state ≡ ready → has t (k.ready_lists (k.tasks t).priority) ≡ true
  pub ready_distinct : (pr : ℕ) → Distinct (k.ready_lists pr)
  pub in_range : (t : ℕ) → (k.tasks t).priority < k.num_priorities
  pub delay_distinct : Distinct k.delay_list
  pub wait_distinct : (l : ℕ) → Distinct (k.wait_lists l)
  pub linked_waits : (w : ℕ) → Linked k w → waits_for (k.nodes w).task k.tasks ≡ true
  pub one_node : (w x : ℕ) → Linked k w → Linked k x → (k.nodes w).task ≡ (k.nodes x).task → w ≡ x
  pub one_list : (l m w : ℕ) → has w (k.wait_lists l) ≡ true → has w (k.wait_lists m) ≡ true → l ≡ m
