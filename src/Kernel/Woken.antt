-- ===== src/Kernel/Woken.antt =====
-- Whether a waiter was served, read off the state that a call leaves.
use coo_rtos.Base.{
  ℕ, ◌≡◌, refl, ap, ◌∙◌, Bool, true, false, Option, none, some, has, has-remove, if◌then◌else◌,
  ==_refl,
}
use coo_rtos.Kernel.{TaskPromise, WaitNode, Kernel, is_ready}
use coo_rtos.Kernel.Wake.{Wakes}

abbrev pub owner_ready : Option ℕ → (ℕ → TaskPromise) → Bool
owner_ready none tasks = false
owner_ready (some t) tasks = is_ready (tasks t).state

-- The node is not in the list any more, its wait is not marked as timed out, and its task is ready.
abbrev pub served : ℕ → ℕ → Kernel → Bool
served l w k =
    if has w (k.wait_lists l)
    then false
    else (if (k.nodes w).timed_out then false else owner_ready (k.nodes w).task k.tasks)

pub Wakes-served :
    (l w t : ℕ) (k k' : Kernel)
    → Wakes w false t k k'
    → (k.nodes w).task ≡ some t
    → served l w k' ≡ true
Wakes-served l w t k k' a own =
    let out : has w (k'.wait_lists l) ≡ false =
      ap (has w) (a.waits l) ∙ has-remove w w (k.wait_lists l) ∙ rw (==_refl w) refl in
    let node : (k'.nodes w).timed_out ≡ false =
      ap (λ (f : ℕ → WaitNode). (f w).timed_out) a.nodes ∙ rw (==_refl w) refl in
    let task : (k'.nodes w).task ≡ some t =
      ap (λ (f : ℕ → WaitNode). (f w).task) a.nodes ∙ rw (==_refl w) own in
    rw (out, node, task, a.woken) refl
