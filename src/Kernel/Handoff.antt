-- ===== src/Kernel/Handoff.antt =====
-- The idiom of all the primitives: take the first waiter off a wait list and wake it.
use coo_rtos.Base.{
  ℕ, ◌≡◌, refl, ap, ◌∙◌, fun_ext, inr, Bool, false, some, List, [], ◌∷◌, arith, remove, remove_head,
  Distinct, subst, Returns,
}
use coo_rtos.Kernel.{Kernel, wake, release_node, ready_task, unlink_wait}
use coo_rtos.Kernel.Invariant.{Inv}
use coo_rtos.Kernel.Wake.{Wakes, wake-Linked}
use coo_rtos.Kernel.Delay.{Timely, remaining, SortedFrom, SortedFrom-mono, SortedFrom-cong}

remove-remove : (w : ℕ) (xs : List ℕ) → remove w (remove w xs) ≡ remove w xs
remove-remove w [] = refl
remove-remove w (x ∷ xs) = ground (arith, remove-remove w xs)

-- A node that `pop_front` took off its list is unlinked again by `wake_locked`, to no effect.
pub wake_popped :
    (w : ℕ) (timed_out : Bool) (k : Kernel)
    → wake w timed_out (unlink_wait w k) ≡ wake w timed_out k
unfolding wake
wake_popped w timed_out k =
    ap (λ ls. ready_task (k.nodes w).task (record (release_node w timed_out k) { wait_lists = ls }))
      (fun_ext λ l. remove-remove w (k.wait_lists l))

-- Waking the first waiter of a list leaves the others, in order.
pub pop_wake-Wakes :
    (k : Kernel) (l w : ℕ) (ws : List ℕ)
    → Inv k
    → k.wait_lists l ≡ w ∷ ws
    → (t : ℕ) × ((k.nodes w).task ≡ some t)
      × Returns
          (λ k'. Inv k' × Wakes w false t k k' × (k'.wait_lists l ≡ ws))
          (wake w false (unlink_wait w k))
pop_wake-Wakes k l w ws v e =
    let (t, own, woke) = wake-Linked k w false v (inr (l, rw e (ground arith))) in
    let (k', r, va) = woke in
    let d : Distinct (w ∷ ws) = subst Distinct e (v.wait_distinct l) in
    (
      t,
      own,
      (
        k',
        wake_popped w false k ∙ r,
        (va.0, va.1, va.1.waits l ∙ ap (remove w) e ∙ remove_head w ws d.0),
      ),
    )

remove-SortedFrom :
    (key : ℕ → ℕ) (w lo : ℕ) (xs : List ℕ) → SortedFrom key lo xs → SortedFrom key lo (remove w xs)
remove-SortedFrom key w lo [] s = tt
remove-SortedFrom key w lo (x ∷ xs) s = ground (
  arith,
  remove-SortedFrom key w (key x) xs s.2,
  SortedFrom-mono key (key x) lo (remove w xs) s.0,
)

-- A wake keeps the delay list in order.
pub Wakes-Timely :
    (k k' : Kernel) (w t : ℕ) (timed_out : Bool) → Timely k → Wakes w timed_out t k k' → Timely k'
Wakes-Timely k k' w t timed_out v a =
    let same = λ (c : ℕ). ap (λ f. f c) a.nodes in
    let stamp : (c : ℕ) → (k'.nodes c).deadline ≡ (k.nodes c).deadline =
      λ c. ground (arith, same c) in
    record {
      clock = rw a.tick v.clock;
      stamps = λ c. rw (stamp c) (v.stamps c);
      sorted = rw a.delay (
          SortedFrom-cong (remaining k) (remaining k') 0 (remove w k.delay_list)
            (λ c i. rw (a.tick, stamp c))
            (remove-SortedFrom (remaining k) w 0 k.delay_list v.sorted));
    }

-- The payload of a node does not change when a node is woken.
pub Wakes-payload :
    (k k' : Kernel) (w t : ℕ) (b : Bool)
    → Wakes w b t k k'
    → (x : ℕ) → (k'.nodes x).payload ≡ (k.nodes x).payload
Wakes-payload k k' w t b a x = ap (λ f. (f x).payload) a.nodes ∙ ground arith
