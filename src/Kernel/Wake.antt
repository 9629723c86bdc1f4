-- ===== src/Kernel/Wake.antt =====
-- `make_ready_locked` and `wake_locked` keep the invariant.
use coo_rtos.Base.{
  ℕ, ◌≡◌, refl, ap, ◌≢◌, inl, inr, Bool, true, false, Option, none, some, [], ◌∷◌, ◌++◌, arith, has,
  Distinct, ◌==◌, if◌then◌else◌, has-append, has-remove, remove-Distinct, append-Distinct,
  Bool-cases, remove, update, ok, Returns, sym, ◌∙◌,
}
use coo_rtos.Kernel.{
  ready, blocked, TaskPromise, Kernel, is_ready, enqueue_ready, make_ready, release_node,
  ready_task, pends, wake,
}
use coo_rtos.Kernel.Invariant.{Inv, Linked, waits_for}

module _ (k : Kernel) (t : ℕ) (v : Inv k) where
  module _ (idle : is_ready (k.tasks t).state ≡ false)
      (alone : (w : ℕ) → Linked k w → (k.nodes w).task ≢ some t) where
    enqueue_ready-absent : (pr : ℕ) → has t (k.ready_lists pr) ≡ false
    enqueue_ready-absent pr = elim (Bool-cases (has t (k.ready_lists pr))) [
      | inl i ↦ ground (arith, v.ready_has pr t i)
      | inr i ↦ i
    ]

    enqueue_ready-has :
        (pr s : ℕ)
        → has s ((enqueue_ready t k).ready_lists pr) ≡ true
        → (((enqueue_ready t k).tasks s).state ≡ ready)
          × (((enqueue_ready t k).tasks s).priority ≡ pr)
    enqueue_ready-has pr s i =
        ground (arith, v.ready_has pr s, has-append s (k.ready_lists (k.tasks t).priority) (t ∷ []))

    enqueue_ready-in :
        (s : ℕ)
        → ((enqueue_ready t k).tasks s).state ≡ ready
        → has s ((enqueue_ready t k).ready_lists ((enqueue_ready t k).tasks s).priority) ≡ true
    enqueue_ready-in s i =
        ground (arith, v.ready_in s, has-append s (k.ready_lists (k.tasks t).priority) (t ∷ []))

    enqueue_ready-Distinct : (pr : ℕ) → Distinct ((enqueue_ready t k).ready_lists pr)
    enqueue_ready-Distinct pr = elim (Bool-cases (pr == (k.tasks t).priority)) [
      | inl e ↦ rw e (
          append-Distinct _ t (v.ready_distinct (k.tasks t).priority)
            (enqueue_ready-absent (k.tasks t).priority))
      | inr e ↦ rw e (v.ready_distinct pr)
    ]

    enqueue_ready-waits :
        (w : ℕ) → Linked k w → waits_for (k.nodes w).task (enqueue_ready t k).tasks ≡ true
    enqueue_ready-waits w l = ground (arith, v.linked_waits w l, alone w l)

    -- Queueing a task that is not ready, and that no linked node belongs to.
    pub enqueue_ready-Inv : Inv (enqueue_ready t k)
    enqueue_ready-Inv = record {
      ready_has = enqueue_ready-has;
      ready_in = enqueue_ready-in;
      ready_distinct = enqueue_ready-Distinct;
      in_range = λ s. ground (arith, v.in_range s, v.in_range t);
      delay_distinct = v.delay_distinct;
      wait_distinct = v.wait_distinct;
      linked_waits = enqueue_ready-waits;
      one_node = v.one_node;
      one_list = v.one_list;
    }

    pub make_ready-Inv : Inv (make_ready t k)
    unfolding make_ready
    make_ready-Inv =
        let q = enqueue_ready-Inv in
        rw idle (record {
          ready_has = q.ready_has;
          ready_in = q.ready_in;
          ready_distinct = q.ready_distinct;
          in_range = q.in_range;
          delay_distinct = q.delay_distinct;
          wait_distinct = q.wait_distinct;
          linked_waits = q.linked_waits;
          one_node = q.one_node;
          one_list = q.one_list;
        })

module _ (k : Kernel) (w : ℕ) (timed_out : Bool) where
  release_node-Linked : (x : ℕ) → Linked (release_node w timed_out k) x → Linked k x × (x ≢ w)
  release_node-Linked x (inl i) =
      let h = has-remove x w k.delay_list in (inl (ground arith), ground arith)
  release_node-Linked x (inr (l, i)) =
      let h = has-remove x w (k.wait_lists l) in (inr (l, ground arith), ground arith)

  release_node-task : (x : ℕ) → ((release_node w timed_out k).nodes x).task ≡ (k.nodes x).task
  release_node-task x = ground arith

  pub release_node-Inv : Inv k → Inv (release_node w timed_out k)
  release_node-Inv v = record {
    ready_has = v.ready_has;
    ready_in = v.ready_in;
    ready_distinct = v.ready_distinct;
    in_range = v.in_range;
    delay_distinct = remove-Distinct w k.delay_list v.delay_distinct;
    wait_distinct = λ l. remove-Distinct w (k.wait_lists l) (v.wait_distinct l);
    linked_waits = λ x i. let r = release_node-Linked x i in ground (arith, v.linked_waits x r.0);
    one_node = λ x y i j e.
        v.one_node x y (release_node-Linked x i).0 (release_node-Linked y j).0 (ground arith);
    one_list = λ l m x i j.
        v.one_list l m x (ground (arith, has-remove x w (k.wait_lists l)))
          (ground (arith, has-remove x w (k.wait_lists m)));
  }

  pub wake_lem :
      {t : ℕ}
      → (k.nodes w).task ≡ some t
      → wake w timed_out k ≡ ok (make_ready t (release_node w timed_out k))
  unfolding wake
  wake_lem e = ap (λ o. ready_task o (release_node w timed_out k)) e

  module _ (t : ℕ) (e : (k.nodes w).task ≡ some t) (b : (k.tasks t).state ≡ blocked)
      (only : (x : ℕ) → Linked k x → (k.nodes x).task ≡ some t → x ≡ w) where
    pub woken-Inv : Inv k → Inv (make_ready t (release_node w timed_out k))
    woken-Inv v =
        make_ready-Inv (release_node w timed_out k) t (release_node-Inv v) (rw b) λ x i same.
          let r = release_node-Linked x i in r.1 (only x r.0 (sym (release_node-task x) ∙ same))

-- What waking the node `w` of the task `t` does, field by field.
pub record Wakes (w : ℕ) (timed_out : Bool) (t : ℕ) (k k' : Kernel) : Type 0 where
  pub nodes : k'.nodes ≡ update k.nodes w (record (k.nodes w) { timed_out = timed_out })
  pub delay : k'.delay_list ≡ remove w k.delay_list
  pub waits : (l : ℕ) → k'.wait_lists l ≡ remove w (k.wait_lists l)
  pub tick : k'.tick_count ≡ k.tick_count
  pub priorities : k'.num_priorities ≡ k.num_priorities
  pub runs : k'.current ≡ k.current
  pub woken : (k'.tasks t).state ≡ ready
  pub others : (s : ℕ) → s ≢ t → k'.tasks s ≡ k.tasks s
  pub joins :
      (pr : ℕ)
      → k'.ready_lists pr
        ≡ (if pr == (k.tasks t).priority then k.ready_lists pr ++ t ∷ [] else k.ready_lists pr)
  pub asks : k'.preempt_pending ≡ (if pends t k then true else k.preempt_pending)

module _ (k : Kernel) (w : ℕ) (timed_out : Bool) (t : ℕ)
    (idle : is_ready (k.tasks t).state ≡ false) where
  pub make_ready-Wakes : Wakes w timed_out t k (make_ready t (release_node w timed_out k))
  unfolding make_ready
  make_ready-Wakes = rw idle (record {
    nodes = refl;
    delay = refl;
    waits = λ l. refl;
    tick = refl;
    priorities = refl;
    runs = refl;
    woken = ground arith;
    others = λ s ne. ground arith;
    joins = λ pr. ground arith;
    asks = refl;
  })

module _ (k : Kernel) (w : ℕ) (timed_out : Bool) (t : ℕ) (e : (k.nodes w).task ≡ some t)
    (b : (k.tasks t).state ≡ blocked)
    (only : (x : ℕ) → Linked k x → (k.nodes x).task ≡ some t → x ≡ w) where
  pub wake-Wakes : Inv k → Returns (λ k'. Inv k' × Wakes w timed_out t k k') (wake w timed_out k)
  wake-Wakes v = (
    make_ready t (release_node w timed_out k),
    wake_lem k w timed_out e,
    (woken-Inv k w timed_out t e b only v, make_ready-Wakes k w timed_out t (rw b)),
  )

waits_for-task :
    (o : Option ℕ) (tasks : ℕ → TaskPromise)
    → waits_for o tasks ≡ true
    → (t : ℕ) × (o ≡ some t) × ((tasks t).state ≡ blocked)
waits_for-task none tasks e = cc
waits_for-task (some t) tasks e = (t, refl, ground arith)

-- The node of any list belongs to a blocked task, and is woken as above.
pub wake-Linked :
    (k : Kernel) (w : ℕ) (timed_out : Bool)
    → Inv k
    → Linked k w
    → (t : ℕ) × ((k.nodes w).task ≡ some t)
      × Returns (λ k'. Inv k' × Wakes w timed_out t k k') (wake w timed_out k)
wake-Linked k w timed_out v i =
    let (t, own, b) = waits_for-task (k.nodes w).task k.tasks (v.linked_waits w i) in
    (t, own, wake-Wakes k w timed_out t own b (λ x j o. v.one_node x w j i (o ∙ sym own)) v)

-- The task of a linked node is blocked.
pub owner_asleep :
    (k : Kernel) (w t : ℕ)
    → Inv k
    → Linked k w
    → (k.nodes w).task ≡ some t
    → (k.tasks t).state ≡ blocked
owner_asleep k w t v i own =
    let p : waits_for (some t) k.tasks ≡ true =
      ap (λ o. waits_for o k.tasks) (sym own) ∙ v.linked_waits w i in
    ground arith
