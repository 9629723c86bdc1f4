-- ===== src/Kernel/Block.antt =====
-- `block_current_locked`: the running task goes to sleep on one node.
use coo_rtos.Base.{
  ℕ, ◌<◌, ◌≡◌, refl, ap, sym, ◌∙◌, ◌≢◌, inl, inr, Bool, true, false, ◌||◌, ◌&&◌, Option, none, some,
  [], ◌∷◌, ◌++◌, arith, ◌==◌, if◌then◌else◌, has, subst, trap, Returns,
}
use coo_rtos.Tick.{half_range, tick_mod, add_tick, sub_tick}
use coo_rtos.Kernel.{
  running, blocked, Kernel, insert_by_deadline, delay_insert, join_wait, join_delay, block,
  block_current, set_task, set_node, block_task,
}
use coo_rtos.Kernel.Invariant.{Inv, Linked, waits_for}
use coo_rtos.Kernel.Delay.{
  Timely, remaining, delay_insert-Timely, SortedFrom-cong, deadline-remaining,
}
use coo_rtos.Kernel.Link.{
  Unlinked, Owns, has-insert_by_deadline, joined-Inv, joined-Owns, delayed-Inv,
}

abbrev pub is_list : Option ℕ → ℕ → Bool
is_list none l = false
is_list (some m) l = l == m

abbrev pub is_some {ℓ} : {A : Type ℓ} → Option A → Bool
is_some none = false
is_some (some a) = true

-- A deadline less than half the range ahead.
abbrev pub Ahead : ℕ → Option ℕ → Type 0
Ahead now none = Unit {0}
Ahead now (some deadline) = (deadline < tick_mod) × (sub_tick deadline now < half_range)

abbrev pub deadline_or : Option ℕ → ℕ → ℕ
deadline_or none d = d
deadline_or (some deadline) d = deadline

-- What blocking the task `t` on the node `w` does.
pub record Blocks (t w : ℕ) (wait_list : Option ℕ) (resume_point : ℕ) (deadline : Option ℕ)
    (k k' : Kernel) : Type 0 where
  pub asleep : (k'.tasks t).state ≡ blocked
  pub resumes : (k'.tasks t).resume_point ≡ resume_point
  pub others : (s : ℕ) → s ≢ t → k'.tasks s ≡ k.tasks s
  pub same_ready : (pr : ℕ) → k'.ready_lists pr ≡ k.ready_lists pr
  pub own : (k'.nodes w).task ≡ some t
  pub fresh : (k'.nodes w).timed_out ≡ false
  pub slot : (k'.nodes w).payload ≡ (k.nodes w).payload
  pub due : (k'.nodes w).deadline ≡ deadline_or deadline (k.nodes w).deadline
  pub other_nodes : (x : ℕ) → x ≢ w → k'.nodes x ≡ k.nodes x
  pub waits :
      (l : ℕ)
      → k'.wait_lists l ≡ (if is_list wait_list l then k.wait_lists l ++ w ∷ [] else k.wait_lists l)
  pub delayed :
      (x : ℕ) → has x k'.delay_list ≡ ((is_some deadline && (x == w)) || has x k.delay_list)
  pub tick : k'.tick_count ≡ k.tick_count
  pub runs : k'.current ≡ k.current

module _ (k : Kernel) (w t resume_point : ℕ) where
  abbrev slept : Kernel
  slept =
      set_task t (record (k.tasks t) { resume_point = resume_point; state = blocked })
        (set_node w (record (k.nodes w) { task = some t; timed_out = false }) k)

  module _ (v : Inv k) (awake : (k.tasks t).state ≡ running) (u : Unlinked k w) where
    not_w : (x : ℕ) → Linked k x → x ≢ w
    not_w x (inl i) e = ground (arith, u.not_delayed, ap (λ c. has c k.delay_list) e)
    not_w x (inr (l, i)) e = ground (arith, u.not_waiting l, ap (λ c. has c (k.wait_lists l)) e)

    slept-task : (x : ℕ) → Linked k x → (slept.nodes x).task ≡ (k.nodes x).task
    slept-task x i = let ne = not_w x i in ground arith

    slept-waits : (x : ℕ) → Linked k x → waits_for (slept.nodes x).task slept.tasks ≡ true
    slept-waits x i = let q = v.linked_waits x i in rw (slept-task x i) (ground arith)

    slept-Inv : Inv slept
    slept-Inv = record {
      ready_has = λ pr s i. ground (arith, v.ready_has pr s);
      ready_in = λ s i. ground (arith, v.ready_in s);
      ready_distinct = v.ready_distinct;
      in_range = λ s. ground (arith, v.in_range s, v.in_range t);
      delay_distinct = v.delay_distinct;
      wait_distinct = v.wait_distinct;
      linked_waits = slept-waits;
      one_node = λ x y i j e. v.one_node x y i j (sym (slept-task x i) ∙ e ∙ slept-task y j);
      one_list = v.one_list;
    }

    slept-Owns : Owns slept w t
    slept-Owns = record {
      own = ground arith;
      asleep = ground arith;
      only = λ x i q. absurd (ground (arith, v.linked_waits x i, slept-task x i));
    }

  join_delay-has :
      (j : Kernel) (dl : Option ℕ) (x : ℕ)
      → has x (join_delay w dl j).delay_list ≡ ((is_some dl && (x == w)) || has x j.delay_list)
  unfolding join_delay
  join_delay-has j none x = refl
  join_delay-has j (some d) x = has-insert_by_deadline (delay_insert w d j).nodes w d x j.delay_list

  block-delayed :
      (wl dl : Option ℕ) (x : ℕ)
      → has x (block t w wl resume_point dl k).delay_list
        ≡ ((is_some dl && (x == w)) || has x k.delay_list)
  unfolding block
  block-delayed none dl x = join_delay-has slept dl x
  block-delayed (some l) dl x = join_delay-has (join_wait w (some l) slept) dl x

  block-Blocks :
      (wl dl : Option ℕ) → Blocks t w wl resume_point dl k (block t w wl resume_point dl k)
  unfolding block insert_by_deadline
  block-Blocks wl dl = record {
    asleep = ground arith;
    resumes = ground arith;
    others = λ s ne. ground arith;
    same_ready = λ pr. ground arith;
    own = ground arith;
    fresh = ground arith;
    slot = ground arith;
    due = ground arith;
    other_nodes = λ x ne. ground arith;
    waits = λ l. ground arith;
    delayed = λ x. block-delayed wl dl x;
    tick = ground arith;
    runs = ground arith;
  }

  stamped-Timely :
      (j : Kernel)
      → Timely k
      → j.tick_count ≡ k.tick_count
      → j.delay_list ≡ k.delay_list
      → ((x : ℕ) → (j.nodes x).deadline ≡ (k.nodes x).deadline)
      → Timely j
  stamped-Timely j tm e d s = record {
    clock = rw e tm.clock;
    stamps = λ x. rw (s x) (tm.stamps x);
    sorted =
        rw d (
          SortedFrom-cong (remaining k) (remaining j) 0 k.delay_list (λ c i. rw (e, s c))
            tm.sorted);
  }

  module _ (tm : Timely k) (out : has w k.delay_list ≡ false) where
    join_delay-Timely :
        (j : Kernel) (dl : Option ℕ)
        → j.tick_count ≡ k.tick_count
        → j.delay_list ≡ k.delay_list
        → ((x : ℕ) → (j.nodes x).deadline ≡ (k.nodes x).deadline)
        → Ahead k.tick_count dl
        → Timely (join_delay w dl j)
    unfolding join_delay
    join_delay-Timely j none e d s a = stamped-Timely j tm e d s
    join_delay-Timely j (some dl) e d s a =
        let left = sub_tick dl k.tick_count in
        let tj = stamped-Timely j tm e d s in
        let same : add_tick j.tick_count left ≡ dl =
          rw e (deadline-remaining k.tick_count dl tm.clock a.0) in
        subst (λ c. Timely (delay_insert w c j)) same
          (delay_insert-Timely j w left tj a.1 (rw d out)).0

    block-Timely :
        (wl dl : Option ℕ) → Ahead k.tick_count dl → Timely (block t w wl resume_point dl k)
    unfolding block
    block-Timely none dl a = join_delay-Timely slept dl refl refl (λ x. ground arith) a
    block-Timely (some l) dl a =
        join_delay-Timely (join_wait w (some l) slept) dl refl refl (λ x. ground arith) a

  module _ (v : Inv k) (awake : (k.tasks t).state ≡ running) (u : Unlinked k w) where
    block-Inv : (wl dl : Option ℕ) → Inv (block t w wl resume_point dl k)
    unfolding block
    block-Inv none none = slept-Inv v awake u
    block-Inv none (some d) =
        delayed-Inv slept w t (slept-Inv v awake u) (slept-Owns v awake u) d u.not_delayed
    block-Inv (some l) none =
        joined-Inv slept w t (slept-Inv v awake u) (slept-Owns v awake u) l u.not_waiting
    block-Inv (some l) (some d) =
        delayed-Inv (join_wait w (some l) slept) w t
          (joined-Inv slept w t (slept-Inv v awake u) (slept-Owns v awake u) l u.not_waiting)
          (joined-Owns slept w t (slept-Inv v awake u) (slept-Owns v awake u) l u.not_waiting) d
          u.not_delayed

-- Blocking the running task on a node that is in no list, with a timeout of less than half the
-- range if there is one, does not trap. The task is asleep with its resume point, the node is its
-- own, at the end of the wait list and in the delay list as asked, and nothing else changes; the
-- invariant and the order of the delay list are kept.
pub block_current-Blocks :
    (k : Kernel) (w t : ℕ) (wl : Option ℕ) (resume_point : ℕ) (dl : Option ℕ)
    → Inv k
    → Timely k
    → k.current ≡ some t
    → (k.tasks t).state ≡ running
    → Unlinked k w
    → Ahead k.tick_count dl
    → Returns
        (λ k'. Inv k' × Timely k' × Blocks t w wl resume_point dl k k')
        (block_current w wl resume_point dl k)
unfolding block_current
block_current-Blocks k w t wl h dl v tm e awake u a = (
  block t w wl h dl k,
  ap (λ o. block_task o w wl h dl k) e,
  (
    block-Inv k w t h v awake u wl dl,
    block-Timely k w t h tm u.not_delayed wl dl a,
    block-Blocks k w t h wl dl,
  ),
)

-- Without a current task it traps.
pub block_current_trap :
    (k : Kernel) (w : ℕ) (wl : Option ℕ) (h : ℕ) (dl : Option ℕ)
    → k.current ≡ none
    → block_current w wl h dl k ≡ trap
unfolding block_current
block_current_trap k w wl h dl e = ap (λ o. block_task o w wl h dl k) e
