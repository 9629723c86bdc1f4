-- ===== src/Kernel/Payload.antt =====
-- A task that blocks with a payload in its node.
use coo_rtos.Base.{ℕ, ◌≡◌, sym, ◌∙◌, Option, some, arith, Returns}
use coo_rtos.Kernel.{running, Kernel, set_payload, block_current}
use coo_rtos.Kernel.Invariant.{Inv}
use coo_rtos.Kernel.Delay.{Timely, remaining, SortedFrom-cong}
use coo_rtos.Kernel.Link.{Unlinked}
use coo_rtos.Kernel.Block.{Blocks, Ahead, block_current-Blocks}

-- Pointing a node at a slot changes no task, deadline or list.
module _ (w : ℕ) (k : Kernel) where
  pub set_payload-Inv : Inv k → Inv (set_payload w k)
  set_payload-Inv v =
      let same : (x : ℕ) → ((set_payload w k).nodes x).task ≡ (k.nodes x).task =
        λ x. ground arith in
      record {
        ready_has = v.ready_has;
        ready_in = v.ready_in;
        ready_distinct = v.ready_distinct;
        in_range = v.in_range;
        delay_distinct = v.delay_distinct;
        wait_distinct = v.wait_distinct;
        linked_waits = λ x i. rw (same x) (v.linked_waits x i);
        one_node = λ x y i j e. v.one_node x y i j (sym (same x) ∙ e ∙ same y);
        one_list = v.one_list;
      }

  pub set_payload-Timely : Timely k → Timely (set_payload w k)
  set_payload-Timely v =
      let same : (x : ℕ) → ((set_payload w k).nodes x).deadline ≡ (k.nodes x).deadline =
        λ x. ground arith in
      record {
        clock = v.clock;
        stamps = λ x. rw (same x) (v.stamps x);
        sorted =
            SortedFrom-cong (remaining k) (remaining (set_payload w k)) 0 k.delay_list
              (λ x i. rw (same x)) v.sorted;
      }

-- Blocking on a list with the payload set, as the awaiters with a slot do.
module _ (k : Kernel) (v : Inv k) (tm : Timely k) (t w h : ℕ) (deadline : Option ℕ)
    (e : k.current ≡ some t) (run : (k.tasks t).state ≡ running) (u : Unlinked k w)
    (a : Ahead k.tick_count deadline) where
  pub pointed-Blocks :
      (l : ℕ)
      → Returns
          (λ k'. Inv k' × Timely k' × Blocks t w (some l) h deadline (set_payload w k) k')
          (block_current w (some l) h deadline (set_payload w k))
  pointed-Blocks l =
      block_current-Blocks (set_payload w k) w t (some l) h deadline (set_payload-Inv w k v)
        (set_payload-Timely w k tm) e run
        (record { not_delayed = u.not_delayed; not_waiting = u.not_waiting }) a
