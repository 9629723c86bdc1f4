-- ===== src/Kernel/Calm.antt =====
-- The steps of the scheduler that no object takes part in: the lists of waiters lose waiters at most,
-- and the kernel stays as it must be.
use coo_rtos.Base.{Bool, ℕ, ◌≡◌, refl, ap, Option, none}
use coo_rtos.Kernel.{ready, Kernel, dispatch}
use coo_rtos.Kernel.Invariant.{Inv}
use coo_rtos.Kernel.Delay.{Timely, remaining, SortedFrom-cong}
use coo_rtos.Kernel.Tick.{Ticked}
use coo_rtos.Kernel.Start.{Queued}
use coo_rtos.Kernel.Block.{Blocks}
use coo_rtos.Kernel.Link.{Unlinked}
use coo_rtos.Kernel.Schedule.{dispatch-Inv, restored-Inv}
use coo_rtos.Kernel.Thins.{Thins, Thins-same, Ticked-Thins, Blocks-Thins}

pub record Calm (k k' : Kernel) : Type 0 where
  pub inv : Inv k'
  pub timely : Timely k'
  pub thins : (l : ℕ) → Thins l k k'

pub Ticked-Calm : (k k' : Kernel) → Ticked k k' → Calm k k'
Ticked-Calm k k' a = record { inv = a.valid; timely = a.timely; thins = λ l. Ticked-Thins l k k' a }

-- The delay list stays in order where neither it nor its nodes nor the clock change.
same-Timely :
    (k k' : Kernel)
    → Timely k
    → k'.nodes ≡ k.nodes
    → k'.delay_list ≡ k.delay_list
    → k'.tick_count ≡ k.tick_count
    → Timely k'
same-Timely k k' v n d t = record {
  clock = rw t v.clock;
  stamps = λ w. rw n (v.stamps w);
  sorted = rw d (
      SortedFrom-cong (remaining k) (remaining k') 0 k.delay_list (λ c i. rw (n, t) refl) v.sorted);
}

pub Queued-Calm : (k k' : Kernel) (t h pr : ℕ) → Timely k → Inv k' → Queued t h pr k k' → Calm k k'
Queued-Calm k k' t h pr v i a = record {
  inv = i;
  timely = same-Timely k k' v a.nodes a.delay a.tick;
  thins = λ l. Thins-same l k k' (a.waits l) λ w j. ap (λ f. f w) a.nodes;
}

pub dispatch-Calm :
    (k : Kernel) (t : ℕ) → Inv k → Timely k → (k.tasks t).state ≡ ready → Calm k (dispatch t k)
dispatch-Calm k t v tm r = record {
  inv = dispatch-Inv k t v r;
  timely = same-Timely k (dispatch t k) tm refl refl refl;
  thins = λ l. Thins-same l k (dispatch t k) refl λ w i. refl;
}

pub restored-Calm :
    (k : Kernel) (c : Option ℕ) (pr : ℕ)
    → Inv k
    → Timely k
    → Calm k (record k { current = c; running_prio = pr })
restored-Calm k c pr v tm = record {
  inv = restored-Inv k c pr v;
  timely = same-Timely k (record k { current = c; running_prio = pr }) tm refl refl refl;
  thins = λ l. Thins-same l k (record k { current = c; running_prio = pr }) refl λ w i. refl;
}

pub pending-Calm :
    (k : Kernel) (b : Bool) → Inv k → Timely k → Calm k (record k { preempt_pending = b })
pending-Calm k b v tm = record {
  inv = record {
    ready_has = v.ready_has;
    ready_in = v.ready_in;
    ready_distinct = v.ready_distinct;
    in_range = v.in_range;
    delay_distinct = v.delay_distinct;
    wait_distinct = v.wait_distinct;
    linked_waits = v.linked_waits;
    one_node = v.one_node;
    one_list = v.one_list;
  };
  timely = same-Timely k (record k { preempt_pending = b }) tm refl refl refl;
  thins = λ l. Thins-same l k (record k { preempt_pending = b }) refl λ w i. refl;
}

-- A task that blocks on no object.
pub Blocks-Calm :
    (k k' : Kernel) (t w h : ℕ) (deadline : Option ℕ)
    → Unlinked k w
    → Inv k'
    → Timely k'
    → Blocks t w none h deadline k k'
    → Calm k k'
Blocks-Calm k k' t w h deadline u i tm a = record {
  inv = i;
  timely = tm;
  thins = λ l. Blocks-Thins l w k u t h none deadline k' refl a;
}
