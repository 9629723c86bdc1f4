-- ===== src/Kernel/Start.antt =====
-- `start` and `yield`: how a task enters the ready lists, and how it goes to the back of its own.
use Prim.Native.Nat.{min}
use coo_rtos.Base.{
  ℕ, ◌-◌, ◌<◌, ◌≡◌, refl, ap, ◌≢◌, true, false, none, some, [], ◌∷◌, ◌++◌, arith, ◌==◌,
  if◌then◌else◌, Returns,
}
use coo_rtos.Kernel.{
  created, ready, running, blocked, Kernel, make_ready, set_task, clamp_priority, start,
  yield_suspend, yield_task,
}
use coo_rtos.Kernel.Invariant.{Inv}
use coo_rtos.Kernel.Wake.{make_ready-Inv}

-- What readying the task `t` at the resume point `h` and the priority `pr` does.
pub record Queued (t h pr : ℕ) (k k' : Kernel) : Type 0 where
  pub is_ready : (k'.tasks t).state ≡ ready
  pub resumes : (k'.tasks t).resume_point ≡ h
  pub ranks : (k'.tasks t).priority ≡ pr
  pub others : (s : ℕ) → s ≢ t → k'.tasks s ≡ k.tasks s
  pub joins :
      (q : ℕ) → k'.ready_lists q ≡ (if q == pr then k.ready_lists q ++ t ∷ [] else k.ready_lists q)
  pub waits : (l : ℕ) → k'.wait_lists l ≡ k.wait_lists l
  pub delay : k'.delay_list ≡ k.delay_list
  pub nodes : k'.nodes ≡ k.nodes
  pub tick : k'.tick_count ≡ k.tick_count

module _ (k : Kernel) (t h pr : ℕ) (st : (k.tasks t).state ≢ ready)
    (awake : (k.tasks t).state ≢ blocked) (v : Inv k) (fits : pr < k.num_priorities) where
  abbrev placed : Kernel
  placed = set_task t (record (k.tasks t) { priority = pr; resume_point = h }) k

  placed-Inv : Inv placed
  placed-Inv = record {
    ready_has = λ q s i. ground (arith, v.ready_has q s);
    ready_in = λ s e. ground (arith, v.ready_in s);
    ready_distinct = v.ready_distinct;
    in_range = λ s. ground (arith, v.in_range s);
    delay_distinct = v.delay_distinct;
    wait_distinct = v.wait_distinct;
    linked_waits = λ w i. ground (arith, v.linked_waits w i);
    one_node = v.one_node;
    one_list = v.one_list;
  }

  queued-Inv : Inv (make_ready t placed)
  queued-Inv =
      make_ready-Inv placed t placed-Inv (ground arith) λ w i e. ground (arith, v.linked_waits w i)

  make_ready-Queued : Queued t h pr k (make_ready t placed)
  unfolding make_ready
  make_ready-Queued = record {
    is_ready = ground arith;
    resumes = ground arith;
    ranks = ground arith;
    others = λ s ne. ground arith;
    joins = λ q. ground arith;
    waits = λ l. ground arith;
    delay = ground arith;
    nodes = ground arith;
    tick = ground arith;
  }

clamp-min :
    (k : Kernel) (pr : ℕ)
    → 0 < k.num_priorities
    → clamp_priority pr k ≡ min pr (k.num_priorities - 1)
clamp-min k pr h = ground arith

-- Starting a task that was created and not run yet succeeds: the task is ready at its own handle,
-- at the end of the list of its priority, which is the one asked for or else the lowest there is.
pub start-Queued :
    (k : Kernel) (t pr : ℕ)
    → Inv k
    → 0 < k.num_priorities
    → (k.tasks t).state ≡ created
    → let r = start (some t) pr k in
      (r.0 ≡ true) × Inv r.1 × Queued t t (min pr (k.num_priorities - 1)) k r.1
unfolding start
start-Queued k t pr v n c =
    let e = clamp-min k pr n in
    let st : (k.tasks t).state ≢ ready = ground arith in
    let awake : (k.tasks t).state ≢ blocked = ground arith in
    let fits : min pr (k.num_priorities - 1) < k.num_priorities = omega arith in
    rw e (
      refl,
      queued-Inv k t t (min pr (k.num_priorities - 1)) st awake v fits,
      make_ready-Queued k t t (min pr (k.num_priorities - 1)) st awake v fits,
    )

-- An invalid task is refused, and nothing changes.
pub start_invalid : (k : Kernel) (pr : ℕ) → start none pr k ≡ (false, k)
unfolding start
start_invalid k pr = refl

-- A running task that yields is ready again, behind every ready task of its priority, to be
-- resumed at the point where it yielded.
pub yield_suspend-Queued :
    (k : Kernel) (t h : ℕ)
    → Inv k
    → k.current ≡ some t
    → (k.tasks t).state ≡ running
    → Returns (λ k'. Inv k' × Queued t h (k.tasks t).priority k k') (yield_suspend h k)
unfolding yield_suspend
yield_suspend-Queued k t h v e run =
    let st : (k.tasks t).state ≢ ready = ground arith in
    let awake : (k.tasks t).state ≢ blocked = ground arith in
    (
      make_ready t (set_task t (record (k.tasks t) { resume_point = h }) k),
      ap (λ o. yield_task o h k) e,
      (
        queued-Inv k t h (k.tasks t).priority st awake v (v.in_range t),
        make_ready-Queued k t h (k.tasks t).priority st awake v (v.in_range t),
      ),
    )
