-- ===== src/Task/Life.antt =====
-- A task that is started owns a block of the pool until it ends, and its block is the first to be
-- given out again.
use Prim.Native.Nat.{min}
use coo_rtos.Base.{
  ℕ, ◌-◌, ◌≤◌, ◌<◌, ◌≡◌, ◌≢◌, ◌⊎◌, refl, ap, sym, ◌∙◌, inl, inr, true, false, Option, none, some,
  List, [], ◌∷◌, arith, ◌==◌, ==→eq, has-remove, remove_head, has, remove, Run, ok, trap, Returns,
  Bool-cases, subst,
}
use coo_rtos.Kernel.{TaskPromise, ready, blocked, Kernel, set_task, start, dispatch}
use coo_rtos.Kernel.Invariant.{Inv}
use coo_rtos.Kernel.Start.{Queued, start-Queued, start_invalid}
use coo_rtos.Kernel.Schedule.{dispatch-Inv}
use coo_rtos.FramePool.{FramePool, allocate}
use coo_rtos.FramePool.Free.{Holds, allocate-Allocates}
use coo_rtos.FramePool.Frames.{
  first_free, none_free, allocate_frame-some, allocate_frame_trap, allocate_frame_hook,
  deallocate_frame-Holds,
}
use coo_rtos.Task.{Runtime, new_promise, make_task, start_task, destroy_task, spawn}

-- The blocks `xs` of the pool are free and `ys` handed out, among them those of the tasks that are
-- ready or blocked.
pub record Sound (r : Runtime) (xs ys : List ℕ) : Type 0 where
  pub holds : Holds r.pool xs ys
  pub inv : Inv r.kernel
  pub owned :
      (t : ℕ)
      → ((r.kernel.tasks t).state ≡ ready) ⊎ ((r.kernel.tasks t).state ≡ blocked)
      → has t ys ≡ true

-- Making the promise of a task in memory that is no ready or blocked task's.
created-Inv :
    (k : Kernel) (t : ℕ)
    → Inv k
    → 0 < k.num_priorities
    → (k.tasks t).state ≢ ready
    → (k.tasks t).state ≢ blocked
    → Inv (set_task t (new_promise k) k)
created-Inv k t v n r b = record {
  ready_has = λ q s i. ground (arith, v.ready_has q s);
  ready_in = λ s e. ground (arith, v.ready_in s);
  ready_distinct = v.ready_distinct;
  in_range = λ s. ground (arith, v.in_range s);
  delay_distinct = v.delay_distinct;
  wait_distinct = v.wait_distinct;
  linked_waits = λ w i. ground (arith, v.linked_waits w i);
  one_node = v.one_node;
  one_list = v.one_list;
}

still :
    {p q : TaskPromise}
    → p ≡ q
    → (p.state ≡ ready) ⊎ (p.state ≡ blocked)
    → (q.state ≡ ready) ⊎ (q.state ≡ blocked)
still e (inl s) = inl (ap (λ (x : TaskPromise). x.state) (sym e) ∙ s)
still e (inr s) = inr (ap (λ (x : TaskPromise). x.state) (sym e) ∙ s)

module _ (r : Runtime) (n prio : ℕ) where
  abbrev made : ℕ → Kernel
  made b = set_task b (new_promise r.kernel) r.kernel

  -- With a free block that is long enough for the frame, a task is made and started: the answer is
  -- true, the task has the first free block and is ready at its start, and everything is as it must
  -- be. This holds with any hook for failures.
  pub spawn-Queued :
      (hook : Option (ℕ → FramePool → Run FramePool)) (b : ℕ) (rest ys : List ℕ)
      → Sound r (b ∷ rest) ys
      → n ≤ r.pool.block_size
      → Returns
          (λ s.
            (s.0 ≡ true)
            × Sound s.1 rest (b ∷ ys)
            × Queued b b
                (min prio (r.kernel.num_priorities - 1))
                (set_task b (new_promise r.kernel) r.kernel)
                s.1.kernel)
          (spawn hook n prio r)
  unfolding spawn make_task start_task
  spawn-Queued hook b rest ys v l =
      let a =
        first_free n r.pool b rest ys (allocate n r.pool).0 (allocate n r.pool).1
          (allocate-Allocates r.pool (b ∷ rest) ys v.holds n) l in
      let out = v.holds.apart b (ground arith) in
      let not_ready : (r.kernel.tasks b).state ≢ ready = λ e. ground (arith, v.owned b (inl e)) in
      let not_blocked : (r.kernel.tasks b).state ≢ blocked =
        λ e. ground (arith, v.owned b (inr e)) in
      let pos : 0 < r.kernel.num_priorities = omega (arith, v.inv.in_range b) in
      let i = created-Inv r.kernel b v.inv pos not_ready not_blocked in
      let q = start-Queued (made b) b prio i pos (ground arith) in
      let k = (start (some b) prio (made b)).1 in
      (
        ((start (some b) prio (made b)).0, record { pool = (allocate n r.pool).1; kernel = k }),
        rw (allocate_frame-some hook n r.pool b a.0) refl,
        (
          q.0,
          record {
            holds = a.1;
            inv = q.1;
            owned = λ t c. elim (Bool-cases (t == b)) [
              | inl e ↦ rw e refl
              | inr e ↦
                  let same : k.tasks t ≡ r.kernel.tasks t =
                    q.2.others t (ground arith) ∙ rw e refl in
                  rw e (v.owned t (still same c))
            ];
          },
          q.2,
        ),
      )

-- Where the frame is longer than a block or no block is free, no task is started: without a hook the
-- program traps, and with one that returns the answer is false, the kernel is as it was and the pool
-- as the hook has left it.
pub spawn_fails :
    (r : Runtime) (n prio : ℕ) (xs ys : List ℕ)
    → Sound r xs ys
    → (r.pool.block_size < n) ⊎ (xs ≡ [])
    → (spawn none n prio r ≡ trap)
      × ((hook : ℕ → FramePool → Run FramePool) (p : FramePool)
          → hook n r.pool ≡ ok p
          → spawn (some hook) n prio r ≡ ok (false, record r { pool = p }))
unfolding spawn make_task start_task
spawn_fails r n prio xs ys v c =
    let a =
      none_free n r.pool xs ys (allocate n r.pool).0 (allocate n r.pool).1
        (allocate-Allocates r.pool xs ys v.holds n) c in
    (
      rw (allocate_frame_trap n r.pool a.0) refl,
      λ hook p e.
          let h = allocate_frame_hook hook n r.pool p a.0 (ap (hook n) a.1 ∙ e) in
          rw (h, start_invalid r.kernel prio) refl,
    )

-- The end of a task that runs, or was never started: its block is the first free one.
pub destroy_task-Sound :
    (r : Runtime) (t : ℕ) (xs ys : List ℕ)
    → Sound r xs ys
    → has t ys ≡ true
    → (r.kernel.tasks t).state ≢ ready
    → (r.kernel.tasks t).state ≢ blocked
    → Returns
        (λ s. Sound s (t ∷ xs) (remove t ys) × (s.kernel ≡ r.kernel))
        (destroy_task (some t) r)
unfolding destroy_task
destroy_task-Sound r t xs ys v i nr nb =
    let (p, e, h) = deallocate_frame-Holds r.pool xs ys t v.holds i in
    (
      record r { pool = p },
      rw e refl,
      (
        record {
          holds = h;
          inv = v.inv;
          owned = λ s c. elim (Bool-cases (s == t)) [
            | inl q ↦ elim c [
              | inl x ↦ absurd (nr (ap (λ y. (r.kernel.tasks y).state) (sym (==→eq s t q)) ∙ x))
              | inr x ↦ absurd (nb (ap (λ y. (r.kernel.tasks y).state) (sym (==→eq s t q)) ∙ x))
            ]
            | inr q ↦ ground (arith, has-remove s t ys, v.owned s c)
          ];
        },
        refl,
      ),
    )

-- A task that is spawned, picked by the scheduler and ends at once gives its block back, to the
-- place that it had in the free list, and the pool's blocks are handed out as before.
pub destroy_task-spawn :
    (r : Runtime) (n prio : ℕ) (hook : Option (ℕ → FramePool → Run FramePool)) (b : ℕ)
    (rest ys : List ℕ)
    → Sound r (b ∷ rest) ys
    → n ≤ r.pool.block_size
    → Returns
        (λ s.
          Returns
            (λ z. Sound z (b ∷ rest) ys)
            (destroy_task (some b) (record s.1 { kernel = dispatch b s.1.kernel })))
        (spawn hook n prio r)
destroy_task-spawn r n prio hook b rest ys v l =
    let (s, e, (d, w, q)) = spawn-Queued r n prio hook b rest ys v l in
    let run = record s.1 { kernel = dispatch b s.1.kernel } in
    let w' : Sound run rest (b ∷ ys) = record {
      holds = w.holds;
      inv = dispatch-Inv s.1.kernel b w.inv q.is_ready;
      owned = λ t c. elim (Bool-cases (t == b)) [
        | inl x ↦ rw x refl
        | inr x ↦
            let same : run.kernel.tasks t ≡ s.1.kernel.tasks t = rw x refl in
            w.owned t (still same c)
      ];
    } in
    let (z, f, g) =
      destroy_task-Sound run b rest (b ∷ ys) w' (ground arith) (λ x. ground arith)
        (λ x. ground arith) in
    let back : remove b (b ∷ ys) ≡ ys = remove_head b ys (v.holds.apart b (ground arith)) in
    (s, e, (z, f, subst (Sound z (b ∷ rest)) back g.0))
