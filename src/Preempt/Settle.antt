-- ===== src/Preempt/Settle.antt =====
-- The preemption handler runs what is above the interrupted task until nothing of it is left.
use coo_rtos.Base.{
  ℕ, zero, suc, ◌≤◌, ◌<◌, ◌≡◌, refl, ap, Option, none, some, arith, has, true, subst, sym, ◌⊎◌,
  Bool-cases, inl, inr, ltb, ltb→lt, Run, ok, Returns, ◌>>=◌,
}
use coo_rtos.Kernel.{ready, Kernel, pick, dispatch}
use coo_rtos.Kernel.Invariant.{Inv}
use coo_rtos.Kernel.Schedule.{Picked, pick-Picked}
use coo_rtos.Preempt.{limit, round, handler_loop, preempt_handler}

-- What a task that is picked does from its resume point on.
abbrev pub resumes : (ℕ → Kernel → Kernel) → ℕ → Kernel → Kernel
resumes resume t j = resume ((dispatch t j).tasks t).resume_point (dispatch t j)

-- No task above `top` is ready.
abbrev pub Settled : ℕ → Kernel → Type 0
Settled top k = (s : ℕ) → (k.tasks s).state ≡ ready → top ≤ (k.tasks s).priority

-- A task above `top` that is resumed keeps the invariant and leaves less to do.
abbrev pub Progress : ℕ → (Kernel → ℕ) → (ℕ → Kernel → Kernel) → Type 0
Progress top work resume =
    (t : ℕ) (j : Kernel)
    → Inv j
    → (j.tasks t).state ≡ ready
    → (j.tasks t).priority < top
    → Inv (resumes resume t j) × (work (resumes resume t j) < work j)

-- The kernel `j` is `k` if no task was resumed, and else there is less to do.
abbrev pub Lessens : (Kernel → ℕ) → Kernel → Kernel → Type 0
Lessens work k j = (j ≡ k) ⊎ (work j < work k)

none_above : (top : ℕ) (k : Kernel) → Inv k → Picked top 0 k.ready_lists none → Settled top k
none_above top k v p s e = elim (Bool-cases (ltb (k.tasks s).priority top)) [
  | inl c ↦
      let l = ltb→lt (k.tasks s).priority top c in
      let z = p (k.tasks s).priority (omega arith) (omega arith) in
      absurd (ground (arith, v.ready_in s e, ap (has s) z))
  | inr c ↦ ground arith
]

module _ (top : ℕ) (work : Kernel → ℕ) (resume : ℕ → Kernel → Kernel)
    (step : Progress top work resume) where
  round-Settled :
      (k : Kernel) (rest : Kernel → Run Kernel)
      → Inv k
      → ((j : Kernel)
          → Inv j
          → work j < work k
          → Returns (λ m. Inv m × Settled top m × Lessens work j m) (rest j))
      → (o : Option ℕ) → Picked top 0 k.ready_lists o
      → Returns (λ j. Inv j × Settled top j × Lessens work k j) (round o resume rest k)
  unfolding round
  round-Settled k rest v more none p = (k, refl, (v, none_above top k v p, inl refl))
  round-Settled k rest v more (some t) p =
      let i : has t (k.ready_lists p.0) ≡ true = rw p.4 (ground arith) in
      let h = v.ready_has p.0 t i in
      let a = step t k v h.0 (omega (arith, h.1, p.3)) in
      let (m, r, (i', s, l)) = more (resumes resume t k) a.0 a.1 in
      (m, r, (i', s, inr (less m l a.1)))
    where
      less : {j : Kernel} (m : Kernel) → Lessens work j m → work j < work k → work m < work k
      less m (inl e) l = subst (λ i. work i < work k) (sym e) l
      less m (inr d) l = omega arith

  loop-Settled :
      (f : ℕ) (k : Kernel)
      → Inv k
      → work k < f
      → Returns (λ j. Inv j × Settled top j × Lessens work k j) (handler_loop f top resume k)
  unfolding handler_loop
  loop-Settled zero k v l = absurd (omega arith)
  loop-Settled (suc f) k v l =
      round-Settled k (handler_loop f top resume) v (λ j i m. loop-Settled f j i (omega arith))
        (pick top 0 k.ready_lists) (pick-Picked top 0 k.ready_lists)

-- The kernel that the handler gives back: `current` and `running_prio` are as before.
abbrev pub restored : Kernel → Kernel → Kernel
restored k i = record i { current = k.current; running_prio = k.running_prio }

-- The handler returns on fuel above the work.
pub handler_settles :
    (f : ℕ) (k : Kernel) (work : Kernel → ℕ) (resume : ℕ → Kernel → Kernel)
    → Inv k
    → Progress (limit k) work resume
    → work k < f
    → (i : Kernel) × (preempt_handler f resume k ≡ ok (restored k i))
      × Inv i
      × Settled (limit k) i
      × Lessens work k i
unfolding preempt_handler
handler_settles f k work resume v step l =
    let (j, r, a) = loop-Settled (limit k) work resume step f k v l in
    (j, ap (λ m. m >>= λ i. ok (restored k i)) r, a.0, a.1, a.2)
