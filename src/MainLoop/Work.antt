-- ===== src/MainLoop/Work.antt =====
-- The main loop gets its work done.
use coo_rtos.Base.{ℕ, zero, suc, ◌+◌, ◌≤◌, ◌<◌, ◌≡◌, ◌≢◌, ap, sym, inl, inr, true, arith, subst}
use coo_rtos.Kernel.{ready, Kernel, run_one}
use coo_rtos.Kernel.Invariant.{Inv}
use coo_rtos.Kernel.Schedule.{run_one-Inv}
use coo_rtos.MainLoop.{run_round, rounds}
use coo_rtos.MainLoop.Round.{run_round_lem}

-- A task that is run leaves less to do.
abbrev pub Works : (Kernel → ℕ) → (ℕ → Kernel → Kernel) → Type 0
Works work resume =
    (k : Kernel) → Inv k → (run_one resume k).0 ≡ true → work (run_one resume k).1 < work k

-- After `n` rounds that each run a task no task is ready, and the next round idles.
pub record Idles (resume : ℕ → Kernel → Kernel) (idle : Kernel → Kernel) (k : Kernel) (n : ℕ)
    : Type 0 where
  pub inv : Inv (rounds resume idle n k)
  pub ran : (m : ℕ) → m < n → (run_one resume (rounds resume idle m k)).0 ≡ true
  pub none_ready : (t : ℕ) → ((rounds resume idle n k).tasks t).state ≢ ready
  pub idles : run_round resume idle (rounds resume idle n k) ≡ idle (rounds resume idle n k)

module _ (resume : ℕ → Kernel → Kernel) (idle : Kernel → Kernel)
    (keeps : (h : ℕ) (k : Kernel) → Inv k → Inv (resume h k)) (work : Kernel → ℕ)
    (works : Works work resume) where
  all_ran :
      (k : Kernel) (n : ℕ)
      → (run_one resume k).0 ≡ true
      → run_round resume idle k ≡ (run_one resume k).1
      → ((m : ℕ) → m < n → (run_one resume (rounds resume idle m (run_one resume k).1)).0 ≡ true)
      → (m : ℕ) → m < suc n
      → (run_one resume (rounds resume idle m k)).0 ≡ true
  unfolding rounds
  all_ran k n d e a zero l = d
  all_ran k n d e a (suc m) l = rw e (a m (omega arith))

  first_ran :
      (k : Kernel) (n : ℕ)
      → (run_one resume k).0 ≡ true
      → run_round resume idle k ≡ (run_one resume k).1
      → Idles resume idle (run_one resume k).1 n
      → Idles resume idle k (suc n)
  unfolding rounds
  first_ran k n d e a =
      let same : rounds resume idle (suc n) k ≡ rounds resume idle n (run_one resume k).1 =
        ap (rounds resume idle n) e in
      record {
        inv = subst Inv (sym same) a.inv;
        ran = all_ran k n d e a.ran;
        none_ready =
            subst (λ (j : Kernel). (t : ℕ) → (j.tasks t).state ≢ ready) (sym same) a.none_ready;
        idles = subst (λ j. run_round resume idle j ≡ idle j) (sym same) a.idles;
      }

  rounds-Idles_within :
      (f : ℕ) (k : Kernel) → Inv k → work k < f → (n : ℕ) × (n ≤ work k) × Idles resume idle k n
  unfolding rounds
  rounds-Idles_within zero k v l = absurd (omega arith)
  rounds-Idles_within (suc f) k v l = elim (run_round_lem resume idle k v) [
    | inl a ↦ (
      0,
      omega arith,
      record { inv = v; ran = λ m h. absurd (omega arith); none_ready = a.1; idles = a.0 },
    )
    | inr a ↦
        let j = (run_one resume k).1 in
        let less = works k v a.1 in
        let (n, b, c) =
          rounds-Idles_within f j (run_one-Inv resume keeps k v) (omega (arith, less)) in
        (suc n, omega (arith, less), first_ran k n a.1 a.0 c)
  ]

  -- If the coroutines keep the invariant when they are resumed, and each leaves less to do, then the
  -- main loop comes to its idle step: after no more rounds than there was work at the start, each of
  -- which runs a task, no task is ready.
  pub rounds-Idles : (k : Kernel) → Inv k → (n : ℕ) × (n ≤ work k) × Idles resume idle k n
  rounds-Idles k v = rounds-Idles_within (work k + 1) k v (omega arith)
