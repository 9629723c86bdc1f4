-- ===== src/MainLoop/Masked.antt =====
-- The main loop on a port.
use coo_rtos.Base.{
  ℕ, zero, suc, ◌+◌, ◌≤◌, ◌<◌, ◌≡◌, ◌≢◌, refl, ◌⊎◌, inl, inr, Bool-cases, none, some, true, false,
  arith, Run, ok, trap, ◌>>=◌,
}
use coo_rtos.Kernel.{ready, Kernel, run_one}
use coo_rtos.Kernel.Invariant.{Inv}
use coo_rtos.Kernel.Schedule.{run_one-Inv}
use coo_rtos.Kernel.RoundRobin.{runs}
use coo_rtos.Ports.{Port}
use coo_rtos.MainLoop.{any_ready, run_round, port_round, run, host_idle}
use coo_rtos.MainLoop.Round.{any_ready_lem}
use coo_rtos.MainLoop.Work.{Works}

-- What a round does: it runs a task if one is ready, and else it idles, with interrupts masked.
abbrev pub Masks :
    (p : Port) (resume : ℕ → Kernel → Kernel)
    → p.State
    → Kernel
    → (p.State → Kernel → Run (p.State × Kernel))
    → Type 0
Masks p resume s k idle =
    (((run_one resume k).0 ≡ true) × (port_round p resume idle s k ≡ ok (s, (run_one resume k).1)))
    ⊎ (((t : ℕ) → (k.tasks t).state ≢ ready)
        × (p.in_critical (p.irq_disable s) ≡ true)
        × (port_round p resume idle s k
            ≡ (idle (p.irq_disable s) k >>= λ (s₂, k₂). p.irq_enable s₂ >>= λ s₃. ok (s₃, k₂))))

module _ (p : Port) (s : p.State) (v : p.Valid s) (m : p.in_critical s ≡ false)
    (resume : ℕ → Kernel → Kernel) (k : Kernel) where
  -- On a port whose operations keep its laws, with interrupts allowed, and with an idle hook that does
  -- not touch the port, a round of `run` with its calls of the port is a round of the kernel alone, and
  -- gives the port back as it was.
  pub port_round-run_round :
      (hook : Kernel → Kernel)
      → port_round p resume (host_idle (some hook)) s k ≡ ok (s, run_round resume hook k)
  unfolding port_round run_round host_idle
  port_round-run_round hook = elim (Bool-cases (any_ready k.num_priorities 0 k.ready_lists)) [
    | inl c ↦ rw c (rw (p.enables s v m) refl)
    | inr c ↦ rw c (rw (p.enables s v m) refl)
  ]

  pub port_round-Masks :
      (idle : p.State → Kernel → Run (p.State × Kernel)) → Inv k → Masks p resume s k idle
  unfolding port_round
  port_round-Masks idle i = elim (any_ready_lem resume hook k i) [
    | inr a ↦ inl (a.1, rw (a.0, p.enables s v m) refl)
    | inl a ↦ inr (a.1, p.disable_masks s v, rw a.0 refl)
  ]
    where
      hook : Kernel → Kernel
      hook j = j

-- `run` with no idle hook, from the kernel `k` on: `n` rounds run a task each, and the next one traps.
pub record Deadlocks (p : Port) (resume : ℕ → Kernel → Kernel) (s : p.State) (k : Kernel) (n : ℕ)
    : Type 0 where
  pub ran : (m : ℕ) → m < n → (run_one resume (runs resume m k)).0 ≡ true
  pub none_ready : (t : ℕ) → ((runs resume n k).tasks t).state ≢ ready
  pub goes_on :
      (m f : ℕ)
      → m ≤ n
      → run p resume (host_idle none) (m + f) s k
        ≡ run p resume (host_idle none) f s (runs resume m k)
  pub traps : run p resume (host_idle none) (n + 1) s k ≡ trap

module _ (p : Port) (s : p.State) (v : p.Valid s) (m : p.in_critical s ≡ false)
    (resume : ℕ → Kernel → Kernel) (keeps : (h : ℕ) (k : Kernel) → Inv k → Inv (resume h k))
    (work : Kernel → ℕ) (works : Works work resume) where
  stays_at :
      (k : Kernel) (x g : ℕ)
      → x ≤ 0
      → run p resume (host_idle none) (x + g) s k
        ≡ run p resume (host_idle none) g s (runs resume x k)
  unfolding runs
  stays_at k zero g l = let z : 0 + g ≡ g = omega arith in rw z refl
  stays_at k (suc x) g l = absurd (omega (arith, l))

  module _ (k : Kernel) (n : ℕ) (d : (run_one resume k).0 ≡ true)
      (e : port_round p resume (host_idle none) s k ≡ ok (s, (run_one resume k).1))
      (a : Deadlocks p resume s (run_one resume k).1 n) where
    all_ran : (x : ℕ) → x < suc n → (run_one resume (runs resume x k)).0 ≡ true
    unfolding runs
    all_ran zero l = d
    all_ran (suc x) l = a.ran x (omega (arith, l))

    all_go_on :
        (x g : ℕ)
        → x ≤ suc n
        → run p resume (host_idle none) (x + g) s k
          ≡ run p resume (host_idle none) g s (runs resume x k)
    unfolding runs run
    all_go_on zero g l = let z : 0 + g ≡ g = omega arith in rw z refl
    all_go_on (suc x) g l =
        let z : suc x + g ≡ suc (x + g) = omega arith in
        rw z (rw e (a.goes_on x g (omega (arith, l))))

    first_ran : Deadlocks p resume s k (suc n)
    unfolding runs run
    first_ran = record {
      ran = all_ran;
      none_ready = a.none_ready;
      goes_on = all_go_on;
      traps = let z : suc n + 1 ≡ suc (n + 1) = omega arith in rw z (rw e a.traps);
    }

  run-Deadlocks_within :
      (f : ℕ) (k : Kernel) → Inv k → work k < f → (n : ℕ) × (n ≤ work k) × Deadlocks p resume s k n
  unfolding run host_idle runs
  run-Deadlocks_within zero k i l = absurd (omega arith)
  run-Deadlocks_within (suc f) k i l = elim (port_round-Masks p s v m resume k (host_idle none) i) [
    | inr a ↦ (
      0,
      omega arith,
      record {
        ran = λ x h. absurd (omega arith);
        none_ready = a.0;
        goes_on = stays_at k;
        traps = rw a.2 refl;
      },
    )
    | inl a ↦
        let less = works k i a.0 in
        let j = (run_one resume k).1 in
        let (n, b, d) =
          run-Deadlocks_within f j (run_one-Inv resume keeps k i) (omega (arith, less)) in
        (suc n, omega (arith, less), first_ran k n a.0 a.1 d)
  ]

  -- On a port whose operations keep its laws, with interrupts allowed, and with no idle hook: if the
  -- coroutines keep the kernel's invariant and each that is resumed leaves less to do, then there is a
  -- number of rounds, not more than there was work, of which each runs a task as `run_one` does and
  -- goes on to the next, and after which no task is ready; the round that follows ends in the trap that
  -- reports a deadlock.
  pub run-Deadlocks : (k : Kernel) → Inv k → (n : ℕ) × (n ≤ work k) × Deadlocks p resume s k n
  run-Deadlocks k i = run-Deadlocks_within (work k + 1) k i (omega arith)
