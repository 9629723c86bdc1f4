-- ===== src/MainLoop/Round.antt =====
-- The main loop does not sleep while a task is ready.
use coo_rtos.Base.{
  ℕ, zero, suc, ◌+◌, ◌≤◌, ◌<◌, ◌≡◌, refl, ap, ◌∙◌, ◌≢◌, ◌⊎◌, inl, inr, true, false, List, [], ◌∷◌,
  arith, Bool-cases, has, ◌==◌, ==→eq,
}
use coo_rtos.Kernel.{ready, Kernel, run_one}
use coo_rtos.Kernel.Invariant.{Inv}
use coo_rtos.Kernel.Schedule.{Chosen, run_one-RunOne}
use coo_rtos.MainLoop.{is_nonempty, any_ready, run_round}

any_ready_none :
    (n pr : ℕ) (lists : ℕ → List ℕ)
    → any_ready n pr lists ≡ false
    → (q : ℕ) → pr ≤ q
    → q < pr + n
    → is_nonempty (lists q) ≡ false
unfolding any_ready
any_ready_none zero pr lists e q a b = absurd (omega arith)
any_ready_none (suc n) pr lists e q a b = elim (Bool-cases (q == pr)) [
  | inl c ↦ ap (λ p. is_nonempty (lists p)) (==→eq q pr c) ∙ ground arith
  | inr c ↦ any_ready_none n (suc pr) lists (ground arith) q (ground arith) (omega arith)
]

nonempty_front : (xs : List ℕ) → is_nonempty xs ≡ true → (t : ℕ) × (has t xs ≡ true)
nonempty_front [] e = absurd (ground arith)
nonempty_front (x ∷ xs) e = (x, ground arith)

any_ready_found :
    (n pr : ℕ) (lists : ℕ → List ℕ)
    → any_ready n pr lists ≡ true
    → (q : ℕ) × (t : ℕ) × (has t (lists q) ≡ true)
unfolding any_ready
any_ready_found zero pr lists e = absurd (ground arith)
any_ready_found (suc n) pr lists e = elim (Bool-cases (is_nonempty (lists pr))) [
  | inl c ↦ let (t, i) = nonempty_front (lists pr) c in (pr, t, i)
  | inr c ↦ any_ready_found n (suc pr) lists (ground arith)
]

nonempty_has : (s : ℕ) (xs : List ℕ) → is_nonempty xs ≡ false → has s xs ≢ true
nonempty_has s [] e i = ground arith
nonempty_has s (x ∷ xs) e i = ground arith

module _ (resume : ℕ → Kernel → Kernel) (idle : Kernel → Kernel) (k : Kernel) (v : Inv k) where
  -- The scan finds out whether `run_one` has a task to run.
  pub any_ready_lem :
      ((any_ready k.num_priorities 0 k.ready_lists ≡ false) × ((s : ℕ) → (k.tasks s).state ≢ ready))
      ⊎ ((any_ready k.num_priorities 0 k.ready_lists ≡ true)
          × ((run_one resume k).0 ≡ true)
          × ((t : ℕ) × Chosen k t))
  any_ready_lem = elim (Bool-cases (any_ready k.num_priorities 0 k.ready_lists)) [
    | inr n ↦
        let empty = any_ready_none k.num_priorities 0 k.ready_lists n in
        inl (
          n,
          λ s e.
              let r = v.in_range s in
              let z = empty (k.tasks s).priority (omega arith) (omega arith) in
              nonempty_has s (k.ready_lists (k.tasks s).priority) z (v.ready_in s e),
        )
    | inl y ↦ elim (run_one-RunOne resume k v) [
      | inr (t, c, d, e) ↦ inr (y, d, (t, c))
      | inl (d, e, none_ready) ↦
          let (q, t, i) = any_ready_found k.num_priorities 0 k.ready_lists y in
          absurd (none_ready t (v.ready_has q t i).0)
    ]
  ]

  -- A round of the main loop idles only when no task is ready; otherwise it runs one, the oldest of
  -- the highest priority.
  pub run_round_lem :
      ((run_round resume idle k ≡ idle k) × ((s : ℕ) → (k.tasks s).state ≢ ready))
      ⊎ ((run_round resume idle k ≡ (run_one resume k).1)
          × ((run_one resume k).0 ≡ true)
          × ((t : ℕ) × Chosen k t))
  unfolding run_round
  run_round_lem = elim any_ready_lem [
    | inl a ↦ inl (rw a.0 refl, a.1)
    | inr a ↦ inr (rw a.0 refl, a.1, a.2)
  ]
