-- ===== src/Kernel/Schedule.antt =====
-- `run_one`: which task it runs, and what it restores.
use coo_rtos.Base.{
  ℕ, zero, suc, ◌+◌, ◌≤◌, ◌<◌, ◌≡◌, refl, ap, ◌∙◌, ◌≢◌, ◌⊎◌, inl, inr, Bool, true, false, Option,
  none, some, List, [], ◌∷◌, arith, ◌==◌, Bool-cases, has, has-remove, remove-Distinct, ==→eq,
}
use native.Mathlib.Decide.{dec_le}
use coo_rtos.Kernel.{ready, run_picked, Kernel, pick, dispatch, run_one}
use coo_rtos.Kernel.Invariant.{Inv, Linked, waits_for}

-- The scan of the lists from `pr` on found nothing, or the front of the first list that has one.
abbrev pub Picked : ℕ → ℕ → (ℕ → List ℕ) → Option ℕ → Type 0
Picked n pr lists none = (q : ℕ) → pr ≤ q → q < pr + n → lists q ≡ []
Picked n pr lists (some t) =
    (p : ℕ) × (ts : List ℕ) × (pr ≤ p)
    × (p < pr + n)
    × (lists p ≡ t ∷ ts)
    × ((q : ℕ) → pr ≤ q → q < p → lists q ≡ [])

pick_here :
    (n pr : ℕ) (lists : ℕ → List ℕ) (xs : List ℕ)
    → lists pr ≡ xs
    → Picked n (suc pr) lists (pick n (suc pr) lists)
    → Picked (suc n) pr lists (elim xs [ t ∷ ts ↦ some t | [] ↦ pick n (suc pr) lists ])
pick_here n pr lists (t ∷ ts) e r =
    (pr, ts, omega arith, omega arith, e, λ q a b. absurd (omega arith))
pick_here n pr lists [] e r = go (pick n (suc pr) lists) r
  where
    skip : (q : ℕ) → pr ≤ q → (suc pr ≤ q → lists q ≡ []) → lists q ≡ []
    skip q a f = elim (Bool-cases (q == pr)) [
      | inl h ↦ ap lists (==→eq q pr h) ∙ e
      | inr h ↦ f (ground arith)
    ]

    go : (o : Option ℕ) → Picked n (suc pr) lists o → Picked (suc n) pr lists o
    go none r = λ q a b. skip q a (λ c. r q c (omega arith))
    go (some t) r =
        (r.0, r.1, omega (arith, r.2), omega (arith, r.3), r.4, λ q a b. skip q a (λ c. r.5 q c b))

-- The scan returns the front of the first non-empty list, and nothing only if all are empty.
pub pick-Picked : (n pr : ℕ) (lists : ℕ → List ℕ) → Picked n pr lists (pick n pr lists)
unfolding pick
pick-Picked zero pr lists = λ q a b. absurd (omega arith)
pick-Picked (suc n) pr lists = pick_here n pr lists (lists pr) refl (pick-Picked n (suc pr) lists)

module _ (k : Kernel) (t : ℕ) (v : Inv k) (r : (k.tasks t).state ≡ ready) where
  dispatch-waits : (w : ℕ) → Linked k w → waits_for (k.nodes w).task (dispatch t k).tasks ≡ true
  dispatch-waits w i = ground (arith, v.linked_waits w i)

  -- Taking a ready task off its list to run it keeps the invariant.
  pub dispatch-Inv : Inv (dispatch t k)
  dispatch-Inv = record {
    ready_has = λ pr s i. ground (arith, v.ready_has pr s, has-remove s t (k.ready_lists pr));
    ready_in =
        λ s e. ground (arith, v.ready_in s, has-remove s t (k.ready_lists (k.tasks s).priority));
    ready_distinct = λ pr. remove-Distinct t (k.ready_lists pr) (v.ready_distinct pr);
    in_range = λ s. ground (arith, v.in_range s, v.in_range t);
    delay_distinct = v.delay_distinct;
    wait_distinct = v.wait_distinct;
    linked_waits = dispatch-waits;
    one_node = v.one_node;
    one_list = v.one_list;
  }

-- The task that `run_one` takes: the oldest of the ready tasks of the highest priority.
pub record Chosen (k : Kernel) (t : ℕ) : Type 0 where
  pub is_ready : (k.tasks t).state ≡ ready
  pub behind : List ℕ
  pub oldest : k.ready_lists (k.tasks t).priority ≡ t ∷ behind
  pub highest : (s : ℕ) → (k.tasks s).state ≡ ready → (k.tasks t).priority ≤ (k.tasks s).priority

module _ (k : Kernel) (v : Inv k) where
  none_ready : Picked k.num_priorities 0 k.ready_lists none → (s : ℕ) → (k.tasks s).state ≢ ready
  none_ready p s e =
      let q = (k.tasks s).priority in
      let i = v.ready_in s e in
      let z = p q (omega arith) (omega (arith, v.in_range s)) in
      ground (arith, ap (λ xs. has s xs) z)

  Picked-Chosen : (t : ℕ) → Picked k.num_priorities 0 k.ready_lists (some t) → Chosen k t
  Picked-Chosen t p =
      let r = v.ready_has p.0 t (rw p.4 (ground arith)) in
      record {
        is_ready = r.0;
        behind = p.1;
        oldest = ap k.ready_lists r.1 ∙ p.4;
        highest = λ s e. rw r.1 (elim (dec_le p.0 (k.tasks s).priority) [
          | yes h ↦ h
          | no h ↦
              let z = p.5 (k.tasks s).priority (omega arith) (omega arith) in
              absurd (ground (arith, v.ready_in s e, ap (λ xs. has s xs) z))
        ]);
      }

module _ (resume : ℕ → Kernel → Kernel) (k : Kernel) where
  abbrev pub resumed : ℕ → Kernel
  resumed t = resume (k.tasks t).resume_point (dispatch t k)

  abbrev pub RunOne : Bool × Kernel → Type 0
  RunOne r =
      ((r.0 ≡ false) × (r.1 ≡ k) × ((s : ℕ) → (k.tasks s).state ≢ ready))
      ⊎ ((t : ℕ) × Chosen k t
          × (r.0 ≡ true)
          × (r.1 ≡ record (resumed t) { current = k.current; running_prio = k.running_prio }))

  run_picked-RunOne :
      Inv k
      → (o : Option ℕ) → Picked k.num_priorities 0 k.ready_lists o
      → RunOne (run_picked o resume k)
  run_picked-RunOne v none p = inl (refl, refl, none_ready k v p)
  run_picked-RunOne v (some t) p =
      let same : ((dispatch t k).tasks t).resume_point ≡ (k.tasks t).resume_point = ground arith in
      let back = λ (j : Kernel). record j { current = k.current; running_prio = k.running_prio } in
      inr (t, Picked-Chosen k v t p, refl, ap (λ h. back (resume h (dispatch t k))) same)

  -- `run_one` answers false exactly when no task is ready, and then changes nothing. Otherwise it
  -- takes the oldest ready task of the highest priority off its list, makes it the running one,
  -- resumes it at its resume point, and puts `current` and `running_prio` back afterwards.
  pub run_one-RunOne : Inv k → RunOne (run_one resume k)
  unfolding run_one
  run_one-RunOne v =
      run_picked-RunOne v (pick k.num_priorities 0 k.ready_lists)
        (pick-Picked k.num_priorities 0 k.ready_lists)

pub restored-Inv :
    (j : Kernel) (c : Option ℕ) (pr : ℕ) → Inv j → Inv (record j { current = c; running_prio = pr })
restored-Inv j c pr v = record {
  ready_has = v.ready_has;
  ready_in = v.ready_in;
  ready_distinct = v.ready_distinct;
  in_range = v.in_range;
  delay_distinct = v.delay_distinct;
  wait_distinct = v.wait_distinct;
  linked_waits = v.linked_waits;
  one_node = v.one_node;
  one_list = v.one_list;
}

module _ (resume : ℕ → Kernel → Kernel) (keeps : (h : ℕ) (j : Kernel) → Inv j → Inv (resume h j))
    (k : Kernel) (v : Inv k) where
  run_picked-Inv :
      (o : Option ℕ) → Picked k.num_priorities 0 k.ready_lists o → Inv (run_picked o resume k).1
  run_picked-Inv none p = v
  run_picked-Inv (some t) p =
      let d = dispatch-Inv k t v (Picked-Chosen k v t p).is_ready in
      restored-Inv (resume ((dispatch t k).tasks t).resume_point (dispatch t k)) k.current
        k.running_prio (keeps ((dispatch t k).tasks t).resume_point (dispatch t k) d)

  -- If the coroutines keep the invariant then so does `run_one`, also when it is called by a
  -- running task.
  pub run_one-Inv : Inv (run_one resume k).1
  unfolding run_one
  run_one-Inv =
      run_picked-Inv (pick k.num_priorities 0 k.ready_lists)
        (pick-Picked k.num_priorities 0 k.ready_lists)
