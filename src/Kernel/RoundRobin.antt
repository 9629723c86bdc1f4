-- ===== src/Kernel/RoundRobin.antt =====
-- Tasks of one priority that yield share the processor in turn.
use coo_rtos.Base.{
  ℕ, zero, suc, ◌<◌, ◌≡◌, refl, ap, sym, ◌∙◌, inl, inr, true, some, List, [], ◌∷◌, ◌++◌, arith, has,
  remove, remove_head, length, subst, ok, ok_inj, Distinct, append-nil, append_assoc,
}
use native.Mathlib.Decide.{dec_le}
use coo_rtos.Kernel.{ready, Kernel, dispatch, run_one, yield_suspend}
use coo_rtos.Kernel.Invariant.{Inv}
use coo_rtos.Kernel.Schedule.{Chosen, resumed, run_one-RunOne, dispatch-Inv, restored-Inv}
use coo_rtos.Kernel.Start.{Queued, yield_suspend-Queued}

-- No task above the priority `p` is ready, and those of `p` are `ts`, in their order.
pub record Level (p : ℕ) (ts : List ℕ) (k : Kernel) : Type 0 where
  pub inv : Inv k
  pub those : k.ready_lists p ≡ ts
  pub none_above : (q : ℕ) → q < p → k.ready_lists q ≡ []

-- A resumed task of the priority `p` yields.
abbrev pub Yields : ℕ → (ℕ → Kernel → Kernel) → Type 0
Yields p resume =
    (t h : ℕ) (j : Kernel)
    → j.current ≡ some t
    → (j.tasks t).priority ≡ p
    → yield_suspend h j ≡ ok (resume h j)

unfoldable pub runs : (ℕ → Kernel → Kernel) → ℕ → Kernel → Kernel
runs resume zero k = k
runs resume (suc n) k = runs resume n (run_one resume k).1

-- The calls of `run_one` run the tasks of the list, one each, in its order.
abbrev pub InTurn : (ℕ → Kernel → Kernel) → List ℕ → Kernel → Type 0
InTurn resume [] k = Unit {0}
InTurn resume (t ∷ ts) k =
    Chosen k t × ((run_one resume k).0 ≡ true) × InTurn resume ts (run_one resume k).1

same_head : (t u : ℕ) (ts us : List ℕ) → t ∷ ts ≡ u ∷ us → t ≡ u
same_head t u ts us e = cc

module _ (p t : ℕ) (ts : List ℕ) (k : Kernel) (v : Level p (t ∷ ts) k) where
  first_ready : ((k.tasks t).state ≡ ready) × ((k.tasks t).priority ≡ p)
  first_ready = v.inv.ready_has p t (ap (has t) v.those ∙ ground arith)

  Chosen-head : (u : ℕ) → Chosen k u → u ≡ t
  Chosen-head u c = elim (dec_le p (k.tasks u).priority) [
    | yes h ↦
        let e : (k.tasks u).priority ≡ p =
          omega (arith, c.highest t first_ready.0, first_ready.1) in
        same_head u t c.behind ts (sym c.oldest ∙ ap k.ready_lists e ∙ v.those)
    | no h ↦ absurd (ground (arith, c.oldest, v.none_above (k.tasks u).priority (omega arith)))
  ]

  module _ (resume : ℕ → Kernel → Kernel) (yields : Yields p resume) where
    rank : ((dispatch t k).tasks t).priority ≡ p
    rank = ground (arith, first_ready.1)

    -- A task that yields is behind the others.
    Queued-Level :
        (h : ℕ) (j : Kernel)
        → Inv j
        → Queued t h ((dispatch t k).tasks t).priority (dispatch t k) j
        → Level p (ts ++ t ∷ []) j
    Queued-Level h j i a = record {
      inv = i;
      those =
          a.joins p
          ∙ ground (
            arith,
            rank,
            ap (remove t) v.those,
            remove_head t ts (subst Distinct v.those (v.inv.ready_distinct p)).0,
          );
      none_above = λ q l. a.joins q ∙ ground (arith, rank, ap (remove t) (v.none_above q l));
    }

    yielded : Level p (ts ++ t ∷ []) (resumed resume k t)
    yielded =
        let d = dispatch t k in
        let h = (k.tasks t).resume_point in
        let (j, e, (i, a)) =
          yield_suspend-Queued d t h (dispatch-Inv k t v.inv first_ready.0) refl (ground arith) in
        subst (Level p (ts ++ t ∷ [])) (ok_inj (sym e ∙ yields t h d refl rank))
          (Queued-Level h j i a)

    -- The first task runs and goes behind the others.
    turn : Chosen k t × ((run_one resume k).0 ≡ true) × Level p (ts ++ t ∷ []) (run_one resume k).1
    turn = elim (run_one-RunOne resume k v.inv) [
      | inl a ↦ absurd (a.2 t first_ready.0)
      | inr (u, c, d, e) ↦
          let n = Chosen-head u c in
          let back =
            λ (j : Kernel). record j { current = k.current; running_prio = k.running_prio } in
          let same : (run_one resume k).1 ≡ back (resumed resume k t) =
            e ∙ ap (λ x. back (resumed resume k x)) n in
          (
            subst (Chosen k) n c,
            d,
            subst (Level p (ts ++ t ∷ [])) (sym same) (record {
              inv = restored-Inv (resumed resume k t) k.current k.running_prio yielded.inv;
              those = yielded.those;
              none_above = yielded.none_above;
            }),
          )
    ]

module _ (p : ℕ) (resume : ℕ → Kernel → Kernel) (yields : Yields p resume) where
  turns :
      (ts us : List ℕ) (k : Kernel)
      → Level p (ts ++ us) k
      → InTurn resume ts k × Level p (us ++ ts) (runs resume (length ts) k)
  unfolding runs
  turns [] us k v = (tt, subst (λ xs. Level p xs k) (sym (append-nil us)) v)
  turns (t ∷ ts) us k v =
      let (c, d, w) = turn p t (ts ++ us) k v resume yields in
      let k₁ = (run_one resume k).1 in
      let (a, z) =
        turns ts (us ++ t ∷ []) k₁ (subst (λ xs. Level p xs k₁) (append_assoc ts us (t ∷ [])) w) in
      (
        (c, d, a),
        subst (λ xs. Level p xs (runs resume (length ts) k₁)) (append_assoc us (t ∷ []) ts) z,
      )

  -- In a kernel whose invariant holds: if no task above the priority `p` is ready, and every task of this priority yields when it is
  -- resumed, then as many calls of `run_one` as there are ready tasks of it run each of them once, in
  -- the order of the list, each as the oldest ready task of the highest priority, and the list is as
  -- before.
  pub runs-InTurn :
      (ts : List ℕ) (k : Kernel)
      → Level p ts k
      → InTurn resume ts k × Level p ts (runs resume (length ts) k)
  runs-InTurn ts k v = turns ts [] k (subst (λ xs. Level p xs k) (sym (append-nil ts)) v)
