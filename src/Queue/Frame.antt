-- ===== src/Queue/Frame.antt =====
-- A queue while other objects, or the clock, are at work: what the senders that leave offer is
-- withdrawn, and all other values keep their order.
use coo_rtos.Base.{
  ℕ, ◌≡◌, refl, ap, sym, ◌∙◌, inl, inr, Bool, true, Option, some, List, [], ◌∷◌, arith,
  if◌then◌else◌, Bool-cases, ◌&&◌, has, reject, has-reject, subst, Returns,
}
use coo_rtos.Kernel.{WaitNode, Kernel, tick_isr}
use coo_rtos.Kernel.Invariant.{Inv}
use coo_rtos.Kernel.Delay.{Timely}
use coo_rtos.Kernel.Tick.{Ticked, runs_out, tick_isr-Ticked}
use coo_rtos.Kernel.Thins.{Thins, Thins-has, Ticked-Thins}
use coo_rtos.Queue.{Queue}
use coo_rtos.Queue.Backlog.{Sound, Pending}

-- What holds when the list has a first entry holds when it has any.
had_some {κ} :
    {P : Type κ} (ys : List ℕ) (w : ℕ)
    → has w ys ≡ true
    → ((x : ℕ) (xs : List ℕ) → ys ≡ x ∷ xs → P)
    → P
had_some [] w i h = absurd (ground arith)
had_some (y ∷ ys) w i h = h y ys refl

module _ {ℓ} {T : Type ℓ} where
  -- The values of the senders that do not leave.
  abbrev pub still_offered : (ℕ → Bool) → List ℕ → List T → List T
  still_offered less [] vs = []
  still_offered less (w ∷ ws) [] = []
  still_offered less (w ∷ ws) (v ∷ vs) =
      if less w then still_offered less ws vs else v ∷ still_offered less ws vs

  abbrev pub rest_of : List T → List T
  rest_of [] = []
  rest_of (v ∷ vs) = vs

  first_of : (v w : T) (vs ws : List T) → v ∷ vs ≡ w ∷ ws → v ≡ w
  first_of v w vs ws e = cc

  Pending-reject :
      (nodes nodes' : ℕ → WaitNode) (slots : ℕ → Option T) (less : ℕ → Bool) (ws : List ℕ)
      (vs : List T)
      → ((x : ℕ) → has x (reject less ws) ≡ true → (nodes' x).payload ≡ (nodes x).payload)
      → Pending nodes slots ws vs
      → Pending nodes' slots (reject less ws) (still_offered less ws vs)
  Pending-reject nodes nodes' slots less [] vs h p = refl
  Pending-reject nodes nodes' slots less (w ∷ ws) [] h p = absurd (ground (arith, p.2))
  Pending-reject nodes nodes' slots less (w ∷ ws) (v ∷ vs) h p =
      let same : vs ≡ p.1 = ap rest_of p.2 in
      let rest =
        Pending-reject nodes nodes' slots less ws vs (λ x i. h x (ground arith))
          (subst (λ zs. Pending nodes slots ws zs) (sym same) p.5) in
      elim (Bool-cases (less w)) [
        | inl e ↦ rw e rest
        | inr e ↦
            let first : v ≡ p.0 = first_of v p.0 vs p.1 p.2 in
            rw e (
              v,
              still_offered less ws vs,
              refl,
              h w (rw e (ground arith)) ∙ p.3,
              p.4 ∙ ap some (sym first),
              rest,
            )
      ]

  module _ (q : Queue T) (k k' : Kernel) (xs vs : List T) (v : Sound q k xs vs) (i : Inv k')
      (tm : Timely k') where
    pub reject-Sound :
        (less : ℕ → Bool)
        → Thins q.receivers k k'
        → k'.wait_lists q.senders ≡ reject less (k.wait_lists q.senders)
        → ((w : ℕ)
            → has w (k'.wait_lists q.senders) ≡ true
            → (k'.nodes w).payload ≡ (k.nodes w).payload)
        → Sound q k' xs (still_offered less (k.wait_lists q.senders) vs)
    reject-Sound less a e p = record {
      inv = i;
      timely = tm;
      holds = v.holds;
      two_lists = v.two_lists;
      starved = λ w ws f.
          let h = Thins-has q.receivers k k' a w (ap (has w) f ∙ ground arith) in
          had_some (k.wait_lists q.receivers) w h.0 v.starved;
      crowded = λ w ws f.
          let h = has-reject less w (k.wait_lists q.senders) in
          let j : has w (reject less (k.wait_lists q.senders)) ≡ true =
            ap (has w) (sym e ∙ f) ∙ ground arith in
          had_some (k.wait_lists q.senders) w (ground arith) v.crowded;
      addressed = λ w j. a.payload w j ∙ v.addressed w (Thins-has q.receivers k k' a w j).0;
      pending =
          subst (λ zs. Pending k'.nodes q.slots zs (still_offered less (k.wait_lists q.senders) vs))
            (sym e)
            (Pending-reject k.nodes k'.nodes q.slots less (k.wait_lists q.senders) vs
              (λ x j. p x (ap (has x) e ∙ j)) v.pending);
    }

    pub Thins-Sound :
        Thins q.receivers k k'
        → (b : Thins q.senders k k')
        → Sound q k' xs (still_offered b.less (k.wait_lists q.senders) vs)
    Thins-Sound a b = reject-Sound b.less a b.thinned b.payload

  module _ (q : Queue T) (k : Kernel) (xs vs : List T) (v : Sound q k xs vs) where
    pub Ticked-Sound :
        (k' : Kernel)
        → Ticked k k'
        → Sound q k' xs
            (still_offered (λ w. has w k.delay_list && runs_out k w) (k.wait_lists q.senders) vs)
    Ticked-Sound k' a =
        reject-Sound q k k' xs vs v a.valid a.timely (λ w. has w k.delay_list && runs_out k w)
          (Ticked-Thins q.receivers k k' a) (a.waits q.senders)
          (Ticked-Thins q.senders k k' a).payload

    -- A timer tick keeps the queue as it must be. The buffer is as it was; the offers of the senders
    -- whose timeout runs out are withdrawn, and the others stay in their order.
    pub tick_isr-Sound :
        Returns
          (λ k'.
            Sound q k' xs
              (still_offered (λ w. has w k.delay_list && runs_out k w) (k.wait_lists q.senders) vs))
          (tick_isr k)
    tick_isr-Sound = let (k', e, a) = tick_isr-Ticked k v.inv v.timely in (k', e, Ticked-Sound k' a)
