-- ===== src/Queue/Block.antt =====
-- A task that blocks on a queue, to receive from an empty one or to send to a full one.
use coo_rtos.Base.{
  ℕ, ◌≡◌, refl, ap, sym, ◌∙◌, inl, inr, true, Option, some, List, [], ◌∷◌, ◌++◌, arith, ◌==◌, ==→eq,
  Bool-cases, has, has-append, subst,
}
use coo_rtos.Kernel.{set_payload, running, Kernel, WaitNode}
use coo_rtos.Kernel.Invariant.{Inv}
use coo_rtos.Kernel.Delay.{Timely}
use coo_rtos.Kernel.Link.{Unlinked}
use coo_rtos.Kernel.Block.{Blocks, Ahead}
use coo_rtos.Queue.{Queue, set_slot}
use coo_rtos.Queue.Backlog.{Sound, Pending, Pending-cong, Pending-append, set_slot-Sound}

module _ {ℓ} {T : Type ℓ} (q : Queue T) (k : Kernel) (xs vs : List T) (v : Sound q k xs vs)
    (t w h : ℕ) (deadline : Option ℕ) (e : k.current ≡ some t) (run : (k.tasks t).state ≡ running)
    (u : Unlinked k w) (a : Ahead k.tick_count deadline) where
  module _ (k' : Kernel) where
    -- Nodes in the lists of the queue are not the awaiter's.
    other_node :
        (l : ℕ)
        → Blocks t w (some l) h deadline (set_payload w k) k'
        → (m y : ℕ) → has y (k.wait_lists m) ≡ true
        → k'.nodes y ≡ k.nodes y
    other_node l b m y i = elim (Bool-cases (y == w)) [
      | inl c ↦
          absurd (ground (arith, u.not_waiting m, ap (λ x. has x (k.wait_lists m)) (==→eq y w c)))
      | inr c ↦ b.other_nodes y (ground arith) ∙ rw c refl
    ]

    pub blocked_receiver-Sound :
        xs ≡ []
        → Inv k'
        → Timely k'
        → Blocks t w (some q.receivers) h deadline (set_payload w k) k'
        → Sound q k' xs vs
    blocked_receiver-Sound z i tm b =
        let mine : (k'.nodes w).payload ≡ some w = b.slot ∙ ground arith in
        let senders : k'.wait_lists q.senders ≡ k.wait_lists q.senders =
          b.waits q.senders ∙ ground (arith, v.two_lists) in
        let receivers : k'.wait_lists q.receivers ≡ k.wait_lists q.receivers ++ w ∷ [] =
          b.waits q.receivers ∙ ground arith in
        record {
          inv = i;
          timely = tm;
          holds = v.holds;
          two_lists = v.two_lists;
          starved = λ y ys j. z;
          crowded = λ y ys j. v.crowded y ys (sym senders ∙ j);
          addressed = λ y j. elim (Bool-cases (y == w)) [
            | inl c ↦ rw (==→eq y w c) mine
            | inr c ↦
                let old : has y (k.wait_lists q.receivers) ≡ true =
                  ground (
                    arith,
                    ap (has y) receivers,
                    has-append y (k.wait_lists q.receivers) (w ∷ []),
                  ) in
                ap (λ (n : WaitNode). n.payload) (other_node q.receivers b q.receivers y old)
                ∙ v.addressed y old
          ];
          pending =
              subst (λ zs. Pending k'.nodes q.slots zs vs) (sym senders)
                (Pending-cong k.nodes k'.nodes q.slots q.slots (k.wait_lists q.senders) vs
                  (λ y j. ap (λ (n : WaitNode). n.payload) (other_node q.receivers b q.senders y j))
                  (λ y j. refl) v.pending);
        }

    pub blocked_sender-Sound :
        (x : T)
        → k.wait_lists q.receivers ≡ []
        → q.count ≡ q.capacity
        → Inv k'
        → Timely k'
        → Blocks t w (some q.senders) h deadline (set_payload w k) k'
        → Sound (set_slot w x q) k' xs (vs ++ x ∷ [])
    blocked_sender-Sound x z full i tm b =
        let mine : (k'.nodes w).payload ≡ some w = b.slot ∙ ground arith in
        let offer : (set_slot w x q).slots w ≡ some x = ground arith in
        let s = set_slot-Sound q k xs vs w x (u.not_waiting q.senders) v in
        let senders : k'.wait_lists q.senders ≡ k.wait_lists q.senders ++ w ∷ [] =
          b.waits q.senders ∙ ground arith in
        let receivers : k'.wait_lists q.receivers ≡ [] =
          b.waits q.receivers ∙ ground (arith, v.two_lists) in
        record {
          inv = i;
          timely = tm;
          holds = s.holds;
          two_lists = v.two_lists;
          starved = λ y ys j. absurd (ground arith);
          crowded = λ y ys j. full;
          addressed = λ y j. absurd (ground (arith, ap (has y) receivers));
          pending =
              subst (λ zs. Pending k'.nodes (set_slot w x q).slots zs (vs ++ x ∷ [])) (sym senders)
                (Pending-append k'.nodes (set_slot w x q).slots (k.wait_lists q.senders) vs w x
                  (Pending-cong k.nodes k'.nodes (set_slot w x q).slots (set_slot w x q).slots
                    (k.wait_lists q.senders) vs
                    (λ y j. ap (λ (n : WaitNode). n.payload) (other_node q.senders b q.senders y j))
                    (λ y j. refl) s.pending)
                  mine offer);
        }
