-- ===== src/Queue/Send.antt =====
-- The sending side of `Queue`: to a waiting receiver, into the buffer, or to the end of the senders.
use coo_rtos.Base.{
  ℕ, ◌<◌, ◌≡◌, refl, ap, ◌∙◌, inl, inr, Bool, true, false, Option, none, some, List, [], ◌∷◌, ◌++◌,
  arith, ltb, ltb→lt, Bool-cases, has, length, Returns, ◌>>=◌, subst, front, remove,
}
use coo_rtos.Tick.{add_tick, half_range}
use coo_rtos.Kernel.{set_payload, running, Kernel}
use coo_rtos.Kernel.Invariant.{Inv}
use coo_rtos.Kernel.Wake.{Wakes}
use coo_rtos.Kernel.Link.{Unlinked}
use coo_rtos.Kernel.Block.{Blocks, Ahead}
use coo_rtos.Kernel.Handoff.{Wakes-payload, pop_wake-Wakes, Wakes-Timely}
use coo_rtos.Queue.{
  Queue, set_slot, deliver_to, deliver_or_push, try_send, send_at, send_after, send_suspend,
  send_for_suspend,
}
use coo_rtos.Queue.Ring.{Holds, pushed, push_slot-Holds}
use coo_rtos.Queue.Backlog.{Sound, set_slot-Sound, no_senders}
use coo_rtos.Kernel.Payload.{pointed-Blocks}
use coo_rtos.Queue.Block.{blocked_sender-Sound}

module _ {ℓ} {T : Type ℓ} where
  -- What becomes of a value that is not to wait.
  pub data Delivers (v : T) (q : Queue T) (k : Kernel) (xs vs : List T) (done : Bool) (q' : Queue T)
      (k' : Kernel) : Type ℓ where
    hands :
        (w t : ℕ) (ws : List ℕ)
        → k.wait_lists q.receivers ≡ w ∷ ws
        → (k.nodes w).task ≡ some t
        → done ≡ true
        → q' ≡ set_slot w v q
        → Wakes w false t k k'
        → k'.wait_lists q.receivers ≡ ws
        → xs ++ vs ≡ []
        → Sound q' k' [] []
        → Delivers v q k xs vs done q' k'
    stores :
        k.wait_lists q.receivers ≡ []
        → q.count < q.capacity
        → done ≡ true
        → k' ≡ k
        → vs ≡ []
        → q'.receivers ≡ q.receivers
        → q'.senders ≡ q.senders
        → Sound q' k' (xs ++ v ∷ []) []
        → Delivers v q k xs vs done q' k'
    refuses :
        k.wait_lists q.receivers ≡ []
        → q.count ≡ q.capacity
        → done ≡ false
        → q' ≡ q
        → k' ≡ k
        → Delivers v q k xs vs done q' k'

  module _ (v : T) (q : Queue T) (k : Kernel) (xs vs : List T) (s : Sound q k xs vs) where
    empty_senders : q.count < q.capacity → (k.wait_lists q.senders ≡ []) × (vs ≡ [])
    empty_senders l = no_senders q k xs vs s l (k.wait_lists q.senders) refl

    hand_over-Sound :
        (w t : ℕ) (ws : List ℕ) (k' : Kernel)
        → k.wait_lists q.receivers ≡ w ∷ ws
        → Wakes w false t k k'
        → Sound (set_slot w v q) k xs vs
        → xs ≡ []
        → vs ≡ []
        → k.wait_lists q.senders ≡ []
        → k'.wait_lists q.receivers ≡ ws
        → Inv k'
        → Sound (set_slot w v q) k' [] []
    hand_over-Sound w t ws k' e a b z z' n r i =
        let senders : k'.wait_lists q.senders ≡ [] = a.waits q.senders ∙ ap (remove w) n in
        record {
          inv = i;
          timely = Wakes-Timely k k' w t false s.timely a;
          holds = subst (Holds (set_slot w v q)) z b.holds;
          two_lists = s.two_lists;
          starved = λ y ys j. refl;
          crowded = λ y ys j. absurd (ground (arith, senders));
          addressed = λ y j.
              Wakes-payload k k' w t false a y
              ∙ s.addressed y (rw e (ground (arith, ap (has y) r)));
          pending = rw senders refl;
        }

    deliver_to-Delivers :
        (ws : List ℕ)
        → k.wait_lists q.receivers ≡ ws
        → Returns (λ r. Delivers v q k xs vs r.0 r.1 r.2) (deliver_to (front ws) v q k)
    unfolding deliver_to
    deliver_to-Delivers (w ∷ ws) e =
        let z = s.starved w ws e in
        let zero_count : q.count ≡ 0 = omega (arith, s.holds.counted, ap length z) in
        let n = empty_senders (omega (arith, s.holds.head_in)) in
        let p = s.addressed w (rw e (ground arith)) in
        let (t, own, woke) = pop_wake-Wakes k q.receivers w ws s.inv e in
        let (k', r, a) = woke in
        let b = set_slot-Sound q k xs vs w v (rw n.0 refl) s in
        (
          (true, set_slot w v q, k'),
          rw (p, r) refl,
          hands w t ws e own refl refl a.1 a.2 (rw (z, n.1) refl)
              (hand_over-Sound w t ws k' e a.1 b z n.1 n.0 a.2 a.0),
        )
    deliver_to-Delivers [] e = elim (Bool-cases (ltb q.count q.capacity)) [
      | inl c ↦
          let l = ltb→lt q.count q.capacity c in
          let n = empty_senders l in
          let h = push_slot-Holds q xs v s.holds l in
          (
            (true, pushed v q, k),
            rw c refl,
            stores e l refl refl n.1 refl refl (record {
              inv = s.inv;
              timely = s.timely;
              holds = h.1;
              two_lists = s.two_lists;
              starved = λ y ys j. absurd (ground arith);
              crowded = λ y ys j. absurd (ground (arith, n.0));
              addressed = s.addressed;
              pending = rw n.0 refl;
            }),
          )
      | inr c ↦ ((false, q, k), rw c refl, refuses e (ground (arith, s.holds.room)) refl refl refl)
    ]

    -- `try_send` never traps. The first waiting receiver is handed the value and woken; with none
    -- waiting the value is the last of the buffer, if there is room; and a full queue refuses it.
    pub try_send-Delivers : Returns (λ r. Delivers v q k xs vs r.0 r.1 r.2) (try_send v q k)
    unfolding try_send deliver_or_push
    try_send-Delivers = deliver_to-Delivers (k.wait_lists q.receivers) refl

  -- The value is sent at once, or the task is the last of the senders with the value in its awaiter.
  pub data Sends (t w h : ℕ) (deadline : Option ℕ) (v : T) (q : Queue T) (k : Kernel)
      (xs vs : List T) (suspended : Bool) (q' : Queue T) (k' : Kernel) : Type ℓ where
    sends :
        suspended ≡ false
        → Delivers v q k xs vs true q' k'
        → Sends t w h deadline v q k xs vs suspended q' k'
    waits :
        suspended ≡ true
        → q.count ≡ q.capacity
        → q' ≡ set_slot w v q
        → Sound q' k' xs (vs ++ v ∷ [])
        → Blocks t w (some q.senders) h deadline (set_payload w k) k'
        → Sends t w h deadline v q k xs vs suspended q' k'

  module _ (v : T) (q : Queue T) (k : Kernel) (xs vs : List T) (s : Sound q k xs vs) (t w h : ℕ)
      (e : k.current ≡ some t) (run : (k.tasks t).state ≡ running) (u : Unlinked k w) where
    send_after-Sends :
        (deadline : Option ℕ)
        → Ahead k.tick_count deadline
        → (done : Bool) → (q' : Queue T) → (k' : Kernel) → Delivers v q k xs vs done q' k'
        → Returns
            (λ r. Sends t w h deadline v q k xs vs r.0 r.1 r.2)
            (send_after deadline v w h (done, q', k'))
    unfolding send_after
    send_after-Sends deadline a true q' k' d = ((false, q', k'), refl, sends refl d)
    send_after-Sends deadline a false q' k' (hands w' t' ws i j n z y x l m) =
        absurd (ground (arith, n))
    send_after-Sends deadline a false q' k' (stores i l n z y rs ss m) = absurd (ground (arith, n))
    send_after-Sends deadline a false q' k' (refuses i full n z y) =
        let (k'', r, b) = pointed-Blocks k s.inv s.timely t w h deadline e run u a q.senders in
        (
          (true, set_slot w v q, k''),
          rw (z, y, r) refl,
          waits refl full refl
              (blocked_sender-Sound q k xs vs s t w h deadline e run u a k'' v i full b.0 b.1 b.2)
              b.2,
        )

    send_at-Sends :
        (deadline : Option ℕ)
        → Ahead k.tick_count deadline
        → Returns (λ r. Sends t w h deadline v q k xs vs r.0 r.1 r.2) (send_at deadline v w h q k)
    unfolding send_at deliver_or_push
    send_at-Sends deadline a =
        let (r, o, d) = deliver_to-Delivers v q k xs vs s (k.wait_lists q.receivers) refl in
        let (r', o', d') = send_after-Sends deadline a r.0 r.1 r.2 d in
        (r', ap (λ z. z >>= send_after deadline v w h) o ∙ o', d')

    -- `send` sends like `try_send`, and suspends the task as the last sender when the queue is full.
    -- It does not trap, and keeps the queue as it must be.
    pub send_suspend-Sends :
        Returns (λ r. Sends t w h none v q k xs vs r.0 r.1 r.2) (send_suspend v w h q k)
    unfolding send_suspend
    send_suspend-Sends = send_at-Sends none tt

    -- `send_for` does the same, and a suspended task has its deadline in the delay list.
    pub send_for_suspend-Sends :
        (timeout : ℕ)
        → timeout < half_range
        → Returns
            (λ r. Sends t w h (some (add_tick k.tick_count timeout)) v q k xs vs r.0 r.1 r.2)
            (send_for_suspend v timeout w h q k)
    unfolding send_for_suspend
    send_for_suspend-Sends timeout short =
        let n = s.timely.clock in
        send_at-Sends (some (add_tick k.tick_count timeout)) (omega arith, omega arith)
