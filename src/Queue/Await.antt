-- ===== src/Queue/Await.antt =====
-- `receive` and `receive_for`: the oldest value at once, or the task waits for one.
use coo_rtos.Base.{
  ℕ, ◌<◌, ◌≡◌, refl, inl, inr, Bool, true, false, Option, none, some, List, [], ◌∷◌, ◌++◌, arith,
  ltb, Bool-cases, has, Returns,
}
use coo_rtos.Tick.{add_tick, half_range}
use coo_rtos.Kernel.{set_payload, running, Kernel}
use coo_rtos.Kernel.Link.{Unlinked}
use coo_rtos.Kernel.Block.{Blocks, Ahead}
use coo_rtos.Kernel.Thins.{Thins}
use coo_rtos.Queue.{Queue, set_slot, receive_at, receive_suspend, receive_for_suspend}
use coo_rtos.Queue.Backlog.{Sound, set_slot-Sound}
use coo_rtos.Queue.Receive.{take_next-Took}
use coo_rtos.Kernel.Payload.{pointed-Blocks}
use coo_rtos.Queue.Block.{blocked_receiver-Sound}

module _ {ℓ} {T : Type ℓ} where
  -- The task has the oldest value in its awaiter, and what is left is the backlog behind it; or
  -- there is no value, and the task is the last of the receivers.
  pub data Receives (t w h : ℕ) (deadline : Option ℕ) (q : Queue T) (k : Kernel) (xs vs : List T)
      (suspended : Bool) (q' : Queue T) (k' : Kernel) : Type ℓ where
    gets :
        (x : T) (rest left offers : List T)
        → xs ≡ x ∷ rest
        → suspended ≡ false
        → q'.slots w ≡ some x
        → Sound q' k' left offers
        → left ++ offers ≡ rest ++ vs
        → q'.receivers ≡ q.receivers
        → q'.senders ≡ q.senders
        → ((l : ℕ) → Thins l k k')
        → Receives t w h deadline q k xs vs suspended q' k'
    waits :
        xs ≡ []
        → suspended ≡ true
        → q' ≡ q
        → Sound q' k' [] vs
        → Blocks t w (some q.receivers) h deadline (set_payload w k) k'
        → Receives t w h deadline q k xs vs suspended q' k'

  module _ (q : Queue T) (k : Kernel) (vs : List T) (t w h : ℕ) (deadline : Option ℕ)
      (e : k.current ≡ some t) (run : (k.tasks t).state ≡ running) (u : Unlinked k w)
      (a : Ahead k.tick_count deadline) where
    receive_at-Receives :
        (xs : List T)
        → Sound q k xs vs
        → Returns (λ r. Receives t w h deadline q k xs vs r.0 r.1 r.2) (receive_at deadline w h q k)
    unfolding receive_at
    receive_at-Receives [] v =
        let c : ltb 0 q.count ≡ false = ground (arith, v.holds.counted) in
        let (k', r, b) = pointed-Blocks k v.inv v.timely t w h deadline e run u a q.receivers in
        (
          (true, q, k'),
          rw (c, r) refl,
          waits refl refl refl
              (blocked_receiver-Sound q k [] vs v t w h deadline e run u a k' refl b.0 b.1 b.2) b.2,
        )
    receive_at-Receives (x ∷ xs) v =
        let c : ltb 0 q.count ≡ true = ground (arith, v.holds.counted) in
        let (r, o, b) = take_next-Took q k x xs vs v in
        let out : has w (r.2.wait_lists r.1.senders) ≡ false =
          elim (Bool-cases (has w (r.2.wait_lists r.1.senders))) [
            | inl i ↦ absurd (ground (arith, b.1.fewer r.1.senders w i, u.not_waiting r.1.senders))
            | inr i ↦ i
          ] in
        (
          (false, set_slot w r.0 r.1, r.2),
          rw (c, o) refl,
          gets x xs b.1.rest b.1.offers refl refl (rw b.0 (ground arith))
              (set_slot-Sound r.1 r.2 b.1.rest b.1.offers w r.0 out b.1.sound) b.1.order
              b.1.same_receivers b.1.same_senders b.1.thins,
        )

  module _ (q : Queue T) (k : Kernel) (xs vs : List T) (v : Sound q k xs vs) (t w h : ℕ)
      (e : k.current ≡ some t) (run : (k.tasks t).state ≡ running) (u : Unlinked k w) where
    -- `receive` takes the oldest value if there is one, and else suspends the task as the last
    -- receiver. It does not trap, and keeps the queue as it must be.
    pub receive_suspend-Receives :
        Returns (λ r. Receives t w h none q k xs vs r.0 r.1 r.2) (receive_suspend w h q k)
    unfolding receive_suspend
    receive_suspend-Receives = receive_at-Receives q k vs t w h none e run u tt xs v

    -- `receive_for` does the same, and a suspended task has its deadline in the delay list.
    pub receive_for_suspend-Receives :
        (timeout : ℕ)
        → timeout < half_range
        → Returns
            (λ r. Receives t w h (some (add_tick k.tick_count timeout)) q k xs vs r.0 r.1 r.2)
            (receive_for_suspend timeout w h q k)
    unfolding receive_for_suspend
    receive_for_suspend-Receives timeout short =
        let n = v.timely.clock in
        receive_at-Receives q k vs t w h (some (add_tick k.tick_count timeout)) e run u
          (omega arith, omega arith) xs v
