-- ===== src/Queue/Timeout.antt =====
-- A receiver of `receive_for` between `tick_isr` and `try_send`.
use coo_rtos.Base.{
  ℕ, ◌≤◌, ◌≡◌, refl, ap, Bool, true, false, none, some, List, [], ◌∷◌, arith, ==_refl, has,
  has-remove, ok, Returns,
}
use coo_rtos.Kernel.{Kernel, tick_isr}
use coo_rtos.Kernel.Delay.{remaining}
use coo_rtos.Kernel.Tick.{Ticked-gone, tick_isr-Ticked}
use coo_rtos.Queue.{Queue, empty_slot, try_send, receive_for_resume}
use coo_rtos.Queue.Backlog.{Sound}
use coo_rtos.Queue.Send.{Delivers, hands, stores, refuses, try_send-Delivers}

module _ {ℓ} {T : Type ℓ} (q : Queue T) (k : Kernel) (xs vs : List T) (s : Sound q k xs vs) where
  -- A receiver whose timeout has run out at a tick is told that it has nothing, and is in no wait
  -- list, so that no value sent after the tick goes to it.
  pub tick_before_send :
      (w t : ℕ)
      → has w k.delay_list ≡ true
      → remaining k w ≤ 1
      → (k.nodes w).task ≡ some t
      → Returns
          (λ k'.
            (receive_for_resume false w q k' ≡ ok (none, q))
            × ((l : ℕ) → has w (k'.wait_lists l) ≡ false))
          (tick_isr k)
  unfolding receive_for_resume
  tick_before_send w t i r own =
      let (k', e, a) = tick_isr-Ticked k s.inv s.timely in
      (k', e, (rw (a.fired w t i r own).0 refl, λ l. Ticked-gone k k' l w a i r))

  handed :
      (v : T) (w : ℕ) (ws : List ℕ) (done : Bool) (q' : Queue T) (k' : Kernel)
      → k.wait_lists q.receivers ≡ w ∷ ws
      → Delivers v q k xs vs done q' k'
      → (done ≡ true)
        × (q'.slots w ≡ some v)
        × ((k'.nodes w).timed_out ≡ false)
        × (has w k'.delay_list ≡ false)
        × Sound q' k' [] []
  handed v w ws done q' k' e (hands x t xs e' own d z a r n b) =
      let same : x ≡ w = ground arith in
      let p = ap (λ f. f w) a.nodes in
      (
        d,
        rw (z, same, ==_refl w) refl,
        ground arith,
        rw (a.delay, same) (ground (arith, has-remove w w k.delay_list)),
        b,
      )
  handed v w ws done q' k' e (stores z room d p r rs ss b) = absurd (ground arith)
  handed v w ws done q' k' e (refuses z full d p r) = absurd (ground arith)

  -- The first receiver has the value that is sent, also after a tick that comes before it runs, even
  -- if its timeout was about to run out.
  pub send_before_tick :
      (v : T) (w : ℕ) (ws : List ℕ)
      → k.wait_lists q.receivers ≡ w ∷ ws
      → Returns
          (λ r.
            (r.0 ≡ true)
            × Returns
                (λ k''. receive_for_resume false w r.1 k'' ≡ ok (some v, empty_slot w r.1))
                (tick_isr r.2))
          (try_send v q k)
  unfolding receive_for_resume
  send_before_tick v w ws e =
      let (r, z, d) = try_send-Delivers v q k xs vs s in
      let h = handed v w ws r.0 r.1 r.2 e d in
      let (k'', y, a) = tick_isr-Ticked r.2 h.4.inv h.4.timely in
      let kept = a.kept w (rw h.3 refl) in (r, z, (h.0, (k'', y, rw (kept, h.2, h.1) refl)))
