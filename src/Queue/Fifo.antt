-- ===== src/Queue/Fifo.antt =====
-- What comes out of a queue is what went in, in the same order.
use coo_rtos.Base.{
  ◌⊎◌, inl, inr, ℕ, ◌≡◌, refl, ap, sym, ◌∙◌, Option, none, some, List, [], ◌∷◌, ◌++◌, arith, ok,
  Returns-ok, length, subst, append-nil, append_assoc,
}
use coo_rtos.Tick.{add_tick}
use coo_rtos.Kernel.{Kernel}
use coo_rtos.Kernel.Link.{Unlinked}
use coo_rtos.Queue.{Queue, empty_slot, try_receive}
use coo_rtos.Queue.Backlog.{Sound}
use coo_rtos.Queue.Send.{try_send-Delivers, send_suspend-Sends, send_for_suspend-Sends}
use coo_rtos.Queue.Await.{receive_suspend-Receives, receive_for_suspend-Receives}
use coo_rtos.Queue.Receive.{try_receive-Took, try_receive_empty}
use coo_rtos.Queue.Frame.{still_offered, Thins-Sound}
use coo_rtos.Queue.Omits.{Omits, nothing_left_out, done, Omits-append, append-Omits, Omits-trans}
use coo_rtos.Queue.Moves.{
  still_offered-Omits, Moves, entry, stays, Delivers-Moves, Sends-Moves, Receives-Moves, Took-Moves,
}
use coo_rtos.Queue.Calls.{
  Calls, sent_by, received_by, tries_send, tries_receive, sends_on, sends_for, receives,
  receives_for, resumes, resumes_for,
}
use coo_rtos.Queue.Traffic.{Elsewhere, Step, calls, elsewhere, Traffic, idle, then_step, Carried}
use coo_rtos.Queue.Resume.{receive_resume_lem, receive_for_resume_lem}
use coo_rtos.Queue.Kept.{empty_slot-Sound}

module _ {ℓ} {T : Type ℓ} where
  Moves-Carried :
      (xs vs came went : List T) (q' : Queue T) (k' : Kernel)
      → Moves xs vs came went q' k'
      → Carried xs vs came went 0 q' k'
  Moves-Carried xs vs came went q' k' a = record {
    values = a.values;
    offers = a.offers;
    sound = a.sound;
    order = done refl a.order;
  }

  module _ (q : Queue T) (k : Kernel) (xs vs : List T) (s : Sound q k xs vs) where
    tries_receive-Moves :
        (zs : List T)
        → Sound q k zs vs
        → (o : Option T) (q' : Queue T) (k' : Kernel) → try_receive q k ≡ ok (o, q', k')
        → Moves zs vs [] (entry o) q' k'
    tries_receive-Moves [] v o q' k' e =
        let same : ok (none, q, k) ≡ ok (o, q', k') = sym (try_receive_empty q k vs v) ∙ e in
        Returns-ok {P = λ (r : Option T × Queue T × Kernel). Moves [] vs [] (entry r.0) r.1 r.2}
          (o, q', k') ((none, q, k), refl, stays q k [] vs v q k refl refl) same
    tries_receive-Moves (x ∷ zs) v o q' k' e =
        let r = Returns-ok (o, q', k') (try_receive-Took q k x zs vs v) e in
        rw r.0 (Took-Moves q k x zs vs q' k' r.1)

    resumes-Moves :
        (w : ℕ) (q' : Queue T) (k' : Kernel)
        → Unlinked k w
        → q' ≡ empty_slot w q
        → k' ≡ k
        → Moves xs vs [] [] q' k'
    resumes-Moves w q' k' u e z =
        rw (e, z)
          (stays (empty_slot w q) k xs vs (empty_slot-Sound q k xs vs w u s) (empty_slot w q) k refl
            refl)

    resumes_for-Moves :
        (w : ℕ) (q' : Queue T) (k' : Kernel)
        → Unlinked k w
        → (q' ≡ q) ⊎ (q' ≡ empty_slot w q)
        → k' ≡ k
        → Moves xs vs [] [] q' k'
    resumes_for-Moves w q' k' u (inl e) z = stays q k xs vs s q' k' e z
    resumes_for-Moves w q' k' u (inr e) z = resumes-Moves w q' k' u e z

    Elsewhere-Carried :
        (gone : ℕ) (k' : Kernel) → Elsewhere q k gone k' → Carried xs vs [] [] gone q k'
    Elsewhere-Carried gone k' a =
        let less = a.senders.less in
        let c = ap length (sym a.senders.thinned) in
        let o =
          still_offered-Omits k.nodes q.slots less (k.wait_lists q.senders) vs s.pending gone
            (omega (arith, c, a.counted)) in
        record {
          values = xs;
          offers = still_offered less (k.wait_lists q.senders) vs;
          sound = Thins-Sound q k k' xs vs s a.inv a.timely a.receivers a.senders;
          order =
              subst (λ zs. Omits gone (xs ++ still_offered less (k.wait_lists q.senders) vs) zs)
                (sym (append-nil (xs ++ vs)))
                (append-Omits gone xs (still_offered less (k.wait_lists q.senders) vs) vs o);
        }

    Calls-Moves :
        (q' : Queue T) (k' : Kernel) (c : Calls q k q' k')
        → Moves xs vs (sent_by c) (received_by c) q' k'
    Calls-Moves q' k' (tries_send v b e) =
        Delivers-Moves q k xs vs s v b q' k'
          (Returns-ok (b, q', k') (try_send-Delivers v q k xs vs s) e)
    Calls-Moves q' k' (tries_receive o e) = tries_receive-Moves xs s o q' k' e
    Calls-Moves q' k' (sends_on v t w h b a e) =
        Sends-Moves q k xs vs s v t w h none b q' k' (
          Returns-ok (b, q', k') (send_suspend-Sends v q k xs vs s t w h a.current a.runs a.fresh)
            e)
    Calls-Moves q' k' (sends_for v timeout t w h b short a e) =
        Sends-Moves q k xs vs s v t w h (some (add_tick k.tick_count timeout)) b q' k' (
          Returns-ok (b, q', k')
            (send_for_suspend-Sends v q k xs vs s t w h a.current a.runs a.fresh timeout short) e)
    Calls-Moves q' k' (receives t w h b a e) = Receives-Moves q k xs vs s t w h none b q' k' (
        Returns-ok (b, q', k') (receive_suspend-Receives q k xs vs s t w h a.current a.runs a.fresh)
          e)
    Calls-Moves q' k' (receives_for timeout t w h b short a e) =
        Receives-Moves q k xs vs s t w h (some (add_tick k.tick_count timeout)) b q' k' (
          Returns-ok (b, q', k')
            (receive_for_suspend-Receives q k xs vs s t w h a.current a.runs a.fresh timeout short)
            e)
    Calls-Moves q' k' (resumes w x u e z) =
        resumes-Moves w q' k' u (receive_resume_lem q q' w x e) z
    Calls-Moves q' k' (resumes_for got w o u e z) =
        resumes_for-Moves w q' k' u (receive_for_resume_lem q q' got w k o e) z

    pub Step-Carried :
        (came went : List T) (gone : ℕ) (q' : Queue T) (k' : Kernel)
        → Step q k came went gone q' k'
        → Carried xs vs came went gone q' k'
    Step-Carried _ _ _ _ _ (calls q' k' c) =
        Moves-Carried xs vs (sent_by c) (received_by c) q' k' (Calls-Moves q' k' c)
    Step-Carried _ _ _ _ _ (elsewhere gone k' a) = Elsewhere-Carried gone k' a

  module _ (q : Queue T) (k : Kernel) (xs vs : List T) (s : Sound q k xs vs) where
    -- Whatever calls a sound queue serves, with ticks and other work of the system between them, it
    -- stays sound, and the values that reached receivers, followed by those in the buffer and those of
    -- the blocked senders, are the values that were there and then those that came, each once and in
    -- this order, less exactly as many as senders left without being served.
    pub Traffic-Carried :
        (came went : List T) (lost : ℕ) (q' : Queue T) (k' : Kernel)
        → Traffic q k came went lost q' k'
        → Carried xs vs came went lost q' k'
    Traffic-Carried _ _ _ _ _ idle = record {
      values = xs;
      offers = vs;
      sound = s;
      order = done refl (sym (append-nil (xs ++ vs)));
    }
    Traffic-Carried _ _ _ _ _ (then_step came went lost q₁ k₁ more out gone q' k' r a) =
        let b = Traffic-Carried came went lost q₁ k₁ r in
        let c = Step-Carried q₁ k₁ b.values b.offers b.sound more out gone q' k' a in
        let before = b.values ++ b.offers in
        let after = c.values ++ c.offers in
        let old = Omits-append lost (went ++ before) ((xs ++ vs) ++ came) more b.order in
        let new = append-Omits gone went (out ++ after) (before ++ more) c.order in
        record {
          values = c.values;
          offers = c.offers;
          sound = c.sound;
          order =
              rw (append_assoc went out after, sym (append_assoc (xs ++ vs) came more))
                (Omits-trans gone lost (went ++ (out ++ after)) (went ++ (before ++ more))
                  (((xs ++ vs) ++ came) ++ more) (rw (sym (append_assoc went before more)) old)
                  new);
        }

  module _ (q : Queue T) (k : Kernel) (s : Sound q k [] []) where
    -- In a sound queue that starts empty, with any calls, ticks and other work between them, and no
    -- value withdrawn by a timeout: the values that reached receivers, at once or later, are the
    -- first of the values that were sent, each once and in the order in which they were sent.
    pub in_order :
        (came went : List T) (q' : Queue T) (k' : Kernel)
        → Traffic q k came went 0 q' k'
        → (left : List T) × (came ≡ went ++ left)
    in_order came went q' k' r =
        let c = Traffic-Carried q k [] [] s came went 0 q' k' r in
        (
          c.values ++ c.offers,
          sym (nothing_left_out (went ++ (c.values ++ c.offers)) came 0 refl c.order),
        )
