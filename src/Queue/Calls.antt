-- ===== src/Queue/Calls.antt =====
-- The calls of a queue, as they reach it from tasks and interrupts.
use coo_rtos.Base.{
  if◌then◌else◌, ℕ, ◌<◌, ◌≡◌, refl, sym, ◌∙◌, Bool, Option, none, some, List, [], ◌∷◌, ok,
  Returns-ok,
}
use coo_rtos.Tick.{half_range, add_tick}
use coo_rtos.Kernel.{Kernel}
use coo_rtos.Kernel.Link.{Unlinked}
use coo_rtos.Kernel.Thins.{Acts}
use coo_rtos.Queue.{
  Queue, try_send, try_receive, receive_suspend, receive_for_suspend, receive_resume,
  receive_for_resume, send_suspend, send_for_suspend,
}
use coo_rtos.Queue.Backlog.{Sound}
use coo_rtos.Queue.Send.{try_send-Delivers, send_suspend-Sends, send_for_suspend-Sends}
use coo_rtos.Queue.Await.{receive_suspend-Receives, receive_for_suspend-Receives}
use coo_rtos.Queue.Receive.{try_receive-Took, try_receive_empty}
use coo_rtos.Queue.Resume.{receive_resume_lem, receive_for_resume_lem}
use coo_rtos.Queue.Moves.{entry, reached}
use coo_rtos.Queue.Kept.{
  resumes_for-Kept, Kept, Delivers-Kept, Sends-Kept, Receives-Kept, resumes-Kept, Took-Kept,
  same-Kept,
}

module _ {ℓ} {T : Type ℓ} where
  pub data Calls (q : Queue T) (k : Kernel) (q' : Queue T) (k' : Kernel) : Type ℓ where
    tries_send : (v : T) (b : Bool) → try_send v q k ≡ ok (b, q', k') → Calls q k q' k'
    tries_receive : (o : Option T) → try_receive q k ≡ ok (o, q', k') → Calls q k q' k'
    sends_on :
        (v : T) (t w h : ℕ) (b : Bool)
        → Acts t w k
        → send_suspend v w h q k ≡ ok (b, q', k')
        → Calls q k q' k'
    sends_for :
        (v : T) (timeout t w h : ℕ) (b : Bool)
        → timeout < half_range
        → Acts t w k
        → send_for_suspend v timeout w h q k ≡ ok (b, q', k')
        → Calls q k q' k'
    receives :
        (t w h : ℕ) (b : Bool)
        → Acts t w k
        → receive_suspend w h q k ≡ ok (b, q', k')
        → Calls q k q' k'
    receives_for :
        (timeout t w h : ℕ) (b : Bool)
        → timeout < half_range
        → Acts t w k
        → receive_for_suspend timeout w h q k ≡ ok (b, q', k')
        → Calls q k q' k'
    -- The resumption of a task that received, whose awaiter is in no list any more.
    resumes :
        (w : ℕ) (x : T) → Unlinked k w → receive_resume w q ≡ ok (x, q') → k' ≡ k → Calls q k q' k'
    resumes_for :
        (got : Bool) (w : ℕ) (o : Option T)
        → Unlinked k w
        → receive_for_resume got w q k ≡ ok (o, q')
        → k' ≡ k
        → Calls q k q' k'

  module _ {q : Queue T} {k : Kernel} {q' : Queue T} {k' : Kernel} where
    -- The values that a call takes in.
    abbrev pub sent_by : Calls q k q' k' → List T
    sent_by (tries_send v b e) = if b then v ∷ [] else []
    sent_by (sends_on v t w h b a e) = v ∷ []
    sent_by (sends_for v timeout t w h b short a e) = v ∷ []
    sent_by (tries_receive o e) = []
    sent_by (receives t w h b a e) = []
    sent_by (receives_for timeout t w h b short a e) = []
    sent_by (resumes w x u e z) = []
    sent_by (resumes_for got w o u e z) = []

    -- The values that reach receivers in a call: what the call leaves in the awaiter of a receiver that
    -- it has served, or the answer of `try_receive`.
    abbrev pub received_by : Calls q k q' k' → List T
    received_by (tries_send v b e) = reached q k q' k'
    received_by (sends_on v t w h b a e) = reached q k q' k'
    received_by (sends_for v timeout t w h b short a e) = reached q k q' k'
    received_by (tries_receive o e) = entry o
    received_by (receives t w h b a e) = if b then [] else entry (q'.slots w)
    received_by (receives_for timeout t w h b short a e) = if b then [] else entry (q'.slots w)
    received_by (resumes w x u e z) = []
    received_by (resumes_for got w o u e z) = []

  tries_receive-Kept :
      (q : Queue T) (k : Kernel) (xs vs : List T)
      → Sound q k xs vs
      → (q' : Queue T) (k' : Kernel) (o : Option T) → try_receive q k ≡ ok (o, q', k')
      → Kept q k q' k'
  tries_receive-Kept q k [] vs v q' k' o e =
      let same : ok (none, q, k) ≡ ok (o, q', k') = sym (try_receive_empty q k vs v) ∙ e in
      Returns-ok {P = λ (r : Option T × Queue T × Kernel). Kept q k r.1 r.2} (o, q', k')
        ((none, q, k), refl, same-Kept q k [] vs v) same
  tries_receive-Kept q k (x ∷ xs) vs v q' k' o e =
      let r = Returns-ok (o, q', k') (try_receive-Took q k x xs vs v) e in
      Took-Kept q k q' k' xs vs r.1

  pub Calls-Kept :
      (q : Queue T) (k : Kernel) (xs vs : List T)
      → Sound q k xs vs
      → (q' : Queue T) (k' : Kernel) → Calls q k q' k'
      → Kept q k q' k'
  Calls-Kept q k xs vs v q' k' (tries_send x b e) =
      Delivers-Kept q k xs vs v q' k' x b
        (Returns-ok (b, q', k') (try_send-Delivers x q k xs vs v) e)
  Calls-Kept q k xs vs v q' k' (tries_receive o e) = tries_receive-Kept q k xs vs v q' k' o e
  Calls-Kept q k xs vs v q' k' (sends_on x t w h b a e) =
      Sends-Kept q k xs vs v q' k' x t w h none b a.fresh
        (Returns-ok (b, q', k') (send_suspend-Sends x q k xs vs v t w h a.current a.runs a.fresh) e)
  Calls-Kept q k xs vs v q' k' (sends_for x timeout t w h b short a e) =
      Sends-Kept q k xs vs v q' k' x t w h (some (add_tick k.tick_count timeout)) b a.fresh (
        Returns-ok (b, q', k')
          (send_for_suspend-Sends x q k xs vs v t w h a.current a.runs a.fresh timeout short) e)
  Calls-Kept q k xs vs v q' k' (receives t w h b a e) =
      Receives-Kept q k xs vs v q' k' t w h none b a.fresh (
        Returns-ok (b, q', k') (receive_suspend-Receives q k xs vs v t w h a.current a.runs a.fresh)
          e)
  Calls-Kept q k xs vs v q' k' (receives_for timeout t w h b short a e) =
      Receives-Kept q k xs vs v q' k' t w h (some (add_tick k.tick_count timeout)) b a.fresh (
        Returns-ok (b, q', k')
          (receive_for_suspend-Receives q k xs vs v t w h a.current a.runs a.fresh timeout short) e)
  Calls-Kept q k xs vs v q' k' (resumes w x u e z) =
      resumes-Kept q k xs vs v q' k' w u (receive_resume_lem q q' w x e) z
  Calls-Kept q k xs vs v q' k' (resumes_for got w o u e z) =
      resumes_for-Kept q k xs vs v q' k' w u (receive_for_resume_lem q q' got w k o e) z
