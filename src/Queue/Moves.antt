-- ===== src/Queue/Moves.antt =====
-- What each call of a queue takes in and hands out, against the backlog.
use coo_rtos.Base.{
  ℕ, ◌+◌, ◌-◌, ◌≤◌, inl, inr, Bool-cases, reject, ◌≡◌, refl, ap, sym, ◌∙◌, Bool, true, Option, none,
  some, List, [], ◌∷◌, ◌++◌, arith, if◌then◌else◌, front, subst, length, append-nil, append_assoc,
}
use coo_rtos.Kernel.{WaitNode, Kernel}
use coo_rtos.Base.{==_refl}
use coo_rtos.Kernel.Woken.{served, Wakes-served}
use coo_rtos.Queue.{Queue}
use coo_rtos.Queue.Backlog.{Sound, Pending}
use coo_rtos.Queue.Send.{Delivers, hands, stores, refuses, Sends, sends, waits}
use coo_rtos.Queue.Await.{Receives, gets, waits}
use coo_rtos.Queue.Frame.{still_offered, rest_of}
use coo_rtos.Queue.Omits.{Omits, done, keep, skip}
use coo_rtos.Queue.Receive.{Took}

pub reject_fewer : (less : ℕ → Bool) (ws : List ℕ) → length (reject less ws) ≤ length ws
reject_fewer less [] = omega arith
reject_fewer less (w ∷ ws) = ground (arith, reject_fewer less ws)

module _ {ℓ} {T : Type ℓ} where
  abbrev pub entry : Option T → List T
  entry none = []
  entry (some v) = v ∷ []

  abbrev pub handed_to : Option ℕ → T → List T
  handed_to none v = []
  handed_to (some w) v = v ∷ []

  -- A value that a waiting receiver is handed.
  abbrev pub handed : T → Queue T → Kernel → List T
  handed v q k = handed_to (front (k.wait_lists q.receivers)) v

  -- What the receiver that was the first before a call finds in its awaiter after it, if the call has
  -- served it.
  abbrev pub found_by : Option ℕ → Queue T → Queue T → Kernel → List T
  found_by none q q' k' = []
  found_by (some w) q q' k' = if served q.receivers w k' then entry (q'.slots w) else []

  abbrev pub reached : Queue T → Kernel → Queue T → Kernel → List T
  reached q k q' k' = found_by (front (k.wait_lists q.receivers)) q q' k'

  -- From the backlog `xs ++ vs`, the values `came` go in at the end and the values `went` come out
  -- at the front.
  pub record Moves (xs vs came went : List T) (q' : Queue T) (k' : Kernel) : Type ℓ where
    pub values : List T
    pub offers : List T
    pub sound : Sound q' k' values offers
    pub order : went ++ (values ++ offers) ≡ (xs ++ vs) ++ came

  module _ (q : Queue T) (k : Kernel) (xs vs : List T) (s : Sound q k xs vs) where
    pub stays : (q' : Queue T) (k' : Kernel) → q' ≡ q → k' ≡ k → Moves xs vs [] [] q' k'
    stays q' k' z y = record {
      values = xs;
      offers = vs;
      sound = subst (λ p. Sound p k' xs vs) (sym z) (subst (λ j. Sound q j xs vs) (sym y) s);
      order = sym (append-nil (xs ++ vs));
    }

    -- A full queue has no receivers.
    no_one_receives : (ws : List ℕ) → k.wait_lists q.receivers ≡ ws → q.count ≡ q.capacity → ws ≡ []
    no_one_receives [] e c = refl
    no_one_receives (w ∷ ws) e c =
        let z = s.starved w ws e in
        absurd (omega (arith, s.holds.counted, ap length z, c, s.holds.head_in))

    Delivers-handed :
        (v : T) (b : Bool) (q' : Queue T) (k' : Kernel)
        → Delivers v q k xs vs b q' k'
        → Moves xs vs (if b then v ∷ [] else []) (handed v q k) q' k'
    Delivers-handed v b q' k' (hands w t ws e own d z a r n y) =
        rw (e, d) (record { values = []; offers = []; sound = y; order = rw n refl })
    Delivers-handed v b q' k' (stores e l d z n r rs y) =
        rw (e, d)
          (record {
            values = xs ++ v ∷ [];
            offers = [];
            sound = y;
            order = rw n (append-nil (xs ++ v ∷ []) ∙ ap (λ c. c ++ v ∷ []) (sym (append-nil xs)));
          })
    Delivers-handed v b q' k' (refuses e l d z y) = rw (e, d) (stays q' k' z y)

    pub Delivers-reached :
        (v : T) (b : Bool) (q' : Queue T) (k' : Kernel)
        → Delivers v q k xs vs b q' k'
        → reached q k q' k' ≡ handed v q k
    Delivers-reached v b q' k' (hands w t ws e own d z a r n y) =
        rw (e, Wakes-served q.receivers w t k k' a own, z, ==_refl w) refl
    Delivers-reached v b q' k' (stores e l d z n r rs y) = rw e refl
    Delivers-reached v b q' k' (refuses e l d z y) = rw e refl

    pub Sends-reached :
        (v : T) (t w h : ℕ) (deadline : Option ℕ) (b : Bool) (q' : Queue T) (k' : Kernel)
        → Sends t w h deadline v q k xs vs b q' k'
        → reached q k q' k' ≡ handed v q k
    Sends-reached v t w h deadline b q' k' (sends d a) = Delivers-reached v true q' k' a
    Sends-reached v t w h deadline b q' k' (waits d c z y o) =
        rw (no_one_receives (k.wait_lists q.receivers) refl c) refl

    pub Delivers-Moves :
        (v : T) (b : Bool) (q' : Queue T) (k' : Kernel)
        → Delivers v q k xs vs b q' k'
        → Moves xs vs (if b then v ∷ [] else []) (reached q k q' k') q' k'
    Delivers-Moves v b q' k' d =
        subst (λ zs. Moves xs vs (if b then v ∷ [] else []) zs q' k')
          (sym (Delivers-reached v b q' k' d)) (Delivers-handed v b q' k' d)

    Sends-handed :
        (v : T) (t w h : ℕ) (deadline : Option ℕ) (b : Bool) (q' : Queue T) (k' : Kernel)
        → Sends t w h deadline v q k xs vs b q' k'
        → Moves xs vs (v ∷ []) (handed v q k) q' k'
    Sends-handed v t w h deadline b q' k' (sends d a) = Delivers-handed v true q' k' a
    Sends-handed v t w h deadline b q' k' (waits d c z y o) =
        rw (no_one_receives (k.wait_lists q.receivers) refl c) (record {
          values = xs;
          offers = vs ++ v ∷ [];
          sound = y;
          order = sym (append_assoc xs vs (v ∷ []));
        })

    pub Sends-Moves :
        (v : T) (t w h : ℕ) (deadline : Option ℕ) (b : Bool) (q' : Queue T) (k' : Kernel)
        → Sends t w h deadline v q k xs vs b q' k'
        → Moves xs vs (v ∷ []) (reached q k q' k') q' k'
    Sends-Moves v t w h deadline b q' k' d =
        subst (λ zs. Moves xs vs (v ∷ []) zs q' k') (sym (Sends-reached v t w h deadline b q' k' d))
          (Sends-handed v t w h deadline b q' k' d)

    pub Receives-Moves :
        (t w h : ℕ) (deadline : Option ℕ) (b : Bool) (q' : Queue T) (k' : Kernel)
        → Receives t w h deadline q k xs vs b q' k'
        → Moves xs vs [] (if b then [] else entry (q'.slots w)) q' k'
    Receives-Moves t w h deadline b q' k' (gets x rest left offers e d i y o r ss a) =
        rw (d, i)
          (record {
            values = left;
            offers = offers;
            sound = y;
            order = rw (o, e) (sym (append-nil (x ∷ rest ++ vs)));
          })
    Receives-Moves t w h deadline b q' k' (waits e d z y o) =
        rw (d, e) (record { values = []; offers = vs; sound = y; order = sym (append-nil vs) })

  pub Took-Moves :
      (q : Queue T) (k : Kernel) (x : T) (xs vs : List T) (q' : Queue T) (k' : Kernel)
      → Took q k xs vs q' k'
      → Moves (x ∷ xs) vs [] (x ∷ []) q' k'
  Took-Moves q k x xs vs q' k' a = record {
    values = a.rest;
    offers = a.offers;
    sound = a.sound;
    order = rw a.order (sym (append-nil (x ∷ xs ++ vs)));
  }

  Pending-tail :
      (nodes : ℕ → WaitNode) (slots : ℕ → Option T) (w : ℕ) (ws : List ℕ) (v : T) (vs : List T)
      → Pending nodes slots (w ∷ ws) (v ∷ vs)
      → Pending nodes slots ws vs
  Pending-tail nodes slots w ws v vs p =
      let same : vs ≡ p.1 = ap rest_of p.2 in subst (λ zs. Pending nodes slots ws zs) (sym same) p.5

  -- The offers of the senders that leave are left out.
  pub still_offered-Omits :
      (nodes : ℕ → WaitNode) (slots : ℕ → Option T) (less : ℕ → Bool) (ws : List ℕ) (vs : List T)
      → Pending nodes slots ws vs
      → (n : ℕ) → length (reject less ws) + n ≡ length ws
      → Omits n (still_offered less ws vs) vs
  still_offered-Omits nodes slots less [] vs p n e = done (omega (arith, e)) (sym p)
  still_offered-Omits nodes slots less (w ∷ ws) [] p n e = absurd (ground (arith, p.2))
  still_offered-Omits nodes slots less (w ∷ ws) (v ∷ vs) p n e =
      let rest =
        still_offered-Omits nodes slots less ws vs (Pending-tail nodes slots w ws v vs p) in
      let f = reject_fewer less ws in
      elim (Bool-cases (less w)) [
        | inl c ↦
            let z : length (reject less ws) + n ≡ length ws + 1 = ground (arith, e, c) in
            rw c (skip (n - 1) v vs (omega (arith, z, f)) refl (rest (n - 1) (omega (arith, z, f))))
        | inr c ↦
            let z : length (reject less ws) + n ≡ length ws = ground (arith, e, c) in
            rw c (keep v (still_offered less ws vs) vs refl refl (rest n z))
      ]
