-- ===== src/Queue/Backlog.antt =====
-- The abstract view of a queue: the values in the buffer, and behind them the values of the senders
-- that are blocked, in the order in which they were sent.
use coo_rtos.Base.{
  ℕ, ◌<◌, ◌≡◌, refl, ap, ◌∙◌, ◌≢◌, inl, inr, true, false, Option, some, List, [], ◌∷◌, ◌++◌, arith,
  ◌==◌, Bool-cases, has, subst, ==→eq,
}
use coo_rtos.Kernel.{Kernel, WaitNode}
use coo_rtos.Kernel.Invariant.{Inv}
use coo_rtos.Kernel.Delay.{Timely}
use coo_rtos.Queue.{Queue, set_slot}
use coo_rtos.Queue.Ring.{Holds}

module _ {ℓ} {T : Type ℓ} where
  -- The senders of the list `ws` offer the values `vs`.
  abbrev pub Pending : (ℕ → WaitNode) → (ℕ → Option T) → List ℕ → List T → Type ℓ
  Pending nodes slots [] vs = vs ≡ []
  Pending nodes slots (w ∷ ws) vs =
      (v : T) × (rest : List T) × (vs ≡ v ∷ rest)
      × ((nodes w).payload ≡ some w)
      × (slots w ≡ some v)
      × Pending nodes slots ws rest

  pub Pending-cong :
      (nodes nodes' : ℕ → WaitNode) (slots slots' : ℕ → Option T) (ws : List ℕ) (vs : List T)
      → ((x : ℕ) → has x ws ≡ true → (nodes' x).payload ≡ (nodes x).payload)
      → ((x : ℕ) → has x ws ≡ true → slots' x ≡ slots x)
      → Pending nodes slots ws vs
      → Pending nodes' slots' ws vs
  Pending-cong nodes nodes' slots slots' [] vs n s p = p
  Pending-cong nodes nodes' slots slots' (w ∷ ws) vs n s p = (
    p.0,
    p.1,
    p.2,
    n w (ground arith) ∙ p.3,
    s w (ground arith) ∙ p.4,
    Pending-cong nodes nodes' slots slots' ws p.1 (λ x i. n x (ground arith))
        (λ x i. s x (ground arith)) p.5,
  )

  -- A sender that joins at the end offers its value last.
  pub Pending-append :
      (nodes : ℕ → WaitNode) (slots : ℕ → Option T) (ws : List ℕ) (vs : List T) (w : ℕ) (v : T)
      → Pending nodes slots ws vs
      → (nodes w).payload ≡ some w
      → slots w ≡ some v
      → Pending nodes slots (ws ++ w ∷ []) (vs ++ v ∷ [])
  Pending-append nodes slots [] vs w v p a b = (v, [], rw p refl, a, b, refl)
  Pending-append nodes slots (x ∷ ws) vs w v p a b =
      (p.0, p.1 ++ v ∷ [], rw p.2 refl, p.3, p.4, Pending-append nodes slots ws p.1 w v p.5 a b)

  -- Nobody waits to receive while there is a value, nor to send while there is room.
  pub record Sound (q : Queue T) (k : Kernel) (xs vs : List T) : Type ℓ where
    pub inv : Inv k
    pub timely : Timely k
    pub holds : Holds q xs
    pub two_lists : q.receivers ≢ q.senders
    pub starved : (w : ℕ) (ws : List ℕ) → k.wait_lists q.receivers ≡ w ∷ ws → xs ≡ []
    pub crowded : (w : ℕ) (ws : List ℕ) → k.wait_lists q.senders ≡ w ∷ ws → q.count ≡ q.capacity
    pub addressed : (w : ℕ) → has w (k.wait_lists q.receivers) ≡ true → (k.nodes w).payload ≡ some w
    pub pending : Pending k.nodes q.slots (k.wait_lists q.senders) vs

  pub no_senders :
      (q : Queue T) (k : Kernel) (xs vs : List T)
      → Sound q k xs vs
      → q.count < q.capacity
      → (ws : List ℕ) → k.wait_lists q.senders ≡ ws
      → (ws ≡ []) × (vs ≡ [])
  no_senders q k xs vs v l (w ∷ ws) e = absurd (omega (arith, v.crowded w ws e))
  no_senders q k xs vs v l [] e = (refl, subst (λ ws. Pending k.nodes q.slots ws vs) e v.pending)

  pub no_receivers :
      (q : Queue T) (k : Kernel) (x : T) (xs vs : List T)
      → Sound q k (x ∷ xs) vs
      → (ws : List ℕ) → k.wait_lists q.receivers ≡ ws
      → ws ≡ []
  no_receivers q k x xs vs v [] e = refl
  no_receivers q k x xs vs v (w ∷ ws) e = absurd (ground (arith, v.starved w ws e))

  -- Storing a value in the awaiter of a node that is no blocked sender.
  pub set_slot-Sound :
      (q : Queue T) (k : Kernel) (xs vs : List T) (w : ℕ) (x : T)
      → has w (k.wait_lists q.senders) ≡ false
      → Sound q k xs vs
      → Sound (set_slot w x q) k xs vs
  set_slot-Sound q k xs vs w x out v = record {
    inv = v.inv;
    timely = v.timely;
    holds = record {
      window = v.holds.window;
      counted = v.holds.counted;
      head_in = v.holds.head_in;
      room = v.holds.room;
    };
    two_lists = v.two_lists;
    starved = v.starved;
    crowded = v.crowded;
    addressed = v.addressed;
    pending =
        Pending-cong k.nodes k.nodes q.slots (set_slot w x q).slots (k.wait_lists q.senders) vs
          (λ y i. refl)
          (λ y i. elim (Bool-cases (y == w)) [
            | inl e ↦
                absurd (ground (arith, ap (λ c. has c (k.wait_lists q.senders)) (==→eq y w e)))
            | inr e ↦ rw e refl
          ])
          v.pending;
  }
