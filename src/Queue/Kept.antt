-- ===== src/Queue/Kept.antt =====
-- What each outcome of a call of a queue leaves behind: a queue as it must be, and other wait lists
-- with fewer waiters at most.
use coo_rtos.Base.{
  ℕ, ◌≡◌, refl, ap, sym, Bool, true, false, Option, List, [], ◌==◌, subst, arith, ◌⊎◌, inl, inr,
  Bool-cases, ==→eq, has,
}
use coo_rtos.Kernel.{Kernel}
use coo_rtos.Kernel.Link.{Unlinked}
use coo_rtos.Kernel.Thins.{Thins, Thins-eq, Wakes-Thins, pointed-Thins}
use coo_rtos.Queue.{Queue, empty_slot}
use coo_rtos.Queue.Backlog.{Sound, Pending-cong}
use coo_rtos.Queue.Send.{Delivers, hands, stores, refuses, Sends, sends, waits}
use coo_rtos.Queue.Await.{Receives, gets, waits}
use coo_rtos.Queue.Receive.{Took}

module _ {ℓ} {T : Type ℓ} where
  -- What a call leaves behind.
  pub record Kept (q : Queue T) (k : Kernel) (q' : Queue T) (k' : Kernel) : Type ℓ where
    pub values : List T
    pub offers : List T
    pub sound : Sound q' k' values offers
    pub same_receivers : q'.receivers ≡ q.receivers
    pub same_senders : q'.senders ≡ q.senders
    pub others : (l : ℕ) → (l == q.receivers) ≡ false → (l == q.senders) ≡ false → Thins l k k'

  pub Took-Kept :
      (q : Queue T) (k : Kernel) (q' : Queue T) (k' : Kernel) (xs vs : List T)
      → Took q k xs vs q' k'
      → Kept q k q' k'
  Took-Kept q k q' k' xs vs a = record {
    values = a.rest;
    offers = a.offers;
    sound = a.sound;
    same_receivers = a.same_receivers;
    same_senders = a.same_senders;
    others = λ l ne nf. a.thins l;
  }

  pub same-Kept : (q : Queue T) (k : Kernel) (xs vs : List T) → Sound q k xs vs → Kept q k q k
  same-Kept q k xs vs v = record {
    values = xs;
    offers = vs;
    sound = v;
    same_receivers = refl;
    same_senders = refl;
    others = λ l ne nf. Thins-eq l k k refl;
  }

  -- Emptying the slot of an awaiter that does not wait.
  pub empty_slot-Sound :
      (q : Queue T) (k : Kernel) (xs vs : List T) (w : ℕ)
      → Unlinked k w
      → Sound q k xs vs
      → Sound (empty_slot w q) k xs vs
  empty_slot-Sound q k xs vs w u v = record {
    inv = v.inv;
    timely = v.timely;
    holds = record {
      window = v.holds.window;
      counted = v.holds.counted;
      head_in = v.holds.head_in;
      room = v.holds.room;
    };
    two_lists = v.two_lists;
    starved = v.starved;
    crowded = v.crowded;
    addressed = v.addressed;
    pending =
        Pending-cong k.nodes k.nodes q.slots (empty_slot w q).slots (k.wait_lists q.senders) vs
          (λ y i. refl)
          (λ y i. elim (Bool-cases (y == w)) [
            | inl e ↦ absurd (
                ground (
                  arith,
                  u.not_waiting q.senders,
                  ap (λ c. has c (k.wait_lists q.senders)) (==→eq y w e),
                ))
            | inr e ↦ rw e refl
          ])
          v.pending;
  }

  module _ (q : Queue T) (k : Kernel) (xs vs : List T) (v : Sound q k xs vs) (q' : Queue T)
      (k' : Kernel) where
    pub Delivers-Kept : (x : T) (b : Bool) → Delivers x q k xs vs b q' k' → Kept q k q' k'
    Delivers-Kept x b (hands w t ws e own d z a r n s) = record {
      values = [];
      offers = [];
      sound = s;
      same_receivers = ap (λ (p : Queue T). p.receivers) z;
      same_senders = ap (λ (p : Queue T). p.senders) z;
      others = λ l ne nf. Wakes-Thins l k k' w t false a;
    }
    Delivers-Kept x b (stores e l d z n r s y) = record {
      values = _;
      offers = [];
      sound = y;
      same_receivers = r;
      same_senders = s;
      others = λ l ne nf. Thins-eq l k k' z;
    }
    Delivers-Kept x b (refuses e l d z y) = record {
      values = xs;
      offers = vs;
      sound = subst (λ p. Sound p k' xs vs) (sym z) (subst (λ j. Sound q j xs vs) (sym y) v);
      same_receivers = ap (λ (p : Queue T). p.receivers) z;
      same_senders = ap (λ (p : Queue T). p.senders) z;
      others = λ l ne nf. Thins-eq l k k' y;
    }

    pub Sends-Kept :
        (x : T) (t w h : ℕ) (deadline : Option ℕ) (b : Bool)
        → Unlinked k w
        → Sends t w h deadline x q k xs vs b q' k'
        → Kept q k q' k'
    Sends-Kept x t w h deadline b u (sends e d) = Delivers-Kept x true d
    Sends-Kept x t w h deadline b u (waits e full z s a) = record {
      values = xs;
      offers = _;
      sound = s;
      same_receivers = ap (λ (p : Queue T). p.receivers) z;
      same_senders = ap (λ (p : Queue T). p.senders) z;
      others = λ l ne nf. pointed-Thins l w k u t h q.senders deadline k' nf a;
    }

    pub Receives-Kept :
        (t w h : ℕ) (deadline : Option ℕ) (b : Bool)
        → Unlinked k w
        → Receives t w h deadline q k xs vs b q' k'
        → Kept q k q' k'
    Receives-Kept t w h deadline b u (gets x rest left offers e y z s o r n a) = record {
      values = left;
      offers = offers;
      sound = s;
      same_receivers = r;
      same_senders = n;
      others = λ l ne nf. a l;
    }
    Receives-Kept t w h deadline b u (waits e y z s a) = record {
      values = [];
      offers = vs;
      sound = s;
      same_receivers = ap (λ (p : Queue T). p.receivers) z;
      same_senders = ap (λ (p : Queue T). p.senders) z;
      others = λ l ne nf. pointed-Thins l w k u t h q.receivers deadline k' ne a;
    }

    -- A value moved out of an awaiter that does not wait any more.
    pub resumes-Kept : (w : ℕ) → Unlinked k w → q' ≡ empty_slot w q → k' ≡ k → Kept q k q' k'
    resumes-Kept w u z y = record {
      values = xs;
      offers = vs;
      sound =
          subst (λ p. Sound p k' xs vs) (sym z)
            (subst (λ j. Sound (empty_slot w q) j xs vs) (sym y)
              (empty_slot-Sound q k xs vs w u v));
      same_receivers = ap (λ (p : Queue T). p.receivers) z;
      same_senders = ap (λ (p : Queue T). p.senders) z;
      others = λ l ne nf. Thins-eq l k k' y;
    }

    pub resumes_for-Kept :
        (w : ℕ) → Unlinked k w → (q' ≡ q) ⊎ (q' ≡ empty_slot w q) → k' ≡ k → Kept q k q' k'
    resumes_for-Kept w u (inr z) y = resumes-Kept w u z y
    resumes_for-Kept w u (inl z) y = record {
      values = xs;
      offers = vs;
      sound = subst (λ p. Sound p k' xs vs) (sym z) (subst (λ j. Sound q j xs vs) (sym y) v);
      same_receivers = ap (λ (p : Queue T). p.receivers) z;
      same_senders = ap (λ (p : Queue T). p.senders) z;
      others = λ l ne nf. Thins-eq l k k' y;
    }
