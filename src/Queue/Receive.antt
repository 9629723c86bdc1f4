-- ===== src/Queue/Receive.antt =====
-- The receiving side of `Queue`: values leave in the order in which they were sent.
use coo_rtos.Base.{
  ℕ, ◌<◌, ◌≡◌, refl, ap, sym, ◌∙◌, ◌⊎◌, inl, inr, true, false, Option, none, some, List, [], ◌∷◌,
  ◌++◌, arith, ◌==◌, has, has-remove, append_assoc, ok, Returns, remove, subst, front,
}
use coo_rtos.Kernel.{Kernel}
use coo_rtos.Kernel.Wake.{Wakes}
use coo_rtos.Kernel.Handoff.{Wakes-payload, pop_wake-Wakes, Wakes-Timely}
use coo_rtos.Kernel.Thins.{Thins, Thins-same, Wakes-Thins}
use coo_rtos.Queue.{Queue, take_next, wake_sender, wake_one_sender, try_receive}
use coo_rtos.Queue.Ring.{pushed, popped, push_slot-Holds, pop_slot-Holds}
use coo_rtos.Queue.Backlog.{Sound, Pending, Pending-cong, no_receivers}

-- The sender at the front is served: its task is woken. With no sender the kernel is unchanged.
abbrev pub Served : ℕ → Kernel → Kernel → Type 0
Served senders k k' =
    ((k.wait_lists senders ≡ []) × (k' ≡ k))
    ⊎ ((w : ℕ) × (t : ℕ) × (ws : List ℕ) × (k.wait_lists senders ≡ w ∷ ws)
        × ((k.nodes w).task ≡ some t)
        × Wakes w false t k k'
        × (k'.wait_lists senders ≡ ws))

module _ {ℓ} {T : Type ℓ} where
  -- The front value is out, and the backlog behind it is what is left.
  pub record Took (q : Queue T) (k : Kernel) (xs vs : List T) (q' : Queue T) (k' : Kernel)
      : Type ℓ where
    pub rest : List T
    pub offers : List T
    pub sound : Sound q' k' rest offers
    pub order : rest ++ offers ≡ xs ++ vs
    pub served : Served q.senders k k'
    pub fewer : (l y : ℕ) → has y (k'.wait_lists l) ≡ true → has y (k.wait_lists l) ≡ true
    pub thins : (l : ℕ) → Thins l k k'
    pub same_receivers : q'.receivers ≡ q.receivers
    pub same_senders : q'.senders ≡ q.senders
    pub same_capacity : q'.capacity ≡ q.capacity

  module _ (q : Queue T) (k : Kernel) (x : T) (xs vs : List T) (v : Sound q k (x ∷ xs) vs) where
    no_waiter : k.wait_lists q.receivers ≡ []
    no_waiter = no_receivers q k x xs vs v (k.wait_lists q.receivers) refl

    wake_sender-Took :
        (ws : List ℕ)
        → k.wait_lists q.senders ≡ ws
        → Returns (λ r. Took q k xs vs r.0 r.1) (wake_sender (front ws) (popped q) k)
    unfolding wake_sender
    wake_sender-Took [] e =
        let p = subst (λ ws. Pending k.nodes q.slots ws vs) e v.pending in
        let h = (pop_slot-Holds q x xs v.holds).1 in
        (
          (popped q, k),
          refl,
          record {
            rest = xs;
            offers = vs;
            sound = record {
              inv = v.inv;
              timely = v.timely;
              holds = h;
              two_lists = v.two_lists;
              starved = λ w ws i. absurd (ground (arith, no_waiter));
              crowded = λ w ws i. absurd (ground arith);
              addressed = v.addressed;
              pending = v.pending;
            };
            order = refl;
            served = inl (e, refl);
            fewer = λ l y i. i;
            thins = λ l. Thins-same l k k refl λ w i. refl;
            same_receivers = refl;
            same_senders = refl;
            same_capacity = refl;
          },
        )
    wake_sender-Took (w ∷ ws) e =
        let p = subst (λ ws. Pending k.nodes q.slots ws vs) e v.pending in
        let h = (pop_slot-Holds q x xs v.holds).1 in
        let room : (popped q).count < q.capacity = omega (arith, v.holds.counted, v.holds.room) in
        let pu = push_slot-Holds (popped q) xs p.0 h room in
        let (t, own, woke) = pop_wake-Wakes k q.senders w ws v.inv e in
        let (k', r, a) = woke in
        let lists = a.1.waits in
        let none_left : k'.wait_lists q.receivers ≡ [] =
          lists q.receivers ∙ ap (remove w) no_waiter in
        (
          (pushed p.0 (popped q), k'),
          rw (p.3, p.4, pu.0, r) refl,
          record {
            rest = xs ++ p.0 ∷ [];
            offers = p.1;
            sound = record {
              inv = a.0;
              timely = Wakes-Timely k k' w t false v.timely a.1;
              holds = pu.1;
              two_lists = v.two_lists;
              starved = λ y ys i. absurd (ground (arith, none_left));
              crowded = λ y ys i. omega (arith, v.crowded w ws e, v.holds.counted);
              addressed = λ y i. absurd (ground (arith, ap (has y) none_left));
              pending =
                  subst (λ zs. Pending k'.nodes q.slots zs p.1) (sym a.2)
                    (Pending-cong k.nodes k'.nodes q.slots q.slots ws p.1
                      (λ y i. Wakes-payload k k' w t false a.1 y) (λ y i. refl) p.5);
            };
            order = append_assoc xs (p.0 ∷ []) p.1 ∙ ap (λ zs. xs ++ zs) (sym p.2);
            served = inr (w, t, ws, e, own, a.1, a.2);
            fewer = λ l y i. ground (arith, lists l, has-remove y w (k.wait_lists l));
            thins = λ l. Wakes-Thins l k k' w t false a.1;
            same_receivers = refl;
            same_senders = refl;
            same_capacity = refl;
          },
        )

    -- Taking the front value: it is the oldest, the backlog behind it keeps its order, and the
    -- first blocked sender, if there is one, is woken.
    pub take_next-Took : Returns (λ r. (r.0 ≡ x) × Took q k xs vs r.1 r.2) (take_next q k)
    unfolding take_next wake_one_sender
    take_next-Took =
        let (r, e, a) = wake_sender-Took (k.wait_lists q.senders) refl in
        ((x, r.0, r.1), rw ((pop_slot-Holds q x xs v.holds).0, e) refl, (refl, a))

    -- `try_receive` on a queue that holds a value returns the oldest one.
    pub try_receive-Took : Returns (λ r. (r.0 ≡ some x) × Took q k xs vs r.1 r.2) (try_receive q k)
    unfolding try_receive
    try_receive-Took =
        let (r, e, a) = take_next-Took in
        let c : (q.count == 0) ≡ false = ground (arith, v.holds.counted) in
        ((some r.0, r.1, r.2), rw (c, e) refl, (ap some a.0, a.1))

  -- On an empty queue it answers that there is none, and changes nothing.
  pub try_receive_empty :
      (q : Queue T) (k : Kernel) (vs : List T) → Sound q k [] vs → try_receive q k ≡ ok (none, q, k)
  unfolding try_receive
  try_receive_empty q k vs v =
      let c : (q.count == 0) ≡ true = ground (arith, v.holds.counted) in rw c refl

  -- What `try_receive` does to a queue with the values `xs` and the offers `vs`.
  abbrev pub Tried : Queue T → Kernel → List T → List T → Option T × Queue T × Kernel → Type ℓ
  Tried q k [] vs r = r ≡ (none, q, k)
  Tried q k (x ∷ xs) vs r = (r.0 ≡ some x) × Took q k xs vs r.1 r.2

  pub try_receive-Tried :
      (q : Queue T) (k : Kernel) (xs vs : List T)
      → Sound q k xs vs
      → Returns (Tried q k xs vs) (try_receive q k)
  try_receive-Tried q k [] vs v = ((none, q, k), try_receive_empty q k vs v, refl)
  try_receive-Tried q k (x ∷ xs) vs v = try_receive-Took q k x xs vs v
