-- ===== src/EventGroup/Set.antt =====
-- `EventGroup::set`: every waiter whose condition the new bits meet is woken, and the clears come
-- after the last of them.
use Prim.Native.Nat.{bit_or}
use coo_rtos.Base.{
  subst, has-reject, reject, reject-cong, ℕ, ◌≡◌, refl, ap, sym, ◌∙◌, ◌≢◌, inl, inr, true, false,
  ◌&&◌, some, List, [], ◌∷◌, arith, Bool-cases, has, has-remove, Distinct, Returns,
}
use coo_rtos.Kernel.{WaitNode, ready, blocked, Kernel}
use coo_rtos.Kernel.Invariant.{Inv}
use coo_rtos.Kernel.Wake.{owner_asleep, wake-Linked}
use coo_rtos.Kernel.Delay.{Timely}
use coo_rtos.Kernel.Handoff.{Wakes-payload, Wakes-Timely}
use coo_rtos.Kernel.Link.{Unlinked}
use coo_rtos.Kernel.Thins.{Thins}
use coo_rtos.EventGroup.Bits.{Fewer, mask_off-Fewer, Fewer-unmet}
use coo_rtos.EventGroup.{met, EventGroup, set_info, mask_off, add_clear, walk, set}
use coo_rtos.EventGroup.Visit.{holds_for, gather, Walked, Walked-nil, Walked-pass, Walked-fire}

-- The awaiters of the waiters are where their payloads point, and no waiter's condition holds.
pub record Sound (g : EventGroup) (k : Kernel) : Type 0 where
  pub inv : Inv k
  pub timely : Timely k
  pub addressed : (w : ℕ) → has w (k.wait_lists g.waiters) ≡ true → (k.nodes w).payload ≡ some w
  pub unmet : (w : ℕ) → has w (k.wait_lists g.waiters) ≡ true → holds_for g w ≡ false

walk-Walked :
    (l : ℕ) (ws : List ℕ) (c : ℕ) (g : EventGroup) (k : Kernel)
    → Inv k
    → Timely k
    → Distinct ws
    → ((w : ℕ) → has w ws ≡ true → has w (k.wait_lists l) ≡ true)
    → ((w : ℕ) → has w ws ≡ true → (k.nodes w).payload ≡ some w)
    → Returns (λ r. Walked l ws c g k r.0 r.1 r.2) (walk ws c g k)
unfolding walk
walk-Walked l [] c g k v tm d i p = ((c, g, k), refl, Walked-nil l c g k v tm)
walk-Walked l (w ∷ ws) c g k v tm d i p = elim (Bool-cases (holds_for g w)) [
  | inr n ↦
      let (r, q, a) =
        walk-Walked l ws c g k v tm d.1 (λ x j. i x (ground arith)) (λ x j. p x (ground arith)) in
      (r, rw (p w (ground arith), n) q, Walked-pass l w ws c g k r.0 r.1 r.2 d.0 n a)
  | inl y ↦
      let (t, own, woke) = wake-Linked k w false v (inr (l, i w (ground arith))) in
      let (k₁, e, a) = woke in
      let g₁ = set_info w (record (g.infos w) { result = g.bits }) g in
      let pay =
        λ (x : ℕ) (j : has x ws ≡ true). Wakes-payload k k₁ w t false a.1 x ∙ p x (ground arith) in
      let (r, q, b) =
        walk-Walked l ws (add_clear (g.infos w) c) g₁ k₁ a.0 (Wakes-Timely k k₁ w t false tm a.1)
          d.1
          (λ x j. ground (
            arith,
            i x,
            ap (has x) (a.1.waits l),
            has-remove x w (k.wait_lists l),
            d.0,
            ap (λ y. has y ws),
          ))
          pay in
      (
        r,
        rw (p w (ground arith), y, e) q,
        Walked-fire l w ws c g k r.0 r.1 r.2 d.0 y t own
            (owner_asleep k w t v (inr (l, i w (ground arith))) own) k₁ a.1 b,
      )
]

-- What `set` does: `b` are the bits with the new ones.
pub record Sets (bits : ℕ) (g : EventGroup) (k : Kernel) (g' : EventGroup) (k' : Kernel)
    : Type 0 where
  pub sound : Sound g' k'
  pub left :
      let b = record g { bits = bit_or g.bits bits } in
      g'.bits ≡ mask_off b.bits (gather b 0 (k.wait_lists g.waiters))
  pub stay :
      let b = record g { bits = bit_or g.bits bits } in
      k'.wait_lists g.waiters ≡ reject (holds_for b) (k.wait_lists g.waiters)
  pub fired :
      let b = record g { bits = bit_or g.bits bits } in
      (w t : ℕ)
      → has w (k.wait_lists g.waiters) ≡ true
      → holds_for b w ≡ true
      → (k.nodes w).task ≡ some t
      → ((g'.infos w).result ≡ b.bits) × ((k'.tasks t).state ≡ ready)
  pub kept :
      let b = record g { bits = bit_or g.bits bits } in
      (w : ℕ)
      → (has w (k.wait_lists g.waiters) && holds_for b w) ≡ false
      → (g'.infos w ≡ g.infos w) × (k'.nodes w ≡ k.nodes w)
  pub same_list : g'.waiters ≡ g.waiters
  pub runs : k'.current ≡ k.current
  pub awake : (t : ℕ) → (k.tasks t).state ≢ blocked → k'.tasks t ≡ k.tasks t
  pub absent : (x : ℕ) → Unlinked k x → Unlinked k' x
  pub thins : (l : ℕ) → Thins l k k'

module _ (g : EventGroup) (k : Kernel) (v : Sound g k) where
  pub set-Sets : (bits : ℕ) → Returns (λ r. Sets bits g k r.0 r.1) (set bits g k)
  unfolding set
  set-Sets bits =
      let b = record g { bits = bit_or g.bits bits } in
      let ws = k.wait_lists g.waiters in
      let (r, q, a) =
        walk-Walked g.waiters ws 0 b k v.inv v.timely (v.inv.wait_distinct g.waiters) (λ w i. i)
          v.addressed in
      let stay : r.2.wait_lists g.waiters ≡ reject (holds_for b) ws =
        a.waits g.waiters
        ∙ reject-cong (λ x. has x ws && holds_for b x) (holds_for b) ws (λ x i. rw i refl) in
      (
        (record r.1 { bits = mask_off r.1.bits r.0 }, r.2),
        rw q refl,
        record {
          sound = record {
            inv = a.inv;
            timely = a.timely;
            addressed = λ w i.
                let j = sym (ap (has w) (ap r.2.wait_lists a.same_list ∙ stay)) ∙ i in
                let h = has-reject (holds_for b) w ws in
                let old : has w ws ≡ true = ground arith in
                let out : holds_for b w ≡ false = ground arith in
                ap (λ (n : WaitNode). n.payload) (a.kept w (rw (old, out) refl)).1
                ∙ v.addressed w old;
            unmet = λ w i.
                let j = sym (ap (has w) (ap r.2.wait_lists a.same_list ∙ stay)) ∙ i in
                let h = has-reject (holds_for b) w ws in
                let old : has w ws ≡ true = ground arith in
                let out : holds_for b w ≡ false = ground arith in
                let left = mask_off r.1.bits r.0 in
                ap (λ x. met x left) (a.kept w (rw (old, out) refl)).0
                ∙ Fewer-unmet (g.infos w) left b.bits
                    (subst (λ c. Fewer left c) a.same_bits (mask_off-Fewer r.1.bits r.0)) out;
          };
          left = rw (a.same_bits, a.gathers) refl;
          stay = stay;
          fired = a.fired;
          kept = a.kept;
          same_list = a.same_list;
          runs = a.runs;
          awake = a.awake;
          absent = λ x u. record {
            not_delayed = ground (arith, a.fewer x, u.not_delayed);
            not_waiting = λ m.
                ap (has x) (a.waits m)
                ∙ has-reject (λ y. has y ws && holds_for b y) x (k.wait_lists m)
                ∙ ground (arith, u.not_waiting m);
          };
          thins = λ l. record {
            less = λ x. has x ws && holds_for b x;
            thinned = a.waits l;
            payload = λ x i.
                let h = has-reject (λ y. has y ws && holds_for b y) x (k.wait_lists l) in
                let j = sym (ap (has x) (a.waits l)) ∙ i in
                let out : (has x ws && holds_for b x) ≡ false = ground arith in
                ap (λ (n : WaitNode). n.payload) (a.kept x out).1;
          };
        },
      )
