-- ===== src/Kernel/Thins.antt =====
-- What one object's operation does to the wait list of another: waiters leave it at most, and those
-- that stay keep their order and their payloads.
use coo_rtos.Base.{
  ℕ, ◌≡◌, refl, ap, sym, ◌∙◌, Bool, true, false, ◌&&◌, ◌||◌, Option, some, [], arith, ◌==◌, ==→eq,
  inl, inr, Bool-cases, has, reject, has-reject, reject_none, reject-reject, reject-remove,
}
use coo_rtos.Kernel.{running, WaitNode, Kernel, set_payload}
use coo_rtos.Kernel.Wake.{Wakes}
use coo_rtos.Kernel.Handoff.{Wakes-payload}
use coo_rtos.Kernel.Tick.{Ticked, runs_out}
use coo_rtos.Kernel.Link.{Unlinked}
use coo_rtos.Kernel.Block.{Blocks, is_list}

pub record Thins (l : ℕ) (k k' : Kernel) : Type 0 where
  pub less : ℕ → Bool
  pub thinned : k'.wait_lists l ≡ reject less (k.wait_lists l)
  pub payload :
      (w : ℕ) → has w (k'.wait_lists l) ≡ true → (k'.nodes w).payload ≡ (k.nodes w).payload

pub Thins-same :
    (l : ℕ) (k k' : Kernel)
    → k'.wait_lists l ≡ k.wait_lists l
    → ((w : ℕ) → has w (k.wait_lists l) ≡ true → k'.nodes w ≡ k.nodes w)
    → Thins l k k'
Thins-same l k k' e same = record {
  less = λ w. false;
  thinned = e ∙ sym (reject_none (λ w. false) (k.wait_lists l) (λ w i. refl));
  payload = λ w i. ap (λ (n : WaitNode). n.payload) (same w (sym (ap (has w) e) ∙ i));
}

pub Thins-eq : (l : ℕ) (k k' : Kernel) → k' ≡ k → Thins l k k'
Thins-eq l k k' e =
    Thins-same l k k' (ap (λ (j : Kernel). j.wait_lists l) e)
      λ w i. ap (λ (j : Kernel). j.nodes w) e

-- A waiter that stays was there before.
pub Thins-has :
    (l : ℕ) (k k' : Kernel) (a : Thins l k k') (w : ℕ)
    → has w (k'.wait_lists l) ≡ true
    → (has w (k.wait_lists l) ≡ true) × (a.less w ≡ false)
Thins-has l k k' a w i =
    let h = has-reject a.less w (k.wait_lists l) in
    let j = sym (ap (has w) a.thinned) ∙ i in (ground arith, ground arith)

pub Thins-trans : (l : ℕ) (k j m : Kernel) → Thins l k j → Thins l j m → Thins l k m
Thins-trans l k j m a b = record {
  less = λ w. a.less w || b.less w;
  thinned = b.thinned ∙ ap (reject b.less) a.thinned ∙ reject-reject b.less a.less (k.wait_lists l);
  payload = λ w i. b.payload w i ∙ a.payload w (Thins-has l j m b w i).0;
}

pub Thins-nil : (l : ℕ) (k k' : Kernel) → Thins l k k' → k.wait_lists l ≡ [] → k'.wait_lists l ≡ []
Thins-nil l k k' a e = a.thinned ∙ ap (reject a.less) e

pub Wakes-Thins : (l : ℕ) (k k' : Kernel) (w t : ℕ) (b : Bool) → Wakes w b t k k' → Thins l k k'
Wakes-Thins l k k' w t b a = record {
  less = λ x. x == w;
  thinned = a.waits l ∙ reject-remove w (k.wait_lists l);
  payload = λ x i. Wakes-payload k k' w t b a x;
}

pub Ticked-Thins : (l : ℕ) (k k' : Kernel) → Ticked k k' → Thins l k k'
Ticked-Thins l k k' a =
    let p = λ (x : ℕ). has x k.delay_list && runs_out k x in
    record {
      less = p;
      thinned = a.waits l;
      payload = λ w i.
          let j = sym (ap (has w) (a.waits l)) ∙ i in
          let stays : p w ≡ false = ground (arith, has-reject p w (k.wait_lists l)) in
          ap (λ (n : WaitNode). n.payload) (a.kept w stays);
    }

module _ (l w : ℕ) (k : Kernel) (u : Unlinked k w) where
  member_not : (x : ℕ) → has x (k.wait_lists l) ≡ true → (x == w) ≡ false
  member_not x i = elim (Bool-cases (x == w)) [
    | inl e ↦
        absurd (ground (arith, u.not_waiting l, ap (λ y. has y (k.wait_lists l)) (==→eq x w e)))
    | inr e ↦ e
  ]

  pub Blocks-Thins :
      (t h : ℕ) (wl deadline : Option ℕ) (k' : Kernel)
      → is_list wl l ≡ false
      → Blocks t w wl h deadline k k'
      → Thins l k k'
  Blocks-Thins t h wl deadline k' n b =
      Thins-same l k k' (b.waits l ∙ rw n refl)
        λ x i. let ne = member_not x i in b.other_nodes x (ground arith)

  pub set_payload-Thins : Thins l k (set_payload w k)
  set_payload-Thins = Thins-same l k (set_payload w k) refl λ x i. rw (member_not x i) refl

  -- The same of a task that blocks with a payload in its node.
  pub pointed-Thins :
      (t h m : ℕ) (deadline : Option ℕ) (k' : Kernel)
      → (l == m) ≡ false
      → Blocks t w (some m) h deadline (set_payload w k) k'
      → Thins l k k'
  pointed-Thins t h m deadline k' n b = Thins-trans l k (set_payload w k) k' set_payload-Thins (
      Thins-same l (set_payload w k) k' (b.waits l ∙ rw n refl)
        λ x i. let ne = member_not x i in b.other_nodes x (ground arith))

-- The task `t` runs, and the node `w` of its awaiter is in no list.
pub record Acts (t w : ℕ) (k : Kernel) : Type 0 where
  pub current : k.current ≡ some t
  pub runs : (k.tasks t).state ≡ running
  pub fresh : Unlinked k w
