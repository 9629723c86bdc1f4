-- ===== src/EventGroup/Visit.antt =====
-- The loop of `set_locked`: it wakes the waiters whose condition holds, and no other.
use coo_rtos.Base.{
  reject, reject-cong, reject-reject, reject-remove, reject_none, ℕ, ◌≡◌, refl, ap, sym, ◌∙◌, ◌≢◌,
  inl, inr, Bool, true, false, ◌&&◌, ◌||◌, some, List, [], ◌∷◌, arith, ◌==◌, ==→eq, if◌then◌else◌,
  Bool-cases, has, has-remove, subst, ==_refl,
}
use coo_rtos.Kernel.{ready, blocked, TaskPromise, Kernel, WaitNode}
use coo_rtos.Kernel.Invariant.{Inv}
use coo_rtos.Kernel.Wake.{Wakes}
use coo_rtos.Kernel.Delay.{Timely}
use coo_rtos.EventGroup.{WaitInfo, EventGroup, set_info, met, add_clear}

-- The condition of the waiter `w` holds.
abbrev pub holds_for : EventGroup → ℕ → Bool
holds_for g w = met (g.infos w) g.bits

-- What the waiters whose condition holds want cleared.
abbrev pub gather : EventGroup → ℕ → List ℕ → ℕ
gather g to_clear [] = to_clear
gather g to_clear (w ∷ ws) =
    gather g (if holds_for g w then add_clear (g.infos w) to_clear else to_clear) ws

pub gather-cong :
    (f g : EventGroup) (to_clear : ℕ) (ws : List ℕ)
    → ((x : ℕ) → has x ws ≡ true → f.infos x ≡ g.infos x)
    → f.bits ≡ g.bits
    → gather f to_clear ws ≡ gather g to_clear ws
gather-cong f g c [] h e = refl
gather-cong f g c (w ∷ ws) h e =
    gather-cong f g (if holds_for f w then add_clear (f.infos w) c else c) ws
      (λ x i. h x (ground arith)) e
    ∙ ap (λ z. gather g z ws) (rw (h w (ground arith), e) refl)

-- What the loop over `ws` has done when it returns.
pub record Walked (l : ℕ) (ws : List ℕ) (to_clear : ℕ) (g : EventGroup) (k : Kernel) (to_clear' : ℕ)
    (g' : EventGroup) (k' : Kernel) : Type 0 where
  pub inv : Inv k'
  pub timely : Timely k'
  pub same_bits : g'.bits ≡ g.bits
  pub same_list : g'.waiters ≡ g.waiters
  pub gathers : to_clear' ≡ gather g to_clear ws
  pub waits : (m : ℕ) → k'.wait_lists m ≡ reject (λ x. has x ws && holds_for g x) (k.wait_lists m)
  pub fired :
      (w t : ℕ)
      → has w ws ≡ true
      → holds_for g w ≡ true
      → (k.nodes w).task ≡ some t
      → ((g'.infos w).result ≡ g.bits) × ((k'.tasks t).state ≡ ready)
  pub kept :
      (w : ℕ)
      → (has w ws && holds_for g w) ≡ false
      → (g'.infos w ≡ g.infos w) × (k'.nodes w ≡ k.nodes w)
  pub still : (t : ℕ) → (k.tasks t).state ≡ ready → (k'.tasks t).state ≡ ready
  pub runs : k'.current ≡ k.current
  pub awake : (t : ℕ) → (k.tasks t).state ≢ blocked → k'.tasks t ≡ k.tasks t
  pub fewer : (x : ℕ) → has x k'.delay_list ≡ true → has x k.delay_list ≡ true

pub Walked-nil :
    (l c : ℕ) (g : EventGroup) (k : Kernel) → Inv k → Timely k → Walked l [] c g k c g k
Walked-nil l c g k v tm = record {
  inv = v;
  timely = tm;
  same_bits = refl;
  same_list = refl;
  gathers = refl;
  waits = λ m. sym (reject_none (λ x. false) (k.wait_lists m) (λ c i. refl));
  fired = λ w t i j e. absurd (ground arith);
  kept = λ w e. (refl, refl);
  still = λ t e. e;
  runs = refl;
  awake = λ t e. refl;
  fewer = λ x i. i;
}

met_result : (i : WaitInfo) (r b : ℕ) → met (record i { result = r }) b ≡ met i b
unfolding met
met_result i r b = refl

-- A waiter whose condition does not hold is passed over.
module _ (l w : ℕ) (ws : List ℕ) (c : ℕ) (g : EventGroup) (k : Kernel) (c' : ℕ) (g' : EventGroup)
    (k' : Kernel) (out : has w ws ≡ false) where
  same_passed :
      holds_for g w ≡ false
      → (x : ℕ) → (has x ws && holds_for g x) ≡ ((x == w || has x ws) && holds_for g x)
  same_passed n x = elim (Bool-cases (x == w)) [
    | inl e ↦ let r : holds_for g x ≡ false = ap (holds_for g) (==→eq x w e) ∙ n in ground arith
    | inr e ↦ ground arith
  ]

  pub Walked-pass :
      holds_for g w ≡ false → Walked l ws c g k c' g' k' → Walked l (w ∷ ws) c g k c' g' k'
  Walked-pass n a =
      let same = same_passed n in
      record {
        inv = a.inv;
        timely = a.timely;
        same_bits = a.same_bits;
        same_list = a.same_list;
        gathers = a.gathers ∙ ap (λ z. gather g z ws) (rw n refl);
        waits = λ m.
            a.waits m
            ∙ reject-cong (λ x. has x ws && holds_for g x)
                (λ x. (x == w || has x ws) && holds_for g x) (k.wait_lists m) (λ x i. same x);
        fired = λ x t i j e. a.fired x t (ground (arith, same x)) j e;
        kept = λ x e. a.kept x (same x ∙ e);
        still = a.still;
        runs = a.runs;
        awake = a.awake;
        fewer = a.fewer;
      }

  -- One whose condition holds is given the bits and woken.
  module _ (i : holds_for g w ≡ true) (t : ℕ) (own : (k.nodes w).task ≡ some t)
      (asleep : (k.tasks t).state ≡ blocked) (k₁ : Kernel) (a : Wakes w false t k k₁) where
    abbrev g₁ : EventGroup
    g₁ = set_info w (record (g.infos w) { result = g.bits }) g

    holds_later : (x : ℕ) → holds_for g₁ x ≡ holds_for g x
    holds_later x = elim (Bool-cases (x == w)) [
      | inl e ↦ rw e (met_result (g.infos w) g.bits g.bits ∙ ap (holds_for g) (sym (==→eq x w e)))
      | inr e ↦ rw e refl
    ]

    same_fired :
        (x : ℕ) → (x == w || (has x ws && holds_for g₁ x)) ≡ ((x == w || has x ws) && holds_for g x)
    same_fired x = elim (Bool-cases (x == w)) [
      | inl q ↦ let r : holds_for g x ≡ true = ap (holds_for g) (==→eq x w q) ∙ i in ground arith
      | inr q ↦ ground (arith, holds_later x)
    ]

    kept_later : (x : ℕ) → (x == w) ≡ false → (g₁.infos x ≡ g.infos x) × (k₁.nodes x ≡ k.nodes x)
    kept_later x q = (rw q refl, ap (λ f. f x) a.nodes ∙ rw q refl)

    pub Walked-fire :
        Walked l ws (add_clear (g.infos w) c) g₁ k₁ c' g' k' → Walked l (w ∷ ws) c g k c' g' k'
    Walked-fire b = record {
      inv = b.inv;
      timely = b.timely;
      same_bits = b.same_bits;
      same_list = b.same_list;
      gathers =
          b.gathers
          ∙ gather-cong g₁ g (add_clear (g.infos w) c) ws (λ x j. ground arith) refl
          ∙ ap (λ z. gather g z ws) (rw i refl);
      waits = λ m.
          b.waits m
          ∙ ap (reject (λ x. has x ws && holds_for g₁ x))
              (a.waits m ∙ reject-remove w (k.wait_lists m))
          ∙ reject-reject (λ x. has x ws && holds_for g₁ x) (λ x. x == w) (k.wait_lists m)
          ∙ reject-cong (λ x. x == w || (has x ws && holds_for g₁ x))
              (λ x. (x == w || has x ws) && holds_for g x) (k.wait_lists m) (λ x j. same_fired x);
      fired = λ x s j h e. elim (Bool-cases (x == w)) [
        | inl q ↦
            let z = ==→eq x w q in
            let kw = b.kept w (rw out refl) in
            let p : some t ≡ some s = sym own ∙ ap (λ y. (k.nodes y).task) (sym z) ∙ e in
            let se : t ≡ s = ground arith in
            (
              rw z (ap (λ (n : WaitInfo). n.result) kw.0 ∙ rw (==_refl w) refl),
              subst (λ y. (k'.tasks y).state ≡ ready) se (b.still t a.woken),
            )
        | inr q ↦
            let n = (kept_later x q).1 in
            b.fired x s (ground arith) (holds_later x ∙ h) (ap (λ (n : WaitNode). n.task) n ∙ e)
      ];
      kept = λ x e. elim (Bool-cases (x == w)) [
        | inl q ↦ absurd (ground (arith, ap (holds_for g) (==→eq x w q)))
        | inr q ↦
            let r = b.kept x (ground (arith, holds_later x)) in
            let n = kept_later x q in (r.0 ∙ n.0, r.1 ∙ n.1)
      ];
      still = λ s e. b.still s (elim (Bool-cases (s == t)) [
        | inl q ↦ rw (==→eq s t q) a.woken
        | inr q ↦ rw (a.others s (ground arith)) e
      ]);
      runs = b.runs ∙ a.runs;
      awake = λ s e.
          let o = a.others s (λ q. e (ap (λ y. (k.tasks y).state) q ∙ asleep)) in
          b.awake s (λ q. e (ap (λ (p : TaskPromise). p.state) (sym o) ∙ q)) ∙ o;
      fewer = λ x j. ground (arith, b.fewer x j, ap (has x) a.delay, has-remove x w k.delay_list);
    }
