-- ===== src/Kernel/Expire.antt =====
-- The loop of `tick_isr`: it wakes the nodes that are due, and no other.
use coo_rtos.Base.{
  reject, reject_none, reject-cong, reject-reject, reject-remove, ◌||◌, ◌≢◌, ℕ, zero, suc, ◌<◌, ◌≡◌,
  refl, ap, sym, ◌∙◌, inl, inr, Bool, true, false, ◌&&◌, some, List, [], ◌∷◌, arith, ◌==◌,
  if◌then◌else◌, Bool-cases, has, remove_head, length, Returns, ==→eq, Distinct, subst, front,
}
use coo_rtos.Tick.{deadline_le}
use coo_rtos.Kernel.{ready, blocked, TaskPromise, Kernel, expire, expire_front}
use coo_rtos.Kernel.Invariant.{Inv}
use coo_rtos.Kernel.Wake.{Wakes, wake-Linked, owner_asleep}

abbrev pub is_due : Kernel → ℕ → Bool
is_due k w = deadline_le (k.nodes w).deadline k.tick_count

-- Behind an entry that fails the test no entry passes it.
abbrev pub Leading : (ℕ → Bool) → List ℕ → Type 0
Leading p [] = Unit {0}
Leading p (x ∷ xs) = (p x ≡ false → (c : ℕ) → has c xs ≡ true → p c ≡ false) × Leading p xs

pub Leading-cong :
    (p q : ℕ → Bool) (xs : List ℕ) → ((c : ℕ) → p c ≡ q c) → Leading p xs → Leading q xs
Leading-cong p q [] h l = tt
Leading-cong p q (x ∷ xs) h l = (λ e c i. sym (h c) ∙ l.0 (h x ∙ e) c i, Leading-cong p q xs h l.1)

-- What the loop has done when it returns.
pub record Expired (k k' : Kernel) : Type 0 where
  pub valid : Inv k'
  pub delay : k'.delay_list ≡ reject (is_due k) k.delay_list
  pub fired :
      (w t : ℕ)
      → has w k.delay_list ≡ true
      → is_due k w ≡ true
      → (k.nodes w).task ≡ some t
      → ((k'.nodes w).timed_out ≡ true) × ((k'.tasks t).state ≡ ready)
  pub kept : (w : ℕ) → (has w k.delay_list && is_due k w) ≡ false → k'.nodes w ≡ k.nodes w
  pub stamps : (w : ℕ) → (k'.nodes w).deadline ≡ (k.nodes w).deadline
  pub waits :
      (l : ℕ) → k'.wait_lists l ≡ reject (λ w. has w k.delay_list && is_due k w) (k.wait_lists l)
  pub still : (t : ℕ) → (k.tasks t).state ≡ ready → (k'.tasks t).state ≡ ready
  pub tick : k'.tick_count ≡ k.tick_count
  pub runs : k'.current ≡ k.current
  pub awake : (t : ℕ) → (k.tasks t).state ≢ blocked → k'.tasks t ≡ k.tasks t

-- Where nothing is due the loop has nothing to do.
pub Expired-idle :
    (k : Kernel) → Inv k → ((c : ℕ) → has c k.delay_list ≡ true → is_due k c ≡ false) → Expired k k
Expired-idle k v none_due = record {
  valid = v;
  delay = sym (reject_none (is_due k) k.delay_list none_due);
  fired = λ w t i d e. ground (arith, none_due w i);
  kept = λ w e. refl;
  stamps = λ w. refl;
  waits = λ l. sym (
      reject_none (λ w. has w k.delay_list && is_due k w) (k.wait_lists l)
        λ w i. ground (arith, none_due w));
  runs = refl;
  awake = λ t e. refl;
  still = λ t e. e;
  tick = refl;
}

module _ (k k₁ : Kernel) (w t : ℕ) (ws : List ℕ) (e : k.delay_list ≡ w ∷ ws)
    (apart : has w ws ≡ false) (due : is_due k w ≡ true) (own : (k.nodes w).task ≡ some t)
    (asleep : (k.tasks t).state ≡ blocked) (a : Wakes w true t k k₁) where
  same_due : (c : ℕ) → is_due k₁ c ≡ is_due k c
  same_due c = rw (a.nodes, a.tick) (ground arith)

  behind : k₁.delay_list ≡ ws
  behind = rw (a.delay, e) (remove_head w ws apart)

  node :
      (c : ℕ) → k₁.nodes c ≡ (if c == w then record (k.nodes w) { timed_out = true } else k.nodes c)
  node c = ap (λ f. f c) a.nodes

  member : (c : ℕ) → has c k.delay_list ≡ (if c == w then true else has c k₁.delay_list)
  member c = rw (e, behind) (ground arith)

  out : has w k₁.delay_list ≡ false
  out = rw behind apart

  module _ (k' : Kernel) (b : Expired k₁ k') where
    step-fired :
        (x s : ℕ)
        → has x k.delay_list ≡ true
        → is_due k x ≡ true
        → (k.nodes x).task ≡ some s
        → ((k'.nodes x).timed_out ≡ true) × ((k'.tasks s).state ≡ ready)
    step-fired x s i d o = elim (Bool-cases (x == w)) [
      | inl q ↦
          let p = b.kept w (rw out) in
          let r = ==→eq x w q in
          let same : s ≡ t = ground arith in
          (rw (r, p) (ground (arith, node w)), rw same (b.still t a.woken))
      | inr q ↦
          b.fired x s (sym (ground (arith, member x))) (same_due x ∙ d) (ground (arith, node x))
    ]

    step-kept : (x : ℕ) → (has x k.delay_list && is_due k x) ≡ false → k'.nodes x ≡ k.nodes x
    step-kept x n = elim (Bool-cases (x == w)) [
      | inl q ↦
          let r = ==→eq x w q in
          let i : has w k.delay_list ≡ true = rw e (ground arith) in
          absurd (ground (arith, due, ap (λ c. has c k.delay_list && is_due k c) r))
      | inr q ↦ b.kept x (rw (same_due x) (ground (arith, member x))) ∙ node x ∙ rw q refl
    ]

    step_due :
        (x : ℕ)
        → (x == w || (has x k₁.delay_list && is_due k₁ x)) ≡ (has x k.delay_list && is_due k x)
    step_due x = elim (Bool-cases (x == w)) [
      | inl q ↦
          let d : is_due k x ≡ true = ap (is_due k) (==→eq x w q) ∙ due in
          rw d (ground (arith, member x))
      | inr q ↦ rw (same_due x) (ground (arith, member x))
    ]

    step-waits :
        (l : ℕ) → k'.wait_lists l ≡ reject (λ x. has x k.delay_list && is_due k x) (k.wait_lists l)
    step-waits l =
        let p = λ (x : ℕ). has x k₁.delay_list && is_due k₁ x in
        b.waits l
        ∙ ap (reject p) (a.waits l ∙ reject-remove w (k.wait_lists l))
        ∙ reject-reject p (λ x. x == w) (k.wait_lists l)
        ∙ reject-cong (λ x. x == w || p x) (λ x. has x k.delay_list && is_due k x) (k.wait_lists l)
            (λ x i. step_due x)

    -- A round that wakes the front node, and the rounds after it.
    Expired-step : Expired k k'
    Expired-step = record {
      valid = b.valid;
      delay =
          rw (b.delay, behind, reject-cong (is_due k₁) (is_due k) ws (λ c i. same_due c), e)
            (rw due);
      fired = step-fired;
      kept = step-kept;
      stamps = λ x. b.stamps x ∙ ground (arith, node x);
      waits = step-waits;
      still = λ s i. b.still s (elim (Bool-cases (s == t)) [
        | inl q ↦ rw (==→eq s t q) a.woken
        | inr q ↦ rw (a.others s (ground arith)) i
      ]);
      tick = b.tick ∙ a.tick;
      runs = b.runs ∙ a.runs;
      awake = λ s e.
          let o = a.others s (λ q. e (ap (λ y. (k.tasks y).state) q ∙ asleep)) in
          b.awake s (λ q. e (ap (λ (p : TaskPromise). p.state) (sym o) ∙ q)) ∙ o;
    }

expire_at :
    (f : ℕ) (k : Kernel) {xs : List ℕ}
    → k.delay_list ≡ xs
    → expire (suc f) k ≡ expire_front (front xs) k (expire f)
unfolding expire
expire_at f k e = ap (λ ys. expire_front (front ys) k (expire f)) e

-- With more fuel than the delay list is long the loop returns, and has fired what was due.
pub expire-Expired :
    (f : ℕ) (k : Kernel) (xs : List ℕ)
    → k.delay_list ≡ xs
    → length xs < f
    → Inv k
    → Leading (is_due k) xs
    → Returns (Expired k) (expire f k)
expire-Expired zero k xs e h v l = absurd (omega arith)
expire-Expired (suc f) k [] e h v l = (k, expire_at f k e, Expired-idle k v (λ c i. ground arith))
expire-Expired (suc f) k (w ∷ ws) e h v l = elim (Bool-cases (is_due k w)) [
  | inr q ↦ (
    k,
    expire_at f k e ∙ rw q refl,
    Expired-idle k v (
        rw e λ c i. elim (Bool-cases (c == w)) [
          | inl r ↦ rw (==→eq c w r) q
          | inr r ↦ l.0 q c (ground arith)
        ]),
  )
  | inl q ↦
      let (t, own, woke) = wake-Linked k w true v (inl (rw e (ground arith))) in
      let (k₁, r, va) = woke in
      let sl = owner_asleep k w t v (inl (rw e (ground arith))) own in
      let d : Distinct (w ∷ ws) = subst Distinct e v.delay_distinct in
      let due = same_due k k₁ w t ws e d.0 q own sl va.1 in
      let (k', r', x) =
        expire-Expired f k₁ ws (behind k k₁ w t ws e d.0 q own sl va.1) (omega arith) va.0
          (Leading-cong (is_due k) (is_due k₁) ws (λ c. sym (due c)) l.1) in
      (k', expire_at f k e ∙ rw (q, r) r', Expired-step k k₁ w t ws e d.0 q own sl va.1 k' x)
]
