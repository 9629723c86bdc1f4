-- ===== src/Kernel/Tick.antt =====
-- `tick_isr`: the clock advances by one and every timeout that has run out is delivered.
use coo_rtos.Base.{
  reject, reject-cong, has-reject, ◌≢◌, ℕ, ◌+◌, ◌-◌, ◌≤◌, ◌<◌, ◌≡◌, refl, ap, ◌∙◌, inl, inr, Bool,
  true, false, ◌&&◌, some, List, [], ◌∷◌, arith, leb, ==→eq, ◌==◌, Bool-cases, has, length, Returns,
  ◌||◌,
}
use coo_rtos.Tick.{tick_mod, half_range, add_tick, sub_tick, deadline_le}
use coo_rtos.Tick.Order.{deadline_le_distance}
use coo_rtos.Kernel.{blocked, ready, Kernel, tick_isr}
use coo_rtos.Kernel.Invariant.{Inv}
use coo_rtos.Kernel.Delay.{remaining, SortedFrom, Timely}
use coo_rtos.Kernel.Expire.{is_due, Leading, Expired, expire-Expired}

-- The kernel when the counter has advanced.
abbrev advanced : Kernel → Kernel
advanced k = record k { tick_count = add_tick k.tick_count 1 }

-- A node is due after the tick when at most one tick was left.
abbrev pub runs_out : Kernel → ℕ → Bool
runs_out k w = leb (remaining k w) 1

-- What a tick does.
pub record Ticked (k k' : Kernel) : Type 0 where
  pub valid : Inv k'
  pub timely : Timely k'
  pub clock : k'.tick_count ≡ add_tick k.tick_count 1
  pub delay : k'.delay_list ≡ reject (runs_out k) k.delay_list
  pub fired :
      (w t : ℕ)
      → has w k.delay_list ≡ true
      → remaining k w ≤ 1
      → (k.nodes w).task ≡ some t
      → ((k'.nodes w).timed_out ≡ true) × ((k'.tasks t).state ≡ ready)
  pub kept : (w : ℕ) → (has w k.delay_list && runs_out k w) ≡ false → k'.nodes w ≡ k.nodes w
  pub waits :
      (l : ℕ) → k'.wait_lists l ≡ reject (λ w. has w k.delay_list && runs_out k w) (k.wait_lists l)
  pub runs : k'.current ≡ k.current
  pub awake : (t : ℕ) → (k.tasks t).state ≢ blocked → k'.tasks t ≡ k.tasks t

left_one :
    (d : ℕ) → d < half_range → ((sub_tick d 1 == 0) || leb half_range (sub_tick d 1)) ≡ leb d 1
left_one d h = ground arith

due_by_remaining :
    (now deadline : ℕ)
    → now < tick_mod
    → deadline < tick_mod
    → sub_tick deadline now < half_range
    → deadline_le deadline (add_tick now 1) ≡ leb (sub_tick deadline now) 1
due_by_remaining now deadline hn hd h =
    let one : sub_tick deadline (add_tick now 1) ≡ sub_tick (sub_tick deadline now) 1 =
      omega arith in
    deadline_le_distance deadline (add_tick now 1) ∙ rw one (left_one (sub_tick deadline now) h)

one_less :
    (now deadline : ℕ)
    → now < tick_mod
    → deadline < tick_mod
    → 1 < sub_tick deadline now
    → sub_tick deadline (add_tick now 1) + 1 ≡ sub_tick deadline now
one_less now deadline hn hd h = omega arith

SortedFrom-bounds :
    (key : ℕ → ℕ) (lo c : ℕ) (xs : List ℕ)
    → SortedFrom key lo xs
    → has c xs ≡ true
    → (lo ≤ key c) × (key c < half_range)
SortedFrom-bounds key lo c [] s i = cc
SortedFrom-bounds key lo c (x ∷ xs) s i = elim (Bool-cases (c == x)) [
  | inl e ↦ rw (==→eq c x e) (s.0, s.1)
  | inr e ↦ let r = SortedFrom-bounds key (key x) c xs s.2 (ground arith) in (omega arith, r.1)
]

-- One tick later what is left in the list is still sorted.
reject-SortedFrom :
    (key later : ℕ → ℕ) (p : ℕ → Bool) (lo lo' : ℕ) (xs : List ℕ)
    → ((c : ℕ) → has c xs ≡ true → p c ≡ false → later c + 1 ≡ key c)
    → lo' ≤ lo - 1
    → SortedFrom key lo xs
    → SortedFrom later lo' (reject p xs)
reject-SortedFrom key later p lo lo' [] h b s = tt
reject-SortedFrom key later p lo lo' (x ∷ xs) h b s =
    let h' = λ (c : ℕ) (i : has c xs ≡ true). h c (ground arith) in
    elim (Bool-cases (p x)) [
      | inl e ↦ rw e (reject-SortedFrom key later p (key x) lo' xs h' (omega arith) s.2)
      | inr e ↦
          let l = h x (ground arith) e in
          rw e (
            omega arith,
            omega arith,
            reject-SortedFrom key later p (key x) (later x) xs h' (omega arith) s.2,
          )
    ]

SortedFrom-Leading :
    (key : ℕ → ℕ) (p : ℕ → Bool) (lo : ℕ) (xs : List ℕ)
    → ((c : ℕ) → has c xs ≡ true → p c ≡ leb (key c) 1)
    → SortedFrom key lo xs
    → Leading p xs
SortedFrom-Leading key p lo [] h s = tt
SortedFrom-Leading key p lo (x ∷ xs) h s = (
  λ e c i. let r = SortedFrom-bounds key (key x) c xs s.2 i in ground (arith, h c, h x),
  SortedFrom-Leading key p (key x) xs (λ c i. h c (ground arith)) s.2,
)

module _ (k : Kernel) (v : Inv k) (t : Timely k) where
  due-runs_out : (w : ℕ) → has w k.delay_list ≡ true → is_due (advanced k) w ≡ runs_out k w
  due-runs_out w i =
      due_by_remaining k.tick_count (k.nodes w).deadline t.clock (t.stamps w)
        (SortedFrom-bounds (remaining k) 0 w k.delay_list t.sorted i).1

  both-runs_out :
      (w : ℕ) → (has w k.delay_list && is_due (advanced k) w) ≡ (has w k.delay_list && runs_out k w)
  both-runs_out w = elim (Bool-cases (has w k.delay_list)) [
    | inl i ↦ ap (λ b. has w k.delay_list && b) (due-runs_out w i)
    | inr i ↦ rw i
  ]

  advanced-Inv : Inv (advanced k)
  advanced-Inv = record {
    ready_has = v.ready_has;
    ready_in = v.ready_in;
    ready_distinct = v.ready_distinct;
    in_range = v.in_range;
    delay_distinct = v.delay_distinct;
    wait_distinct = v.wait_distinct;
    linked_waits = v.linked_waits;
    one_node = v.one_node;
    one_list = v.one_list;
  }

  Expired-Ticked : (k' : Kernel) → Expired (advanced k) k' → Ticked k k'
  Expired-Ticked k' x =
      let d = reject-cong (is_due (advanced k)) (runs_out k) k.delay_list due-runs_out in
      record {
        valid = x.valid;
        timely = record {
          clock = rw x.tick (omega arith);
          stamps = λ w. rw (x.stamps w) (t.stamps w);
          sorted =
              rw (x.delay, d)
                (reject-SortedFrom (remaining k) (remaining k') (runs_out k) 0 0 k.delay_list
                  (λ c i e.
                    rw (x.tick, x.stamps c)
                      (one_less k.tick_count (k.nodes c).deadline t.clock (t.stamps c)
                        (ground arith)))
                  (omega arith) t.sorted);
        };
        clock = x.tick;
        delay = x.delay ∙ d;
        fired = λ w s i r o. x.fired w s i (due-runs_out w i ∙ ground arith) o;
        kept = λ w e. x.kept w (both-runs_out w ∙ e);
        waits = λ l.
            x.waits l
            ∙ reject-cong (λ w. has w k.delay_list && is_due (advanced k) w)
                (λ w. has w k.delay_list && runs_out k w) (k.wait_lists l) (λ w i. both-runs_out w);
        runs = x.runs;
        awake = x.awake;
      }

  -- From a state with the invariant and a sorted delay list, `tick_isr` neither traps nor runs out
  -- of its rounds. The nodes with at most one tick left leave every list, timed out, and their
  -- tasks are ready; all other nodes stay as they were, in order; and the invariant and the
  -- order hold again.
  pub tick_isr-Ticked : Returns (Ticked k) (tick_isr k)
  unfolding tick_isr
  tick_isr-Ticked =
      let lead =
        SortedFrom-Leading (remaining k) (is_due (advanced k)) 0 k.delay_list due-runs_out
          t.sorted in
      let (k', r, x) =
        expire-Expired (length k.delay_list + 1) (advanced k) k.delay_list refl (omega arith)
          advanced-Inv lead in
      (k', r, Expired-Ticked k' x)

-- A node whose timeout has run out is in no wait list after the tick.
pub Ticked-gone :
    (k k' : Kernel) (l w : ℕ)
    → Ticked k k'
    → has w k.delay_list ≡ true
    → remaining k w ≤ 1
    → has w (k'.wait_lists l) ≡ false
Ticked-gone k k' l w a i r =
    ap (has w) (a.waits l)
    ∙ has-reject (λ x. has x k.delay_list && runs_out k x) w (k.wait_lists l)
    ∙ ground arith
