-- ===== src/Kernel/Delay.antt =====
-- The delay list: `delay_insert_locked` keeps it in the order of the deadlines.
use coo_rtos.Base.{
  ℕ, ◌≤◌, ◌<◌, ◌≡◌, refl, true, false, List, [], ◌∷◌, arith, leb, if◌then◌else◌, has, Bool-cases,
  inl, inr,
}
use coo_rtos.Tick.{tick_mod, half_range, add_tick, sub_tick, deadline_le}
use coo_rtos.Tick.Order.{deadline_le_window}
use coo_rtos.Kernel.{WaitNode, Kernel, insert_by_deadline, delay_insert}

-- The ticks that are left until the deadline of a node.
abbrev pub remaining : Kernel → ℕ → ℕ
remaining k w = sub_tick (k.nodes w).deadline k.tick_count

-- The keys rise along the list from `lo` on, and stay below half the range of the counter.
abbrev pub SortedFrom : (ℕ → ℕ) → ℕ → List ℕ → Type 0
SortedFrom key lo [] = Unit {0}
SortedFrom key lo (x ∷ xs) = (lo ≤ key x) × (key x < half_range) × SortedFrom key (key x) xs

-- The delay list is sorted by the ticks that are left.
pub record Timely (k : Kernel) : Type 0 where
  pub clock : k.tick_count < tick_mod
  pub stamps : (w : ℕ) → (k.nodes w).deadline < tick_mod
  pub sorted : SortedFrom (remaining k) 0 k.delay_list

pub SortedFrom-mono :
    (key : ℕ → ℕ) (lo lo' : ℕ) (xs : List ℕ)
    → lo' ≤ lo
    → SortedFrom key lo xs
    → SortedFrom key lo' xs
SortedFrom-mono key lo lo' [] h s = tt
SortedFrom-mono key lo lo' (x ∷ xs) h s = (omega arith, s.1, s.2)

pub SortedFrom-cong :
    (key key' : ℕ → ℕ) (lo : ℕ) (xs : List ℕ)
    → ((c : ℕ) → has c xs ≡ true → key c ≡ key' c)
    → SortedFrom key lo xs
    → SortedFrom key' lo xs
SortedFrom-cong key key' lo [] same s = tt
SortedFrom-cong key key' lo (x ∷ xs) same s =
    let e = same x (ground arith) in
    (
      omega arith,
      omega arith,
      rw (← e) (SortedFrom-cong key key' (key x) xs (λ c i. same c (ground arith)) s.2),
    )

-- The reference: insertion after every entry with a key that is not greater.
abbrev pub insert_sorted : (ℕ → ℕ) → ℕ → List ℕ → List ℕ
insert_sorted key w [] = w ∷ []
insert_sorted key w (x ∷ xs) =
    if leb (key x) (key w) then x ∷ insert_sorted key w xs else w ∷ x ∷ xs

pub insert_sorted-SortedFrom :
    (key : ℕ → ℕ) (w lo : ℕ) (xs : List ℕ)
    → lo ≤ key w
    → key w < half_range
    → SortedFrom key lo xs
    → SortedFrom key lo (insert_sorted key w xs)
insert_sorted-SortedFrom key w lo [] h hw s = (h, hw, tt)
insert_sorted-SortedFrom key w lo (x ∷ xs) h hw s =
    ground (arith, insert_sorted-SortedFrom key w (key x) xs)

-- A deadline is the present tick and the ticks that are left.
pub deadline-remaining :
    (now deadline : ℕ)
    → now < tick_mod
    → deadline < tick_mod
    → add_tick now (sub_tick deadline now) ≡ deadline
deadline-remaining now deadline hn hd = omega arith

remaining-deadline :
    (now d : ℕ) → now < tick_mod → d < half_range → sub_tick (add_tick now d) now ≡ d
remaining-deadline now d hn hd = omega arith

-- The code's walk is the reference insertion, on the ticks that are left.
insert_by_deadline-sorted :
    (nodes : ℕ → WaitNode) (now w d lo : ℕ) (xs : List ℕ)
    → now < tick_mod
    → ((c : ℕ) → (nodes c).deadline < tick_mod)
    → d < half_range
    → (nodes w).deadline ≡ add_tick now d
    → SortedFrom (λ c. sub_tick (nodes c).deadline now) lo xs
    → insert_by_deadline nodes w (add_tick now d) xs
      ≡ insert_sorted (λ c. sub_tick (nodes c).deadline now) w xs
unfolding insert_by_deadline
insert_by_deadline-sorted nodes now w d lo [] hn hs hd e s = refl
insert_by_deadline-sorted nodes now w d lo (x ∷ xs) hn hs hd e s =
    let key = λ (c : ℕ). sub_tick (nodes c).deadline now in
    let a = deadline-remaining now (nodes x).deadline hn (hs x) in
    let b = deadline_le_window now (key x) d hn s.1 hd in
    let c = remaining-deadline now d hn hd in
    let test : deadline_le (nodes x).deadline (add_tick now d) ≡ leb (key x) (key w) =
      rw (e, c) (rw a at b) in
    let ih = insert_by_deadline-sorted nodes now w d (key x) xs hn hs hd e s.2 in
    rw (test, ih) (elim (Bool-cases (leb (key x) (key w))) [ inl t ↦ rw t | inr t ↦ rw t ])

-- Inserting a node whose timeout is less than half the range keeps the delay list sorted, and puts
-- the node behind every node that is due no later than it.
pub delay_insert-Timely :
    (k : Kernel) (w d : ℕ)
    → Timely k
    → d < half_range
    → has w k.delay_list ≡ false
    → let k' = delay_insert w (add_tick k.tick_count d) k in
      Timely k'
      × (k'.delay_list ≡ insert_sorted (remaining k') w k.delay_list)
      × (remaining k' w ≡ d)
unfolding delay_insert
delay_insert-Timely k w d v hd out =
    let now = k.tick_count in
    let k' = delay_insert w (add_tick now d) k in
    let due : (k'.nodes w).deadline ≡ add_tick now d = ground arith in
    let stamps : (c : ℕ) → (k'.nodes c).deadline < tick_mod = λ c. ground (arith, v.stamps c) in
    let old =
      SortedFrom-cong (remaining k) (remaining k') 0 k.delay_list (λ c i. ground arith) v.sorted in
    let e = insert_by_deadline-sorted k'.nodes now w d 0 k.delay_list v.clock stamps hd due old in
    let r : remaining k' w ≡ d = rw due (remaining-deadline now d v.clock hd) in
    (
      record {
        clock = v.clock;
        stamps = stamps;
        sorted = rw e (
            insert_sorted-SortedFrom (remaining k') w 0 k.delay_list (omega arith) (omega arith)
              old);
      },
      e,
      r,
    )
