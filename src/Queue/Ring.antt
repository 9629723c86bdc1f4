-- ===== src/Queue/Ring.antt =====
-- The circular buffer of `Queue`: what `push_slot_locked` and `pop_slot_locked` do to its contents.
use native.Mathlib.Nat.{mod-add-mod, mod-eq_of_lt, mod-eq-sub-mod}
use coo_rtos.Base.{
  ℕ, suc, ◌+◌, ◌-◌, ◌%◌, ◌≤◌, ◌<◌, ◌≡◌, refl, ap, sym, ◌∙◌, ◌≢◌, ◌⊎◌, inl, inr, true, Option, none,
  some, List, [], ◌∷◌, ◌++◌, arith, ltb, Bool-cases, length, length-append, update, ok,
}
use coo_rtos.Queue.{Queue, push_slot, pop_slot}

-- The index `i` places behind `h` in a ring of `n`, by subtraction.
index_cases :
    (h i n : ℕ)
    → h < n
    → i < n
    → (((h + i) % n ≡ h + i) × (h + i < n)) ⊎ (((h + i) % n + n ≡ h + i) × (n ≤ h + i))
index_cases h i n hh hi = elim (Bool-cases (ltb (h + i) n)) [
  | inl t ↦ inl (grind arith, ground arith)
  | inr t ↦
      let le : n ≤ h + i = ground arith in
      let e : (h + i) % n ≡ (h + i - n) % n = mod-eq-sub-mod le in
      let f : (h + i - n) % n ≡ h + i - n = mod-eq_of_lt (omega arith) in inr (omega arith, le)
]

-- Two places of a ring that are less than its size apart are different.
pub index-injective : (h i j n : ℕ) → h < n → i < j → j < n → (h + i) % n ≢ (h + j) % n
index-injective h i j n hh hi hj e =
    let a = index_cases h i n hh (omega arith) in let b = index_cases h j n hh hj in omega arith

pub index-suc : (h i n : ℕ) → h < n → ((h + 1) % n + i) % n ≡ (h + suc i) % n
index-suc h i n hh = mod-add-mod (h + 1) n i ∙ ap (λ m. m % n) (omega arith)

module _ {ℓ} {T : Type ℓ} where
  -- From the index `h` on, round the ring of `n`, the slots hold `xs`.
  abbrev pub Window : (ℕ → Option T) → ℕ → ℕ → List T → Type ℓ
  Window buf n h [] = Unit
  Window buf n h (x ∷ xs) = (buf h ≡ some x) × Window buf n ((h + 1) % n) xs

  -- A write outside a window leaves it.
  Window-frame :
      (buf : ℕ → Option T) (n h j : ℕ) (v : Option T) (xs : List T)
      → h < n
      → ((i : ℕ) → i < length xs → (h + i) % n ≢ j)
      → Window buf n h xs
      → Window (update buf j v) n h xs
  Window-frame buf n h j v [] hh ne w = tt
  Window-frame buf n h j v (x ∷ xs) hh ne w =
      let here : h ≢ j = λ e. ne 0 (omega arith) (mod-eq_of_lt (omega arith) ∙ omega arith) in
      (
        ground arith,
        Window-frame buf n ((h + 1) % n) j v xs (omega arith)
            (λ i l e. ne (suc i) (omega arith) (sym (index-suc h i n hh) ∙ e)) w.1,
      )

  Window-append :
      (buf : ℕ → Option T) (n h : ℕ) (xs : List T) (v : T)
      → h < n
      → Window buf n h xs
      → buf ((h + length xs) % n) ≡ some v
      → Window buf n h (xs ++ v ∷ [])
  Window-append buf n h [] v hh w e =
      let z : (h + 0) % n ≡ h = mod-eq_of_lt (omega arith) ∙ omega arith in (ap buf (sym z) ∙ e, tt)
  Window-append buf n h (x ∷ xs) v hh w e = (
    w.0,
    Window-append buf n ((h + 1) % n) xs v (omega arith) w.1
        (ap buf (index-suc h (length xs) n hh) ∙ e),
  )

  -- The buffer of the queue holds `xs`, oldest first.
  pub record Holds (q : Queue T) (xs : List T) : Type ℓ where
    pub window : Window q.buf q.capacity q.head xs
    pub counted : q.count ≡ length xs
    pub head_in : q.head < q.capacity
    pub room : q.count ≤ q.capacity

  -- The queue with one more value in the slot behind the last one.
  abbrev pub pushed : T → Queue T → Queue T
  pushed v q = record q {
    buf = update q.buf ((q.head + q.count) % q.capacity) (some v);
    count = q.count + 1;
  }

  -- The queue without the value in the slot at `head`.
  abbrev pub popped : Queue T → Queue T
  popped q = record q {
    buf = update q.buf q.head none;
    head = (q.head + 1) % q.capacity;
    count = q.count - 1;
  }

  -- A value pushed into a queue with room is the last of the buffer, wherever the indices wrap, and
  -- the others stay.
  pub push_slot-Holds :
      (q : Queue T) (xs : List T) (v : T)
      → Holds q xs
      → q.count < q.capacity
      → (push_slot v q ≡ ok (pushed v q)) × Holds (pushed v q) (xs ++ v ∷ [])
  unfolding push_slot
  push_slot-Holds q xs v a l =
      let j = (q.head + q.count) % q.capacity in
      let e : j ≡ (q.head + length xs) % q.capacity =
        ap (λ c. (q.head + c) % q.capacity) a.counted in
      let same =
        Window-frame q.buf q.capacity q.head j (some v) xs a.head_in
          (λ i h.
            index-injective q.head i q.count q.capacity a.head_in (omega (arith, a.counted)) l)
          a.window in
      let t : ltb q.count q.capacity ≡ true = ground arith in
      (
        rw t refl,
        record {
          window =
              Window-append (pushed v q).buf q.capacity q.head xs v a.head_in same (ground arith);
          counted = omega (arith, a.counted, length-append {ℓ} xs (v ∷ []));
          head_in = a.head_in;
          room = omega arith;
        },
      )

  -- From a queue with a value the first of the buffer is popped, and the others stay.
  pub pop_slot-Holds :
      (q : Queue T) (x : T) (xs : List T)
      → Holds q (x ∷ xs)
      → (pop_slot q ≡ ok (x, popped q)) × Holds (popped q) xs
  unfolding pop_slot
  pop_slot-Holds q x xs a =
      let t : ltb 0 q.count ≡ true = ground (arith, a.counted) in
      let n = q.capacity in
      let head' : (q.head + 1) % n < n = omega (arith, a.head_in) in
      let apart = λ (i : ℕ) (h : i < length xs) (e : ((q.head + 1) % n + i) % n ≡ q.head).
        index-injective q.head 0 (suc i) n a.head_in (omega arith)
          (omega (arith, a.counted, a.room))
          (mod-eq_of_lt (omega (arith, a.head_in))
            ∙ omega arith
            ∙ sym e
            ∙ index-suc q.head i n a.head_in) in
      (
        rw (t, a.window.0) refl,
        record {
          window = Window-frame q.buf n ((q.head + 1) % n) q.head none xs head' apart a.window.1;
          counted = omega (arith, a.counted);
          head_in = head';
          room = omega (arith, a.room);
        },
      )

  -- The contents are determined by the queue.
  pub Window-unique :
      (buf : ℕ → Option T) (n h : ℕ) (xs ys : List T)
      → Window buf n h xs
      → Window buf n h ys
      → length xs ≡ length ys
      → xs ≡ ys
  Window-unique buf n h [] [] a b e = refl
  Window-unique buf n h [] (y ∷ ys) a b e = absurd (omega arith)
  Window-unique buf n h (x ∷ xs) [] a b e = absurd (omega arith)
  Window-unique buf n h (x ∷ xs) (y ∷ ys) a b e =
      let r = Window-unique buf n ((h + 1) % n) xs ys a.1 b.1 (omega arith) in ground arith
