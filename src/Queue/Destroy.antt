-- ===== src/Queue/Destroy.antt =====
-- No value is left behind: the slots of the buffer hold constructed values exactly where the queue
-- counts them, and its destructor destroys them all.
use native.Mathlib.Nat.{mod-eq_of_lt}
use coo_rtos.Base.{
  ℕ, zero, suc, ◌+◌, ◌-◌, ◌%◌, ◌<◌, ◌≡◌, ◌≢◌, refl, sym, ◌∙◌, inl, inr, true, false, none, List, [],
  ◌∷◌, arith, ltb, ◌==◌, Bool-cases, length, Returns,
}
use coo_rtos.Queue.{Queue, drain, destroy}
use coo_rtos.Queue.Ring.{Holds, pushed, popped, pop_slot-Holds, index-suc}

module _ {ℓ} {T : Type ℓ} where
  -- A slot that none of the counted values is in is empty.
  abbrev pub Clean : Queue T → Type ℓ
  Clean q =
      (i : ℕ)
      → i < q.capacity
      → ((j : ℕ) → j < q.count → (q.head + j) % q.capacity ≢ i)
      → q.buf i ≡ none

  pub pushed-Clean : (q : Queue T) (v : T) → Clean q → Clean (pushed v q)
  pushed-Clean q v c i l out =
      let ne : i ≢ (q.head + q.count) % q.capacity = λ e. out q.count (omega arith) (sym e) in
      let off : (i == (q.head + q.count) % q.capacity) ≡ false = ground arith in
      rw off (c i l (λ j h. out j (omega arith)))

  elsewhere :
      (q : Queue T) (i : ℕ)
      → q.head < q.capacity
      → i ≢ q.head
      → ((j : ℕ) → j < q.count - 1 → ((q.head + 1) % q.capacity + j) % q.capacity ≢ i)
      → (j : ℕ) → j < q.count
      → (q.head + j) % q.capacity ≢ i
  elsewhere q i hh ne out zero l e =
      let here : (q.head + 0) % q.capacity ≡ q.head = mod-eq_of_lt (omega arith) ∙ omega arith in
      ne (sym e ∙ here)
  elsewhere q i hh ne out (suc j) l e = out j (omega arith) (index-suc q.head j q.capacity hh ∙ e)

  pub popped-Clean : (q : Queue T) → q.head < q.capacity → Clean q → Clean (popped q)
  popped-Clean q hh c i l out = elim (Bool-cases (i == q.head)) [
    | inl e ↦ rw e refl
    | inr e ↦ rw e (c i l (elsewhere q i hh (ground arith) out))
  ]

  drained :
      (xs : List T) (q : Queue T) (fuel : ℕ)
      → Holds q xs
      → Clean q
      → length xs < fuel
      → Returns
          (λ z. (z.capacity ≡ q.capacity) × ((i : ℕ) → i < q.capacity → z.buf i ≡ none))
          (drain fuel q)
  unfolding drain
  drained xs q zero h c l = absurd (omega arith)
  drained [] q (suc fuel) h c l =
      let stop : ltb 0 q.count ≡ false = ground (arith, h.counted) in
      (q, rw stop refl, (refl, λ i k. c i k (λ j m. absurd (omega (arith, h.counted)))))
  drained (x ∷ xs) q (suc fuel) h c l =
      let go : ltb 0 q.count ≡ true = ground (arith, h.counted) in
      let p = pop_slot-Holds q x xs h in
      let (z, e, a) = drained xs (popped q) fuel p.1 (popped-Clean q h.head_in c) (omega arith) in
      (z, rw (go, h.window.0) e, a)

  -- The destructor of a queue does not trap, and destroys every value that its buffer holds: no slot
  -- is left with one.
  pub destroy-Clean :
      (q : Queue T) (xs : List T)
      → Holds q xs
      → Clean q
      → Returns
          (λ z. (z.capacity ≡ q.capacity) × ((i : ℕ) → i < q.capacity → z.buf i ≡ none))
          (destroy q)
  unfolding destroy
  destroy-Clean q xs h c = drained xs q (q.count + 1) h c (omega (arith, h.counted))
