-- ===== src/Async/Calls.antt =====
-- Nested coroutines return to their callers.
use coo_rtos.Base.{
  ℕ, ◌≡◌, refl, ap, ◌∙◌, inl, inr, true, false, Bool-cases, some, List, [], ◌∷◌, arith, has,
  Distinct, ◌==◌, ==→eq, ==_refl, update, Run, ok, Returns, ◌>>=◌,
}
use coo_rtos.Async.{Promise, Frames, await_suspend, return_value, final_suspend, await_resume}

module _ {ℓ} {T : Type ℓ} where
  -- The coroutine `cur` awaits the first of the list, which awaits the next, and so on: the one that
  -- runs at the end.
  abbrev pub call_all : ℕ → List ℕ → Frames T → Run (ℕ × Frames T)
  call_all cur [] f = ok (cur, f)
  call_all cur (h ∷ hs) f = await_suspend h cur f >>= λ (next, f'). call_all next hs f'

  -- The running coroutine ends with its value: the one that runs next.
  abbrev pub end_one : (ℕ → T) → ℕ → Frames T → Run (ℕ × Frames T)
  end_one v cur f = do f' ← return_value cur (v cur) f; next ← final_suspend cur f'; ok (next, f')

  -- As many ends as the list is long.
  abbrev pub end_all : (ℕ → T) → ℕ → List ℕ → Frames T → Run (ℕ × Frames T)
  end_all v cur [] f = ok (cur, f)
  end_all v cur (h ∷ hs) f = end_all v cur hs f >>= λ (next, f'). end_one v next f'

  end_one_lem :
      (v : ℕ → T) (h cur : ℕ) (f : Frames T) (p : Promise T)
      → f h ≡ some p
      → p.continuation ≡ some cur
      → end_one v h f ≡ ok (cur, update f h (some (record p { result = some (v h) })))
  unfolding return_value final_suspend
  end_one_lem v h cur f p e c = rw (e, ==_refl h, c) refl

  -- Coroutines that await each other in turn, with frames that are alive and different, run down to
  -- the last one. When each has ended with its value the first caller runs again, every caller finds
  -- the value of the coroutine that it called, and all other frames are as they were.
  pub call_all-end_all :
      (v : ℕ → T) (hs : List ℕ) (cur : ℕ) (f : Frames T)
      → Distinct hs
      → ((h : ℕ) → has h hs ≡ true → (p : Promise T) × (f h ≡ some p))
      → Returns
          (λ r.
            Returns
              (λ s.
                (s.0 ≡ cur)
                × ((h : ℕ) → has h hs ≡ true → await_resume h s.1 ≡ ok (v h))
                × ((x : ℕ) → has x hs ≡ false → s.1 x ≡ f x))
              (end_all v r.0 hs r.1))
          (call_all cur hs f)
  unfolding await_suspend await_resume
  call_all-end_all v [] cur f d alive =
      ((cur, f), refl, ((cur, f), refl, (refl, λ h i. absurd (ground arith), λ x i. refl)))
  call_all-end_all v (h ∷ hs) cur f d alive =
      let (p, e) = alive h (ground arith) in
      let p₁ : Promise T = record p { continuation = some cur } in
      let f₁ = update f h (some p₁) in
      let (r, q, (s, z, (a, b, c))) = call_all-end_all v hs h f₁ d.1 λ x i.
        let (px, ex) = alive x (ground arith) in
        (
          px,
          elim (Bool-cases (x == h)) [
            | inl j ↦ absurd (ground (arith, d.0, ap (λ y. has y hs) (==→eq x h j)))
            | inr j ↦ rw j ex
          ],
        ) in
      let m : s.1 h ≡ some p₁ = c h d.0 ∙ rw (==_refl h) refl in
      let f₂ = update s.1 h (some (record p₁ { result = some (v h) })) in
      (
        r,
        rw e q,
        (
          (cur, f₂),
          rw (z, a) (end_one_lem v h cur s.1 p₁ m refl),
          (
            refl,
            λ x i. elim (Bool-cases (x == h)) [
              | inl j ↦ rw (==→eq x h j, ==_refl h) refl
              | inr j ↦ rw j (b x (ground arith))
            ],
            λ x i. let j : (x == h) ≡ false = ground arith in rw j (c x (ground arith) ∙ rw j refl),
          ),
        ),
      )
