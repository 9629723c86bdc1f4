-- ===== src/Async/Void.antt =====
-- task.hpp: `Async<void>`. Its promise is the base `AsyncPromiseBase` alone: there is no result to
-- wait for, and its resumption reads nothing.
use coo_rtos.Base.{
  ℕ, ◌≡◌, refl, ap, inl, inr, Bool, false, Bool-cases, Option, none, some, arith, ◌==◌, ==→eq,
  ==_refl, update, Run, ok, trap, Returns, ◌>>=◌,
}
use coo_rtos.Async.{follow}

pub record AsyncPromiseBase : Type 0 where
  pub continuation : Option ℕ

abbrev pub VoidFrames : Type 0
VoidFrames = ℕ → Option AsyncPromiseBase

-- `get_return_object`
pub create_void : ℕ → VoidFrames → VoidFrames
create_void h f = update f h (some (record { continuation = none }))

-- `Awaiter::await_ready`
pub void_ready : Option ℕ → Run Bool
void_ready none = trap
void_ready (some h) = ok false

-- `Awaiter::await_suspend`
pub void_suspend : ℕ → ℕ → VoidFrames → Run (ℕ × VoidFrames)
void_suspend h cont f =
    follow (f h) >>= λ p. ok (h, update f h (some (record p { continuation = some cont })))

-- `FinalAwaiter::await_suspend`, after `return_void`.
pub void_final : ℕ → VoidFrames → Run ℕ
void_final h f = follow (f h) >>= λ p. follow p.continuation

-- `~Async<void>`
pub destroy_void : Option ℕ → VoidFrames → VoidFrames
destroy_void none f = f
destroy_void (some h) f = update f h none

-- One call: the callee runs to its end, with whatever `body` does to other frames in between, and
-- control is with the caller again.
abbrev pub call_void : (VoidFrames → Run VoidFrames) → ℕ → ℕ → VoidFrames → Run (ℕ × VoidFrames)
call_void body h cur f = do
  (next, f₁) ← void_suspend h cur f
  f₂ ← body f₁
  back ← void_final next f₂
  ok (back, destroy_void (some h) f₂)

-- What a body may do: it returns, and leaves the frames that were alive as they were.
abbrev pub Tidy : (VoidFrames → Run VoidFrames) → Type 0
Tidy body =
    (f : VoidFrames)
    → Returns (λ f'. (x : ℕ) (p : AsyncPromiseBase) → f x ≡ some p → f' x ≡ some p) (body f)

-- A call of a new `Async<void>` whose body is tidy comes back to its caller, and then its frame is
-- gone and those that were alive before are as they were.
pub call_void-Tidy :
    (body : VoidFrames → Run VoidFrames) (h cur : ℕ) (f : VoidFrames)
    → Tidy body
    → f h ≡ none
    → Returns
        (λ r.
          (r.0 ≡ cur)
          × (r.1 h ≡ none)
          × ((x : ℕ) (p : AsyncPromiseBase) → f x ≡ some p → r.1 x ≡ some p))
        (call_void body h cur (create_void h f))
unfolding create_void void_suspend void_final destroy_void
call_void-Tidy body h cur f t dead =
    let p : AsyncPromiseBase = record { continuation = some cur } in
    let f₁ = update (update f h (some (record { continuation = none }))) h (some p) in
    let (f₂, e, k) = t f₁ in
    let m : f₂ h ≡ some p = k h p (rw (==_refl h) refl) in
    (
      (cur, update f₂ h none),
      rw (==_refl h, e, m) refl,
      (
        refl,
        rw (==_refl h) refl,
        λ x q a. elim (Bool-cases (x == h)) [
          | inl j ↦ absurd (ground (arith, ap f (==→eq x h j)))
          | inr j ↦ rw j (k x q (rw j a))
        ],
      ),
    )
