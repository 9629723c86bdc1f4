-- ===== src/Async/Tests.antt =====
-- The coroutine 1 calls 2, which calls 3.
use coo_rtos.Base.{
  ℕ, ◌+◌, ◌≡◌, refl, true, false, some, none, [], ◌∷◌, has, ok, Run, Returns, if◌then◌else◌, ◌==◌,
}
use coo_rtos.Async.{Frames, await_resume}
use coo_rtos.Async.Void.{VoidFrames}
use coo_rtos.Async.Calls.{call_all, end_all, call_all-end_all}

abbrev frames : Frames ℕ
frames h = some (record { continuation = none; result = none })

abbrev value : ℕ → ℕ
value h = h + 10

call_all-end_all_example :
    Returns
      (λ r.
        Returns
          (λ s.
            (s.0 ≡ 1)
            × ((h : ℕ) → has h (2 ∷ 3 ∷ []) ≡ true → await_resume h s.1 ≡ ok (value h))
            × ((x : ℕ) → has x (2 ∷ 3 ∷ []) ≡ false → s.1 x ≡ frames x))
          (end_all value r.0 (2 ∷ 3 ∷ []) r.1))
      (call_all 1 (2 ∷ 3 ∷ []) frames)
call_all-end_all_example =
    call_all-end_all value (2 ∷ 3 ∷ []) 1 frames (refl, (refl, tt))
      (λ h i. (record { continuation = none; result = none }, refl))

-- The coroutine 1 calls 2 again, which has no result this time and does nothing.
abbrev void_frames : VoidFrames
void_frames h = if h == 2 then none else some (record { continuation = none })

abbrev nothing : VoidFrames → Run VoidFrames
nothing f = ok f
