-- ===== src/Queue/Resume.antt =====
-- What the resumption of a receiver does to the queue: at most, it empties the slot of its awaiter.
use coo_rtos.Base.{
  ◌≡◌, refl, ℕ, ap, sym, ◌∙◌, ◌⊎◌, inl, inr, Bool, not, ◌&&◌, Bool-cases, Option, none, some, Run,
  ok, ◌>>=◌, ok_inj, trap_ok,
}
use coo_rtos.Kernel.{Kernel}
use coo_rtos.Queue.{Queue, deref, empty_slot, receive_resume, receive_for_resume}

module _ {ℓ} {T : Type ℓ} (q q' : Queue T) where
  -- The value in the slot, in the shape that the caller wants it, with the slot emptied.
  abbrev moved {κ} : {A : Type κ} → (T → A) → ℕ → Option T → Run (A × Queue T)
  moved f w o = deref o >>= λ y. ok (f y, empty_slot w q)

  moved_lem {κ} :
      {A : Type κ} (f : T → A) (w : ℕ) (o : Option T) (x : A)
      → moved f w o ≡ ok (x, q')
      → q' ≡ empty_slot w q
  moved_lem {A = A} f w (some y) x e = sym (ap (λ (r : A × Queue T). r.1) (ok_inj e))
  moved_lem f w none x e = absurd (trap_ok e)

  pub receive_resume_lem : (w : ℕ) (x : T) → receive_resume w q ≡ ok (x, q') → q' ≡ empty_slot w q
  unfolding receive_resume
  receive_resume_lem w x e = moved_lem (λ y. y) w (q.slots w) x e

  pub receive_for_resume_lem :
      (got : Bool) (w : ℕ) (k : Kernel) (o : Option T)
      → receive_for_resume got w q k ≡ ok (o, q')
      → (q' ≡ q) ⊎ (q' ≡ empty_slot w q)
  unfolding receive_for_resume
  receive_for_resume_lem got w k o e = elim (Bool-cases (not got && (k.nodes w).timed_out)) [
    | inl c ↦
        let n : receive_for_resume got w q k ≡ ok (none, q) = rw c refl in
        inl (sym (ap (λ (r : Option T × Queue T). r.1) (ok_inj (sym n ∙ e))))
    | inr c ↦
        let n : receive_for_resume got w q k ≡ moved some w (q.slots w) = rw c refl in
        inr (moved_lem some w (q.slots w) o (sym n ∙ e))
  ]
