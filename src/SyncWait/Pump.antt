-- ===== src/SyncWait/Pump.antt =====
-- `sync_wait` returns when its pump makes the tasks get on with their work.
use Prim.Native.Nat.{min}
use coo_rtos.Base.{
  ◌-◌, ◌⊎◌, Option, ℕ, zero, suc, ◌<◌, ◌≡◌, refl, ap, ◌∙◌, inl, inr, true, false, none, some, arith,
  Run, ok, trap, ◌>>=◌, Returns, if◌then◌else◌,
}
use coo_rtos.Kernel.{created, Kernel, start}
use coo_rtos.Kernel.Invariant.{Inv}
use coo_rtos.Kernel.Start.{Queued, start-Queued, start_invalid}
use coo_rtos.SyncWait.{SyncSlot, World, take_value, finish, pump_until_done, sync_wait}

module _ {ℓ} {T : Type ℓ} where
  -- The slot is as the end of the wrapper task has left it, with what its `Async` returned.
  abbrev pub Finished : T → SyncSlot T → Type ℓ
  Finished v s = (y : World T) × (s ≡ (finish v y).slot)

  -- A slot that the wrapper has not come to yet, or has finished.
  abbrev Written : SyncSlot T → Type ℓ
  Written s = (s.done ≡ false) ⊎ ((v : T) × Finished v s)

  Finished-value : (v : T) (s : SyncSlot T) → Finished v s → (s.done ≡ true) × (s.value ≡ some v)
  unfolding finish
  Finished-value v s (y, e) =
      (ap (λ (x : SyncSlot T). x.done) e, ap (λ (x : SyncSlot T). x.value) e)

  -- The world in which the loop begins.
  abbrev pub begun : Kernel → World T
  begun k = record { kernel = k; slot = record { value = none; done = false } }

  -- What is asked of a pump: while the slot is not done, each of its calls returns and leaves less to
  -- do, in a world that is as `Keeps` says; and nothing but the end of the wrapper writes the slot.
  pub record Pumps (pump : World T → Run (World T)) (Keeps : World T → Type 0) (work : World T → ℕ)
      : Type ℓ where
    pub gets_on :
        (w : World T)
        → Keeps w
        → w.slot.done ≡ false
        → Returns
            (λ x. Keeps x × (work x < work w) × ((x.slot ≡ w.slot) ⊎ ((v : T) × Finished v x.slot)))
            (pump w)

  module _ (pump : World T → Run (World T)) (Keeps : World T → Type 0) (work : World T → ℕ)
      (p : Pumps pump Keeps work) where
    abbrev pub Ends : T × World T → Type ℓ
    Ends r = Keeps r.1 × Finished r.0 r.1.slot

    pump_stop :
        (fuel : ℕ) (w : World T) (v : T)
        → w.slot.done ≡ true
        → w.slot.value ≡ some v
        → pump_until_done pump (suc fuel) w ≡ ok (v, w)
    unfolding pump_until_done
    pump_stop fuel w v d e =
        ap
          (λ b.
            if b
            then (take_value w.slot.value >>= λ x. ok (x, w))
            else (pump w >>= pump_until_done pump fuel))
          d
        ∙ ap (λ o. take_value o >>= λ x. ok (x, w)) e

    pump_step :
        (fuel : ℕ) (w x : World T)
        → w.slot.done ≡ false
        → pump w ≡ ok x
        → pump_until_done pump (suc fuel) w ≡ pump_until_done pump fuel x
    unfolding pump_until_done
    pump_step fuel w x d e =
        ap
          (λ b.
            if b
            then (take_value w.slot.value >>= λ y. ok (y, w))
            else (pump w >>= pump_until_done pump fuel))
          d
        ∙ ap (λ m. m >>= pump_until_done pump fuel) e

    wrote :
        (w x : World T)
        → w.slot.done ≡ false
        → (x.slot ≡ w.slot) ⊎ ((v : T) × Finished v x.slot)
        → Written x.slot
    wrote w x d (inl e) = inl (ap (λ (s : SyncSlot T). s.done) e ∙ d)
    wrote w x d (inr f) = inr f

    pump_until_done-Ends :
        (fuel : ℕ) (w : World T)
        → Keeps w
        → Written w.slot
        → work w < fuel
        → Returns Ends (pump_until_done pump fuel w)
    pump_until_done-Ends zero w k f l = absurd (omega arith)
    pump_until_done-Ends (suc fuel) w k (inr (v, f)) l =
        let (d, e) = Finished-value v w.slot f in ((v, w), pump_stop fuel w v d e, (k, f))
    pump_until_done-Ends (suc fuel) w k (inl d) l =
        let (x, e, a) = p.gets_on w k d in
        let (r, q, b) = pump_until_done-Ends fuel x a.0 (wrote w x d a.2) (omega (arith, a.1)) in
        (r, pump_step fuel w x d e ∙ q, b)

    -- What `sync_wait` does with its wrapper task: without a frame for it, it traps; else it starts the
    -- task and returns what the task has left in the slot.
    abbrev pub Waits : Option ℕ → ℕ → ℕ → Kernel → Type ℓ
    Waits none prio fuel k = sync_wait pump none prio fuel k ≡ trap
    Waits (some t) prio fuel k =
        Queued t t (min prio (k.num_priorities - 1)) k (start (some t) prio k).1
        × Returns Ends (sync_wait pump (some t) prio fuel k)

    -- In a kernel whose invariant holds, with at least one priority: `sync_wait` traps when there is no
    -- frame for its wrapper task. Otherwise, if the task is a new one, each call of the pump from the
    -- start of the wrapper on returns and leaves less to do as long as the slot is not done, and only
    -- the end of the wrapper writes the slot: the wrapper is made ready at its priority, and `sync_wait`
    -- returns the value with which the wrapper ended. The fuel is more than the work after the start.
    pub sync_wait-Waits :
        (k : Kernel) (task : Option ℕ) (prio fuel : ℕ)
        → Inv k
        → 0 < k.num_priorities
        → ((t : ℕ) → task ≡ some t → (k.tasks t).state ≡ created)
        → Keeps (begun (start task prio k).1)
        → work (begun (start task prio k).1) < fuel
        → Waits task prio fuel k
    unfolding sync_wait
    sync_wait-Waits k none prio fuel v n c g l = rw (start_invalid k prio) refl
    sync_wait-Waits k (some t) prio fuel v n c g l =
        let s = start-Queued k t prio v n (c t refl) in
        let (r, e, a) =
          pump_until_done-Ends fuel (begun (start (some t) prio k).1) g (inl refl) l in
        (s.2, (r, rw s.0 e, a))
