-- ===== src/SyncWait/Tests.antt =====
-- `sync_wait` with a pump that comes to the wrapper's end in its second round.
use coo_rtos.Base.{ℕ, refl, some, arith, Run, ok, ◌==◌, if◌then◌else◌, inl, inr, Bool-cases}
use coo_rtos.Kernel.{initial, start, make_ready}
use coo_rtos.SyncWait.{World, finish}
use coo_rtos.SyncWait.Pump.{Pumps, Waits, sync_wait-Waits}
use coo_rtos.System.Safe.{initial-Inv}
use coo_rtos.Scene.{small}

-- A tick in the first round, the end of the wrapper in the second.
abbrev pump : World ℕ → Run (World ℕ)
pump w =
    if w.kernel.tick_count == 0
    then ok (record w { kernel = record w.kernel { tick_count = 1 } })
    else ok (finish 5 w)

abbrev left_to_do : World ℕ → ℕ
left_to_do w = if w.slot.done then 0 else (if w.kernel.tick_count == 0 then 2 else 1)

abbrev Any : World ℕ → Type 0
Any w = Unit {0}

pump-Pumps : Pumps pump Any left_to_do
unfolding finish
pump-Pumps = record {
  gets_on = λ w k d. elim (Bool-cases (w.kernel.tick_count == 0)) [
    | inl e ↦ (
      record w { kernel = record w.kernel { tick_count = 1 } },
      ground arith,
      (tt, ground arith, inl refl),
    )
    | inr e ↦ (finish 5 w, ground arith, (tt, ground arith, inr (5, (w, refl))))
  ];
}

sync_wait-Waits_example : Waits pump Any left_to_do pump-Pumps (some 7) 0 3 (initial small)
unfolding make_ready start
sync_wait-Waits_example =
    sync_wait-Waits pump Any left_to_do pump-Pumps (initial small) (some 7) 0 3
      (initial-Inv small (ground arith)) (ground arith) (λ t e. refl) tt (ground arith)
