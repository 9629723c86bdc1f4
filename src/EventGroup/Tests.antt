-- ===== src/EventGroup/Tests.antt =====
-- The theorems on event groups with one waiter, for the bits 2 and 4.
use coo_rtos.Base.{◌↔◌, ℕ, ◌≡◌, refl, true, List, [], ◌∷◌, arith, Run, ok, Returns}
use coo_rtos.Kernel.{Kernel, wake}
use coo_rtos.EventGroup.Bits.{AnySet, AllSet, met-wait_lem}
use coo_rtos.EventGroup.{wait_any, wait_all, sync, EventGroup, met, set, sync_suspend}
use coo_rtos.EventGroup.Set.{Sound, Sets}
use coo_rtos.EventGroup.Sync.{Syncs, sync_suspend-Syncs}
use coo_rtos.Scene.{waiting, waiting-Inv, waiting-Timely, waiting-Unlinked}

abbrev group : EventGroup
group = record {
  bits = 2;
  waiters = 0;
  infos = λ w. record { want = 6; all = true; clear = true; result = 0 };
}

group-Sound : Sound group (waiting 0)
unfolding met
group-Sound = record {
  inv = waiting-Inv 0;
  timely = waiting-Timely 0;
  addressed = λ w i. ground arith;
  unmet = λ w i. refl;
}

-- The task 7 completes the set: both go on.
sync_suspend-Syncs_example :
    Returns
      (λ r.
        Returns
          (λ s.
            Sets 4 group (waiting 0) s.0 s.1
            × Sound r.1 r.2
            × Syncs 7 4 70 4 group s.0 s.1 r.0 r.1 r.2)
          (set 4 group (waiting 0)))
      (sync_suspend 4 4 70 group (waiting 0))
sync_suspend-Syncs_example =
    sync_suspend-Syncs group (waiting 0) group-Sound 7 4 70 refl refl (waiting-Unlinked 0 4 refl)
      refl 4

group_bits : Run (EventGroup × Kernel) → List ℕ
group_bits (ok r) = r.0.bits ∷ (r.0.infos 3).result ∷ []
group_bits r = []

cleared_on_exit : group_bits (set 4 group (waiting 0)) ≡ 0 ∷ 6 ∷ []
unfolding group_bits set met wake
cleared_on_exit = refl

-- Of the bits 2 and 4 only the first is set.
met-wait_lem_example :
    ((met (wait_any 6 true) 2 ≡ true) ↔ AnySet 6 2)
    × ((met (wait_all 6 true) 2 ≡ true) ↔ AllSet 6 2)
    × ((met (sync 6) 2 ≡ true) ↔ AllSet 6 2)
met-wait_lem_example = met-wait_lem 6 2 true
