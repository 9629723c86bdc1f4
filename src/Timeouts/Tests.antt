-- ===== src/Timeouts/Tests.antt =====
-- The calls with a duration of 15 ms, at 100 ticks a second.
use coo_rtos.Base.{ℕ, refl, false, true, none, some, [], pos, arith, Returns}
use coo_rtos.Tick.{add_tick, Duration}
use coo_rtos.Queue.{Queue}
use coo_rtos.Queue.Backlog.{Sound}
use coo_rtos.Queue.Await.{Receives}
use coo_rtos.EventGroup.{EventGroup, set_info, wait_any, wait_all}
use coo_rtos.EventGroup.Set.{Sound as Attended}
use coo_rtos.Timeouts.{
  RoundedUp, RoundedWait, receive_for_duration, receive_for_duration-Receives, wait_any_for,
  wait_all_for, wait_for_duration_lem,
}
use coo_rtos.Scene.{waiting, waiting-Inv, waiting-Timely, waiting-Unlinked}

abbrev short_time : Duration
short_time = record { count = pos 15; num = 1; den = 1000 }

abbrev empty : Queue ℕ
empty = record {
  capacity = 2;
  buf = λ i. none;
  head = 0;
  count = 0;
  receivers = 0;
  senders = 1;
  slots = λ a. none;
}

empty-Sound : Sound empty (waiting 0) [] []
empty-Sound = record {
  inv = waiting-Inv 0;
  timely = waiting-Timely 0;
  holds = record { window = tt; counted = refl; head_in = ground arith; room = ground arith };
  two_lists = λ e. absurd (ground arith);
  starved = λ w ws e. refl;
  crowded = λ w ws e. absurd (ground arith);
  addressed = λ w i. ground arith;
  pending = refl;
}

-- The task 7 waits behind the task 8, two ticks at most.
receive_for_duration-Receives_example :
    Returns
      (λ r.
        (n : ℕ) × RoundedUp 1500 1000 n
        × Receives 7 4 70
            (some (add_tick (waiting 0).tick_count n))
            empty
            (waiting 0)
            []
            []
            r.0
            r.1
            r.2)
      (receive_for_duration 100 short_time 4 70 empty (waiting 0))
receive_for_duration-Receives_example =
    receive_for_duration-Receives 100 15 1 1000 (ground arith) (ground arith) empty (waiting 0) []
      [] empty-Sound 7 4 70 refl refl (waiting-Unlinked 0 4 refl)

abbrev group : EventGroup
group = record {
  bits = 2;
  waiters = 1;
  infos = λ w. record { want = 6; all = true; clear = true; result = 0 };
}

group-Attended : Attended group (waiting 0)
group-Attended = record {
  inv = waiting-Inv 0;
  timely = waiting-Timely 0;
  addressed = λ w i. absurd (ground arith);
  unmet = λ w i. absurd (ground arith);
}

-- One of the bits 2 and 4 is set, so that only the first of the two calls goes on.
wait_for_duration_lem_example :
    Returns
      (RoundedWait 1500 1000 7 4 70 (set_info 4 (wait_any 6 false) group) (waiting 0))
      (wait_any_for 100 6 false short_time 4 70 group (waiting 0))
    × Returns
        (RoundedWait 1500 1000 7 4 70 (set_info 4 (wait_all 6 false) group) (waiting 0))
        (wait_all_for 100 6 false short_time 4 70 group (waiting 0))
wait_for_duration_lem_example =
    wait_for_duration_lem 100 15 1 1000 (ground arith) (ground arith) (waiting 0) 7 4 70 refl refl
      (waiting-Unlinked 0 4 refl) 6 false group group-Attended
