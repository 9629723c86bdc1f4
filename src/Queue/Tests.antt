-- ===== src/Queue/Tests.antt =====
-- The theorems on queues: empty with a receiver, and full with a sender.
use coo_rtos.Base.{
  ok, ◌<◌, inl, inr, Bool-cases, true, false, ℕ, ◌≡◌, refl, none, [], ◌∷◌, arith, Returns,
  if◌then◌else◌, ◌==◌,
}
use coo_rtos.Queue.Timeout.{send_before_tick}
use coo_rtos.Kernel.{Kernel, tick_isr, wake}
use coo_rtos.Queue.Destroy.{Clean, destroy-Clean}
use coo_rtos.Base.{Bool, Option, some, List, ◌++◌, Returns-ok, value_or}
use coo_rtos.Tick.{deadline_le}
use coo_rtos.Kernel.Tick.{Ticked, tick_isr-Ticked}
use coo_rtos.Kernel.Calm.{Ticked-Calm}
use coo_rtos.Queue.Calls.{tries_send, tries_receive}
use coo_rtos.Queue.Traffic.{Traffic, idle, then_step, calls, elsewhere, Carried, Calm-Elsewhere}
use coo_rtos.Queue.Fifo.{Traffic-Carried, in_order}
use coo_rtos.Queue.{destroy, receive_for_resume, empty_slot, Queue, try_send, try_receive}
use coo_rtos.Queue.Backlog.{Sound}
use coo_rtos.Queue.Send.{Delivers, try_send-Delivers}
use coo_rtos.Scene.{advance-Inv, waiting, waiting-Inv, waiting-Timely}

-- A queue of two numbers; the values in it start at its second place.
abbrev empty : Queue ℕ
empty = record {
  capacity = 2;
  buf = λ i. none;
  head = 1;
  count = 0;
  receivers = 0;
  senders = 1;
  slots = λ a. none;
}

abbrev full : Queue ℕ
full = record {
  capacity = 2;
  buf = λ i. if i == 1 then some 10 else some 20;
  head = 1;
  count = 2;
  receivers = 0;
  senders = 1;
  slots = λ a. if a == 3 then some 30 else none;
}

empty-Sound : Sound empty (waiting 0) [] []
empty-Sound = record {
  inv = waiting-Inv 0;
  timely = waiting-Timely 0;
  holds = record { window = tt; counted = refl; head_in = ground arith; room = ground arith };
  two_lists = λ e. absurd (ground arith);
  starved = λ w ws e. refl;
  crowded = λ w ws e. absurd (ground arith);
  addressed = λ w i. ground arith;
  pending = refl;
}

-- The task 8 is blocked with the value 30.
full-Sound : Sound full (waiting 1) (10 ∷ 20 ∷ []) (30 ∷ [])
full-Sound = record {
  inv = waiting-Inv 1;
  timely = waiting-Timely 1;
  holds = record {
    window = (refl, (refl, tt));
    counted = refl;
    head_in = ground arith;
    room = ground arith;
  };
  two_lists = λ e. absurd (ground arith);
  starved = λ w ws e. absurd (ground arith);
  crowded = λ w ws e. refl;
  addressed = λ w i. absurd (ground arith);
  pending = (30, [], refl, refl, refl, refl);
}

-- The waiting task 8 is handed the value.
try_send-Delivers_example :
    Returns (λ r. Delivers 5 empty (waiting 0) [] [] r.0 r.1 r.2) (try_send 5 empty (waiting 0))
try_send-Delivers_example = try_send-Delivers 5 empty (waiting 0) [] [] empty-Sound

-- At tick 99 the timeout of the task 8, which waits to receive, runs out next.
abbrev last_tick : Kernel
last_tick = record (waiting 0) { tick_count = 99 }

last_tick-Sound : Sound empty last_tick [] []
last_tick-Sound = record {
  inv = advance-Inv 0 99;
  timely = record {
    clock = ground arith;
    stamps = (waiting-Timely 0).stamps;
    sorted = (ground arith, ground arith, tt);
  };
  holds = empty-Sound.holds;
  two_lists = empty-Sound.two_lists;
  starved = empty-Sound.starved;
  crowded = empty-Sound.crowded;
  addressed = empty-Sound.addressed;
  pending = empty-Sound.pending;
}

send_before_tick_example :
    Returns
      (λ r.
        (r.0 ≡ true)
        × Returns
            (λ k''. receive_for_resume false 3 r.1 k'' ≡ ok (some 5, empty_slot 3 r.1))
            (tick_isr r.2))
      (try_send 5 empty last_tick)
send_before_tick_example = send_before_tick empty last_tick [] [] last_tick-Sound 5 3 [] refl

-- The task 8 is blocked with the value 30 until the next tick, which withdraws it.
abbrev timing_out : Kernel
timing_out = record (waiting 1) { tick_count = 99 }

timing_out-Sound : Sound full timing_out (10 ∷ 20 ∷ []) (30 ∷ [])
timing_out-Sound = record {
  inv = advance-Inv 1 99;
  timely = record {
    clock = ground arith;
    stamps = (waiting-Timely 1).stamps;
    sorted = (ground arith, ground arith, tt);
  };
  holds = full-Sound.holds;
  two_lists = full-Sound.two_lists;
  starved = full-Sound.starved;
  crowded = full-Sound.crowded;
  addressed = full-Sound.addressed;
  pending = full-Sound.pending;
}

full-Clean : Clean full
full-Clean i l out = elim (Bool-cases (i == 0)) [
  | inl e ↦ absurd (out 1 (ground arith) (ground arith))
  | inr e ↦ absurd (out 0 (ground arith) (ground arith))
]

destroy-Clean_example :
    Returns (λ z. (z.capacity ≡ 2) × ((i : ℕ) → i < 2 → z.buf i ≡ none)) (destroy full)
destroy-Clean_example = destroy-Clean full (10 ∷ 20 ∷ []) full-Sound.holds full-Clean

-- The sender of 30 times out at the next tick, and then the oldest value is taken.
abbrev ticked : Kernel
unfolding tick_isr
ticked = value_or timing_out (tick_isr timing_out)

ticked-Ticked : Ticked timing_out ticked
unfolding tick_isr deadline_le
ticked-Ticked =
    Returns-ok ticked (tick_isr-Ticked timing_out timing_out-Sound.inv timing_out-Sound.timely) refl

abbrev served : Option ℕ × Queue ℕ × Kernel
unfolding try_receive tick_isr
served = value_or (none, full, ticked) (try_receive full ticked)

served-Traffic : Traffic full timing_out [] (10 ∷ []) 1 served.1 served.2
unfolding try_receive tick_isr deadline_le
served-Traffic =
    then_step [] [] 1 full ticked [] (10 ∷ []) 0 served.1 served.2
      (then_step [] [] 0 full timing_out [] [] 1 full ticked idle (
        elsewhere 1 ticked (
          Calm-Elsewhere full timing_out ticked 1 (Ticked-Calm timing_out ticked ticked-Ticked)
            refl)))
      (calls served.1 served.2 (tries_receive (some 10) refl))

served-Carried : Carried (10 ∷ 20 ∷ []) (30 ∷ []) [] (10 ∷ []) 1 served.1 served.2
served-Carried =
    Traffic-Carried full timing_out (10 ∷ 20 ∷ []) (30 ∷ []) timing_out-Sound [] (10 ∷ []) 1
      served.1 served.2 served-Traffic

-- The task 8 is handed 5, and 6 goes through the buffer.
abbrev first : Bool × Queue ℕ × Kernel
unfolding try_send wake
first = value_or (false, empty, waiting 0) (try_send 5 empty (waiting 0))

abbrev second : Bool × Queue ℕ × Kernel
unfolding try_send
second = value_or (false, empty, waiting 0) (try_send 6 first.1 first.2)

abbrev third : Option ℕ × Queue ℕ × Kernel
unfolding try_receive
third = value_or (none, empty, waiting 0) (try_receive second.1 second.2)

third-Traffic : Traffic empty (waiting 0) (5 ∷ 6 ∷ []) (5 ∷ 6 ∷ []) 0 third.1 third.2
unfolding try_send try_receive wake
third-Traffic =
    then_step (5 ∷ 6 ∷ []) (5 ∷ []) 0 second.1 second.2 [] (6 ∷ []) 0 third.1 third.2
      (then_step (5 ∷ []) (5 ∷ []) 0 first.1 first.2 (6 ∷ []) [] 0 second.1 second.2
        (then_step [] [] 0 empty (waiting 0) (5 ∷ []) (5 ∷ []) 0 first.1 first.2 idle
          (calls first.1 first.2 (tries_send 5 true refl)))
        (calls second.1 second.2 (tries_send 6 true refl)))
      (calls third.1 third.2 (tries_receive (some 6) refl))

third_in_order : (left : List ℕ) × (5 ∷ 6 ∷ [] ≡ (5 ∷ 6 ∷ []) ++ left)
third_in_order =
    in_order empty (waiting 0) empty-Sound (5 ∷ 6 ∷ []) (5 ∷ 6 ∷ []) third.1 third.2 third-Traffic
