-- ===== src/Await/Tests.antt =====
-- Two tasks that meet at a queue and at a semaphore, and a request to sleep.
use coo_rtos.Base.{ℕ, ◌≡◌, refl, none, [], true, arith, pos, Returns}
use coo_rtos.Tick.{to_ticks}
use coo_rtos.Kernel.{Kernel, ready, blocked}
use coo_rtos.Kernel.Thins.{Acts}
use coo_rtos.Semaphore.{counting, release}
use coo_rtos.Semaphore.Grant.{Sound as Permitted}
use coo_rtos.Queue.{Queue, try_send}
use coo_rtos.Queue.Backlog.{Sound}
use coo_rtos.Await.{suspends, co_await, receive, acquire, await_transform, duration, request}
use coo_rtos.Await.Meet.{receive_meets_send, acquire_meets_release}
use coo_rtos.Scene.{waiting, waiting-Inv, waiting-Timely, waiting-Unlinked}

abbrev empty : Queue ℕ
empty = record {
  capacity = 2;
  buf = λ i. none;
  head = 0;
  count = 0;
  receivers = 0;
  senders = 1;
  slots = λ a. none;
}

-- The task 8 waits for something else.
empty-Sound : Sound empty (waiting 2) [] []
empty-Sound = record {
  inv = waiting-Inv 2;
  timely = waiting-Timely 2;
  holds = record { window = tt; counted = refl; head_in = ground arith; room = ground arith };
  two_lists = λ e. absurd (ground arith);
  starved = λ w ws e. refl;
  crowded = λ w ws e. absurd (ground arith);
  addressed = λ w i. absurd (ground arith);
  pending = refl;
}

busy-Acts : Acts 7 4 (waiting 2)
busy-Acts = record { current = refl; runs = refl; fresh = waiting-Unlinked 2 4 refl }

receive_meets_send_example :
    Returns
      (λ o.
        (k : Kernel) × (o ≡ suspends (empty, k))
        × ((k.tasks 7).state ≡ blocked)
        × Returns
            (λ r.
              (r.0 ≡ true)
              × ((r.2.tasks 7).state ≡ ready)
              × Returns (λ p. p.0 ≡ 5) ((receive 4).await_resume (r.1, r.2)))
            (try_send 5 empty k))
      (co_await (receive 4) 70 (empty, waiting 2))
receive_meets_send_example =
    receive_meets_send empty (waiting 2) 7 4 70 busy-Acts [] empty-Sound 5 refl

used_up-Permitted : Permitted (counting 0 3 1) (waiting 2)
used_up-Permitted = record {
  inv = waiting-Inv 2;
  timely = waiting-Timely 2;
  bounded = ground arith;
  width = ground arith;
  fair = λ ne. absurd (ne refl);
}

acquire_meets_release_example :
    Returns
      (λ o.
        (k : Kernel) × (o ≡ suspends (counting 0 3 1, k))
        × ((k.tasks 7).state ≡ blocked)
        × Returns
            (λ r. (r.0 ≡ true) × ((r.2.tasks 7).state ≡ ready) × (r.1.count ≡ 0))
            (release (counting 0 3 1) k))
      (co_await (acquire 4) 70 (counting 0 3 1, waiting 2))
acquire_meets_release_example =
    acquire_meets_release (counting 0 3 1) (waiting 2) used_up-Permitted 7 4 70 busy-Acts refl refl

-- Half a second at 1000 ticks a second.
half_second :
    await_transform {A = ℕ} 1000 (duration (record { count = pos 500; num = 1; den = 1000 }))
    ≡ request (record { ticks = 500 })
unfolding await_transform to_ticks
half_second = refl
