-- ===== src/Timeouts.antt =====
-- The calls with a timeout that take a duration: `receive_for` and `send_for` of queue.hpp,
-- `try_acquire_for` of semaphore.hpp, `wait_any_for` and `wait_all_for` of event_group.hpp. The first
-- argument is RTOS_TICK_HZ.
mod Tests
use coo_rtos.Base.{ℕ, ◌+◌, ◌-◌, ◌*◌, ◌≤◌, ◌<◌, ◌≡◌, Bool, not, pos, some, List, arith, Run, Returns}
use coo_rtos.Tick.{tick_mod, half_range, add_tick, Duration, to_ticks}
use coo_rtos.Tick.Ceil.{to_ticks_ceil}
use coo_rtos.Kernel.{running, Kernel}
use coo_rtos.Kernel.Link.{Unlinked}
use coo_rtos.Sleep.Lasts.{factor_lt}
use coo_rtos.Semaphore.{Semaphore, acquire_for_suspend}
use coo_rtos.Semaphore.Grant.{acquire_for_suspend-Acquires, Acquires}
use coo_rtos.Semaphore.Grant.{Sound as Granted}
use coo_rtos.EventGroup.{WaitInfo, EventGroup, set_info, wait_any, wait_all, wait_for_suspend}
use coo_rtos.EventGroup.Set.{Sound as Attended}
use coo_rtos.EventGroup.Wait.{Waits, wait_for_suspend-Waits}
use coo_rtos.EventGroup.Calls.{fresh-Sound}
use coo_rtos.Queue.{Queue, receive_for_suspend, send_for_suspend}
use coo_rtos.Queue.Backlog.{Sound}
use coo_rtos.Queue.Await.{Receives, receive_for_suspend-Receives}
use coo_rtos.Queue.Send.{Sends, send_for_suspend-Sends}

pub acquire_for_duration :
    ℕ → Semaphore → Duration → ℕ → ℕ → Kernel → Run (Bool × Bool × Semaphore × Kernel)
acquire_for_duration hz s d w h k = acquire_for_suspend s (to_ticks hz d) w h k

-- The awaiter that `wait_any_for` or `wait_all_for` makes holds `info`.
pub wait_for : WaitInfo → ℕ → ℕ → ℕ → EventGroup → Kernel → Run (Bool × EventGroup × Kernel)
wait_for info timeout w h g k = wait_for_suspend timeout w h (set_info w info g) k

pub wait_any_for :
    ℕ → ℕ → Bool → Duration → ℕ → ℕ → EventGroup → Kernel → Run (Bool × EventGroup × Kernel)
wait_any_for hz bits clear_on_exit d w h g k =
    wait_for (wait_any bits clear_on_exit) (to_ticks hz d) w h g k

pub wait_all_for :
    ℕ → ℕ → Bool → Duration → ℕ → ℕ → EventGroup → Kernel → Run (Bool × EventGroup × Kernel)
wait_all_for hz bits clear_on_exit d w h g k =
    wait_for (wait_all bits clear_on_exit) (to_ticks hz d) w h g k

-- The ticks of a duration are the least that are not shorter, and fit a timeout.
abbrev pub RoundedUp : ℕ → ℕ → ℕ → Type 0
RoundedUp scaled den n = (n < half_range) × (scaled ≤ n * den) × (n * den < scaled + den)

-- What `wait_any_for` and `wait_all_for` come to, with the awaiter `w` in the group `f`.
pub RoundedWait : ℕ → ℕ → ℕ → ℕ → ℕ → EventGroup → Kernel → Bool × EventGroup × Kernel → Type 0
RoundedWait scaled den t w h f k r =
    (n : ℕ) × RoundedUp scaled den n
    × Attended r.1 r.2
    × Waits t w h (some (add_tick k.tick_count n)) f k r.0 r.1 r.2

module _ {ℓ} {T : Type ℓ} where
  pub receive_for_duration : ℕ → Duration → ℕ → ℕ → Queue T → Kernel → Run (Bool × Queue T × Kernel)
  receive_for_duration hz d w h q k = receive_for_suspend (to_ticks hz d) w h q k

  pub send_for_duration :
      ℕ → T → Duration → ℕ → ℕ → Queue T → Kernel → Run (Bool × Queue T × Kernel)
  send_for_duration hz v d w h q k = send_for_suspend v (to_ticks hz d) w h q k

module _ (hz count num den : ℕ) (pd : 0 < den)
    (fits : count * num * hz ≤ (half_range - 1) * den) where
  abbrev length_of : Duration
  length_of = record { count = pos count; num = num; den = den }

  ticks_RoundedUp : RoundedUp (count * num * hz) den (to_ticks hz length_of)
  ticks_RoundedUp =
      let c = to_ticks_ceil hz count num den pd (omega arith) in
      let n = to_ticks hz length_of in
      (factor_lt n half_range den (omega (arith, c.1, fits)), c.0, c.1)

  module _ {ℓ} {T : Type ℓ} (q : Queue T) (k : Kernel) (xs vs : List T) (v : Sound q k xs vs)
      (t w h : ℕ) (e : k.current ≡ some t) (run : (k.tasks t).state ≡ running)
      (u : Unlinked k w) where
    -- With a duration that is not negative and less than 2^31 ticks `receive_for` of a running task on a
    -- sound queue does not trap and keeps the queue sound. It takes the oldest value if there is one;
    -- else the task is the last receiver, and its deadline is the least number of ticks ahead that is
    -- not shorter than the duration.
    pub receive_for_duration-Receives :
        Returns
          (λ r.
            (n : ℕ) × RoundedUp (count * num * hz) den n
            × Receives t w h (some (add_tick k.tick_count n)) q k xs vs r.0 r.1 r.2)
          (receive_for_duration hz length_of w h q k)
    unfolding receive_for_duration
    receive_for_duration-Receives =
        let c = ticks_RoundedUp in
        let (r, o, a) =
          receive_for_suspend-Receives q k xs vs v t w h e run u (to_ticks hz length_of) c.0 in
        (r, o, (to_ticks hz length_of, c, a))

    pub send_for_duration-Sends :
        (x : T)
        → Returns
            (λ r.
              (n : ℕ) × RoundedUp (count * num * hz) den n
              × Sends t w h (some (add_tick k.tick_count n)) x q k xs vs r.0 r.1 r.2)
            (send_for_duration hz x length_of w h q k)
    unfolding send_for_duration
    send_for_duration-Sends x =
        let c = ticks_RoundedUp in
        let (r, o, a) =
          send_for_suspend-Sends x q k xs vs v t w h e run u (to_ticks hz length_of) c.0 in
        (r, o, (to_ticks hz length_of, c, a))

  module _ (k : Kernel) (t w h : ℕ) (e : k.current ≡ some t) (run : (k.tasks t).state ≡ running)
      (u : Unlinked k w) where
    pub acquire_for_duration-Acquires :
        (s : Semaphore)
        → Granted s k
        → Returns
            (λ r.
              (n : ℕ) × RoundedUp (count * num * hz) den n
              × Granted r.2 r.3
              × Acquires t w h (some (add_tick k.tick_count n)) s k r.0 r.2 r.3
              × (r.1 ≡ not r.0))
            (acquire_for_duration hz s length_of w h k)
    unfolding acquire_for_duration
    acquire_for_duration-Acquires s v =
        let c = ticks_RoundedUp in
        let (r, o, a) =
          acquire_for_suspend-Acquires s k v t w h e run u (to_ticks hz length_of) c.0 in
        (r, o, (to_ticks hz length_of, c, a.0, a.1, a.2))

    wait_for-Waits :
        (info : WaitInfo) (g : EventGroup)
        → Attended g k
        → Returns
            (RoundedWait (count * num * hz) den t w h (set_info w info g) k)
            (wait_for info (to_ticks hz length_of) w h g k)
    unfolding wait_for RoundedWait
    wait_for-Waits info g v =
        let c = ticks_RoundedUp in
        let f = set_info w info g in
        let (r, o, a) =
          wait_for_suspend-Waits f k (fresh-Sound w info g k v u) t w h e run u
            (to_ticks hz length_of) c.0 in
        (r, o, (to_ticks hz length_of, c, a.0, a.1))

    -- With a duration that is not negative and less than 2^31 ticks `wait_any_for` and `wait_all_for` of
    -- a running task on a sound event group do not trap. They go on at once when the condition of the
    -- bits that they are called with holds; else the task is the last waiter, and its deadline is the
    -- least number of ticks ahead that is not shorter than the duration.
    pub wait_for_duration_lem :
        (bits : ℕ) (clear_on_exit : Bool) (g : EventGroup)
        → Attended g k
        → Returns
            (RoundedWait
              (count * num * hz)
              den
              t
              w
              h
              (set_info w (wait_any bits clear_on_exit) g)
              k)
            (wait_any_for hz bits clear_on_exit length_of w h g k)
          × Returns
              (RoundedWait
                (count * num * hz)
                den
                t
                w
                h
                (set_info w (wait_all bits clear_on_exit) g)
                k)
              (wait_all_for hz bits clear_on_exit length_of w h g k)
    unfolding wait_any_for wait_all_for
    wait_for_duration_lem bits clear_on_exit g v = (
      wait_for-Waits (wait_any bits clear_on_exit) g v,
      wait_for-Waits (wait_all bits clear_on_exit) g v,
    )
