-- ===== src/Queue.antt =====
-- queue.hpp: `Queue<T, N>`. The storage of the awaiters stands with the queue: `slots` holds the
-- value in the awaiter of each node, and a node's `payload` is the number of the slot it points to.
pub mod Ring
pub mod Backlog
pub mod Block
pub mod Await
pub mod Receive
pub mod Send
pub mod Timeout
pub mod Frame
pub mod Resume
pub mod Kept
pub mod Calls
pub mod Destroy
pub mod Omits
pub mod Moves
pub mod Traffic
pub mod Fifo
mod Tests
use coo_rtos.Config.{rtos_contract_assert}
use coo_rtos.Base.{
  ℕ, zero, suc, ◌+◌, ◌-◌, ◌%◌, Bool, true, false, not, ◌&&◌, ◌||◌, Option, none, some, front, ltb,
  ◌==◌, if◌then◌else◌, update, Run, ok, trap, out_of_fuel, ◌>>=◌,
}
use coo_rtos.Tick.{add_tick}
use coo_rtos.Kernel.{now, Kernel, set_payload, block_current, wake, unlink_wait}

-- `receivers` and `senders` are the numbers of the two wait lists. A slot of `buf` that holds no
-- constructed value is `none`.
pub record Queue {ℓ} (T : Type ℓ) : Type ℓ where
  pub capacity : ℕ
  pub buf : ℕ → Option T
  pub head : ℕ
  pub count : ℕ
  pub receivers : ℕ
  pub senders : ℕ
  pub slots : ℕ → Option T

-- A read through a pointer that may be null, or of a value that may not be there.
abbrev pub deref {ℓ} : {A : Type ℓ} → Option A → Run A
deref none = trap
deref (some a) = ok a

-- `SendForAwaiter::await_resume`
pub send_for_resume : Bool → ℕ → Kernel → Bool
send_for_resume done w k = done || not (k.nodes w).timed_out

module _ {ℓ} {T : Type ℓ} where
  abbrev pub set_slot : ℕ → T → Queue T → Queue T
  set_slot a v q = record q { slots = update q.slots a (some v) }

  -- `push_slot_locked`
  pub push_slot : T → Queue T → Run (Queue T)
  push_slot v q = rtos_contract_assert (ltb q.count q.capacity) (
      ok (record q {
        buf = update q.buf ((q.head + q.count) % q.capacity) (some v);
        count = q.count + 1;
      }))

  -- `pop_slot_locked`
  pub pop_slot : Queue T → Run (T × Queue T)
  pop_slot q = rtos_contract_assert (ltb 0 q.count) (
      deref (q.buf q.head) >>= λ v. ok (
        v,
        record q {
          buf = update q.buf q.head none;
          head = (q.head + 1) % q.capacity;
          count = q.count - 1;
        },
      ))

  deliver_to : Option ℕ → T → Queue T → Kernel → Run (Bool × Queue T × Kernel)
  unfolding push_slot
  deliver_to (some w) v q k = do
    a ← deref (k.nodes w).payload
    k' ← wake w false (unlink_wait w k)
    ok (true, set_slot a v q, k')
  deliver_to none v q k =
      if ltb q.count q.capacity
      then (push_slot v q >>= λ q'. ok (true, q', k))
      else ok (false, q, k)

  -- `deliver_or_push_locked`
  pub deliver_or_push : T → Queue T → Kernel → Run (Bool × Queue T × Kernel)
  unfolding deliver_to
  deliver_or_push v q k = deliver_to (front (k.wait_lists q.receivers)) v q k

  wake_sender : Option ℕ → Queue T → Kernel → Run (Queue T × Kernel)
  unfolding push_slot
  wake_sender (some w) q k = do
    a ← deref (k.nodes w).payload
    v ← deref (q.slots a)
    q' ← push_slot v q
    k' ← wake w false (unlink_wait w k)
    ok (q', k')
  wake_sender none q k = ok (q, k)

  -- `wake_one_sender_locked`
  pub wake_one_sender : Queue T → Kernel → Run (Queue T × Kernel)
  unfolding wake_sender
  wake_one_sender q k = wake_sender (front (k.wait_lists q.senders)) q k

  -- `try_send`
  unfoldable pub try_send : T → Queue T → Kernel → Run (Bool × Queue T × Kernel)
  unfolding deliver_or_push
  try_send v q k = deliver_or_push v q k

  -- The value that leaves the buffer, when a blocked sender's has taken its place.
  pub take_next : Queue T → Kernel → Run (T × Queue T × Kernel)
  unfolding pop_slot wake_one_sender
  take_next q k = do (v, q₁) ← pop_slot q; (q₂, k') ← wake_one_sender q₁ k; ok (v, q₂, k')

  -- `try_receive`: `none` is the answer false.
  unfoldable pub try_receive : Queue T → Kernel → Run (Option T × Queue T × Kernel)
  unfolding take_next
  try_receive q k =
      if q.count == 0
      then ok (none, q, k)
      else (take_next q k >>= λ (v, q', k'). ok (some v, q', k'))

  -- The common part of `ReceiveAwaiter::await_suspend` and `ReceiveForAwaiter::await_suspend`:
  -- whether the task is suspended. The awaiter's node and slot are `w`.
  unfoldable pub receive_at : Option ℕ → ℕ → ℕ → Queue T → Kernel → Run (Bool × Queue T × Kernel)
  receive_at deadline w h q k =
      if ltb 0 q.count
      then (take_next q k >>= λ (v, q', k'). ok (false, set_slot w v q', k'))
      else (block_current w (some q.receivers) h deadline (set_payload w k) >>= λ k'.
          ok (true, q, k'))

  unfoldable pub receive_suspend : ℕ → ℕ → Queue T → Kernel → Run (Bool × Queue T × Kernel)
  unfolding receive_at
  receive_suspend w h q k = receive_at none w h q k

  pub receive_for_suspend : ℕ → ℕ → ℕ → Queue T → Kernel → Run (Bool × Queue T × Kernel)
  unfolding receive_at
  receive_for_suspend timeout w h q k = receive_at (some (add_tick (now k) timeout)) w h q k

  abbrev pub empty_slot : ℕ → Queue T → Queue T
  empty_slot w q = record q { slots = update q.slots w none }

  -- `ReceiveAwaiter::await_resume`, and that of `ReceiveForAwaiter`, where `none` is nullopt: the
  -- value is moved out of the awaiter, whose slot is empty then.
  unfoldable pub receive_resume : ℕ → Queue T → Run (T × Queue T)
  receive_resume w q = deref (q.slots w) >>= λ v. ok (v, empty_slot w q)

  pub receive_for_resume : Bool → ℕ → Queue T → Kernel → Run (Option T × Queue T)
  receive_for_resume got w q k =
      if not got && (k.nodes w).timed_out
      then ok (none, q)
      else (deref (q.slots w) >>= λ v. ok (some v, empty_slot w q))

  send_after : Option ℕ → T → ℕ → ℕ → Bool × Queue T × Kernel → Run (Bool × Queue T × Kernel)
  send_after deadline v w h (true, q, k) = ok (false, q, k)
  send_after deadline v w h (false, q, k) = do
    k' ← block_current w (some q.senders) h deadline (set_payload w k)
    ok (true, set_slot w v q, k')

  send_at : Option ℕ → T → ℕ → ℕ → Queue T → Kernel → Run (Bool × Queue T × Kernel)
  unfolding send_after
  send_at deadline v w h q k = deliver_or_push v q k >>= send_after deadline v w h

  -- `SendAwaiter::await_suspend` and `SendForAwaiter::await_suspend`: whether the task is suspended,
  -- the value then stays in the awaiter.
  pub send_suspend : T → ℕ → ℕ → Queue T → Kernel → Run (Bool × Queue T × Kernel)
  unfolding send_at
  send_suspend v w h q k = send_at none v w h q k

  pub send_for_suspend : T → ℕ → ℕ → ℕ → Queue T → Kernel → Run (Bool × Queue T × Kernel)
  unfolding send_at
  send_for_suspend v timeout w h q k = send_at (some (add_tick (now k) timeout)) v w h q k

  -- The loop of `~Queue`, on fuel: the values in the buffer are destroyed, the oldest first.
  pub drain : ℕ → Queue T → Run (Queue T)
  unfolding pop_slot
  drain zero q = out_of_fuel
  drain (suc fuel) q = if ltb 0 q.count then (pop_slot q >>= λ (v, q'). drain fuel q') else ok q

  -- `~Queue`
  pub destroy : Queue T → Run (Queue T)
  unfolding drain
  destroy q = drain (q.count + 1) q

  pub size : Queue T → ℕ
  size q = q.count
