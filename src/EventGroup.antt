-- ===== src/EventGroup.antt =====
-- event_group.hpp: `EventGroup`. The blocks `WaitInfo` of the awaiters stand with the group: `infos`
-- holds that of each node, and a node's `payload` is the number of the block it points to.
pub mod Bits
pub mod Visit
pub mod Set
pub mod Wait
pub mod Frame
pub mod Calls
pub mod Sync
mod Tests
use Prim.Native.Nat.{bit_and, bit_or, bit_xor}
use coo_rtos.Base.{
  ℕ, ◌-◌, ◌^◌, Bool, true, false, not, ◌&&◌, Option, none, some, List, [], ◌∷◌, ◌==◌, if◌then◌else◌,
  update, Run, ok, trap, ◌>>=◌,
}
use coo_rtos.Tick.{add_tick}
use coo_rtos.Kernel.{now, Kernel, set_payload, block_current, wake}

-- `want`, `result` and the bits of a group are of `EventBits`, which is uint32_t.
pub record WaitInfo : Type 0 where
  pub want : ℕ
  pub all : Bool
  pub clear : Bool
  pub result : ℕ

-- `waiters` is the number of the group's wait list.
pub record EventGroup : Type 0 where
  pub bits : ℕ
  pub waiters : ℕ
  pub infos : ℕ → WaitInfo

-- What `wait_any`, `wait_all` and `sync` put into their awaiters.
pub wait_any : ℕ → Bool → WaitInfo
wait_any bits clear_on_exit = record { want = bits; all = false; clear = clear_on_exit; result = 0 }

pub wait_all : ℕ → Bool → WaitInfo
wait_all bits clear_on_exit = record { want = bits; all = true; clear = clear_on_exit; result = 0 }

pub sync : ℕ → WaitInfo
sync wait_bits = record { want = wait_bits; all = true; clear = true; result = 0 }

-- `bits & ~mask`
abbrev pub mask_off : ℕ → ℕ → ℕ
mask_off bits mask = bit_and bits (bit_xor mask (2 ^ 32 - 1))

pub met : WaitInfo → ℕ → Bool
met info bits =
    if info.all then bit_and bits info.want == info.want else not (bit_and bits info.want == 0)

abbrev pub set_info : ℕ → WaitInfo → EventGroup → EventGroup
set_info w info g = record g { infos = update g.infos w info }

-- `try_take_locked` on the block of the awaiter `w`.
pub try_take : ℕ → EventGroup → Bool × EventGroup
try_take w g =
    let info = g.infos w in
    if met info g.bits
    then (
      true,
      record (set_info w (record info { result = g.bits }) g) {
        bits = if info.clear then mask_off g.bits info.want else g.bits;
      },
    )
    else (false, g)

-- What a woken waiter adds to `to_clear`.
abbrev pub add_clear : WaitInfo → ℕ → ℕ
add_clear info to_clear = if info.clear then bit_or to_clear info.want else to_clear

visit_at : Option ℕ → ℕ → ℕ → EventGroup → Kernel → Run (ℕ × EventGroup × Kernel)
visit_at none w to_clear g k = trap
visit_at (some a) w to_clear g k =
    let info = g.infos a in
    if met info g.bits
    then (wake w false k >>= λ k'.
        ok (add_clear info to_clear, set_info a (record info { result = g.bits }) g, k'))
    else ok (to_clear, g, k)

-- One round of the loop of `set_locked`, at the waiter `w`.
visit : ℕ → ℕ → EventGroup → Kernel → Run (ℕ × EventGroup × Kernel)
unfolding visit_at
visit w to_clear g k = visit_at (k.nodes w).payload w to_clear g k

-- The loop of `set_locked`. A round unlinks no node but its own, so that the loop meets the waiters
-- of the list it starts with.
walk : List ℕ → ℕ → EventGroup → Kernel → Run (ℕ × EventGroup × Kernel)
unfolding visit
walk [] to_clear g k = ok (to_clear, g, k)
walk (w ∷ ws) to_clear g k = visit w to_clear g k >>= λ (to_clear', g', k'). walk ws to_clear' g' k'

-- `set_locked`
pub set : ℕ → EventGroup → Kernel → Run (EventGroup × Kernel)
unfolding walk
set bits g k =
    walk (k.wait_lists g.waiters) 0 (record g { bits = bit_or g.bits bits }) k
    >>= λ (to_clear, g', k'). ok (record g' { bits = mask_off g'.bits to_clear }, k')

-- `EventGroup::clear`: the bits before, and the group.
pub clear_bits : ℕ → EventGroup → ℕ × EventGroup
clear_bits bits g = (g.bits, record g { bits = mask_off g.bits bits })

-- The common part of `WaitAwaiter::await_suspend` and `WaitForAwaiter::await_suspend`: whether the
-- task is suspended. The awaiter's node and block are `w`.
wait_after : Option ℕ → ℕ → ℕ → Bool × EventGroup → Kernel → Run (Bool × EventGroup × Kernel)
wait_after deadline w h (true, g) k = ok (false, g, k)
wait_after deadline w h (false, g) k =
    block_current w (some g.waiters) h deadline (set_payload w k) >>= λ k'. ok (true, g, k')

pub wait_suspend : ℕ → ℕ → EventGroup → Kernel → Run (Bool × EventGroup × Kernel)
unfolding try_take wait_after
wait_suspend w h g k = wait_after none w h (try_take w g) k

pub wait_for_suspend : ℕ → ℕ → ℕ → EventGroup → Kernel → Run (Bool × EventGroup × Kernel)
unfolding try_take wait_after
wait_for_suspend timeout w h g k = wait_after (some (add_tick (now k) timeout)) w h (try_take w g) k

-- `WaitForAwaiter::await_resume`, where `none` is nullopt.
pub wait_for_resume : Bool → ℕ → EventGroup → Kernel → Option ℕ
wait_for_resume got w g k =
    if not got && (k.nodes w).timed_out then none else some (g.infos w).result

sync_after : ℕ → ℕ → ℕ → EventGroup × Kernel → Run (Bool × EventGroup × Kernel)
unfolding wait_after
sync_after candidate w h (g, k) =
    let info = g.infos w in
    if bit_and candidate info.want == info.want
    then ok (
      false,
      record (set_info w (record info { result = candidate }) g) {
        bits = mask_off g.bits info.want;
      },
      k,
    )
    else wait_after none w h (false, g) k

-- `SyncAwaiter::await_suspend`
pub sync_suspend : ℕ → ℕ → ℕ → EventGroup → Kernel → Run (Bool × EventGroup × Kernel)
unfolding set sync_after
sync_suspend set_bits w h g k = set set_bits g k >>= sync_after (bit_or g.bits set_bits) w h
