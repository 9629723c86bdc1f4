-- ===== src/Tick/Tests.antt =====
-- The theorems on ticks across the wrap of the counter.
use coo_rtos.Base.{◌≤◌, ◌≡◌, refl, ◌↔◌, ◌⊎◌, true, arith, pos}
use coo_rtos.Tick.{half_range, add_tick, deadline_le, to_ticks}
use coo_rtos.Tick.Order.{deadline_le_window, deadline_le_now}
use coo_rtos.Tick.Ceil.{to_ticks_overflow}

-- Ten ticks before the wrap, a deadline 5 ahead comes before one 20 ahead.
deadline_le_window_example : deadline_le (add_tick 4294967286 5) (add_tick 4294967286 20) ≡ true
deadline_le_window_example =
    deadline_le_window 4294967286 5 20 (ground arith) (ground arith) (ground arith)

deadline_le_now_example :
    (deadline_le (add_tick 4294967286 2147483648) 4294967286 ≡ true)
    ↔ ((half_range ≡ 0) ⊎ (half_range ≤ half_range))
deadline_le_now_example = deadline_le_now 4294967286 2147483648 (ground arith) (ground arith)

-- 4294968 seconds at 1000 Hz become 705 ticks.
to_ticks_overflow_example : to_ticks 1000 (record { count = pos 4294968; num = 1; den = 1 }) ≡ 705
to_ticks_overflow_example =
    to_ticks_overflow 1000 4294968 1 1 704 (ground arith) (ground arith) refl
