-- ===== src/HostPort/Tests.antt =====
-- A critical section in which a preemption is requested.
use coo_rtos.Base.{ℕ, false, Run, ok}
use coo_rtos.HostPort.{Port, pend_preempt}

abbrev outside : Port ℕ
outside = record { critical_depth = 0; preempt_pending = false; state = 5 }

abbrev asks : Port ℕ → Run (Port ℕ)
asks p = ok (pend_preempt p)

-- The dispatcher counts its calls.
abbrev counts : Port ℕ → Run (Port ℕ)
counts p = ok (record p { preempt_pending = false; state = 6 })
