-- ===== src/Preempt/Tests.antt =====
-- The handler with tasks that end at once.
use coo_rtos.Base.{some}
use coo_rtos.Kernel.{Kernel, start}
use coo_rtos.Scene.{busy}

-- A task of the highest priority is made ready while the task 7 runs.
abbrev interrupted : Kernel
interrupted = (start (some 9) 0 busy).1
