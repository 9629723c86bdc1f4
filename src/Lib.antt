-- ===== src/Lib.antt =====
-- CooRTOS: a small real-time kernel on C++ coroutines. Tasks are coroutines; the scheduler resumes
-- them one at a time, and a task runs until it suspends itself in a blocking call. A blocking call
-- puts the `WaitNode` in its awaiter into the wait list of an object and, with a timeout, into the
-- delay list; whatever wakes the task takes the node off both. Values and permits go straight from
-- the giver to the first waiter.
--
-- Files, with the code they are about (under include/rtos):
--   Config         config.hpp: the assertion macros
--   Tick           config.hpp (`Tick`), kernel.hpp (`deadline_le`), task.hpp (`to_ticks`)
--   IntrusiveList  intrusive_list.hpp, on a heap of addresses; `Store` refines it to sequences
--   Kernel         kernel.hpp: `make_ready_locked`, `delay_insert_locked`, `block_current_locked`,
--                  `wake_locked`, `start`, `tick_isr`, `run_one`, `YieldAwaiter`; `State` has the
--                  globals
--   Semaphore      semaphore.hpp
--   Mutex          mutex.hpp
--   Queue          queue.hpp
--   EventGroup     event_group.hpp
--   Sleep          time.hpp
--   Timeouts       queue.hpp, semaphore.hpp, event_group.hpp: the calls that take a duration
--   FramePool      pool.hpp
--   Async          task.hpp: the hooks and frames of `Async`, the handle of `Task`
--   Preempt        kernel.hpp: `preempt_handler`, `preempt_dispatch`
--   MainLoop       kernel.hpp: `run`; port/host.hpp: `idle`
--   Await          the calls of the files above that make an awaiter, task.hpp: `await_transform`
--   HostPort       port/host.hpp: critical sections
--   Ports          port/cortex_m.hpp, port/riscv32.hpp, and what all ports have in common
--   Task           task.hpp, pool.hpp, kernel.hpp: the life of a task
--   SyncWait       sync_wait.hpp
--   System         all of these at work on one kernel, as a step relation
--   Base, Scene    shared helpers; concrete kernels for the tests
-- The module of a component holds its state and operations under the names of the code, less
-- `_locked` and with the awaiter's name before `suspend` and `resume`. Its children hold the proofs.
--
-- The model:
--   A critical section is atomic, so an operation is a function from the state to the state. An
--   interrupt is `tick_isr` or an operation of an object between two such steps.
--   Tasks, wait nodes, wait lists and coroutine handles are numbers; the storage in an awaiter is the
--   slot with the number of its node. The kernel keeps each list as the sequence of its owners, and
--   `unlink` takes a node out of whatever list it is in.
--   `trap` stands for RTOS_TRAP, for RTOS_ASSERT and RTOS_CONTRACT_ASSERT when they fail, and for a
--   null pointer that is followed. The contracts that only ask for a critical section are not modelled.
--   `Tick` is modulo 2^32. A counter that never passes its bound, like a queue's, is a plain number.
--   The loop of `tick_isr` has as fuel one more than the length of the delay list, and that of
--   `free_count` the number of blocks; both are shown to be enough.
--   A timeout is assumed to be less than 2^31 ticks: `deadline_le` takes a longer one for past.
--   What a coroutine does between two suspensions is an argument of `run_one` and of the preemption
--   handler.
--   A component's `Calls` are its operations as tasks and interrupts call it, and a step of the system
--   is one of those, or a part of the scheduler. `Thins` is what one object may do to the wait list of
--   another.
--   A history of a queue is a sequence of its calls and of steps of the rest of the system. A value has
--   reached a receiver when it is in the awaiter of one that a call has served, which is ready, in the
--   wait list no more and not timed out, or is the answer of `try_receive`. The
--   histories of semaphores and mutexes count permits and name owners in the same way
--   (System/Permits, System/Owners).
--   An awaiter is its three functions, and `co_await` calls them as the C++ standard says. The fields of
--   the awaiter that change are part of its state.
--   The instructions of a port act on its registers as the architecture documents; the interface
--   `Port` has the laws that the critical sections need, and each port fills it.
--   The pump of `sync_wait` is a parameter. Its loop has fuel, and one more than the work that is left
--   after the start is enough; the loop of `~Queue` has one more than the number of values.
--   `run` never returns. It has fuel for its rounds; where no interrupt comes, as many rounds as there is
--   work lead to the idle step, and with no idle hook one more ends in the trap.
--   `preempt_handler` has fuel for its rounds, and one more than a bound on the work of the tasks is
--   enough; `preempt_dispatch` has fuel for its calls of the handler, of which no more are needed.
--
-- Not modelled: the bodies of coroutines, which the compiler cuts at their suspensions; the getters
-- that only read a member; waiting for an interrupt and stopping in the ports to hardware; the macros
-- besides the assertions, and build files.
pub mod Base
pub mod Config
pub mod Tick
pub mod IntrusiveList
pub mod Kernel
pub mod Semaphore
pub mod Mutex
pub mod Queue
pub mod Sleep
pub mod EventGroup
pub mod FramePool
pub mod Preempt
pub mod HostPort
pub mod MainLoop
pub mod Async
pub mod Ports
pub mod Task
pub mod SyncWait
pub mod System
pub mod Timeouts
pub mod Await
mod Scene
