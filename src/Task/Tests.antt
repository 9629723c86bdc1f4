-- ===== src/Task/Tests.antt =====
-- The theorems on the life of tasks, on a pool of three blocks of which the first is handed out.
use coo_rtos.Base.{
  ℕ, ◌≡◌, refl, true, false, none, some, [], ◌∷◌, arith, Run, ok, trap, Returns, if◌then◌else◌,
  ◌==◌, inl, inr,
}
use coo_rtos.Kernel.{set_task, dispatch}
use coo_rtos.Kernel.Start.{Queued}
use coo_rtos.FramePool.{FramePool, fresh_pool}
use coo_rtos.Task.{Runtime, new_promise, spawn, destroy_task}
use coo_rtos.Task.Life.{Sound, spawn-Queued, spawn_fails, destroy_task-spawn}
use coo_rtos.Scene.{busy, busy-Inv}

abbrev pool : FramePool
pool = record (fresh_pool 256 3 256) {
  next = λ b. if b == 256 then some 512 else none;
  free = some 256;
  initialized = true;
}

abbrev runtime : Runtime
runtime = record { pool = pool; kernel = busy }

runtime-Sound : Sound runtime (256 ∷ 512 ∷ []) (0 ∷ [])
runtime-Sound = record {
  holds = record {
    chain = (refl, (refl, refl));
    free_once = (refl, (refl, tt));
    used_once = (refl, tt);
    apart = λ b i. ground arith;
    blocks = λ b i. ground arith;
    total = refl;
    ready = refl;
  };
  inv = busy-Inv;
  owned = λ t c. elim c [ inl x ↦ absurd (ground arith) | inr x ↦ absurd (ground arith) ];
}

spawn-Queued_example :
    Returns
      (λ s.
        (s.0 ≡ true)
        × Sound s.1 (512 ∷ []) (256 ∷ 0 ∷ [])
        × Queued 256 256 3 (set_task 256 (new_promise busy) busy) s.1.kernel)
      (spawn none 200 9 runtime)
spawn-Queued_example =
    spawn-Queued runtime 200 9 none 256 (512 ∷ []) (0 ∷ []) runtime-Sound (ground arith)

-- A frame that is too long, with a hook that does nothing.
spawn_fails_example :
    (spawn none 300 1 runtime ≡ trap)
    × ((hook : ℕ → FramePool → Run FramePool) (p : FramePool)
        → hook 300 pool ≡ ok p
        → spawn (some hook) 300 1 runtime ≡ ok (false, record runtime { pool = p }))
spawn_fails_example =
    spawn_fails runtime 300 1 (256 ∷ 512 ∷ []) (0 ∷ []) runtime-Sound (inl (ground arith))

destroy_task-spawn_example :
    Returns
      (λ s.
        Returns
          (λ z. Sound z (256 ∷ 512 ∷ []) (0 ∷ []))
          (destroy_task (some 256) (record s.1 { kernel = dispatch 256 s.1.kernel })))
      (spawn none 200 1 runtime)
destroy_task-spawn_example =
    destroy_task-spawn runtime 200 1 none 256 (512 ∷ []) (0 ∷ []) runtime-Sound (ground arith)
