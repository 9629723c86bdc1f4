-- ===== src/FramePool/Tests.antt =====
-- The theorems on a pool of three blocks, with the first one handed out.
use coo_rtos.Base.{◌≡◌, refl, true, none, some, [], ◌∷◌, arith, ok, if◌then◌else◌, ◌==◌}
use coo_rtos.FramePool.{FramePool, fresh_pool, free_count, count_from}
use coo_rtos.FramePool.Free.{Holds}

abbrev fresh : FramePool
fresh = fresh_pool 256 3 256

abbrev used : FramePool
used = record fresh {
  next = λ b. if b == 256 then some 512 else none;
  free = some 256;
  initialized = true;
}

used-Holds : Holds used (256 ∷ 512 ∷ []) (0 ∷ [])
used-Holds = record {
  chain = (refl, (refl, refl));
  free_once = (refl, (refl, tt));
  used_once = (refl, tt);
  apart = λ b i. ground arith;
  blocks = λ b i. ground arith;
  total = refl;
  ready = refl;
}

-- Before the first `allocate` no block is counted.
counts_none : free_count fresh ≡ ok 0
unfolding free_count count_from
counts_none = refl
