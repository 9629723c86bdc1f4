-- ===== src/FramePool.antt =====
-- pool.hpp: `FramePool`, a free list threaded through the blocks. A pointer is its distance in bytes
-- from `blocks_`, of which `none` stands for `nullptr`; `next` is the link in each block.
pub mod Free
pub mod Start
pub mod Frames
mod Tests
use coo_rtos.Config.{rtos_contract_assert}
use coo_rtos.Base.{
  ℕ, zero, suc, ◌+◌, ◌-◌, ◌*◌, ◌%◌, Bool, true, false, ◌&&◌, Option, none, some, ◌==◌, ltb,
  if◌then◌else◌, update, Run, ok, trap, out_of_fuel, ◌>>=◌,
}

-- `block_bytes` is sizeof(Block), the block size with its alignment.
pub record FramePool : Type 0 where
  pub block_size : ℕ
  pub block_count : ℕ
  pub block_bytes : ℕ
  pub next : ℕ → Option ℕ
  pub free : Option ℕ
  pub initialized : Bool

-- `b->next = free_; free_ = b;`
abbrev pub push_block : ℕ → FramePool → FramePool
push_block b p = record p { next = update p.next b p.free; free = some b }

-- The loop of `allocate` that threads the first `i` blocks, from the last of them down.
thread : ℕ → FramePool → FramePool
thread zero p = p
thread (suc i) p = thread i (push_block (i * p.block_bytes) p)

initialize_if : Bool → FramePool → FramePool
unfolding thread
initialize_if true p = p
initialize_if false p = record (thread p.block_count p) { initialized = true }

pub initialize : FramePool → FramePool
unfolding initialize_if
initialize p = initialize_if p.initialized p

take_free : Option ℕ → FramePool → Option ℕ × FramePool
take_free none p = (none, p)
take_free (some b) p = (some b, record p { free = p.next b })

pub allocate : ℕ → FramePool → Option ℕ × FramePool
unfolding initialize take_free
allocate n p =
    if ltb p.block_size n then (none, p) else (let p' = initialize p in take_free p'.free p')

-- The contracts of `deallocate`: the pointer is into the blocks, and at the start of one.
abbrev pub is_block : ℕ → FramePool → Bool
is_block b p = ltb b (p.block_count * p.block_bytes) && (b % p.block_bytes == 0)

pub deallocate : Option ℕ → FramePool → Run FramePool
deallocate none p = ok p
deallocate (some b) p = rtos_contract_assert (is_block b p) (ok (push_block b p))

-- The walk of `free_count`, on fuel.
count_from : ℕ → Option ℕ → FramePool → Run ℕ
count_from f none p = ok 0
count_from zero (some b) p = out_of_fuel
count_from (suc f) (some b) p = count_from f (p.next b) p >>= λ n. ok (n + 1)

pub free_count : FramePool → Run ℕ
unfolding count_from
free_count p = count_from p.block_count p.free p

-- A pool that nothing was allocated from.
abbrev pub fresh_pool : ℕ → ℕ → ℕ → FramePool
fresh_pool size count bytes = record {
  block_size = size;
  block_count = count;
  block_bytes = bytes;
  next = λ b. none;
  free = none;
  initialized = false;
}

alloc_failed : Option (ℕ → FramePool → Run FramePool) → ℕ → FramePool → Run (Option ℕ × FramePool)
alloc_failed none n p = trap
alloc_failed (some hook) n p = hook n p >>= λ p'. ok (none, p')

allocated :
    Option (ℕ → FramePool → Run FramePool) → ℕ → Option ℕ × FramePool → Run (Option ℕ × FramePool)
unfolding alloc_failed
allocated hook n (some b, p) = ok (some b, p)
allocated hook n (none, p) = alloc_failed hook n p

-- `config::allocate` with the pool. `hook` is `alloc_failed_hook`, which is code of the application.
pub allocate_frame :
    Option (ℕ → FramePool → Run FramePool) → ℕ → FramePool → Run (Option ℕ × FramePool)
unfolding allocate allocated
allocate_frame hook n p = allocated hook n (allocate n p)

-- `config::deallocate`
pub deallocate_frame : Option ℕ → FramePool → Run FramePool
unfolding deallocate
deallocate_frame b p = deallocate b p
