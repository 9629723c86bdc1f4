-- ===== src/Async/Frame.antt =====
-- task.hpp with pool.hpp: the frames of nested coroutines come from the pool of `config::allocate`,
-- and go back to it with the handle.
use coo_rtos.Base.{
  ℕ, ◌≤◌, ◌<◌, ◌≡◌, ◌⊎◌, refl, ap, ◌∙◌, Option, none, some, List, [], ◌∷◌, remove, remove_head,
  arith, subst, Run, ok, trap, ◌>>=◌, Returns, ==_refl,
}
use coo_rtos.FramePool.{FramePool, allocate, allocate_frame, deallocate_frame}
use coo_rtos.FramePool.Free.{Holds, allocate-Allocates}
use coo_rtos.FramePool.Frames.{
  none_free, allocate_frame_first, allocate_frame_trap, allocate_frame_hook, deallocate_frame-Holds,
}
use coo_rtos.Async.{Frames, create, destroy, await_ready}

null_handle : await_ready none ≡ trap
unfolding await_ready
null_handle = refl

module _ {ℓ} {T : Type ℓ} where
  -- `get_return_object`, and `get_return_object_on_allocation_failure` for a null pointer.
  abbrev pub return_object : Option ℕ → Frames T → Frames T
  return_object none f = f
  return_object (some h) f = create h f

  -- The call of a coroutine that returns an `Async` and has a frame of `n` bytes: `operator new` of
  -- `AsyncPromiseBase`, and the promise.
  pub make_async :
      Option (ℕ → FramePool → Run FramePool)
      → ℕ
      → FramePool
      → Frames T
      → Run (Option ℕ × FramePool × Frames T)
  make_async hook n p f = allocate_frame hook n p >>= λ (h, p'). ok (h, p', return_object h f)

  -- `~Async`, with the `operator delete` of the frame.
  pub drop_async : Option ℕ → FramePool → Frames T → Run (FramePool × Frames T)
  drop_async none p f = ok (p, f)
  drop_async (some h) p f = deallocate_frame (some h) p >>= λ p'. ok (p', destroy (some h) f)

  -- With a free block that is long enough an `Async` gets the first one, and when it is destroyed the
  -- blocks of the pool are handed out as before and its frame is gone.
  pub drop_async-make_async :
      (hook : Option (ℕ → FramePool → Run FramePool)) (n b : ℕ) (p : FramePool) (f : Frames T)
      (rest ys : List ℕ)
      → Holds p (b ∷ rest) ys
      → n ≤ p.block_size
      → Returns
          (λ r.
            (r.0 ≡ some b)
            × Holds r.1 rest (b ∷ ys)
            × Returns (λ s. Holds s.0 (b ∷ rest) ys × (s.1 b ≡ none)) (drop_async r.0 r.1 r.2))
          (make_async hook n p f)
  unfolding make_async drop_async destroy
  drop_async-make_async hook n b p f rest ys v l =
      let (r, e, (i, h)) = allocate_frame_first hook n p b rest ys v l in
      let (p', q, g) = deallocate_frame-Holds r.1 rest (b ∷ ys) b h (ground arith) in
      let back : remove b (b ∷ ys) ≡ ys = remove_head b ys (v.apart b (ground arith)) in
      (
        (some b, r.1, create b f),
        rw e (ap (λ o. ok (o, r.1, return_object o f)) i),
        (
          refl,
          h,
          (
            (p', destroy (some b) (create b f)),
            rw q refl,
            (subst (Holds p' (b ∷ rest)) back g, rw (==_refl b) refl),
          ),
        ),
      )

  -- Where no block is free or the frame is longer than one, the program traps without a hook. With a
  -- hook that returns the handle is null, no frame is made, and awaiting it traps.
  pub make_async_fails :
      (n : ℕ) (p : FramePool) (f : Frames T) (xs ys : List ℕ)
      → Holds p xs ys
      → (p.block_size < n) ⊎ (xs ≡ [])
      → (make_async none n p f ≡ trap)
        × ((hook : ℕ → FramePool → Run FramePool) (p' : FramePool)
            → hook n p ≡ ok p'
            → Returns
                (λ r. (r.1 ≡ p') × (r.2 ≡ f) × (await_ready r.0 ≡ trap))
                (make_async (some hook) n p f))
  unfolding make_async
  make_async_fails n p f xs ys v c =
      let a =
        none_free n p xs ys (allocate n p).0 (allocate n p).1 (allocate-Allocates p xs ys v n) c in
      (
        rw (allocate_frame_trap n p a.0) refl,
        λ hook p' e.
            let h = allocate_frame_hook hook n p p' a.0 (ap (hook n) a.1 ∙ e) in
            ((none, p', f), rw h refl, (refl, refl, null_handle)),
      )
