-- ===== src/FramePool/Frames.antt =====
-- `config::allocate` and `config::deallocate`: the frames of coroutines come from the pool.
use coo_rtos.Base.{
  ℕ, ◌≡◌, refl, ap, ap₂, ◌∙◌, Option, none, some, List, [], ◌∷◌, Run, ok, trap, Returns, has,
  remove, true, ◌≤◌, ◌<◌, ◌⊎◌, inl, inr, sym, subst, arith,
}
use coo_rtos.FramePool.{
  FramePool, allocate, allocate_frame, allocated, alloc_failed, deallocate_frame,
}
use coo_rtos.FramePool.Free.{
  Holds, Allocates, too_long, empty, gives, allocate-Allocates, deallocate-Holds,
}

module _ (hook : Option (ℕ → FramePool → Run FramePool)) (n : ℕ) (p : FramePool) where
  allocate_frame-allocate :
      (o : Option ℕ) (p' : FramePool)
      → (allocate n p).0 ≡ o
      → (allocate n p).1 ≡ p'
      → allocate_frame hook n p ≡ allocated hook n (o, p')
  unfolding allocate_frame
  allocate_frame-allocate o p' e q = ap₂ (λ x y. allocated hook n (x, y)) e q

  pub allocate_frame-some :
      (b : ℕ) → (allocate n p).0 ≡ some b → allocate_frame hook n p ≡ ok (some b, (allocate n p).1)
  unfolding allocated
  allocate_frame-some b e = allocate_frame-allocate (some b) (allocate n p).1 e refl

-- Without a hook a failed allocation traps, and with one the hook has the last word on the pool.
pub allocate_frame_trap :
    (n : ℕ) (p : FramePool) → (allocate n p).0 ≡ none → allocate_frame none n p ≡ trap
unfolding allocated alloc_failed
allocate_frame_trap n p e = allocate_frame-allocate none n p none (allocate n p).1 e refl

pub allocate_frame_hook :
    (hook : ℕ → FramePool → Run FramePool) (n : ℕ) (p p' : FramePool)
    → (allocate n p).0 ≡ none
    → hook n (allocate n p).1 ≡ ok p'
    → allocate_frame (some hook) n p ≡ ok (none, p')
unfolding allocated alloc_failed
allocate_frame_hook hook n p p' e h =
    allocate_frame-allocate (some hook) n p none (allocate n p).1 e refl ∙ rw h refl

pub deallocate_frame-Holds :
    (p : FramePool) (xs ys : List ℕ) (b : ℕ)
    → Holds p xs ys
    → has b ys ≡ true
    → Returns (λ p'. Holds p' (b ∷ xs) (remove b ys)) (deallocate_frame (some b) p)
unfolding deallocate_frame
deallocate_frame-Holds p xs ys b v i = deallocate-Holds p xs ys v b i

abbrev rest_of : List ℕ → List ℕ
rest_of [] = []
rest_of (x ∷ xs) = xs

pub first_free :
    (n : ℕ) (p : FramePool) (b : ℕ) (rest ys : List ℕ) (o : Option ℕ) (p' : FramePool)
    → Allocates n p (b ∷ rest) ys o p'
    → n ≤ p.block_size
    → (o ≡ some b) × Holds p' rest (b ∷ ys)
first_free n p b rest ys o p' (too_long s e q) l = absurd (omega arith)
first_free n p b rest ys o p' (empty s z e q) l = absurd (ground arith)
first_free n p b rest ys o p' (gives c cs s z e h) l =
    let same : b ≡ c = ground arith in
    let tail : cs ≡ rest = ap rest_of (sym z) in
    (
      e ∙ ap some (sym same),
      subst (λ x. Holds p' x (b ∷ ys)) tail (subst (λ x. Holds p' cs (x ∷ ys)) (sym same) h),
    )

pub none_free :
    (n : ℕ) (p : FramePool) (xs ys : List ℕ) (o : Option ℕ) (p' : FramePool)
    → Allocates n p xs ys o p'
    → (p.block_size < n) ⊎ (xs ≡ [])
    → (o ≡ none) × (p' ≡ p)
none_free n p xs ys o p' (too_long s e q) l = (e, q)
none_free n p xs ys o p' (empty s z e q) l = (e, q)
none_free n p xs ys o p' (gives c cs s z e h) (inl l) = absurd (omega arith)
none_free n p xs ys o p' (gives c cs s z e h) (inr l) = absurd (ground arith)

-- With a free block that is long enough the frame is the first one, whatever the hook.
pub allocate_frame_first :
    (hook : Option (ℕ → FramePool → Run FramePool)) (n : ℕ) (p : FramePool) (b : ℕ)
    (rest ys : List ℕ)
    → Holds p (b ∷ rest) ys
    → n ≤ p.block_size
    → Returns (λ r. (r.0 ≡ some b) × Holds r.1 rest (b ∷ ys)) (allocate_frame hook n p)
allocate_frame_first hook n p b rest ys v l =
    let a =
      first_free n p b rest ys (allocate n p).0 (allocate n p).1
        (allocate-Allocates p (b ∷ rest) ys v n) l in
    ((some b, (allocate n p).1), allocate_frame-some hook n p b a.0, (refl, a.1))
