-- ===== src/FramePool/Start.antt =====
-- The first `allocate` threads all blocks, in the order of their addresses.
use native.Mathlib.Nat.{mul-mod_left}
use coo_rtos.Base.{
  ℕ, zero, suc, ◌+◌, ◌*◌, ◌%◌, ◌≤◌, ◌<◌, ◌≡◌, refl, ap, sym, ◌∙◌, inl, inr, true, false, ◌&&◌, none,
  List, [], ◌∷◌, arith, ◌==◌, ==→eq, ltb, Bool-cases, has, Distinct, length, subst,
}
use coo_rtos.FramePool.{
  FramePool, push_block, thread, initialize, initialize_if, allocate, is_block,
}
use coo_rtos.FramePool.Free.{Chain, Chain-push, Holds}

-- The first `i` blocks of the size `n`, and `xs` behind them.
abbrev pub blocks_below : ℕ → ℕ → List ℕ → List ℕ
blocks_below zero n xs = xs
blocks_below (suc i) n xs = blocks_below i n (i * n ∷ xs)

-- A list of distinct blocks at or behind the block `i`.
record From (i : ℕ) (p : FramePool) (xs : List ℕ) : Type 0 where
  pub chain : Chain p.next p.free xs
  pub once : Distinct xs
  pub above : (b : ℕ) → has b xs ≡ true → i * p.block_bytes ≤ b
  pub are : (b : ℕ) → has b xs ≡ true → is_block b p ≡ true
  pub many : length xs + i ≡ p.block_count

block_start : (i n c : ℕ) → 0 < n → i < c → (ltb (i * n) (c * n) && (i * n % n == 0)) ≡ true
block_start i n c pn l =
    let e : i * n % n ≡ 0 = mul-mod_left i n in
    let h : i * n < c * n = grind (arith, pn, l) in ground arith

push_block-From :
    (i : ℕ) (p : FramePool) (xs : List ℕ)
    → 0 < p.block_bytes
    → From (suc i) p xs
    → From i (push_block (i * p.block_bytes) p) (i * p.block_bytes ∷ xs)
push_block-From i p xs pn v =
    let b = i * p.block_bytes in
    let out : has b xs ≡ false = elim (Bool-cases (has b xs)) [
      | inl j ↦ absurd (let a = v.above b j in grind (arith, pn))
      | inr j ↦ j
    ] in
    let ok_b : is_block b p ≡ true =
      block_start i p.block_bytes p.block_count pn (omega (arith, v.many)) in
    record {
      chain = Chain-push p xs b out v.chain;
      once = (out, v.once);
      above = λ c j. elim (Bool-cases (c == b)) [
        | inl e ↦ let q = ==→eq c b e in omega arith
        | inr e ↦ let a = v.above c (ground arith) in grind arith
      ];
      are = λ c j. elim (Bool-cases (c == b)) [
        | inl e ↦ ap (λ x. is_block x p) (==→eq c b e) ∙ ok_b
        | inr e ↦ v.are c (ground arith)
      ];
      many = omega (arith, v.many);
    }

thread-From :
    (i : ℕ) (p : FramePool) (xs : List ℕ)
    → 0 < p.block_bytes
    → From i p xs
    → From zero (thread i p) (blocks_below i p.block_bytes xs)
unfolding thread
thread-From zero p xs pn v = v
thread-From (suc i) p xs pn v =
    thread-From i (push_block (i * p.block_bytes) p) (i * p.block_bytes ∷ xs) pn
      (push_block-From i p xs pn v)

thread-block_size : (i : ℕ) (p : FramePool) → (thread i p).block_size ≡ p.block_size
unfolding thread
thread-block_size zero p = refl
thread-block_size (suc i) p = thread-block_size i (push_block (i * p.block_bytes) p)

nothing-From : (p : FramePool) → p.free ≡ none → From p.block_count p []
nothing-From p e = record {
  chain = e;
  once = tt;
  above = λ b j. absurd (ground arith);
  are = λ b j. absurd (ground arith);
  many = omega arith;
}

-- On a pool that nothing was allocated from, an `allocate` of a frame that fits a block works on the
-- free list of all its blocks, in the order of their addresses.
pub allocate_first :
    (p : FramePool) (n : ℕ)
    → p.initialized ≡ false
    → p.free ≡ none
    → 0 < p.block_bytes
    → n ≤ p.block_size
    → Holds (initialize p) (blocks_below p.block_count p.block_bytes []) []
      × (allocate n p ≡ allocate n (initialize p))
unfolding allocate initialize
allocate_first p n i e pn l =
    let a = thread-From p.block_count p [] pn (nothing-From p e) in
    let q : FramePool = record (thread p.block_count p) { initialized = true } in
    let h : Holds q (blocks_below p.block_count p.block_bytes []) [] = record {
      chain = a.chain;
      free_once = a.once;
      used_once = tt;
      apart = λ b j. refl;
      blocks = λ b j. a.are b (ground arith);
      total = omega (arith, a.many);
      ready = refl;
    } in
    let r : initialize_if p.initialized p ≡ q = ap (λ x. initialize_if x p) i in
    let c : ltb p.block_size n ≡ false = ground arith in
    let c' : ltb q.block_size n ≡ false =
      ap (λ x. ltb x n) (thread-block_size p.block_count p) ∙ c in
    let al : allocate n p ≡ allocate n q = rw (r, c, c') refl in
    (
      subst (λ x. Holds x (blocks_below p.block_count p.block_bytes []) []) (sym r) h,
      al ∙ ap (allocate n) (sym r),
    )
