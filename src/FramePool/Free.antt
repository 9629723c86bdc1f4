-- ===== src/FramePool/Free.antt =====
-- The free list holds exactly the blocks that are not handed out, each of them once.
use coo_rtos.Base.{
  ℕ, zero, suc, ◌+◌, ◌≤◌, ◌<◌, ◌≡◌, refl, ap, sym, ◌∙◌, inl, inr, true, false, ◌||◌, Option, none,
  some, List, [], ◌∷◌, arith, ◌==◌, ==→eq, ltb, ltb→lt, Bool-cases, has, has-remove, remove,
  remove_absent, remove-Distinct, Distinct, length, update, ok, Returns, subst, ==_refl,
}
use coo_rtos.FramePool.{
  FramePool, push_block, take_free, initialize, initialize_if, allocate, is_block, deallocate,
  count_from, free_count,
}

-- From `o` on, the links go through `xs` and end.
abbrev pub Chain : (ℕ → Option ℕ) → Option ℕ → List ℕ → Type 0
Chain next o [] = o ≡ none
Chain next o (x ∷ xs) = (o ≡ some x) × Chain next (next x) xs

-- `xs` are the free blocks in the order of the list, `ys` the blocks that are handed out.
pub record Holds (p : FramePool) (xs ys : List ℕ) : Type 0 where
  pub chain : Chain p.next p.free xs
  pub free_once : Distinct xs
  pub used_once : Distinct ys
  pub apart : (b : ℕ) → has b xs ≡ true → has b ys ≡ false
  pub blocks : (b : ℕ) → (has b xs || has b ys) ≡ true → is_block b p ≡ true
  pub total : length xs + length ys ≡ p.block_count
  pub ready : p.initialized ≡ true

pub Chain-frame :
    (next : ℕ → Option ℕ) (o : Option ℕ) (xs : List ℕ) (b : ℕ) (v : Option ℕ)
    → has b xs ≡ false
    → Chain next o xs
    → Chain (update next b v) o xs
Chain-frame next o [] b v e c = c
Chain-frame next o (x ∷ xs) b v e c =
    let n : (x == b) ≡ false = ground arith in
    (c.0, rw n (Chain-frame next (next x) xs b v (ground arith) c.1))

pub Chain-push :
    (p : FramePool) (xs : List ℕ) (b : ℕ)
    → has b xs ≡ false
    → Chain p.next p.free xs
    → Chain (push_block b p).next (push_block b p).free (b ∷ xs)
Chain-push p xs b out c =
    let same : (push_block b p).next b ≡ p.free = rw (==_refl b) refl in
    (
      refl,
      subst (λ o. Chain (push_block b p).next o xs) (sym same)
          (Chain-frame p.next p.free xs b p.free out c),
    )

length-remove :
    (b : ℕ) (ys : List ℕ) → Distinct ys → has b ys ≡ true → length (remove b ys) + 1 ≡ length ys
length-remove b [] d i = absurd (ground arith)
length-remove b (y ∷ ys) d i = elim (Bool-cases (y == b)) [
  | inl e ↦
      let out : has b ys ≡ false = ground (arith, ap (λ x. has x ys) (==→eq y b e), d.0) in
      rw (e, remove_absent b ys out) (omega arith)
  | inr e ↦ let rest = length-remove b ys d.1 (ground arith) in rw e (omega (arith, rest))
]

initialize_ready : (p : FramePool) → p.initialized ≡ true → initialize p ≡ p
unfolding initialize
initialize_ready p e = ap (λ i. initialize_if i p) e

-- The ends of `allocate` on a pool whose list is threaded.
pub data Allocates (n : ℕ) (p : FramePool) (xs ys : List ℕ) (r : Option ℕ) (p' : FramePool)
    : Type 0 where
  too_long : p.block_size < n → r ≡ none → p' ≡ p → Allocates n p xs ys r p'
  empty : n ≤ p.block_size → xs ≡ [] → r ≡ none → p' ≡ p → Allocates n p xs ys r p'
  gives :
      (b : ℕ) (rest : List ℕ)
      → n ≤ p.block_size
      → xs ≡ b ∷ rest
      → r ≡ some b
      → Holds p' rest (b ∷ ys)
      → Allocates n p xs ys r p'

module _ (p : FramePool) where
  take_free-Allocates :
      (n : ℕ) (xs ys : List ℕ)
      → Holds p xs ys
      → n ≤ p.block_size
      → let r = take_free p.free p in Allocates n p xs ys r.0 r.1
  unfolding take_free
  take_free-Allocates n [] ys v l = rw (v.chain) (empty l refl refl refl)
  take_free-Allocates n (x ∷ xs) ys v l = rw (v.chain.0) (
      gives x xs l refl refl (record {
        chain = v.chain.1;
        free_once = v.free_once.1;
        used_once = (v.apart x (ground arith), v.used_once);
        apart = λ b i. elim (Bool-cases (b == x)) [
          | inl e ↦ absurd (ground (arith, ap (λ c. has c xs) (==→eq b x e), v.free_once.0))
          | inr e ↦ ground (arith, v.apart b)
        ];
        blocks = λ b i. v.blocks b (ground arith);
        total = omega (arith, v.total);
        ready = v.ready;
      }))

  module _ (xs ys : List ℕ) (v : Holds p xs ys) where
    -- `allocate` returns null exactly when the frame is longer than a block or no block is free, and
    -- then changes nothing. Otherwise it hands out the first free block, which nobody else has.
    pub allocate-Allocates : (n : ℕ) → let r = allocate n p in Allocates n p xs ys r.0 r.1
    unfolding allocate
    allocate-Allocates n = elim (Bool-cases (ltb p.block_size n)) [
      | inl c ↦ rw c (too_long (ltb→lt p.block_size n c) refl refl)
      | inr c ↦ rw (c, initialize_ready p v.ready) (take_free-Allocates n xs ys v (ground arith))
    ]

    -- A block that is handed out can be given back without a trap, and is the first free one then.
    pub deallocate-Holds :
        (b : ℕ)
        → has b ys ≡ true
        → Returns (λ p'. Holds p' (b ∷ xs) (remove b ys)) (deallocate (some b) p)
    unfolding deallocate
    deallocate-Holds b i =
        let out : has b xs ≡ false = elim (Bool-cases (has b xs)) [
          | inl j ↦ absurd (ground (arith, v.apart b j))
          | inr j ↦ j
        ] in
        (
          push_block b p,
          rw (v.blocks b (ground arith)) refl,
          record {
            chain = Chain-push p xs b out v.chain;
            free_once = (out, v.free_once);
            used_once = remove-Distinct b ys v.used_once;
            apart = λ c j. ground (arith, v.apart c, has-remove c b ys);
            blocks = λ c j. elim (Bool-cases (c == b)) [
              | inl e ↦ ap (λ x. is_block x p) (==→eq c b e) ∙ v.blocks b (ground arith)
              | inr e ↦ v.blocks c (ground (arith, has-remove c b ys))
            ];
            total = omega (arith, v.total, length-remove b ys v.used_once i);
            ready = v.ready;
          },
        )

    -- `free_count` returns, and is the number of free blocks.
    pub free_count-length : free_count p ≡ ok (length xs)
    unfolding free_count count_from
    free_count-length = counted xs p.block_count p.free v.chain (omega (arith, v.total))
      where
        counted :
            (zs : List ℕ) (f : ℕ) (o : Option ℕ)
            → Chain p.next o zs
            → length zs ≤ f
            → count_from f o p ≡ ok (length zs)
        counted [] zero o c l = ap (λ x. count_from 0 x p) c
        counted [] (suc f) o c l = ap (λ x. count_from (suc f) x p) c
        counted (z ∷ zs) zero o c l = absurd (omega arith)
        counted (z ∷ zs) (suc f) o c l =
            let r = counted zs f (p.next z) c.1 (omega arith) in
            ap (λ x. count_from (suc f) x p) c.0 ∙ rw r (ap ok (omega arith))
