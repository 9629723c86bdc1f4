-- ===== src/IntrusiveList/Insert.antt =====
-- `ListNode::insert_before` and `List::push_back` of intrusive_list.hpp.
use coo_rtos.Base.{
  ℕ, ◌≡◌, ◌≢◌, false, List, [], ◌∷◌, ◌++◌, arith, ◌==◌, if◌then◌else◌, has, Distinct, has-append,
  append-nil,
}
use coo_rtos.IntrusiveList.{Heap, insert_before, push_back}
use coo_rtos.IntrusiveList.Ring.{
  Seg, Ring, last, first_or, has-last, Seg-prev, Seg-split, Seg-join, Seg-frame, Seg-retarget,
  Distinct-split, Distinct-insert,
}

module _ (h : Heap) (n pos : ℕ) (apart : n ≢ pos) (free : n ≢ (h pos).prev) where
  insert_before-next :
      (c : ℕ)
      → (insert_before n pos h c).next
        ≡ (if c == n then pos else if c == (h pos).prev then n else (h c).next)
  unfolding insert_before
  insert_before-next c = ground arith

  insert_before-prev :
      (c : ℕ)
      → (insert_before n pos h c).prev
        ≡ (if c == n then (h pos).prev else if c == pos then n else (h c).prev)
  unfolding insert_before
  insert_before-prev c = ground arith

module _ (h : Heap) (head n : ℕ) (xs : List ℕ) where
  insert_at_end :
      Seg h head xs head
      → Distinct (head ∷ xs)
      → has n (head ∷ xs) ≡ false
      → Seg (insert_before n head h) head (xs ++ n ∷ []) head
  insert_at_end s d out =
      let e = Seg-prev h head xs head s in
      let l = has-last head xs in
      let ne : n ≢ head = ground arith in
      let free : n ≢ (h head).prev = ground arith in
      let nx = insert_before-next h n head ne free in
      let pv = insert_before-prev h n head ne free in
      let g = insert_before n head h in
      Seg-join g head xs n [] head
        (Seg-retarget g h head xs head n d (λ c i. ground (arith, nx c))
          (λ c i. ground (arith, pv c)) (ground (arith, pv n)) s)
        (ground (arith, nx n), ground (arith, pv head))

module _ (h : Heap) (head n y : ℕ) (xs ys : List ℕ) where
  insert_before_member :
      Seg h head (xs ++ y ∷ ys) head
      → Distinct (head ∷ xs ++ y ∷ ys)
      → has n (head ∷ xs ++ y ∷ ys) ≡ false
      → Seg (insert_before n y h) head (xs ++ n ∷ y ∷ ys) head
  insert_before_member s d out =
      let (s₁, s₂) = Seg-split h head xs y ys head s in
      let r = Distinct-split (head ∷ xs) (y ∷ ys) d in
      let e = Seg-prev h head xs y s₁ in
      let l = has-last head xs in
      let hx = has-append n xs (y ∷ ys) in
      let ne : n ≢ y = ground arith in
      let free : n ≢ (h y).prev = ground arith in
      let far : (last head xs == y) ≡ false = ground (arith, r.2 (last head xs)) in
      let nx = insert_before-next h n y ne free in
      let pv = insert_before-prev h n y ne free in
      let g = insert_before n y h in
      let front =
        Seg-retarget g h head xs y n r.0 (λ c i. ground (arith, nx c))
          (λ c i. ground (arith, pv c, r.2 c)) (ground (arith, pv n)) s₁ in
      let back =
        Seg-frame g h y ys head (λ c i. ground (arith, nx c, r.2 (last head xs)))
          (λ c i. ground (arith, pv c)) (ground (arith, pv head, r.2 head)) s₂ in
      Seg-join g head xs n (y ∷ ys) head front (ground (arith, nx n), ground (arith, pv y), back)

insert_before_elsewhere :
    (h : Heap) (n pos c : ℕ)
    → c ≢ n
    → c ≢ pos
    → c ≢ (h pos).prev
    → n ≢ pos
    → insert_before n pos h c ≡ h c
unfolding insert_before
insert_before_elsewhere h n pos c a b d e = ground arith

module _ (h : Heap) (head n : ℕ) where
  insert_before-Seg :
      (xs ys : List ℕ)
      → Ring h head (xs ++ ys)
      → has n (head ∷ xs ++ ys) ≡ false
      → Seg (insert_before n (first_or ys head) h) head (xs ++ n ∷ ys) head
  insert_before-Seg xs [] r out =
      let e = append-nil xs in
      insert_at_end h head n xs (rw e at r.chain) (rw e at r.distinct) (rw e at out)
  insert_before-Seg xs (y ∷ ys) r out = insert_before_member h head n y xs ys r.chain r.distinct out

  -- Inserting a node that is in no list before a position of a list (before a member, or before
  -- the head node, which is the end) puts it at that place of the sequence.
  pub insert_before-Ring :
      (xs ys : List ℕ)
      → Ring h head (xs ++ ys)
      → has n (head ∷ xs ++ ys) ≡ false
      → Ring (insert_before n (first_or ys head) h) head (xs ++ n ∷ ys)
  insert_before-Ring xs ys r out = record {
    chain = insert_before-Seg xs ys r out;
    distinct = Distinct-insert n (head ∷ xs) ys r.distinct out;
  }

  -- `push_back` appends to the sequence, and touches no node but the new one and the list's.
  pub push_back-Ring :
      (xs : List ℕ)
      → Ring h head xs
      → has n (head ∷ xs) ≡ false
      → Ring (push_back head n h) head (xs ++ n ∷ [])
        × ((c : ℕ) → has c (n ∷ head ∷ xs) ≡ false → push_back head n h c ≡ h c)
  unfolding push_back
  push_back-Ring xs r out =
      let e = Seg-prev h head xs head r.chain in
      let l = has-last head xs in
      (
        insert_before-Ring xs [] (rw append-nil r) (rw append-nil out),
        λ c o.
            insert_before_elsewhere h n head c (ground arith) (ground arith) (ground arith)
              (ground arith),
      )
