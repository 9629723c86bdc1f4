-- ===== src/IntrusiveList/Unlink.antt =====
-- `ListNode::unlink`, `List::pop_front` and `List::empty` of intrusive_list.hpp.
use coo_rtos.Base.{
  ℕ, ◌≡◌, ◌≢◌, true, false, none, some, List, [], ◌∷◌, ◌++◌, arith, ◌==◌, if◌then◌else◌, has,
  Distinct, has-append, append-nil,
}
use coo_rtos.IntrusiveList.{Heap, linked, is_empty, unlink, pop_front}
use coo_rtos.IntrusiveList.Ring.{
  Seg, Ring, last, first_or, has-last, Seg-prev, Seg-next, Seg-split, Seg-join, Seg-frame,
  Seg-retarget, Distinct-split, Distinct-drop,
}

module _ (h : Heap) (n : ℕ) (apart_next : n ≢ (h n).next) (apart_prev : n ≢ (h n).prev) where
  unlink-next :
      (c : ℕ)
      → (unlink n h c).next
        ≡ (if c == n then n else if c == (h n).prev then (h n).next else (h c).next)
  unfolding unlink
  unlink-next c = ground arith

  unlink-prev :
      (c : ℕ)
      → (unlink n h c).prev
        ≡ (if c == n then n else if c == (h n).next then (h n).prev else (h c).prev)
  unfolding unlink
  unlink-prev c = ground arith

-- On a node that is in no list, `unlink` changes nothing at any address.
pub unlink_idle :
    (h : Heap) (n : ℕ) → (h n).next ≡ n → (h n).prev ≡ n → (c : ℕ) → unlink n h c ≡ h c
unfolding unlink
unlink_idle h n e p c = ground arith

module _ (h : Heap) (head n : ℕ) (xs : List ℕ) where
  unlink_last :
      Seg h head (xs ++ n ∷ []) head
      → Distinct (head ∷ xs ++ n ∷ [])
      → Seg (unlink n h) head xs head
  unlink_last s d =
      let (s₁, s₂) = Seg-split h head xs n [] head s in
      let r = Distinct-split (head ∷ xs) (n ∷ []) d in
      let e = Seg-prev h head xs n s₁ in
      let l = has-last head xs in
      let far : (last head xs == n) ≡ false = ground (arith, r.2 (last head xs)) in
      let ne : n ≢ (h n).next = ground (arith, r.2 head) in
      let free : n ≢ (h n).prev = ground arith in
      let nx = unlink-next h n ne free in
      let pv = unlink-prev h n ne free in
      Seg-retarget (unlink n h) h head xs n head r.0 (λ c i. ground (arith, nx c, r.2 c))
        (λ c i. ground (arith, pv c, r.2 c)) (ground (arith, pv head, r.2 head)) s₁

  unlink_inner :
      (y : ℕ) (ys : List ℕ)
      → Seg h head (xs ++ n ∷ y ∷ ys) head
      → Distinct (head ∷ xs ++ n ∷ y ∷ ys)
      → Seg (unlink n h) head (xs ++ y ∷ ys) head
  unlink_inner y ys s d =
      let (s₁, s₂) = Seg-split h head xs n (y ∷ ys) head s in
      let r = Distinct-split (head ∷ xs) (n ∷ y ∷ ys) d in
      let e = Seg-prev h head xs n s₁ in
      let l = has-last head xs in
      let far : (last head xs == n) ≡ false = ground (arith, r.2 (last head xs)) in
      let ne : n ≢ (h n).next = ground arith in
      let free : n ≢ (h n).prev = ground arith in
      let nx = unlink-next h n ne free in
      let pv = unlink-prev h n ne free in
      let g = unlink n h in
      let before =
        Seg-retarget g h head xs n y r.0 (λ c i. ground (arith, nx c, r.2 c))
          (λ c i. ground (arith, pv c, r.2 c)) (ground (arith, pv y)) s₁ in
      let after =
        Seg-frame g h y ys head (λ c i. ground (arith, nx c, r.2 (last head xs)))
          (λ c i. ground (arith, pv c)) (ground (arith, pv head, r.2 head)) s₂.2 in
      Seg-join g head xs y ys head before after

module _ (h : Heap) (head n : ℕ) where
  unlink-Seg : (xs ys : List ℕ) → Ring h head (xs ++ n ∷ ys) → Seg (unlink n h) head (xs ++ ys) head
  unlink-Seg xs [] r = rw append-nil (unlink_last h head n xs r.chain r.distinct)
  unlink-Seg xs (y ∷ ys) r = unlink_inner h head n xs y ys r.chain r.distinct

  first_or-ne : (xs ys : List ℕ) → Distinct (head ∷ xs ++ n ∷ ys) → n ≢ first_or ys head
  first_or-ne xs [] d = ground (arith, has-append head xs (n ∷ []))
  first_or-ne xs (y ∷ ys) d = let r = Distinct-split (head ∷ xs) (n ∷ y ∷ ys) d in ground arith

  -- The nodes that a member links to are other nodes of the list.
  neighbours :
      (xs ys : List ℕ)
      → Ring h head (xs ++ n ∷ ys)
      → ((h n).next ≡ first_or ys head)
        × ((h n).prev ≡ last head xs)
        × (n ≢ (h n).next)
        × (n ≢ (h n).prev)
  neighbours xs ys r =
      let (s₁, s₂) = Seg-split h head xs n ys head r.chain in
      let d = Distinct-split (head ∷ xs) (n ∷ ys) r.distinct in
      let e = Seg-next h n ys head s₂ in
      let e' = Seg-prev h head xs n s₁ in
      let apart = first_or-ne xs ys r.distinct in
      let l = has-last head xs in (e, e', ground arith, ground (arith, d.2 (last head xs)))

  has-neighbours :
      (xs ys : List ℕ)
      → (has (last head xs) (head ∷ xs ++ n ∷ ys) ≡ true)
        × (has (first_or ys head) (head ∷ xs ++ n ∷ ys) ≡ true)
  has-neighbours xs [] =
      (ground (arith, has-last head xs, has-append (last head xs) xs (n ∷ [])), ground arith)
  has-neighbours xs (y ∷ ys) = (
    ground (arith, has-last head xs, has-append (last head xs) xs (n ∷ y ∷ ys)),
    ground (arith, has-append y xs (n ∷ y ∷ ys)),
  )

  unlink_elsewhere : (c : ℕ) → c ≢ n → c ≢ (h n).prev → c ≢ (h n).next → unlink n h c ≡ h c
  unfolding unlink
  unlink_elsewhere c a b d = ground arith

  pub unlink_self : (unlink n h n).next ≡ n × (unlink n h n).prev ≡ n
  unfolding unlink
  unlink_self = ground arith

  -- Unlinking a member takes exactly it out of the sequence, leaves it linked to itself, and
  -- touches no node outside this list.
  pub unlink-Ring :
      (xs ys : List ℕ)
      → Ring h head (xs ++ n ∷ ys)
      → Ring (unlink n h) head (xs ++ ys)
        × (linked n (unlink n h) ≡ false)
        × ((unlink n h n).prev ≡ n)
        × ((c : ℕ) → has c (head ∷ xs ++ n ∷ ys) ≡ false → unlink n h c ≡ h c)
  unfolding linked
  unlink-Ring xs ys r =
      let d = Distinct-drop n (head ∷ xs) ys r.distinct in
      let nb = neighbours xs ys r in
      let m = has-neighbours xs ys in
      (
        record { chain = unlink-Seg xs ys r; distinct = d.0 },
        ground (arith, unlink_self),
        ground (arith, unlink_self),
        λ c out.
            unlink_elsewhere c (ground (arith, has-append n xs (n ∷ ys))) (ground arith)
              (ground arith),
      )

  -- `unlink` is idempotent on a member of a list: the second call changes nothing.
  pub unlink_twice :
      (xs ys : List ℕ)
      → Ring h head (xs ++ n ∷ ys)
      → (c : ℕ) → unlink n (unlink n h) c ≡ unlink n h c
  unlink_twice xs ys r c = unlink_idle (unlink n h) n unlink_self.0 unlink_self.1 c

module _ (h : Heap) (head : ℕ) where
  pub is_empty_nil : Ring h head [] → is_empty head h ≡ true
  unfolding is_empty
  is_empty_nil r = ground (arith, r.chain)

  pub is_empty_cons : (x : ℕ) (xs : List ℕ) → Ring h head (x ∷ xs) → is_empty head h ≡ false
  unfolding is_empty
  is_empty_cons x xs r = ground (arith, r.chain, r.distinct)

  pub pop_front_nil : Ring h head [] → pop_front head h ≡ (none, h)
  unfolding pop_front
  pop_front_nil r = ground (arith, r.chain)

  pub pop_front_cons :
      (x : ℕ) (xs : List ℕ) → Ring h head (x ∷ xs) → pop_front head h ≡ (some x, unlink x h)
  unfolding pop_front
  pop_front_cons x xs r = let e = r.chain.0 in rw (is_empty_cons x xs r, e)
