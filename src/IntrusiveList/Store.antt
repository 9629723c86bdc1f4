-- ===== src/IntrusiveList/Store.antt =====
-- Many lists on one heap: the abstract view that the kernel's model works with. A list is its
-- sequence of nodes, and no node is in two lists.
use coo_rtos.Base.{
  ℕ, ◌≡◌, refl, ap, sym, subst, inl, inr, true, false, Option, none, some, List, [], ◌∷◌, ◌++◌,
  arith, ◌==◌, Bool, Bool-cases, ==→eq, has, Distinct, has-append, has-remove, front, remove,
  remove_absent, update,
}
use coo_rtos.IntrusiveList.{Heap, unlink, pop_front, push_back}
use coo_rtos.IntrusiveList.Ring.{Ring, Seg-frame}
use coo_rtos.IntrusiveList.Insert.{push_back-Ring}
use coo_rtos.IntrusiveList.Unlink.{
  unlink-Ring, unlink_idle, unlink_self, pop_front_nil, pop_front_cons,
}

-- The heap `h` stores, at every head node that `heads` names, the list `lists` gives it.
pub record Stores (heads : ℕ → Bool) (h : Heap) (lists : ℕ → List ℕ) : Type 0 where
  pub rings : (l : ℕ) → heads l ≡ true → Ring h l (lists l)
  pub apart :
      (l m c : ℕ)
      → heads l ≡ true
      → heads m ≡ true
      → (l == m) ≡ false
      → has c (l ∷ lists l) ≡ true
      → has c (m ∷ lists m) ≡ false

-- A node that is in no list, and is no head.
abbrev pub Idle : (ℕ → Bool) → Heap → (ℕ → List ℕ) → ℕ → Type 0
Idle heads h lists n =
    ((h n).next ≡ n) × ((h n).prev ≡ n) × ((l : ℕ) → heads l ≡ true → has n (l ∷ lists l) ≡ false)

-- The lists when the node that was taken, if any, has left them.
abbrev pub without : Option ℕ → (ℕ → List ℕ) → ℕ → List ℕ
without none lists m = lists m
without (some n) lists m = remove n (lists m)

Ring-frame :
    (g h : Heap) (l : ℕ) (xs : List ℕ)
    → ((c : ℕ) → has c (l ∷ xs) ≡ true → g c ≡ h c)
    → Ring h l xs
    → Ring g l xs
Ring-frame g h l xs same r = record {
  chain =
      Seg-frame g h l xs l (λ c i. ap (λ (n : _). n.next) (same c i))
        (λ c i. ap (λ (n : _). n.prev) (same c (ground arith)))
        (ap (λ (n : _). n.prev) (same l (ground arith))) r.chain;
  distinct = r.distinct;
}

has-split :
    (n : ℕ) (xs : List ℕ) → has n xs ≡ true → (ys : List ℕ) × (zs : List ℕ) × (xs ≡ ys ++ n ∷ zs)
has-split n [] i = cc
has-split n (x ∷ xs) i = elim (Bool-cases (n == x)) [
  | inl e ↦ ([], xs, ap (λ y. y ∷ xs) (sym (==→eq n x e)))
  | inr e ↦ let (ys, zs, p) = has-split n xs (ground arith) in (x ∷ ys, zs, ap (λ ws. x ∷ ws) p)
]

module _ (heads : ℕ → Bool) (h : Heap) (lists : ℕ → List ℕ) (v : Stores heads h lists) where
  -- Appending an idle node to one list leaves all the others as they are.
  pub push_back-Stores :
      (l n : ℕ)
      → heads l ≡ true
      → Idle heads h lists n
      → Stores heads (push_back l n h) (update lists l (lists l ++ n ∷ []))
  push_back-Stores l n hl idle =
      let p = push_back-Ring h l n (lists l) (v.rings l hl) (idle.2 l hl) in
      record {
        rings = λ m hm. elim (Bool-cases (m == l)) [
          | inl e ↦ let q = ==→eq m l e in rw q (ground (arith, p.0))
          | inr e ↦ rw e (
              Ring-frame (push_back l n h) h m (lists m)
                (λ c i. p.1 c (ground (arith, v.apart m l c hm hl e i, idle.2 m hm)))
                (v.rings m hm))
        ];
        apart = λ a b c ha hb ne i. ground (
          arith,
          v.apart a b c ha hb ne,
          has-append c (lists l) (n ∷ []),
          idle.2 a ha,
          idle.2 b hb,
        );
      }

remove-split :
    (n : ℕ) (ys zs : List ℕ) → Distinct (ys ++ n ∷ zs) → remove n (ys ++ n ∷ zs) ≡ ys ++ zs
remove-split n [] zs d = ground (arith, remove_absent n zs)
remove-split n (y ∷ ys) zs d = ground (arith, remove-split n ys zs d.1, has-append y ys (n ∷ zs))

module _ (heads : ℕ → Bool) (h : Heap) (lists : ℕ → List ℕ) (v : Stores heads h lists) where
  member-elsewhere :
      (l m n : ℕ)
      → heads l ≡ true
      → heads m ≡ true
      → has n (lists l) ≡ true
      → (m == l) ≡ false
      → has n (m ∷ lists m) ≡ false
  member-elsewhere l m n hl hm i ne = v.apart l m n hl hm (ground arith) (ground arith)

  unlink-rings :
      (l n : ℕ)
      → heads l ≡ true
      → has n (lists l) ≡ true
      → (m : ℕ) → heads m ≡ true
      → Ring (unlink n h) m (remove n (lists m))
  unlink-rings l n hl i m hm =
      let (ys, zs, p) = has-split n (lists l) i in
      let r : Ring h l (ys ++ n ∷ zs) = subst (Ring h l) p (v.rings l hl) in
      let u = unlink-Ring h l n ys zs r in
      elim (Bool-cases (m == l)) [
        | inl e ↦ rw (==→eq m l e, p, remove-split n ys zs r.distinct.1) u.0
        | inr e ↦
            rw (remove_absent n (lists m) (ground (arith, member-elsewhere l m n hl hm i e))) (
              Ring-frame (unlink n h) h m (lists m)
                (λ c j. u.3 c (rw (← p) (v.apart m l c hm hl e j))) (v.rings m hm))
      ]

  removed_everywhere :
      (l n : ℕ)
      → heads l ≡ true
      → has n (lists l) ≡ true
      → (m : ℕ) → heads m ≡ true
      → has n (m ∷ remove n (lists m)) ≡ false
  removed_everywhere l n hl i m hm =
      let d = (v.rings l hl).distinct.0 in
      let k = has-remove n n (lists m) in
      elim (Bool-cases (m == l)) [
        | inl e ↦ ground arith
        | inr e ↦ ground (arith, member-elsewhere l m n hl hm i e)
      ]

  -- Unlinking a member of any list takes it out of that list, leaves the other lists as they are,
  -- and leaves the node idle.
  pub unlink-Stores :
      (l n : ℕ)
      → heads l ≡ true
      → has n (lists l) ≡ true
      → Stores heads (unlink n h) (λ m. remove n (lists m))
        × Idle heads (unlink n h) (λ m. remove n (lists m)) n
  unlink-Stores l n hl i = (
    record {
      rings = unlink-rings l n hl i;
      apart = λ a b c ha hb ne j.
          ground
            (arith, v.apart a b c ha hb ne, has-remove c n (lists a), has-remove c n (lists b));
    },
    ((unlink_self h l n).0, (unlink_self h l n).1, removed_everywhere l n hl i),
  )

  -- On an idle node `unlink` is a no-op, of the heap and of the sequences.
  pub unlink-Idle-Stores :
      (n : ℕ)
      → Idle heads h lists n
      → ((c : ℕ) → unlink n h c ≡ h c) × ((l : ℕ) → heads l ≡ true → remove n (lists l) ≡ lists l)
  unlink-Idle-Stores n idle = (
    unlink_idle h n idle.0 idle.1,
    λ l hl. remove_absent n (lists l) (ground (arith, idle.2 l hl)),
  )

  pop_front-Stores_at :
      (l : ℕ) (xs : List ℕ)
      → heads l ≡ true
      → lists l ≡ xs
      → ((pop_front l h).0 ≡ front xs) × Stores heads (pop_front l h).1 (without (front xs) lists)
  pop_front-Stores_at l [] hl e =
      rw (pop_front_nil h l (subst (Ring h l) e (v.rings l hl))) (refl, v)
  pop_front-Stores_at l (x ∷ xs) hl e =
      rw (pop_front_cons h l x xs (subst (Ring h l) e (v.rings l hl)))
        (refl, (unlink-Stores l x hl (rw e (ground arith))).0)

  -- `pop_front` returns the first member, or nothing from the empty list only, and takes exactly
  -- that member out.
  pub pop_front-Stores :
      (l : ℕ)
      → heads l ≡ true
      → ((pop_front l h).0 ≡ front (lists l))
        × Stores heads (pop_front l h).1 (without (front (lists l)) lists)
  pop_front-Stores l hl = pop_front-Stores_at l (lists l) hl refl
