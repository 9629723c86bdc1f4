-- ===== src/Kernel/Link.antt =====
-- Linking the node of a sleeping task into a wait list and into the delay list keeps the invariant.
use coo_rtos.Base.{
  ℕ, ◌≡◌, refl, ap, sym, ◌∙◌, ◌⊎◌, inl, inr, true, false, ◌||◌, ◌&&◌, some, List, [], ◌∷◌, arith,
  ◌==◌, Bool-cases, has, has-append, Distinct, append-Distinct, ==→eq,
}
use coo_rtos.Kernel.{blocked, Kernel, WaitNode, insert_by_deadline, delay_insert, join_wait}
use coo_rtos.Kernel.Invariant.{Inv, Linked, waits_for}

pub has-insert_by_deadline :
    (nodes : ℕ → WaitNode) (w d c : ℕ) (xs : List ℕ)
    → has c (insert_by_deadline nodes w d xs) ≡ ((c == w) || has c xs)
unfolding insert_by_deadline
has-insert_by_deadline nodes w d c [] = refl
has-insert_by_deadline nodes w d c (x ∷ xs) = ground (arith, has-insert_by_deadline nodes w d c xs)

insert_by_deadline-Distinct :
    (nodes : ℕ → WaitNode) (w d : ℕ) (xs : List ℕ)
    → has w xs ≡ false
    → Distinct xs
    → Distinct (insert_by_deadline nodes w d xs)
unfolding insert_by_deadline
insert_by_deadline-Distinct nodes w d [] out s = (refl, tt)
insert_by_deadline-Distinct nodes w d (x ∷ xs) out s =
    ground (arith, insert_by_deadline-Distinct nodes w d xs, has-insert_by_deadline nodes w d x xs)

-- The node is in no list.
pub record Unlinked (k : Kernel) (w : ℕ) : Type 0 where
  pub not_delayed : has w k.delay_list ≡ false
  pub not_waiting : (l : ℕ) → has w (k.wait_lists l) ≡ false

-- `w` is the node of a blocked task, and no other linked node is that task's.
pub record Owns (k : Kernel) (w t : ℕ) : Type 0 where
  pub own : (k.nodes w).task ≡ some t
  pub asleep : (k.tasks t).state ≡ blocked
  pub only : (x : ℕ) → Linked k x → (k.nodes x).task ≡ some t → x ≡ w

module _ (k : Kernel) (w t : ℕ) (v : Inv k) (o : Owns k w t) where
  w-waits : waits_for (k.nodes w).task k.tasks ≡ true
  w-waits = rw (o.own) (ground (arith, o.asleep))

  one_owner :
      (x y : ℕ)
      → (x ≡ w) ⊎ Linked k x
      → (y ≡ w) ⊎ Linked k y
      → (k.nodes x).task ≡ (k.nodes y).task
      → x ≡ y
  one_owner x y (inl e) (inl f) q = e ∙ sym f
  one_owner x y (inl e) (inr j) q =
      e ∙ sym (o.only y j (sym q ∙ ap (λ c. (k.nodes c).task) e ∙ o.own))
  one_owner x y (inr i) (inl f) q = o.only x i (q ∙ ap (λ c. (k.nodes c).task) f ∙ o.own) ∙ sym f
  one_owner x y (inr i) (inr j) q = v.one_node x y i j q

  module _ (l : ℕ) (out : (m : ℕ) → has w (k.wait_lists m) ≡ false) where
    abbrev pub joined : Kernel
    joined = join_wait w (some l) k

    joined-has :
        (m x : ℕ) → has x (joined.wait_lists m) ≡ (has x (k.wait_lists m) || ((x == w) && (m == l)))
    joined-has m x = ground (arith, has-append x (k.wait_lists l) (w ∷ []))

    pub joined-Linked : (x : ℕ) → Linked joined x → (x ≡ w) ⊎ Linked k x
    joined-Linked x (inl i) = inr (inl i)
    joined-Linked x (inr (m, i)) = elim (Bool-cases (x == w)) [
      | inl e ↦ inl (==→eq x w e)
      | inr e ↦ inr (inr (m, ground (arith, joined-has m x)))
    ]

    pub joined-Inv : Inv joined
    joined-Inv = record {
      ready_has = v.ready_has;
      ready_in = v.ready_in;
      ready_distinct = v.ready_distinct;
      in_range = v.in_range;
      delay_distinct = v.delay_distinct;
      wait_distinct = λ m. ground (
        arith,
        v.wait_distinct m,
        v.wait_distinct l,
        append-Distinct (k.wait_lists l) w (v.wait_distinct l) (out l),
      );
      linked_waits =
          λ x i. elim (joined-Linked x i) [ inl e ↦ rw e w-waits | inr j ↦ v.linked_waits x j ];
      one_node = λ x y i j e. one_owner x y (joined-Linked x i) (joined-Linked y j) e;
      one_list = λ a b x i j.
          ground (arith, joined-has a x, joined-has b x, v.one_list a b x, out a, out b);
    }

    pub joined-Owns : Owns joined w t
    joined-Owns = record {
      own = o.own;
      asleep = o.asleep;
      only = λ x i q. elim (joined-Linked x i) [ inl e ↦ e | inr j ↦ o.only x j q ];
    }

  module _ (deadline : ℕ) (out : has w k.delay_list ≡ false) where
    abbrev pub delayed : Kernel
    delayed = delay_insert w deadline k

    delayed-task : (x : ℕ) → (delayed.nodes x).task ≡ (k.nodes x).task
    unfolding delay_insert
    delayed-task x = ground arith

    delayed-Linked : (x : ℕ) → Linked delayed x → (x ≡ w) ⊎ Linked k x
    unfolding delay_insert
    delayed-Linked x (inr i) = inr (inr i)
    delayed-Linked x (inl i) = elim (Bool-cases (x == w)) [
      | inl e ↦ inl (==→eq x w e)
      | inr e ↦
          inr (inl (ground (arith, has-insert_by_deadline delayed.nodes w deadline x k.delay_list)))
    ]

    pub delayed-Inv : Inv delayed
    unfolding delay_insert
    delayed-Inv = record {
      ready_has = v.ready_has;
      ready_in = v.ready_in;
      ready_distinct = v.ready_distinct;
      in_range = v.in_range;
      delay_distinct =
          insert_by_deadline-Distinct delayed.nodes w deadline k.delay_list out v.delay_distinct;
      wait_distinct = v.wait_distinct;
      linked_waits = λ x i.
          rw (delayed-task x)
            (elim (delayed-Linked x i) [ inl e ↦ rw e w-waits | inr j ↦ v.linked_waits x j ]);
      one_node = λ x y i j e.
          one_owner x y (delayed-Linked x i) (delayed-Linked y j)
            (sym (delayed-task x) ∙ e ∙ delayed-task y);
      one_list = v.one_list;
    }
