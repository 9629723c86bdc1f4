-- ===== src/IntrusiveList/Tests.antt =====
-- The theorems on lists at a heap with two lists.
use coo_rtos.Base.{
  ℕ, ◌≡◌, refl, Bool, false, ◌||◌, ◌==◌, some, List, [], ◌∷◌, arith, remove, update,
}
use coo_rtos.IntrusiveList.{Heap, push_back, pop_front, unlink, linked}
use coo_rtos.IntrusiveList.Store.{Stores, Idle, push_back-Stores, unlink-Stores}

-- Every node is alone; 0 and 1 are the heads.
abbrev alone : Heap
alone n = record { prev = n; next = n; owner = some n }

abbrev heads : ℕ → Bool
heads l = l == 0 || l == 1

alone-Stores : Stores heads alone (λ l. [])
alone-Stores = record {
  rings = λ l i. record { chain = (refl, refl); distinct = (refl, tt) };
  apart = λ l m c i j ne h. ground arith;
}

abbrev one : Heap
one = push_back 0 5 alone

abbrev two : Heap
two = push_back 0 6 one

one-Stores : Stores heads one (update (λ l. []) 0 (5 ∷ []))
one-Stores =
    push_back-Stores heads alone (λ l. []) alone-Stores 0 5 refl (refl, refl, λ l i. ground arith)

abbrev lists : ℕ → List ℕ
lists = update (update (λ l. []) 0 (5 ∷ [])) 0 (5 ∷ 6 ∷ [])

one-Idle : Idle heads one (update (λ l. []) 0 (5 ∷ [])) 6
unfolding push_back
one-Idle = (refl, refl, λ l i. ground arith)

two-Stores : Stores heads two lists
two-Stores = push_back-Stores heads one (update (λ l. []) 0 (5 ∷ [])) one-Stores 0 6 refl one-Idle

unlink-Stores_example :
    Stores heads (unlink 5 two) (λ m. remove 5 (lists m))
    × Idle heads (unlink 5 two) (λ m. remove 5 (lists m)) 5
unlink-Stores_example = unlink-Stores heads two lists two-Stores 0 5 refl refl

popped_in_order : (pop_front 0 (pop_front 0 two).1).0 ≡ some 6
unfolding push_back pop_front
popped_in_order = refl

unlinked_free : linked 5 (unlink 5 two) ≡ false
unfolding push_back unlink linked
unlinked_free = refl
