-- ===== src/IntrusiveList.antt =====
-- intrusive_list.hpp: nodes of circular doubly linked lists, on an explicit heap of addresses.
-- A function that writes through a pointer returns the new heap. `null` stands for `nullptr`.
pub mod Ring
pub mod Insert
pub mod Unlink
pub mod Store
mod Tests
use coo_rtos.Base.{ℕ, Bool, not, Option, none, some, ◌==◌, if◌then◌else◌, update}

-- `struct ListNode`: the links, and the object that holds the node.
pub record ListNode : Type 0 where
  pub prev : ℕ
  pub next : ℕ
  pub owner : Option ℕ

abbrev pub Heap : Type 0
Heap = ℕ → ListNode

abbrev pub set_prev : ℕ → ℕ → Heap → Heap
set_prev a v h = update h a (record (h a) { prev = v })

abbrev pub set_next : ℕ → ℕ → Heap → Heap
set_next a v h = update h a (record (h a) { next = v })

-- `ListNode(void* own)`: a fresh node is linked to itself.
pub construct : ℕ → Option ℕ → Heap → Heap
construct n own h = update h n (record { prev = n; next = n; owner = own })

pub linked : ℕ → Heap → Bool
linked n h = not ((h n).next == n)

pub unlink : ℕ → Heap → Heap
unlink n h =
    let h₁ = set_next (h n).prev (h n).next h in
    let h₂ = set_prev (h₁ n).next (h₁ n).prev h₁ in set_prev n n (set_next n n h₂)

pub insert_before : ℕ → ℕ → Heap → Heap
insert_before n pos h =
    let h₁ = set_prev n (h pos).prev h in
    let h₂ = set_next n pos h₁ in let h₃ = set_next (h₂ pos).prev n h₂ in set_prev pos n h₃

-- `struct List` is the address of its head node.
pub is_empty : ℕ → Heap → Bool
unfolding linked
is_empty head h = not (linked head h)

pub push_back : ℕ → ℕ → Heap → Heap
unfolding insert_before
push_back head n h = insert_before n head h

pub first : ℕ → Heap → Option ℕ
unfolding is_empty
first head h = if is_empty head h then none else some (h head).next

pub pop_front : ℕ → Heap → Option ℕ × Heap
unfolding is_empty unlink
pop_front head h =
    if is_empty head h then (none, h) else (let n = (h head).next in (some n, unlink n h))
