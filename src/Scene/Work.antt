-- ===== src/Scene/Work.antt =====
-- The work of tasks that end at once: one for each ready task.
use coo_rtos.Base.{
  ℕ, zero, suc, ◌+◌, ◌≤◌, ◌<◌, ◌≡◌, ap, sym, ◌∙◌, inl, inr, Bool-cases, List, [], ◌∷◌, arith, has,
  remove, length, ◌==◌, ==→eq, true,
}
use coo_rtos.Kernel.{Kernel}

abbrev pub ends : ℕ → Kernel → Kernel
ends h k = k

-- The number of ready tasks above `top`.
abbrev pub ready_above : ℕ → (ℕ → List ℕ) → ℕ
ready_above zero lists = 0
ready_above (suc n) lists = length (lists n) + ready_above n lists

length-remove_le : (a : ℕ) (xs : List ℕ) → length (remove a xs) ≤ length xs
length-remove_le a [] = omega arith
length-remove_le a (x ∷ xs) = ground (arith, length-remove_le a xs)

length-remove_lt : (a : ℕ) (xs : List ℕ) → has a xs ≡ true → length (remove a xs) < length xs
length-remove_lt a [] i = absurd (ground arith)
length-remove_lt a (x ∷ xs) i = elim (Bool-cases (x == a)) [
  | inl e ↦ let l = length-remove_le a xs in rw e (omega arith)
  | inr e ↦ let l = length-remove_lt a xs (ground arith) in rw e (omega arith)
]

ready_above-remove_le :
    (n t : ℕ) (lists : ℕ → List ℕ) → ready_above n (λ pr. remove t (lists pr)) ≤ ready_above n lists
ready_above-remove_le zero t lists = omega arith
ready_above-remove_le (suc n) t lists =
    omega (arith, length-remove_le t (lists n), ready_above-remove_le n t lists)

pub ready_above-remove_lt :
    (n t pr : ℕ) (lists : ℕ → List ℕ)
    → pr < n
    → has t (lists pr) ≡ true
    → ready_above n (λ q. remove t (lists q)) < ready_above n lists
ready_above-remove_lt zero t pr lists l i = absurd (omega arith)
ready_above-remove_lt (suc n) t pr lists l i = elim (Bool-cases (pr == n)) [
  | inl e ↦
      let j : has t (lists n) ≡ true = ap (λ q. has t (lists q)) (sym (==→eq pr n e)) ∙ i in
      omega (arith, length-remove_lt t (lists n) j, ready_above-remove_le n t lists)
  | inr e ↦
      let m : pr < n = ground arith in
      omega (arith, length-remove_le t (lists n), ready_above-remove_lt n t pr lists m i)
]
