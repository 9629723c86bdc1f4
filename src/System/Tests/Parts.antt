-- ===== src/System/Tests/Parts.antt =====
-- A semaphore, a queue, an event group and mutexes, as they are made.
use coo_rtos.Base.{
  ℕ, ◌+◌, ◌*◌, ◌≤◌, ◌≡◌, refl, true, false, none, arith, ◌==◌, if◌then◌else◌, Bool-cases, inl, inr,
}
use coo_rtos.Semaphore.{counting}
use coo_rtos.System.{Object, semaphore, mutex, group, queue, uses}
use coo_rtos.System.Safe.{Fresh, Apart}
use coo_rtos.Queue.{Queue}

abbrev pub empty : Queue ℕ
empty = record {
  capacity = 2;
  buf = λ n. none;
  head = 0;
  count = 0;
  receivers = 2;
  senders = 3;
  slots = λ n. none;
}

-- The object `i` has the lists 2 i and 2 i + 1.
abbrev pub parts : ℕ → Object ℕ
parts i =
    if i == 0
    then semaphore (counting 1 1 0)
    else (if i == 1
        then queue empty
        else (if i == 2
            then group (record {
              bits = 0;
              waiters = 4;
              infos = λ w. record { want = 0; all = false; clear = false; result = 0 };
            })
            else mutex (record { owner = none; waiters = 2 * i })))

pub parts-Fresh : (i : ℕ) → Fresh (parts i)
parts-Fresh i = elim (Bool-cases (i == 0)) [
  | inl a ↦ rw a (ground arith, ground arith)
  | inr a ↦ elim (Bool-cases (i == 1)) [
    | inl b ↦
        rw (a, b)
          (
            record { window = tt; counted = refl; head_in = ground arith; room = ground arith },
            λ e. absurd (omega arith),
          )
    | inr b ↦ elim (Bool-cases (i == 2)) [ inl c ↦ rw (a, b, c) tt | inr c ↦ rw (a, b, c) refl ]
  ]
]

parts-uses : (i l : ℕ) → uses (parts i) l ≡ true → (2 * i ≤ l) × (l ≤ 2 * i + 1)
parts-uses i l u = elim (Bool-cases (i == 0)) [
  | inl a ↦ (ground arith, ground arith)
  | inr a ↦ elim (Bool-cases (i == 1)) [
    | inl b ↦ (ground arith, ground arith)
    | inr b ↦ elim (Bool-cases (i == 2)) [
      | inl c ↦ (ground arith, ground arith)
      | inr c ↦ (ground arith, ground arith)
    ]
  ]
]

pub parts-Apart : Apart parts
parts-Apart i j ne l u = elim (Bool-cases (uses (parts j) l)) [
  | inl v ↦
      let a = parts-uses i l u in
      let b = parts-uses j l v in absurd (ne (omega (arith, a.0, a.1, b.0, b.1)))
  | inr v ↦ v
]
