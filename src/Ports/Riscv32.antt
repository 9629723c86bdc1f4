-- ===== src/Ports/Riscv32.antt =====
-- port/riscv32.hpp. The state is mstatus, whose bit 3, MIE, allows interrupts; an instruction does to
-- it what the architecture documents.
use Prim.Native.Nat.{bit_and, bit_or, bit_xor}
use coo_rtos.Base.{
  ℕ, ◌-◌, ◌≤◌, ◌<◌, ◌^◌, ◌≡◌, refl, ap, sym, ◌∙◌, inl, inr, Bool, true, false, not, ok, ◌==◌, ==→eq,
  arith, digit, digit-bit_and, digit-bit_or, digit-above, digit-small, digit-off, digit_zero,
  digits_ext, digits_le, every-holds, ltb, ltb→lt, Bool-cases, if◌then◌else◌,
}
use coo_rtos.Ports.{Port}

abbrev pub mstatus_mie : ℕ
mstatus_mie = 8

-- `csrrci` with the mask of MIE, and `csrci`
abbrev pub clear_mie : ℕ → ℕ
clear_mie mstatus = bit_and mstatus (bit_xor mstatus_mie (2 ^ 32 - 1))

-- `csrsi`
abbrev pub set_mie : ℕ → ℕ
set_mie mstatus = bit_or mstatus mstatus_mie

pub irq_save : ℕ → ℕ × ℕ
irq_save mstatus = (mstatus, clear_mie mstatus)

pub irq_restore : ℕ → ℕ → ℕ
irq_restore prev mstatus = if not (bit_and prev mstatus_mie == 0) then set_mie mstatus else mstatus

pub irq_disable : ℕ → ℕ
irq_disable mstatus = clear_mie mstatus

pub irq_enable : ℕ → ℕ
irq_enable mstatus = set_mie mstatus

unfoldable pub in_critical : ℕ → Bool
in_critical mstatus = bit_and mstatus mstatus_mie == 0

mie-digit : (i : ℕ) → digit i mstatus_mie ≡ (if i == 3 then 1 else 0)
mie-digit i = elim (Bool-cases (ltb i 4)) [
  | inl l ↦
      ==→eq (digit i mstatus_mie) (if i == 3 then 1 else 0) (
        every-holds 4 (λ j. digit j mstatus_mie == (if j == 3 then 1 else 0)) refl i (ltb→lt i 4 l))
  | inr l ↦ digit-above 4 i mstatus_mie (omega arith) (ground arith) ∙ ground arith
]

-- The test of MIE reads bit 3.
mie-off : (m : ℕ) → digit 3 m ≡ 0 → bit_and m mstatus_mie ≡ 0
mie-off m z = digits_ext (bit_and m mstatus_mie) 0 λ i. elim (Bool-cases (i == 3)) [
  | inl e ↦
      ap (λ j. digit j (bit_and m mstatus_mie)) (==→eq i 3 e)
      ∙ omega (arith, digit-bit_and 3 m mstatus_mie)
      ∙ sym (digit_zero i)
  | inr e ↦
      let d : digit i mstatus_mie ≡ 0 = mie-digit i ∙ rw e refl in
      omega (arith, digit-bit_and i m mstatus_mie, digit_zero i)
]

mie-on : (m : ℕ) → bit_and m mstatus_mie ≡ 0 → digit 3 m ≡ 0
mie-on m z =
    let c = digit-bit_and 3 m mstatus_mie in
    let y = ap (digit 3) z in let s = digit-small 3 m in omega arith

in_critical-clear_mie : (m : ℕ) → m < 2 ^ 32 → in_critical (clear_mie m) ≡ true
unfolding in_critical
in_critical-clear_mie m v =
    let o =
      mie-off (clear_mie m)
        (digit-off 32 3 m mstatus_mie v ∙ (let s = digit-small 3 m in omega arith)) in
    ground arith

clear_mie-small : (m : ℕ) → m < 2 ^ 32 → clear_mie m < 2 ^ 32
clear_mie-small m v =
    let l : clear_mie m ≤ m =
      digits_le (clear_mie m) m λ i. omega (arith, digit-off 32 i m mstatus_mie v) in
    omega arith

-- Where MIE was set, setting it again after clearing it gives the register back.
set_mie-clear_mie : (m : ℕ) → m < 2 ^ 32 → digit 3 m ≡ 1 → set_mie (clear_mie m) ≡ m
set_mie-clear_mie m v o = digits_ext (set_mie (clear_mie m)) m λ i.
    digit-bit_or i (clear_mie m) mstatus_mie
    ∙ (let c = digit-off 32 i m mstatus_mie v in
        let s = digit-small i m in
        elim (Bool-cases (i == 3)) [
          | inl e ↦
              let d : digit i m ≡ 1 = ap (λ j. digit j m) (==→eq i 3 e) ∙ o in
              let f : digit i mstatus_mie ≡ 1 = mie-digit i ∙ rw e refl in omega arith
          | inr e ↦ let d : digit i mstatus_mie ≡ 0 = mie-digit i ∙ rw e refl in omega arith
        ])

clear_mie_same : (m : ℕ) → m < 2 ^ 32 → digit 3 m ≡ 0 → clear_mie m ≡ m
clear_mie_same m v o = digits_ext (clear_mie m) m λ i.
    digit-off 32 i m mstatus_mie v ∙ elim (Bool-cases (i == 3)) [
      | inl e ↦ let d : digit i m ≡ 0 = ap (λ j. digit j m) (==→eq i 3 e) ∙ o in omega arith
      | inr e ↦ let d : digit i mstatus_mie ≡ 0 = mie-digit i ∙ rw e refl in omega arith
    ]

pub irq_restore-irq_save : (m : ℕ) → m < 2 ^ 32 → irq_restore (irq_save m).0 (irq_save m).1 ≡ m
unfolding irq_restore irq_save
irq_restore-irq_save m v = elim (Bool-cases (bit_and m mstatus_mie == 0)) [
  | inl e ↦ rw e (clear_mie_same m v (mie-on m (ground arith)))
  | inr e ↦
      let o : digit 3 m ≡ 1 = elim (Bool-cases (digit 3 m == 0)) [
        | inl z ↦ absurd (ground (arith, mie-off m (ground arith)))
        | inr z ↦ let s = digit-small 3 m in ground arith
      ] in
      rw e (set_mie-clear_mie m v o)
]

pub irq_enable-irq_disable :
    (m : ℕ) → m < 2 ^ 32 → in_critical m ≡ false → irq_enable (irq_disable m) ≡ m
unfolding in_critical irq_enable irq_disable
irq_enable-irq_disable m v e =
    let o : digit 3 m ≡ 1 = elim (Bool-cases (digit 3 m == 0)) [
      | inl z ↦ absurd (ground (arith, mie-off m (ground arith)))
      | inr z ↦ let s = digit-small 3 m in ground arith
    ] in
    set_mie-clear_mie m v o

pub irq_save-small : (m : ℕ) → m < 2 ^ 32 → (irq_save m).1 < 2 ^ 32
unfolding irq_save
irq_save-small m v = clear_mie-small m v

pub in_critical-irq_save : (m : ℕ) → m < 2 ^ 32 → in_critical (irq_save m).1 ≡ true
unfolding irq_save
in_critical-irq_save m v = in_critical-clear_mie m v

pub irq_disable-small : (m : ℕ) → m < 2 ^ 32 → irq_disable m < 2 ^ 32
unfolding irq_disable
irq_disable-small m v = clear_mie-small m v

pub in_critical-irq_disable : (m : ℕ) → m < 2 ^ 32 → in_critical (irq_disable m) ≡ true
unfolding irq_disable
in_critical-irq_disable m v = in_critical-clear_mie m v

abbrev pub riscv32 : Port
riscv32 = record {
  State = ℕ;
  Valid = λ m. m < 2 ^ 32;
  irq_save = irq_save;
  irq_restore = λ prev m. ok (irq_restore prev m);
  irq_disable = irq_disable;
  irq_enable = λ m. ok (irq_enable m);
  in_critical = in_critical;
  save_valid = irq_save-small;
  save_masks = in_critical-irq_save;
  restores = λ m v. ap ok (irq_restore-irq_save m v);
  disable_valid = irq_disable-small;
  disable_masks = in_critical-irq_disable;
  enables = λ m v e. ap ok (irq_enable-irq_disable m v e);
}
