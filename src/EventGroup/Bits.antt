-- ===== src/EventGroup/Bits.antt =====
-- The conditions and the clears of an event group, bit by bit.
use Prim.Native.Nat.{bit_and, bit_xor}
use coo_rtos.Base.{
  ℕ, ◌-◌, ◌≤◌, ◌^◌, ◌≡◌, ap, ◌∙◌, ◌≢◌, ◌↔◌, inl, inr, Bool, true, false, not, arith, ◌==◌,
  if◌then◌else◌, Bool-cases, digit, digit-small, digit-bit_and, digits_ext, digit_of, digit_zero,
}
use coo_rtos.EventGroup.{wait_any, wait_all, sync, WaitInfo, met, mask_off}

-- Every wanted bit is set, and some wanted bit is set.
abbrev pub AllSet : ℕ → ℕ → Type 0
AllSet want bits = (i : ℕ) → digit i want ≡ 1 → digit i bits ≡ 1

abbrev pub AnySet : ℕ → ℕ → Type 0
AnySet want bits = (i : ℕ) × (digit i want ≡ 1) × (digit i bits ≡ 1)

abbrev pub Wanted : Bool → ℕ → ℕ → Type 0
Wanted true want bits = AllSet want bits
Wanted false want bits = AnySet want bits

all_set : (want bits : ℕ) → (bit_and bits want == want) ≡ true → AllSet want bits
all_set want bits e i d =
    let same : bit_and bits want ≡ want = ground arith in
    let c = digit-bit_and i bits want in
    let j = ap (digit i) same in omega (arith, digit-small i bits)

set_all : (want bits : ℕ) → AllSet want bits → bit_and bits want ≡ want
set_all want bits a = digits_ext (bit_and bits want) want λ i.
    digit-bit_and i bits want ∙ elim (Bool-cases (digit i want == 1)) [
      | inl e ↦ let s = a i (ground arith) in ground arith
      | inr e ↦ let s = digit-small i want in ground arith
    ]

any_set : (want bits : ℕ) → bit_and bits want ≢ 0 → AnySet want bits
any_set want bits ne =
    let (i, d) = digit_of (bit_and bits want) ne in
    let c = digit-bit_and i bits want in
    let p = digit-small i bits in let q = digit-small i want in (i, omega arith, omega arith)

set_any : (want bits : ℕ) → AnySet want bits → bit_and bits want ≢ 0
set_any want bits (i, p, q) z =
    let c = digit-bit_and i bits want in let y = ap (digit i) z ∙ digit_zero i in omega arith

abbrev test : Bool → ℕ → ℕ → Bool
test all want bits = if all then bit_and bits want == want else not (bit_and bits want == 0)

test-Wanted : (all : Bool) (want bits : ℕ) → (test all want bits ≡ true) ↔ Wanted all want bits
test-Wanted true want bits = (all_set want bits, λ a. let s = set_all want bits a in ground arith)
test-Wanted false want bits =
    (λ m. any_set want bits (ground arith), λ a. let s = set_any want bits a in ground arith)

-- `met` tests what it means to: with `all`, that every bit that is wanted is set, and without it,
-- that one of them is.
pub met-Wanted :
    (info : WaitInfo) (bits : ℕ) → (met info bits ≡ true) ↔ Wanted info.all info.want bits
unfolding met
met-Wanted info bits = test-Wanted info.all info.want bits

-- An awaiter of `wait_any` goes on exactly with one of its bits, those of `wait_all` and `sync` with
-- all of them.
pub met-wait_lem :
    (want bits : ℕ) (clear : Bool)
    → ((met (wait_any want clear) bits ≡ true) ↔ AnySet want bits)
      × ((met (wait_all want clear) bits ≡ true) ↔ AllSet want bits)
      × ((met (sync want) bits ≡ true) ↔ AllSet want bits)
unfolding wait_any wait_all sync
met-wait_lem want bits clear = (
  met-Wanted (wait_any want clear) bits,
  met-Wanted (wait_all want clear) bits,
  met-Wanted (sync want) bits,
)

-- Of the bits of `a`, at most.
abbrev pub Fewer : ℕ → ℕ → Type 0
Fewer b a = (i : ℕ) → digit i b ≤ digit i a

pub mask_off-Fewer : (a m : ℕ) → Fewer (mask_off a m) a
mask_off-Fewer a m i = omega (arith, digit-bit_and i a (bit_xor m (2 ^ 32 - 1)))

Fewer-Wanted : (all : Bool) (want b a : ℕ) → Fewer b a → Wanted all want b → Wanted all want a
Fewer-Wanted true want b a f w = λ i d. omega (arith, f i, w i d, digit-small i a)
Fewer-Wanted false want b a f (i, p, q) = (i, p, omega (arith, f i, digit-small i a))

-- A condition that does not hold does not come to hold when bits are cleared.
pub Fewer-unmet : (info : WaitInfo) (b a : ℕ) → Fewer b a → met info a ≡ false → met info b ≡ false
Fewer-unmet info b a f n = elim (Bool-cases (met info b)) [
  | inl y ↦
      let w = Fewer-Wanted info.all info.want b a f ((met-Wanted info b).0 y) in
      let z = (met-Wanted info a).1 w in absurd (ground arith)
  | inr y ↦ y
]
