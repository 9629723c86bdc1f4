-- ===== src/Base/Bits.antt =====
-- Binary digits: `bit_and`, `bit_or` and `bit_xor` work digit by digit, and a number is its digits.
use Prim.Native.Nat.{
  ℕ, zero, suc, ◌+◌, ◌-◌, ◌*◌, ◌/◌, ◌%◌, ◌^◌, ◌≤◌, ◌<◌, min, max, digits, differ, bit_and, bit_or,
  bit_xor, bit_and-bitwise, bit_or-bitwise, bit_xor-bitwise,
}
use mathlib.Core.Path.{◌≡◌, refl, ap, sym, ◌∙◌}
use mathlib.Core.Logic.{◌≢◌, inl, inr}
use mathlib.Core.Bool.{Bool, true, ◌&&◌}
use native.Mathlib.Nat.{pow-suc}
use native.Mathlib.Omega.{arith}
use coo_rtos.Base.Tests.{◌==◌, ltb, ltb→lt, ==→eq, Bool-cases}

-- The digit of a number at a position, the lowest first.
abbrev pub digit : ℕ → ℕ → ℕ
digit zero a = a % 2
digit (suc i) a = digit i (a / 2)

pub digit-small : (i a : ℕ) → digit i a < 2
digit-small zero a = omega arith
digit-small (suc i) a = digit-small i (a / 2)

pub digit_zero : (i : ℕ) → digit i 0 ≡ 0
digit_zero zero = refl
digit_zero (suc i) = digit_zero i

digit-digits :
    (z : ℕ → ℕ) (f : ℕ → ℕ → ℕ)
    → ((i b : ℕ) → digit i (z b) ≡ f 0 (digit i b))
    → ((x y : ℕ) → x < 2 → y < 2 → f x y < 2)
    → (n a b i : ℕ) → a ≤ n
    → digit i (digits z f n a b) ≡ f (digit i a) (digit i b)
digit-digits z f hz hf zero zero b i h = hz i b ∙ ap (λ x. f x (digit i b)) (sym (digit_zero i))
digit-digits z f hz hf zero (suc a) b i h = absurd (omega arith)
digit-digits z f hz hf (suc n) zero b i h = hz i b ∙ ap (λ x. f x (digit i b)) (sym (digit_zero i))
digit-digits z f hz hf (suc n) (suc a) b zero h =
    let l = hf (suc a % 2) (b % 2) (omega arith) (omega arith) in omega arith
digit-digits z f hz hf (suc n) (suc a) b (suc i) h =
    let l = hf (suc a % 2) (b % 2) (omega arith) (omega arith) in
    let d = digits z f n (suc a / 2) (b / 2) in
    let half : (d * 2 + f (suc a % 2) (b % 2)) / 2 ≡ d = omega arith in
    ap (digit i) half ∙ digit-digits z f hz hf n (suc a / 2) (b / 2) i (omega arith)

pub digit-bit_and : (i a b : ℕ) → digit i (bit_and a b) ≡ min (digit i a) (digit i b)
digit-bit_and i a b =
    ap (digit i) (bit_and-bitwise a b)
    ∙ digit-digits (λ b. zero) min (λ j c. omega (arith, digit_zero j)) (λ x y p q. omega arith) a a
        b i (omega arith)

pub digit-bit_or : (i a b : ℕ) → digit i (bit_or a b) ≡ max (digit i a) (digit i b)
digit-bit_or i a b =
    ap (digit i) (bit_or-bitwise a b)
    ∙ digit-digits (λ b. b) max (λ j c. omega arith) (λ x y p q. omega arith) a a b i (omega arith)

differ-small : (x y : ℕ) → x < 2 → y < 2 → differ x y < 2
differ-small zero y p q = q
differ-small (suc zero) zero p q = p
differ-small (suc zero) (suc y) p q = omega arith
differ-small (suc (suc x)) y p q = absurd (omega arith)

pub digit-bit_xor : (i a b : ℕ) → digit i (bit_xor a b) ≡ differ (digit i a) (digit i b)
digit-bit_xor i a b =
    ap (digit i) (bit_xor-bitwise a b)
    ∙ digit-digits (λ b. b) differ (λ j c. refl) differ-small a a b i (omega arith)

-- Numbers with the same digits are equal.
digits_ext_below : (n a b : ℕ) → a ≤ n → b ≤ n → ((i : ℕ) → digit i a ≡ digit i b) → a ≡ b
digits_ext_below zero a b p q h = omega arith
digits_ext_below (suc n) zero zero p q h = refl
digits_ext_below (suc n) a b p q h =
    let l = digits_ext_below n (a / 2) (b / 2) (omega arith) (omega arith) (λ i. h (suc i)) in
    omega (arith, h 0)

pub digits_ext : (a b : ℕ) → ((i : ℕ) → digit i a ≡ digit i b) → a ≡ b
digits_ext a b h = digits_ext_below (a + b) a b (omega arith) (omega arith) h

digits_le_below : (n a b : ℕ) → a ≤ n → b ≤ n → ((i : ℕ) → digit i a ≤ digit i b) → a ≤ b
digits_le_below zero a b p q h = omega arith
digits_le_below (suc n) zero b p q h = omega arith
digits_le_below (suc n) (suc a) zero p q h =
    let z = digits_ext (suc a) 0 λ i. omega (arith, h i, digit_zero i) in omega arith
digits_le_below (suc n) (suc a) (suc b) p q h =
    let l =
      digits_le_below n (suc a / 2) (suc b / 2) (omega arith) (omega arith) (λ i. h (suc i)) in
    omega (arith, h 0)

-- A number of which no digit is greater is not greater.
pub digits_le : (a b : ℕ) → ((i : ℕ) → digit i a ≤ digit i b) → a ≤ b
digits_le a b h = digits_le_below (a + b) a b (omega arith) (omega arith) h

-- A positive number has a digit that is 1.
digit_of_below : (n a : ℕ) → a ≤ n → a ≢ 0 → (i : ℕ) × (digit i a ≡ 1)
digit_of_below zero a p ne = absurd (ne (omega arith))
digit_of_below (suc n) a p ne = elim (Bool-cases (a % 2 == 1)) [
  | inl e ↦ (0, ground arith)
  | inr e ↦
      let (i, d) = digit_of_below n (a / 2) (omega arith) (λ z. ne (ground arith)) in (suc i, d)
]

pub digit_of : (a : ℕ) → a ≢ 0 → (i : ℕ) × (digit i a ≡ 1)
digit_of a ne = digit_of_below a a (omega arith) ne

-- A mask of `w` ones.
two_pow_pos : (w : ℕ) → 1 ≤ 2 ^ w
two_pow_pos zero = omega arith
two_pow_pos (suc w) = omega (arith, two_pow_pos w, pow-suc 2 w)

pub digit-ones : (w i : ℕ) → i < w → digit i (2 ^ w - 1) ≡ 1
digit-ones zero i l = absurd (omega arith)
digit-ones (suc w) zero l = omega (arith, two_pow_pos w, pow-suc 2 w)
digit-ones (suc w) (suc i) l =
    let half : (2 ^ suc w - 1) / 2 ≡ 2 ^ w - 1 = omega (arith, two_pow_pos w, pow-suc 2 w) in
    ap (digit i) half ∙ digit-ones w i (omega arith)

pub digit-above : (w i a : ℕ) → a < 2 ^ w → w ≤ i → digit i a ≡ 0
digit-above zero i a p q = ap (digit i) (omega arith) ∙ digit_zero i
digit-above (suc w) zero a p q = absurd (omega arith)
digit-above (suc w) (suc i) a p q = digit-above w i (a / 2) (omega arith) (omega arith)

min-differ : (x y : ℕ) → x < 2 → y < 2 → min x (differ y 1) ≡ x - y
min-differ x zero p q = omega arith
min-differ x (suc zero) p q = omega arith
min-differ x (suc (suc y)) p q = absurd (omega arith)

-- `a & ~m` on words of `w` bits: it keeps exactly the digits that are not in `m`.
pub digit-off :
    (w i a m : ℕ) → a < 2 ^ w → digit i (bit_and a (bit_xor m (2 ^ w - 1))) ≡ digit i a - digit i m
digit-off w i a m h = elim (Bool-cases (ltb i w)) [
  | inl l ↦
      let o = digit-ones w i (ltb→lt i w l) in
      let x = digit-bit_xor i m (2 ^ w - 1) ∙ ap (differ (digit i m)) o in
      let c = digit-bit_and i a (bit_xor m (2 ^ w - 1)) ∙ ap (min (digit i a)) x in
      c ∙ min-differ (digit i a) (digit i m) (digit-small i a) (digit-small i m)
  | inr l ↦
      let z = digit-above w i a h (ground arith) in
      digit-bit_and i a (bit_xor m (2 ^ w - 1)) ∙ omega arith
]

-- A test passes below `n`.
abbrev pub every : ℕ → (ℕ → Bool) → Bool
every zero p = true
every (suc n) p = p n && every n p

pub every-holds : (n : ℕ) (p : ℕ → Bool) → every n p ≡ true → (i : ℕ) → i < n → p i ≡ true
every-holds zero p e i l = absurd (omega arith)
every-holds (suc n) p e i l = elim (Bool-cases (i == n)) [
  | inl h ↦ ap p (==→eq i n h) ∙ ground arith
  | inr h ↦ every-holds n p (ground arith) i (ground arith)
]
