-- ===== src/Tick/Ceil.antt =====
-- `to_ticks` rounds up.
use coo_rtos.Base.{
  ℕ, zero, suc, ◌-◌, ◌+◌, ◌*◌, ◌/◌, ◌≤◌, ◌<◌, ◌≡◌, refl, pos, negsuc, true, arith, Bool-cases, inl,
  inr, ltb, ltb→lt,
}
use coo_rtos.Tick.{tick_mod, to_ticks, ceil_ticks, cast_ticks, add_tick}

quotient-lt_of_mul : (q m den : ℕ) → 0 < den → q * den < m * den → q < m
quotient-lt_of_mul q m den pd h = grind arith

-- A quotient rounded up: the cast, and one more if it fell short.
ceil_ticks_bounds :
    (scaled den : ℕ)
    → 0 < den
    → scaled ≤ (tick_mod - 1) * den
    → (scaled ≤ ceil_ticks scaled den * den) × (ceil_ticks scaled den * den < scaled + den)
ceil_ticks_bounds scaled den pd fits =
    let q = scaled / den in
    let lo : q * den ≤ scaled = omega arith in
    let hi : scaled < q * den + den = omega arith in
    let top : q < tick_mod = quotient-lt_of_mul q tick_mod den pd (omega arith) in
    let e : cast_ticks scaled den ≡ q = omega arith in
    rw e (elim (Bool-cases (ltb (q * den) scaled)) [
      | inl short ↦
          let l = ltb→lt (q * den) scaled short in
          let room : q < tick_mod - 1 = quotient-lt_of_mul q (tick_mod - 1) den pd (omega arith) in
          let e' : add_tick q 1 ≡ q + 1 = omega arith in rw (short, e') (omega arith)
      | inr exact ↦ rw exact (ground arith)
    ])

-- A positive duration whose length in ticks fits 32 bits becomes the least number of ticks that
-- is not shorter than it.
pub to_ticks_ceil :
    (hz count num den : ℕ)
    → 0 < den
    → count * num * hz ≤ (tick_mod - 1) * den
    → let t = to_ticks hz (record { count = pos count; num = num; den = den }) in
      (count * num * hz ≤ t * den) × (t * den < count * num * hz + den)
unfolding to_ticks
to_ticks_ceil hz zero num den pd fits = omega arith
to_ticks_ceil hz (suc n) num den pd fits = ceil_ticks_bounds (suc n * num * hz) den pd fits

-- A zero or negative duration is no tick at all.
pub to_ticks_nonpos :
    (hz num den n : ℕ) → to_ticks hz (record { count = negsuc n; num = num; den = den }) ≡ 0
unfolding to_ticks
to_ticks_nonpos hz num den n = refl

mul-div : {q : ℕ} (den : ℕ) → 0 < den → q * den / den ≡ q
mul-div {q} den pd = grind arith

-- A duration of at least 2^32 ticks loses the multiples of 2^32, and the wait is shorter than
-- was asked.
pub to_ticks_overflow :
    (hz count num den r : ℕ)
    → 0 < den
    → r < tick_mod - 1
    → count * num * hz ≡ (tick_mod + r) * den
    → to_ticks hz (record { count = pos count; num = num; den = den }) ≡ r + 1
unfolding to_ticks
to_ticks_overflow hz zero num den r pd hr e = absurd (grind arith)
to_ticks_overflow hz (suc n) num den r pd hr e =
    let q : suc n * num * hz / den ≡ tick_mod + r = rw e (mul-div den pd) in
    let c : cast_ticks (suc n * num * hz) den ≡ r = rw (cast_ticks, q) (omega arith) in
    let short : ltb (r * den) (suc n * num * hz) ≡ true = rw e (ground arith) in
    rw (c, short) (omega arith)
