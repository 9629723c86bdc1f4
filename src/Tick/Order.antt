-- ===== src/Tick/Order.antt =====
-- What the wrap-safe comparison of deadlines decides.
use coo_rtos.Base.{
  ℕ, ◌+◌, ◌≤◌, ◌<◌, ◌≡◌, ◌↔◌, ◌⊎◌, true, arith, leb, leb→le, inl, inr, Bool-cases, ◌==◌,
  if◌then◌else◌, ◌||◌,
}
use coo_rtos.Tick.{tick_mod, half_range, add_tick, sub_tick, deadline_le}

-- The difference that the comparison is made on, by its distance from the other deadline.
pub deadline_le_distance :
    (a b : ℕ) → deadline_le a b ≡ ((sub_tick a b == 0) || leb half_range (sub_tick a b))
unfolding deadline_le
deadline_le_distance a b = ground arith

sub_tick-add_tick :
    (now d e : ℕ)
    → now < tick_mod
    → d < half_range
    → e < half_range
    → sub_tick (add_tick now d) (add_tick now e) + e ≡ (if leb e d then d else tick_mod + d)
sub_tick-add_tick now d e n hd he = elim (Bool-cases (leb e d)) [
  | inl t ↦ let l = leb→le e d t in rw t (omega arith)
  | inr t ↦ let l : d < e = ground arith in rw t (omega arith)
]

-- Deadlines less than half the range ahead of a common instant are ordered as their distances
-- from it, wherever the counter wraps.
pub deadline_le_window :
    (now d e : ℕ)
    → now < tick_mod
    → d < half_range
    → e < half_range
    → deadline_le (add_tick now d) (add_tick now e) ≡ leb d e
deadline_le_window now d e n hd he = ground (
  arith,
  deadline_le_distance (add_tick now d) (add_tick now e),
  sub_tick-add_tick now d e n hd he,
)

-- A deadline set `t` ticks ahead counts as reached at once exactly when `t` is 0, or lies in the
-- upper half of the range.
pub deadline_le_now :
    (now t : ℕ)
    → now < tick_mod
    → t < tick_mod
    → (deadline_le (add_tick now t) now ≡ true) ↔ ((t ≡ 0) ⊎ (half_range ≤ t))
deadline_le_now now t n h =
    let e : sub_tick (add_tick now t) now ≡ t = omega arith in
    let p = deadline_le_distance (add_tick now t) now in (λ q. ground arith, λ q. ground arith)
