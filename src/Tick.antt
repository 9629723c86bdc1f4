-- ===== src/Tick.antt =====
-- Ticks: `rtos::Tick` of config.hpp, `deadline_le` of kernel.hpp and `to_ticks` of task.hpp.
pub mod Order
pub mod Ceil
mod Tests
use coo_rtos.Base.{
  ℕ, zero, suc, ◌+◌, ◌-◌, ◌*◌, ◌/◌, ◌%◌, ◌^◌, Bool, ltb, if◌then◌else◌, ℤ, pos, negsuc, signed32,
  is_nonpos,
}

-- `using Tick = std::uint32_t`: the number of its values.
abbrev pub tick_mod : ℕ
tick_mod = 2 ^ 32

-- Half of the range, the distance at which the signed difference changes its sign.
abbrev pub half_range : ℕ
half_range = 2 ^ 31

-- Addition and subtraction of `Tick`, which wrap.
abbrev pub add_tick : ℕ → ℕ → ℕ
add_tick a b = (a + b) % tick_mod

abbrev pub sub_tick : ℕ → ℕ → ℕ
sub_tick a b = (a + tick_mod - b) % tick_mod

-- static_cast<std::int32_t>(a - b) <= 0
unfoldable pub deadline_le : ℕ → ℕ → Bool
deadline_le a b = is_nonpos (signed32 (sub_tick a b))

-- A std::chrono duration with its period as a fraction of a second.
pub record Duration : Type 0 where
  pub count : ℤ
  pub num : ℕ
  pub den : ℕ

-- std::chrono::duration_cast to ticks: the exact quotient rounded towards zero, kept in 32 bits.
-- `scaled` is count * num * RTOS_TICK_HZ.
abbrev pub cast_ticks : ℕ → ℕ → ℕ
cast_ticks scaled den = scaled / den % tick_mod

-- std::chrono::ceil: one more when the cast is less than the duration.
abbrev pub ceil_ticks : ℕ → ℕ → ℕ
ceil_ticks scaled den =
    let t = cast_ticks scaled den in if ltb (t * den) scaled then add_tick t 1 else t

-- The first argument is RTOS_TICK_HZ.
to_ticks_of : ℕ → ℕ → ℕ → ℤ → ℕ
to_ticks_of hz num den (negsuc n) = 0
to_ticks_of hz num den (pos zero) = 0
to_ticks_of hz num den (pos (suc n)) = ceil_ticks (suc n * num * hz) den

unfoldable pub to_ticks : ℕ → Duration → ℕ
unfolding to_ticks_of
to_ticks hz d = to_ticks_of hz d.num d.den d.count
