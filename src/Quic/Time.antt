-- ===== src/Quic/Time.antt =====
-- quic_time.h: points in time and time differences. Each is the `int64_t` that it wraps, read as an
-- integer: the code keeps microseconds, far below 2 ^ 63.
use pcc_uspace.Base.{ℕ, Bool, ◌+◌, ◌/◌, not}
use pcc_uspace.Base.Int.{ℤ, pos, negsuc, ◌-ℤ◌, ◌*ℤ◌, ltb_ℤ, eqb_ℤ}
use pcc_uspace.Floats.{Floats}

abbrev pub QuicTime : Type 0
QuicTime = ℤ

abbrev pub Delta : Type 0
Delta = ℤ

-- `Zero()`, of both classes.
abbrev pub zero_time : QuicTime
zero_time = pos 0

-- `int64_t` division truncates towards zero.
unfoldable pub div_ℤ : ℤ → ℕ → ℤ
unfolding ◌-ℤ◌
div_ℤ (pos n) d = pos (n / d)
div_ℤ (negsuc n) d = pos 0 -ℤ pos ((n + 1) / d)

unfoldable pub from_seconds : ℤ → Delta
unfolding ◌*ℤ◌
from_seconds secs = secs *ℤ pos 1000 *ℤ pos 1000

unfoldable pub from_milliseconds : ℤ → Delta
unfolding ◌*ℤ◌
from_milliseconds ms = ms *ℤ pos 1000

unfoldable pub to_seconds : Delta → ℤ
unfolding div_ℤ
to_seconds d = div_ℤ (div_ℤ d 1000) 1000

unfoldable pub to_milliseconds : Delta → ℤ
unfolding div_ℤ
to_milliseconds d = div_ℤ d 1000

abbrev pub is_zero : Delta → Bool
is_zero d = eqb_ℤ d zero_time

-- `IsInitialized`: the time 0 stands for "not set".
abbrev pub is_initialized : QuicTime → Bool
is_initialized t = not (eqb_ℤ t zero_time)

abbrev pub time_eq : ℤ → ℤ → Bool
time_eq a b = eqb_ℤ a b

abbrev pub time_lt : ℤ → ℤ → Bool
time_lt a b = ltb_ℤ a b

abbrev pub time_le : ℤ → ℤ → Bool
time_le a b = not (ltb_ℤ b a)

module _ (fl : Floats) where
  open fl use {F64, of_int64, mul64, llround64}

  -- `operator*(QuicTime::Delta, double)`.
  unfoldable pub scale_delta : Delta → F64 → Delta
  scale_delta d f = llround64 (mul64 (of_int64 d) f)
