-- ===== src/Quic/Bandwidth.antt =====
-- quic_bandwidth.h: a bandwidth is a natural number of bits per second, since the constructor
-- replaces a negative number by 0. Products of `uint64_t` wrap.
use pcc_uspace.Base.{ℕ, Bool, ◌+◌, ◌-◌, ◌*◌, ◌/◌, ◌%◌, ◌^◌, ltb, ◌==◌, if◌then◌else◌}
use pcc_uspace.Base.Int.{ℤ, pos, negsuc, ◌-ℤ◌, ◌*ℤ◌, pos_part}
use pcc_uspace.Floats.{Floats}
use pcc_uspace.Quic.Time.{Delta}

abbrev pub QuicBandwidth : Type 0
QuicBandwidth = ℕ

abbrev pub u64 : ℕ
u64 = 2 ^ 64

-- Conversions between `int64_t` and `uint64_t`.
unfoldable pub to_u64 : ℤ → ℕ
to_u64 (pos n) = n % u64
to_u64 (negsuc n) = u64 - 1 - n % u64

unfoldable pub to_i64 : ℕ → ℤ
to_i64 n = if ltb n (2 ^ 63) then pos n else negsuc (u64 - 1 - n)

abbrev pub num_micros_per_second : ℕ
num_micros_per_second = 1000 * 1000

-- The constructor.
abbrev pub of_bits : ℤ → QuicBandwidth
of_bits bits = pos_part bits

abbrev pub zero_bandwidth : QuicBandwidth
zero_bandwidth = 0

abbrev pub from_kbits_per_second : ℕ → QuicBandwidth
from_kbits_per_second k = k * 1000

unfoldable pub from_bytes_and_time_delta : ℕ → Delta → QuicBandwidth
unfolding to_u64 to_i64
from_bytes_and_time_delta bytes delta =
    of_bits (to_i64 (bytes * num_micros_per_second % u64 / to_u64 delta * 8 % u64))

abbrev pub to_bytes_per_second : QuicBandwidth → ℕ
to_bytes_per_second b = b / 8

-- The `int64_t` product is converted to `uint64_t` for the division.
unfoldable pub to_bytes_per_period : QuicBandwidth → Delta → ℕ
unfolding to_u64 ◌*ℤ◌
to_bytes_per_period b period =
    to_u64 (pos (to_bytes_per_second b) *ℤ period) / num_micros_per_second

unfoldable pub transfer_time : QuicBandwidth → ℕ → Delta
unfolding to_i64
transfer_time b bytes =
    if b == 0 then pos 0 else to_i64 (bytes * 8 % u64 * num_micros_per_second % u64 / b)

abbrev pub rate_add : QuicBandwidth → QuicBandwidth → QuicBandwidth
rate_add a b = a + b

-- A difference below zero is replaced by the zero bandwidth.
unfoldable pub rate_sub : QuicBandwidth → QuicBandwidth → QuicBandwidth
unfolding ◌-ℤ◌
rate_sub a b = of_bits (pos a -ℤ pos b)

abbrev pub rate_lt : QuicBandwidth → QuicBandwidth → Bool
rate_lt a b = ltb a b

module _ (fl : Floats) where
  open fl use {F32, of_int32, mul32, llround32}

  -- `operator*(QuicBandwidth, float)`.
  unfoldable pub scale_rate : QuicBandwidth → F32 → QuicBandwidth
  scale_rate b f = of_bits (llround32 (mul32 (of_int32 (pos b)) f))
