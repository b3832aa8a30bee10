-- ===== src/Windows/Int32.antt =====
-- The conversion of a 64-bit number to `int`, which keeps the low 32 bits, and sums of `int`s.
-- Overflow wraps, which C++ leaves undefined and the machine does.
use pcc_uspace.Base.{ℕ, ◌-◌, ◌+◌, ◌%◌, ◌^◌, ltb, if◌then◌else◌}
use pcc_uspace.Base.Int.{ℤ, pos, negsuc}
use pcc_uspace.Quic.Bandwidth.{u64, to_u64}

unfoldable pub to_int32 : ℕ → ℤ
to_int32 n = let low = n % 2 ^ 32 in if ltb low (2 ^ 31) then pos low else negsuc (2 ^ 32 - 1 - low)

-- The time that has passed, as an `int`: the difference is of `uint64_t`.
unfoldable pub elapsed : ℕ → ℕ → ℤ
unfolding to_int32
elapsed now then_time = to_int32 ((now + u64 - then_time) % u64)

-- What an `int` holds of a result.
unfoldable pub wrap_int32 : ℤ → ℤ
unfolding to_int32 to_u64
wrap_int32 x = to_int32 (to_u64 x)
