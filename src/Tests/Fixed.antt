-- ===== src/Tests/Fixed.antt =====
-- Decimal numbers with three places for the floating-point numbers of the code, and a utility that
-- is the share of acknowledged bytes less the share of lost ones. They stand in for parameters of
-- the model in the tests.
use pcc_uspace.Base.{ℕ, ◌*◌, ◌/◌, ◌^◌, arith, if◌then◌else◌, ◌==◌}
use pcc_uspace.Base.Int.{ℤ, pos, pos_part, ◌+ℤ◌, ◌-ℤ◌, ◌*ℤ◌, ltb_ℤ, abs}
use pcc_uspace.Base.Result.{ok}
use pcc_uspace.Base.{refl}
use pcc_uspace.Floats.{Floats}
use pcc_uspace.Quic.Time.{div_ℤ, scale_delta}
use pcc_uspace.Utility.{UtilityFunction}
use pcc_uspace.Sender.Soundness.{RoundsWell}

abbrev pub literal : ℕ → ℕ → ℤ
literal n k = pos (n * 1000 / 10 ^ k)

-- The product, whose last three places are dropped.
unfoldable pub times : ℤ → ℤ → ℤ
unfolding div_ℤ ◌*ℤ◌ ◌-ℤ◌
times a b = div_ℤ (a *ℤ b) 1000

-- The quotient by a number above 0, and 0 for any other.
unfoldable pub quotient : ℤ → ℤ → ℤ
unfolding div_ℤ ◌*ℤ◌ ◌-ℤ◌
quotient a b = if pos_part b == 0 then pos 0 else div_ℤ (a *ℤ pos 1000) (pos_part b)

unfoldable pub scaled : ℤ → ℤ
unfolding ◌*ℤ◌
scaled a = a *ℤ pos 1000

unfoldable pub rounded : ℤ → ℤ
unfolding div_ℤ ◌+ℤ◌ ◌-ℤ◌
rounded a = div_ℤ (a +ℤ pos 500) 1000

unfoldable pub truncated : ℤ → ℤ
unfolding div_ℤ ◌-ℤ◌
truncated a = div_ℤ a 1000

unfoldable pub ceiled : ℤ → ℤ
unfolding div_ℤ ◌+ℤ◌ ◌-ℤ◌
ceiled a = div_ℤ (a +ℤ pos 999) 1000

unfoldable pub negated : ℤ → ℤ
unfolding ◌-ℤ◌
negated a = pos 0 -ℤ a

-- 1 + a, the first two terms of the exponential.
unfoldable pub grown : ℤ → ℤ
unfolding ◌+ℤ◌
grown a = pos 1000 +ℤ a

abbrev pub fixed : Floats
fixed = record {
  F32 = ℤ;
  F64 = ℤ;
  of_int32 = scaled;
  of_int64 = scaled;
  widen = λ a. a;
  narrow = λ a. a;
  literal32 = literal;
  literal64 = literal;
  add32 = λ a b. a +ℤ b;
  sub32 = λ a b. a -ℤ b;
  mul32 = times;
  div32 = quotient;
  lt32 = ltb_ℤ;
  neg32 = negated;
  abs32 = abs;
  pow32 = λ a b. a;
  exp32 = grown;
  sqrt32 = λ a. a;
  add64 = λ a b. a +ℤ b;
  sub64 = λ a b. a -ℤ b;
  mul64 = times;
  div64 = quotient;
  lt64 = ltb_ℤ;
  neg64 = negated;
  pow64 = λ a b. a;
  exp64 = grown;
  llround32 = rounded;
  llround64 = rounded;
  truncate32 = truncated;
  truncate64 = truncated;
  ceil64 = ceiled;
}

abbrev pub share : UtilityFunction ℤ
share = record {
  Statistics = Unit {0};
  initial = tt;
  parameters_read = λ tag. 0;
  evaluate = λ tag parameters i event_time s.
      ok (quotient (scaled (pos i.bytes_acked -ℤ pos i.bytes_lost)) (scaled (pos i.bytes_sent)), s);
  allegro_reads_none = refl;
  answers = λ tag l i t s h. tt;
}

pub fixed-RoundsWell : RoundsWell fixed
unfolding scale_delta times scaled rounded div_ℤ ◌*ℤ◌ ◌+ℤ◌ ◌-ℤ◌
fixed-RoundsWell = record {
  keeps_positive = λ n p. (ground arith, ground arith);
  keeps_nonneg = λ n. ground arith;
}
