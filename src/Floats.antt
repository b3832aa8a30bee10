-- ===== src/Floats.antt =====
-- The machine's floating-point numbers, which the code uses and does not define: `float` is
-- `F32`, `double` is `F64`. A model that computes with them takes this record as a parameter.
use pcc_uspace.Base.{ℕ, Bool}
use pcc_uspace.Base.Int.{ℤ}

pub record Floats : Type 1 where
  pub F32 : Type 0
  pub F64 : Type 0
  -- Conversions from integers of any width, from `float` to `double` and back.
  pub of_int32 : ℤ → F32
  pub of_int64 : ℤ → F64
  pub widen : F32 → F64
  pub narrow : F64 → F32
  -- The literals n / 10 ^ k, `n.0f` and `n.0`.
  pub literal32 : ℕ → ℕ → F32
  pub literal64 : ℕ → ℕ → F64
  pub add32 : F32 → F32 → F32
  pub sub32 : F32 → F32 → F32
  pub mul32 : F32 → F32 → F32
  pub div32 : F32 → F32 → F32
  pub lt32 : F32 → F32 → Bool
  pub neg32 : F32 → F32
  pub abs32 : F32 → F32
  pub pow32 : F32 → F32 → F32
  pub exp32 : F32 → F32
  pub sqrt32 : F32 → F32
  pub add64 : F64 → F64 → F64
  pub sub64 : F64 → F64 → F64
  pub mul64 : F64 → F64 → F64
  pub div64 : F64 → F64 → F64
  pub lt64 : F64 → F64 → Bool
  pub neg64 : F64 → F64
  pub pow64 : F64 → F64 → F64
  pub exp64 : F64 → F64
  -- `std::llround`, and the truncation of `static_cast<int64_t>`.
  pub llround32 : F32 → ℤ
  pub llround64 : F64 → ℤ
  pub truncate32 : F32 → ℤ
  pub truncate64 : F64 → ℤ
  -- `ceil`, cast to an integer.
  pub ceil64 : F64 → ℤ
