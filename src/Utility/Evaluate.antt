-- ===== src/Utility/Evaluate.antt =====
-- pcc/pcc_utility_manager.cpp: `CalculateUtility`, with the statistics and the formulas. The code
-- reads `utility_parameters_` at fixed indices; an index past the end is the fault
-- `utility_parameter`.
use pcc_uspace.Base.{ℕ, not, List, [], ◌∷◌, zero, suc}
use pcc_uspace.Base.Result.{
  Result, ok, err, ◌>>=◌, ◌>>◌, check, single_sent_time, utility_parameter,
}
use pcc_uspace.Floats.{Floats}
use pcc_uspace.IntervalQueue.Defs.{MonitorInterval, has_invalid_utility}
use pcc_uspace.Utility.{
  UtilityTag, allegro, vivace, proportional, scavenger, hybrid_allegro, hybrid_vivace, rate_limiter,
  hybrid, test, other, UtilityManager,
}
use pcc_uspace.Utility.Stats.{ManagerStats}
use pcc_uspace.Utility.Tolerance.{prepare_statistics}
use pcc_uspace.Utility.Formulas.{
  utility_allegro, utility_vivace, utility_proportional, utility_scavenger, utility_hybrid_allegro,
  utility_hybrid_vivace, utility_rate_limiter, utility_hybrid, utility_test,
}

-- `utility_parameters_[k]`.
unfoldable pub parameter_at : {F : Type 0} → List F → ℕ → Result F
parameter_at [] k = err utility_parameter
parameter_at (x ∷ l) zero = ok x
parameter_at (x ∷ l) (suc k) = parameter_at l k

-- How many parameters the code reads under a tag.
unfoldable pub parameters_read : UtilityTag → ℕ
parameters_read allegro = 0
parameters_read vivace = 0
parameters_read other = 0
parameters_read proportional = 2
parameters_read test = 2
parameters_read _ = 1

module _ (fl : Floats) where
  open fl use {F32, of_int32, widen, narrow, literal32, literal64, mul64, div64, pow64}

  -- 0.9 / pow(bound, 0.1), in `double`.
  unfoldable pub limiter_of : F32 → F32
  limiter_of bound = narrow (div64 (literal64 9 1) (pow64 (widen bound) (literal64 1 1)))

  -- The branch of a tag: its parameters are read before the formula is evaluated.
  unfoldable pub select_utility :
      UtilityTag
      → List F32
      → MonitorInterval F32
      → ManagerStats F32
      → Result (F32 × ManagerStats F32)
  unfolding utility_allegro utility_vivace utility_proportional utility_scavenger
      utility_hybrid_allegro utility_hybrid_vivace utility_rate_limiter utility_hybrid utility_test
      limiter_of parameter_at
  select_utility allegro l i m = ok (utility_allegro fl i m)
  select_utility vivace l i m = ok (utility_vivace fl i m, m)
  select_utility proportional l i m = do
    latency ← parameter_at l 0
    loss ← parameter_at l 1
    ok (utility_proportional fl i latency loss m, m)
  select_utility scavenger l i m = do
    deviation ← parameter_at l 0
    ok (utility_scavenger fl i deviation m, m)
  select_utility hybrid_allegro l i m = do
    bound ← parameter_at l 0
    ok (utility_hybrid_allegro fl i bound m)
  select_utility hybrid_vivace l i m = do
    bound ← parameter_at l 0
    ok (utility_hybrid_vivace fl i bound m, m)
  select_utility rate_limiter l i m = do
    bound ← parameter_at l 0
    ok (utility_rate_limiter fl i (limiter_of bound) m, m)
  select_utility hybrid l i m = do bound ← parameter_at l 0; ok (utility_hybrid fl i bound m, m)
  select_utility test l i m = do
    latency ← parameter_at l 0
    loss ← parameter_at l 1
    ok (utility_test fl i latency loss m, m)
  select_utility other l i m = ok (utility_allegro fl i m)

  -- `CalculateUtility` of the whole manager.
  unfoldable pub calculate_checked :
      MonitorInterval F32
      → UtilityManager F32 (ManagerStats F32)
      → Result (F32 × UtilityManager F32 (ManagerStats F32))
  unfolding prepare_statistics select_utility
  calculate_checked i m = do
    check (not (has_invalid_utility i)) single_sent_time
    (value, s) ←
        select_utility m.utility_tag m.utility_parameters i
          (prepare_statistics fl m.utility_tag i m.statistics)
    ok (value, record m { statistics = s })
