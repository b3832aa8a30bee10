-- ===== src/Utility/Formulas.antt =====
-- pcc/pcc_utility_manager.cpp: the `CalculateUtility*` and `CalculatePerfectUtility*` functions.
-- Operations on `float` end in f, those on `double` in d; `exp` and `pow` are the overloads for the
-- arguments' types. Only the function of Allegro writes to the statistics.
use pcc_uspace.Base.{ℕ, ◌&&◌, if◌then◌else◌}
use pcc_uspace.Base.Int.{pos}
use pcc_uspace.Floats.{Floats}
use pcc_uspace.IntervalQueue.Defs.{MonitorInterval}
use pcc_uspace.Utility.Stats.{
  IntervalStats, ManagerStats, bits_per_byte, loss_tolerance, loss_coefficient, rtt_coefficient,
  sending_rate_exponent, vivace_loss_coefficient, latency_coefficient, rtt_deviation_coefficient,
  hybrid_rate_transform_factor,
}

module _ (fl : Floats) where
  open fl use {
    F32, F64, of_int32, widen, narrow, literal32, literal64, abs32, pow32, exp32, exp64, lt64,
    add32 as ◌+f◌, sub32 as ◌-f◌, mul32 as ◌*f◌, div32 as ◌/f◌, lt32 as ◌<f◌, add64 as ◌+d◌,
    sub64 as ◌-d◌, mul64 as ◌*d◌, div64 as ◌/d◌,
  }

  infixl 65 ◌+f◌ ◌-f◌ ◌+d◌ ◌-d◌
  infixl 70 ◌*f◌ ◌/f◌ ◌*d◌ ◌/d◌
  infix 50 ◌<f◌
  abbrev of_nat : ℕ → F32
  of_nat n = of_int32 (pos n)

  abbrev one : F64
  one = literal64 1 0

  abbrev double_zero : F32
  double_zero = narrow (literal64 0 0)

  -- The statement of Allegro that writes: a ratio within the tolerance counts as 1.
  unfoldable pub settle_ratio : MonitorInterval F32 → ManagerStats F32 → ManagerStats F32
  settle_ratio i m =
      let ratio = m.interval_stats.rtt_ratio in
      let tolerance = widen i.rtt_fluctuation_tolerance_ratio in
      if lt64 (one -d tolerance) (widen ratio) && lt64 (widen ratio) (one +d tolerance)
      then record m { interval_stats = record m.interval_stats { rtt_ratio = narrow one } }
      else m

  -- 1.0 - 1.0 / (1.0 + exp(kRTTCoefficient * (1.0 - ratio))).
  unfoldable pub allegro_latency_penalty : F32 → F32
  unfolding rtt_coefficient
  allegro_latency_penalty ratio =
      narrow (one -d one /d (one +d exp64 (widen (rtt_coefficient fl) *d (one -d widen ratio))))

  -- 1.0 - 1.0 / (1.0 + exp(kLossCoefficient * (rate - kLossTolerance))).
  unfoldable pub allegro_loss_penalty : F32 → F32
  unfolding loss_coefficient loss_tolerance
  allegro_loss_penalty rate =
      narrow
        (one -d one /d (one +d widen (exp32 (loss_coefficient fl *f (rate -f loss_tolerance fl)))))

  unfoldable pub allegro_value : MonitorInterval F32 → IntervalStats F32 → F32
  unfolding allegro_latency_penalty allegro_loss_penalty
  allegro_value i s = narrow (
      widen (
        of_nat i.bytes_acked
          /f s.interval_duration
          *f allegro_loss_penalty s.loss_rate
          *f allegro_latency_penalty s.rtt_ratio
        -f of_nat i.bytes_lost /f s.interval_duration)
      *d literal64 1000 0)

  unfoldable pub utility_allegro : MonitorInterval F32 → ManagerStats F32 → F32 × ManagerStats F32
  unfolding settle_ratio allegro_value
  utility_allegro i m = (allegro_value i (settle_ratio i m).interval_stats, settle_ratio i m)

  -- The statements on `rtt_gradient` that open the formulas of Proportional and Scavenger.
  unfoldable pub tolerated_gradient : MonitorInterval F32 → ManagerStats F32 → F32
  tolerated_gradient i m =
      let s = m.interval_stats in
      let g =
        narrow (if m.is_rtt_inflation_tolerable then literal64 0 0 else widen s.rtt_gradient) in
      let h =
        if lt64 (literal64 50 0) (widen i.rtt_fluctuation_tolerance_ratio)
          && lt64 (widen (abs32 g)) (literal64 1000 0 /d widen s.interval_duration)
        then double_zero
        else g in
      if h <f of_nat 0 then double_zero else h

  unfoldable pub perfect_utility_vivace : F32 → F32
  unfolding sending_rate_exponent
  perfect_utility_vivace rate = pow32 rate (sending_rate_exponent fl)

  unfoldable pub utility_proportional : MonitorInterval F32 → F32 → F32 → ManagerStats F32 → F32
  unfolding tolerated_gradient sending_rate_exponent
  utility_proportional i latency loss m =
      let s = m.interval_stats in
      pow32 s.actual_sending_rate_mbps (sending_rate_exponent fl)
      -f latency *f tolerated_gradient i m *f s.actual_sending_rate_mbps
      -f loss *f s.loss_rate *f s.actual_sending_rate_mbps

  unfoldable pub utility_vivace : MonitorInterval F32 → ManagerStats F32 → F32
  unfolding utility_proportional latency_coefficient vivace_loss_coefficient
  utility_vivace i m =
      utility_proportional i (latency_coefficient fl) (vivace_loss_coefficient fl) m

  -- The statements on `rtt_dev` of Scavenger.
  unfoldable pub tolerated_deviation : MonitorInterval F32 → ManagerStats F32 → F32
  tolerated_deviation i m =
      if lt64 (literal64 50 0) (widen i.rtt_fluctuation_tolerance_ratio)
      then double_zero
      else narrow (if m.is_rtt_dev_tolerable then literal64 0 0 else widen m.interval_stats.rtt_dev)

  unfoldable pub utility_scavenger : MonitorInterval F32 → F32 → ManagerStats F32 → F32
  unfolding tolerated_gradient tolerated_deviation sending_rate_exponent vivace_loss_coefficient
      latency_coefficient
  utility_scavenger i variance m =
      let s = m.interval_stats in
      pow32 s.actual_sending_rate_mbps (sending_rate_exponent fl)
      -f vivace_loss_coefficient fl *f s.loss_rate *f s.actual_sending_rate_mbps
      -f latency_coefficient fl *f tolerated_gradient i m *f s.actual_sending_rate_mbps
      -f variance *f tolerated_deviation i m *f s.actual_sending_rate_mbps

  unfoldable pub perfect_utility_allegro : F32 → F32
  unfolding allegro_latency_penalty allegro_loss_penalty
  perfect_utility_allegro rate = narrow (
      widen (
        rate
        /f of_nat bits_per_byte
        *f allegro_loss_penalty (literal32 0 0)
        *f allegro_latency_penalty (narrow one))
      *d literal64 1000 0)

  -- The rate above the bound, of which a tenth counts.
  unfoldable pub bounded_rate : F32 → F32 → F32
  unfolding hybrid_rate_transform_factor
  bounded_rate bound rate = bound +f (rate -f bound) *f hybrid_rate_transform_factor fl

  unfoldable pub utility_hybrid_allegro :
      MonitorInterval F32 → F32 → ManagerStats F32 → F32 × ManagerStats F32
  unfolding utility_allegro perfect_utility_allegro bounded_rate
  utility_hybrid_allegro i bound m =
      let (value, n) = utility_allegro i m in
      let rate = n.interval_stats.actual_sending_rate_mbps in
      let bounded = perfect_utility_allegro (bounded_rate bound rate) in
      (if rate <f bound then value else bounded *f (value /f perfect_utility_allegro rate), n)

  unfoldable pub utility_hybrid_vivace : MonitorInterval F32 → F32 → ManagerStats F32 → F32
  unfolding utility_vivace perfect_utility_vivace bounded_rate
  utility_hybrid_vivace i bound m =
      let rate = m.interval_stats.actual_sending_rate_mbps in
      if rate <f bound
      then utility_vivace i m
      else perfect_utility_vivace (bounded_rate bound rate)
        +f utility_vivace i m
        -f perfect_utility_vivace rate

  unfoldable pub utility_hybrid_vivace2 : MonitorInterval F32 → F32 → ManagerStats F32 → F32
  unfolding utility_vivace perfect_utility_vivace bounded_rate
  utility_hybrid_vivace2 i bound m =
      let rate = m.interval_stats.actual_sending_rate_mbps in
      if rate <f bound
      then utility_vivace i m
      else perfect_utility_vivace (bounded_rate bound rate)
        *f (utility_vivace i m /f perfect_utility_vivace rate)

  unfoldable pub utility_rate_limiter : MonitorInterval F32 → F32 → ManagerStats F32 → F32
  unfolding utility_vivace
  utility_rate_limiter i parameter m =
      utility_vivace i m -f parameter *f m.interval_stats.actual_sending_rate_mbps

  unfoldable pub utility_hybrid : MonitorInterval F32 → F32 → ManagerStats F32 → F32
  unfolding utility_vivace utility_scavenger rtt_deviation_coefficient
  utility_hybrid i rate_bound m =
      if m.interval_stats.actual_sending_rate_mbps <f rate_bound
      then utility_vivace i m
      else utility_scavenger i (rtt_deviation_coefficient fl) m

  unfoldable pub utility_test : MonitorInterval F32 → F32 → F32 → ManagerStats F32 → F32
  unfolding utility_vivace
  utility_test i latency loss m = utility_vivace i m
