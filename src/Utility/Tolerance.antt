-- ===== src/Utility/Tolerance.antt =====
-- pcc/pcc_utility_manager.cpp: the histories of the round trips and the two tolerances
-- (`DetermineTolerance*`, `ProcessRttTrend`), and `PrepareStatistics`. Operations on `float` end in
-- f, those on `double` in d.
use pcc_uspace.Base.{
  ℕ, Bool, false, ◌&&◌, ◌||◌, not, List, [], ◌∷◌, ◌++◌, ltb, leb, if◌then◌else◌, length, drop,
}
use pcc_uspace.Base.Int.{pos, negsuc}
use pcc_uspace.Floats.{Floats}
use pcc_uspace.IntervalQueue.Defs.{MonitorInterval}
use pcc_uspace.Utility.{UtilityTag, is_scavenger}
use pcc_uspace.Utility.Stats.{
  ManagerStats, rtt_history_len, alpha, beta, trending_reset_interval_ratio,
  inflation_tolerance_gain_high, inflation_tolerance_gain_low,
}
use pcc_uspace.Utility.Metrics.{
  pre_processing, compute_simple_metrics, compute_approx_rtt_gradient, compute_rtt_gradient,
  compute_rtt_gradient_error,
}
use pcc_uspace.Utility.Trends.{
  compute_rtt_deviation, compute_trending_gradient, compute_trending_gradient_error,
  compute_trending_deviation,
}

-- `emplace_back`, and `pop_front` past the largest length.
unfoldable pub push_history : {A : Type 0} → A → List A → List A
push_history x l =
    let pushed = l ++ (x ∷ []) in
    if ltb rtt_history_len (length pushed) then drop 1 pushed else pushed

module _ (fl : Floats) where
  open fl use {
    F32, of_int32, widen, narrow, literal64, abs32, lt64, add32 as ◌+f◌, sub32 as ◌-f◌,
    mul32 as ◌*f◌, div32 as ◌/f◌, lt32 as ◌<f◌, add64 as ◌+d◌, mul64 as ◌*d◌,
  }

  infixl 65 ◌+f◌ ◌-f◌ ◌+d◌
  infixl 70 ◌*f◌ ◌/f◌ ◌*d◌
  infix 50 ◌<f◌
  abbrev of_nat : ℕ → F32
  of_nat n = of_int32 (pos n)

  unfoldable pub determine_tolerance_general : ManagerStats F32 → ManagerStats F32
  determine_tolerance_general m =
      let steep = m.interval_stats.rtt_gradient_error <f abs32 m.interval_stats.rtt_gradient in
      record m { is_rtt_inflation_tolerable = not steep; is_rtt_dev_tolerable = not steep }

  -- The moving averages start again from the gradient of this interval.
  unfoldable pub restart_trend : ManagerStats F32 → ManagerStats F32
  restart_trend m =
      let g = m.interval_stats.trending_gradient in
      record m {
        avg_trending_gradient = of_nat 0;
        min_trending_gradient = abs32 g;
        dev_trending_gradient = abs32 g;
        last_trending_gradient = g;
      }

  -- A gradient outside the thresholds revokes the tolerance, one within them moves the averages.
  unfoldable pub revoke_inflation : ManagerStats F32 → ManagerStats F32
  unfolding alpha
  revoke_inflation m = record m {
    is_rtt_inflation_tolerable =
        if of_nat 0 <f m.interval_stats.trending_gradient
        then false
        else m.is_rtt_inflation_tolerable;
    is_rtt_dev_tolerable = false;
    ratio_inflated_mi = m.ratio_inflated_mi +f alpha fl;
  }

  -- kAlpha and 1 - kAlpha weigh a new value and the average so far.
  unfoldable pub moving_average : F32 → F32 → F32
  unfolding alpha
  moving_average old new = old *f (of_nat 1 -f alpha fl) +f new *f alpha fl

  unfoldable pub follow_trend : ManagerStats F32 → ManagerStats F32
  unfolding moving_average
  follow_trend m =
      let g = m.interval_stats.trending_gradient in
      record m {
        dev_trending_gradient =
            moving_average m.dev_trending_gradient (abs32 (g -f m.last_trending_gradient));
        avg_trending_gradient = moving_average m.avg_trending_gradient g;
        last_trending_gradient = g;
      }

  unfoldable pub exceeds_thresholds : ManagerStats F32 → Bool
  unfolding inflation_tolerance_gain_high inflation_tolerance_gain_low
  exceeds_thresholds m =
      let g = m.interval_stats.trending_gradient in
      let gain =
        if m.interval_stats.rtt_dev <f of_nat 1000
        then inflation_tolerance_gain_low fl
        else inflation_tolerance_gain_high fl in
      g <f m.avg_trending_gradient -f gain *f m.dev_trending_gradient
      || m.avg_trending_gradient +f gain *f m.dev_trending_gradient <f g

  -- `std::min(a, b)` is b where b < a.
  unfoldable pub lower_min_gradient : ManagerStats F32 → ManagerStats F32
  lower_min_gradient m =
      let g = abs32 m.interval_stats.trending_gradient in
      record m {
        min_trending_gradient = if g <f m.min_trending_gradient then g else m.min_trending_gradient;
      }

  unfoldable pub restarts_trend : ManagerStats F32 → Bool
  unfolding beta
  restarts_trend m =
      lt64 (widen m.min_trending_gradient) (literal64 1 6)
      || abs32 m.interval_stats.trending_gradient <f m.min_trending_gradient /f beta fl

  unfoldable pub decay_inflated : ManagerStats F32 → ManagerStats F32
  unfolding alpha
  decay_inflated m = record m { ratio_inflated_mi = m.ratio_inflated_mi *f (of_nat 1 -f alpha fl) }

  unfoldable pub determine_tolerance_inflation : UtilityTag → ManagerStats F32 → ManagerStats F32
  unfolding decay_inflated restarts_trend restart_trend exceeds_thresholds revoke_inflation
      follow_trend lower_min_gradient
  determine_tolerance_inflation tag m =
      let d = decay_inflated m in
      if not (is_scavenger tag) && ltb (length d.mi_avg_rtt_history) rtt_history_len
      then d
      else if restarts_trend d
      then restart_trend d
      else lower_min_gradient (if exceeds_thresholds d then revoke_inflation d else follow_trend d)

  unfoldable pub decay_fluctuated : ManagerStats F32 → ManagerStats F32
  unfolding alpha
  decay_fluctuated m = record m {
    ratio_fluctuated_mi = m.ratio_fluctuated_mi *f (of_nat 1 -f alpha fl);
  }

  -- The deviation starts the averages, revokes the tolerance, or moves the averages.
  unfoldable pub judge_deviation : ManagerStats F32 → ManagerStats F32
  unfolding moving_average alpha
  judge_deviation m =
      let dev = m.interval_stats.rtt_dev in
      if lt64 (widen m.avg_mi_rtt_dev) (literal64 1 6)
      then record m { avg_mi_rtt_dev = dev; dev_mi_rtt_dev = narrow (literal64 5 1 *d widen dev) }
      else if lt64 (widen m.avg_mi_rtt_dev +d widen m.dev_mi_rtt_dev *d literal64 4 0) (widen dev)
          && (of_nat 1000 <f dev)
      then record m {
        is_rtt_dev_tolerable = false;
        ratio_fluctuated_mi = m.ratio_fluctuated_mi +f alpha fl;
      }
      else record m {
        dev_mi_rtt_dev = moving_average m.dev_mi_rtt_dev (abs32 (dev -f m.avg_mi_rtt_dev));
        avg_mi_rtt_dev = moving_average m.avg_mi_rtt_dev dev;
      }

  unfoldable pub reset_fluctuated : ManagerStats F32 → ManagerStats F32
  unfolding trending_reset_interval_ratio
  reset_fluctuated m =
      if trending_reset_interval_ratio fl <f m.ratio_fluctuated_mi
      then record m {
        avg_mi_rtt_dev = of_int32 (negsuc 0);
        dev_mi_rtt_dev = of_int32 (negsuc 0);
        ratio_fluctuated_mi = of_nat 0;
      }
      else m

  unfoldable pub determine_tolerance_deviation : ManagerStats F32 → ManagerStats F32
  unfolding decay_fluctuated judge_deviation reset_fluctuated
  determine_tolerance_deviation m = reset_fluctuated (judge_deviation (decay_fluctuated m))

  unfoldable pub push_histories : ManagerStats F32 → ManagerStats F32
  unfolding push_history
  push_histories m = record m {
    mi_avg_rtt_history = push_history m.interval_stats.avg_rtt m.mi_avg_rtt_history;
    mi_rtt_dev_history = push_history m.interval_stats.rtt_dev m.mi_rtt_dev_history;
  }

  unfoldable pub judge_gradient : UtilityTag → ManagerStats F32 → ManagerStats F32
  unfolding compute_trending_gradient compute_trending_gradient_error determine_tolerance_inflation
  judge_gradient tag m =
      if leb rtt_history_len (length m.mi_avg_rtt_history)
      then determine_tolerance_inflation tag
          (compute_trending_gradient_error fl (compute_trending_gradient fl m))
      else m

  unfoldable pub judge_trending_deviation : ManagerStats F32 → ManagerStats F32
  unfolding compute_trending_deviation determine_tolerance_deviation
  judge_trending_deviation m =
      if leb rtt_history_len (length m.mi_rtt_dev_history)
      then determine_tolerance_deviation (compute_trending_deviation fl m)
      else m

  unfoldable pub process_rtt_trend :
      UtilityTag → MonitorInterval F32 → ManagerStats F32 → ManagerStats F32
  unfolding push_histories judge_gradient judge_trending_deviation
  process_rtt_trend tag i m =
      if ltb i.num_reliable_rtt 2
      then m
      else judge_trending_deviation (judge_gradient tag (push_histories m))

  -- The calls of `PrepareStatistics` that change `interval_stats_` alone, before and after the one
  -- of `ComputeRttDeviation`.
  unfoldable pub compute_metrics : MonitorInterval F32 → ManagerStats F32 → ManagerStats F32
  unfolding pre_processing compute_simple_metrics compute_approx_rtt_gradient compute_rtt_gradient
  compute_metrics i m = record m {
    interval_stats = compute_rtt_gradient fl i (
        compute_approx_rtt_gradient fl i
          (compute_simple_metrics fl i (pre_processing fl m.interval_stats)));
  }

  unfoldable pub compute_error : MonitorInterval F32 → ManagerStats F32 → ManagerStats F32
  unfolding compute_rtt_gradient_error
  compute_error i m = record m { interval_stats = compute_rtt_gradient_error fl i m.interval_stats }

  unfoldable pub prepare_statistics :
      UtilityTag → MonitorInterval F32 → ManagerStats F32 → ManagerStats F32
  unfolding compute_metrics compute_rtt_deviation compute_error determine_tolerance_general
      process_rtt_trend
  prepare_statistics tag i m = process_rtt_trend tag i (
      determine_tolerance_general
        (compute_error i (compute_rtt_deviation fl i (compute_metrics i m))))
