-- ===== src/Utility/Judgement.antt =====
-- pcc/pcc_utility_manager.cpp: the two tolerances that `PrepareStatistics` leaves, and the members
-- that an interval with too few reliable samples leaves alone.
use mathlib.Core.Path.{subst}
use pcc_uspace.Base.{
  ◌≡◌, refl, sym, ap, ◌∙◌, ◌<◌, Bool, true, false, not, ltb, ◌&&◌, if-both, arith, lt→ltb,
}
use pcc_uspace.Base.Int.{pos}
use pcc_uspace.Floats.{Floats}
use pcc_uspace.IntervalQueue.Defs.{MonitorInterval}
use pcc_uspace.Utility.{UtilityTag}
use pcc_uspace.Utility.Stats.{ManagerStats}
use pcc_uspace.Utility.Metrics.{compute_rtt_gradient, compute_rtt_gradient_error}
use pcc_uspace.Utility.Trends.{
  compute_rtt_deviation, compute_trending_gradient, compute_trending_gradient_error,
  compute_trending_deviation,
}
use pcc_uspace.Utility.Tolerance.{
  push_histories, judge_gradient, judge_trending_deviation, process_rtt_trend,
  determine_tolerance_inflation, determine_tolerance_general, determine_tolerance_deviation,
  compute_metrics, compute_error, prepare_statistics, decay_inflated, restart_trend,
  revoke_inflation, follow_trend, lower_min_gradient, decay_fluctuated, judge_deviation,
  reset_fluctuated,
}
use pcc_uspace.Utility.Formulas.{tolerated_gradient}
use pcc_uspace.Utility.Histories.{judged}

module _ (fl : Floats) where
  open fl use {F32, lt32, abs32, of_int32, narrow, literal64}

  -- The test of `DetermineToleranceGeneral`.
  abbrev pub is_steep : ManagerStats F32 → Bool
  is_steep m = lt32 m.interval_stats.rtt_gradient_error (abs32 m.interval_stats.rtt_gradient)

  -- The second statistics have the gradient of the first and tolerate no more.
  record Revokes (m n : ManagerStats F32) : Type 0 where
    same_steep : is_steep n ≡ is_steep m
    inflation : n.is_rtt_inflation_tolerable ≡ true → m.is_rtt_inflation_tolerable ≡ true
    deviation : n.is_rtt_dev_tolerable ≡ true → m.is_rtt_dev_tolerable ≡ true

  Revokes-trans : (a b c : ManagerStats F32) → Revokes a b → Revokes b c → Revokes a c
  Revokes-trans a b c h k = record {
    same_steep = k.same_steep ∙ h.same_steep;
    inflation = λ e. h.inflation (k.inflation e);
    deviation = λ e. h.deviation (k.deviation e);
  }

  inflation-Revokes :
      (tag : UtilityTag) (m : ManagerStats F32) → Revokes m (determine_tolerance_inflation fl tag m)
  unfolding determine_tolerance_inflation decay_inflated restart_trend revoke_inflation follow_trend
      lower_min_gradient
  inflation-Revokes tag m = record {
    same_steep = ground arith;
    inflation = λ e. ground arith;
    deviation = λ e. ground arith;
  }

  gradient-Revokes : (tag : UtilityTag) (m : ManagerStats F32) → Revokes m (judge_gradient fl tag m)
  unfolding judge_gradient compute_trending_gradient compute_trending_gradient_error
  gradient-Revokes tag m =
      let made = compute_trending_gradient_error fl (compute_trending_gradient fl m) in
      let kept = inflation-Revokes tag made in
      record {
        same_steep = ground (arith, kept.same_steep);
        inflation = λ e. ground (arith, kept.inflation);
        deviation = λ e. ground (arith, kept.deviation);
      }

  deviation-Revokes : (m : ManagerStats F32) → Revokes m (judge_trending_deviation fl m)
  unfolding judge_trending_deviation compute_trending_deviation determine_tolerance_deviation
      decay_fluctuated judge_deviation reset_fluctuated
  deviation-Revokes m = record {
    same_steep = ground arith;
    inflation = λ e. ground arith;
    deviation = λ e. ground arith;
  }

  trend-Revokes :
      (tag : UtilityTag) (i : MonitorInterval F32) (m : ManagerStats F32)
      → Revokes m (process_rtt_trend fl tag i m)
  unfolding process_rtt_trend push_histories
  trend-Revokes tag i m =
      let pushed = push_histories fl m in
      let judged_trend = judge_gradient fl tag pushed in
      if-both (ltb i.num_reliable_rtt 2) m (judge_trending_deviation fl judged_trend) (Revokes m)
        (record { same_steep = refl; inflation = λ e. e; deviation = λ e. e })
        (Revokes-trans m judged_trend (judge_trending_deviation fl judged_trend)
          (Revokes-trans m pushed judged_trend
            (record { same_steep = refl; inflation = λ e. e; deviation = λ e. e })
            (gradient-Revokes tag pushed))
          (deviation-Revokes judged_trend))

  -- A flag that was the negation of a test and can only have been cleared since.
  cleared : (b flag : Bool) → (flag ≡ true → not b ≡ true) → (flag && b) ≡ false
  cleared true true h = sym (h refl)
  cleared true false h = refl
  cleared false true h = refl
  cleared false false h = refl

  -- Whatever the trends say, `prepare_statistics` never leaves RTT inflation or RTT deviation
  -- tolerable for an interval whose gradient exceeds its error.
  pub prepare_statistics-is_steep :
      (tag : UtilityTag) (i : MonitorInterval F32) (m : ManagerStats F32)
      → ((prepare_statistics fl tag i m).is_rtt_inflation_tolerable
            && is_steep (prepare_statistics fl tag i m)
          ≡ false)
        × ((prepare_statistics fl tag i m).is_rtt_dev_tolerable
              && is_steep (prepare_statistics fl tag i m)
            ≡ false)
  unfolding prepare_statistics determine_tolerance_general
  prepare_statistics-is_steep tag i m =
      let k = trend-Revokes tag i (judged fl i m) in
      let n = process_rtt_trend fl tag i (judged fl i m) in
      (
        cleared (is_steep n) n.is_rtt_inflation_tolerable
            (λ e. ap not k.same_steep ∙ k.inflation e),
        cleared (is_steep n) n.is_rtt_dev_tolerable (λ e. ap not k.same_steep ∙ k.deviation e),
      )

  tolerable_gradient :
      (i : MonitorInterval F32) (m : ManagerStats F32)
      → m.is_rtt_inflation_tolerable ≡ true
      → tolerated_gradient fl i m ≡ narrow (literal64 0 0)
  unfolding tolerated_gradient
  tolerable_gradient i m h = ground (arith, h)

  trend_few :
      (tag : UtilityTag) (i : MonitorInterval F32) (m : ManagerStats F32)
      → i.num_reliable_rtt < 2
      → process_rtt_trend fl tag i m ≡ m
  unfolding process_rtt_trend
  trend_few tag i m h = rw (lt→ltb i.num_reliable_rtt 2 h)

  judged-few :
      (i : MonitorInterval F32) (m : ManagerStats F32)
      → i.num_reliable_rtt < 2
      → i.num_reliable_rtt_for_gradient_calculation < 2
      → lt32 (narrow (literal64 0 0)) (abs32 (of_int32 (pos 0))) ≡ false
      → judged fl i m ≡ record m {
        interval_stats = (judged fl i m).interval_stats;
        is_rtt_inflation_tolerable = true;
        is_rtt_dev_tolerable = true;
      }
  unfolding determine_tolerance_general compute_error compute_rtt_gradient_error
      compute_rtt_deviation compute_metrics compute_rtt_gradient
  judged-few i m a b z =
      rw (lt→ltb i.num_reliable_rtt 2 a, lt→ltb i.num_reliable_rtt_for_gradient_calculation 2 b, z)

  -- If no error 0.0 is below the absolute value of 0, then an interval with fewer than two
  -- reliable samples of either kind changes the interval's own statistics alone, both tolerances
  -- are granted, and the gradient that the formulas count is 0.0.
  pub prepare_statistics-few :
      (tag : UtilityTag) (i : MonitorInterval F32) (m : ManagerStats F32)
      → i.num_reliable_rtt < 2
      → i.num_reliable_rtt_for_gradient_calculation < 2
      → lt32 (narrow (literal64 0 0)) (abs32 (of_int32 (pos 0))) ≡ false
      → (prepare_statistics fl tag i m ≡ record m {
        interval_stats = (prepare_statistics fl tag i m).interval_stats;
        is_rtt_inflation_tolerable = true;
        is_rtt_dev_tolerable = true;
      })
        × (tolerated_gradient fl i (prepare_statistics fl tag i m) ≡ narrow (literal64 0 0))
  unfolding prepare_statistics
  prepare_statistics-few tag i m a b z =
      let few = judged-few i m a b z in
      let kept = trend_few tag i (judged fl i m) a in
      (
        subst
            (λ n. n ≡ record m {
              interval_stats = n.interval_stats;
              is_rtt_inflation_tolerable = true;
              is_rtt_dev_tolerable = true;
            })
            (sym kept) few,
        tolerable_gradient i (prepare_statistics fl tag i m)
            (ap (λ n. n.is_rtt_inflation_tolerable) (kept ∙ few)),
      )
