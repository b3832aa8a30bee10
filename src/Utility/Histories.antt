-- ===== src/Utility/Histories.antt =====
-- pcc/pcc_utility_manager.cpp: the histories of the round trips and the share of fluctuating
-- intervals, under one call of `PrepareStatistics`.
use pcc_uspace.Base.{
  ℕ, suc, ◌≡◌, refl, ◌+◌, ◌≤◌, min, false, List, [], ◌∷◌, ◌++◌, length, length-append, drop,
  if◌then◌else◌, arith, ◌∙◌,
}
use pcc_uspace.Base.Int.{pos}
use pcc_uspace.Floats.{Floats}
use pcc_uspace.IntervalQueue.Defs.{PacketRttSample, MonitorInterval}
use pcc_uspace.Utility.{UtilityTag}
use pcc_uspace.Utility.Stats.{ManagerStats, rtt_history_len, trending_reset_interval_ratio}
use pcc_uspace.Utility.Trends.{
  compute_rtt_deviation, compute_trending_gradient, compute_trending_gradient_error,
  compute_trending_deviation, deviation_loop, start_deviation, deviation_step, finish_deviation,
}
use pcc_uspace.Utility.Tolerance.{
  push_history, judge_gradient, judge_trending_deviation, determine_tolerance_inflation,
  determine_tolerance_general, determine_tolerance_deviation, compute_metrics, compute_error,
  decay_inflated, restart_trend, revoke_inflation, follow_trend, lower_min_gradient,
  decay_fluctuated, judge_deviation, reset_fluctuated,
}

-- The statements of `PrepareStatistics` before `ProcessRttTrend`.
abbrev pub judged :
    (fl : Floats) → MonitorInterval fl.F32 → ManagerStats fl.F32 → ManagerStats fl.F32
judged fl i m =
    determine_tolerance_general fl
      (compute_error fl i (compute_rtt_deviation fl i (compute_metrics fl i m)))

-- Statistics that agree in the histories and in the share of fluctuating intervals.
pub record SameHistories {F : Type 0} (m n : ManagerStats F) : Type 0 where
  pub same_rtt : m.mi_avg_rtt_history ≡ n.mi_avg_rtt_history
  pub same_dev : m.mi_rtt_dev_history ≡ n.mi_rtt_dev_history
  pub same_ratio : m.ratio_fluctuated_mi ≡ n.ratio_fluctuated_mi

drop-1_length : {F : Type 0} (l : List F) (n : ℕ) → length l ≡ suc n → length (drop 1 l) ≡ n
drop-1_length [] n h = absurd (omega arith)
drop-1_length (x ∷ l) n h = omega arith

pub length-push_history :
    {F : Type 0} (x : F) (l : List F)
    → length l ≤ rtt_history_len
    → length (push_history x l) ≡ min rtt_history_len (length l + 1)
unfolding push_history
length-push_history x l h =
    ground (arith, length-append l (x ∷ []), drop-1_length (l ++ (x ∷ [])) (length l))

module _ (fl : Floats) where
  open fl use {F32, lt32, of_int32}

  inflation-SameHistories :
      (tag : UtilityTag) (m : ManagerStats F32)
      → SameHistories (determine_tolerance_inflation fl tag m) m
  unfolding determine_tolerance_inflation decay_inflated restart_trend revoke_inflation follow_trend
      lower_min_gradient
  inflation-SameHistories tag m = record {
    same_rtt = ground arith;
    same_dev = ground arith;
    same_ratio = ground arith;
  }

  pub gradient-SameHistories :
      (tag : UtilityTag) (m : ManagerStats F32) → SameHistories (judge_gradient fl tag m) m
  unfolding judge_gradient compute_trending_gradient compute_trending_gradient_error
  gradient-SameHistories tag m =
      let made = compute_trending_gradient_error fl (compute_trending_gradient fl m) in
      record {
        same_rtt = ground (arith, (inflation-SameHistories tag made).same_rtt);
        same_dev = ground (arith, (inflation-SameHistories tag made).same_dev);
        same_ratio = ground (arith, (inflation-SameHistories tag made).same_ratio);
      }

  loop-SameHistories :
      (l : List PacketRttSample) (m : ManagerStats F32) → SameHistories (deviation_loop fl l m) m
  unfolding deviation_loop deviation_step
  loop-SameHistories [] m = record { same_rtt = refl; same_dev = refl; same_ratio = refl }
  loop-SameHistories (p ∷ l) m =
      let rest = loop-SameHistories l (if p.is_reliable then deviation_step fl p m else m) in
      record {
        same_rtt = rest.same_rtt ∙ ground arith;
        same_dev = rest.same_dev ∙ ground arith;
        same_ratio = rest.same_ratio ∙ ground arith;
      }

  pub judged-SameHistories :
      (i : MonitorInterval F32) (m : ManagerStats F32) → SameHistories (judged fl i m) m
  unfolding determine_tolerance_general compute_error compute_rtt_deviation compute_metrics
      start_deviation finish_deviation
  judged-SameHistories i m =
      let looped =
        loop-SameHistories i.packet_rtt_samples (start_deviation fl (compute_metrics fl i m)) in
      record {
        same_rtt = ground (arith, looped.same_rtt);
        same_dev = ground (arith, looped.same_dev);
        same_ratio = ground (arith, looped.same_ratio);
      }

  -- The share after a reset, if 0 is not above the limit.
  unfoldable pub IsBelowReset : F32 → Type 0
  IsBelowReset r = lt32 (trending_reset_interval_ratio fl) r ≡ false

  reset-IsBelowReset :
      (m : ManagerStats F32)
      → IsBelowReset (of_int32 (pos 0))
      → IsBelowReset (reset_fluctuated fl m).ratio_fluctuated_mi
  unfolding reset_fluctuated IsBelowReset
  reset-IsBelowReset m h = ground arith

  pub deviation_history :
      (m : ManagerStats F32)
      → ((judge_trending_deviation fl m).mi_avg_rtt_history ≡ m.mi_avg_rtt_history)
        × ((judge_trending_deviation fl m).mi_rtt_dev_history ≡ m.mi_rtt_dev_history)
  unfolding judge_trending_deviation compute_trending_deviation determine_tolerance_deviation
      decay_fluctuated judge_deviation reset_fluctuated
  deviation_history m = (ground arith, ground arith)

  pub deviation-IsBelowReset :
      (m : ManagerStats F32)
      → IsBelowReset (of_int32 (pos 0))
      → IsBelowReset m.ratio_fluctuated_mi
      → IsBelowReset (judge_trending_deviation fl m).ratio_fluctuated_mi
  unfolding judge_trending_deviation determine_tolerance_deviation
  deviation-IsBelowReset m h k = ground (
    arith,
    reset-IsBelowReset (judge_deviation fl (decay_fluctuated fl (compute_trending_deviation fl m)))
        h,
  )
