-- ===== src/Utility/Trends.antt =====
-- pcc/pcc_utility_manager.cpp: the deviation of an interval's round trips, and the computations over
-- the histories (`ComputeRttDeviation`, `ComputeTrendingGradient`, `ComputeTrendingGradientError`,
-- `ComputeTrendingDeviation`). Operations on `float` end in f, those on `double` in d.
use pcc_uspace.Base.{ℕ, ◌||◌, List, [], ◌∷◌, suc, ltb, if◌then◌else◌, length}
use pcc_uspace.Base.Int.{pos, negsuc}
use pcc_uspace.Floats.{Floats}
use pcc_uspace.IntervalQueue.Defs.{PacketRttSample, MonitorInterval}
use pcc_uspace.Utility.Stats.{IntervalStats, ManagerStats}

module _ (fl : Floats) where
  open fl use {
    F32, of_int32, widen, narrow, literal64, sqrt32, pow64, abs32, lt64, add32 as ◌+f◌,
    sub32 as ◌-f◌, mul32 as ◌*f◌, div32 as ◌/f◌, lt32 as ◌<f◌, add64 as ◌+d◌, mul64 as ◌*d◌,
  }

  infixl 65 ◌+f◌ ◌-f◌ ◌+d◌
  infixl 70 ◌*f◌ ◌/f◌ ◌*d◌
  infix 50 ◌<f◌
  abbrev of_nat : ℕ → F32
  of_nat n = of_int32 (pos n)

  abbrev double_zero : F32
  double_zero = narrow (literal64 0 0)

  -- One round of the loop of `ComputeRttDeviation`.
  unfoldable pub deviation_step : PacketRttSample → ManagerStats F32 → ManagerStats F32
  deviation_step p m =
      let s = m.interval_stats in
      let rtt = of_int32 p.sample_rtt in
      let delta = rtt -f s.avg_rtt in
      record m {
        min_rtt = if m.min_rtt <f of_nat 0 || rtt <f m.min_rtt then rtt else m.min_rtt;
        interval_stats = record s {
          rtt_dev = s.rtt_dev +f delta *f delta;
          min_rtt = if s.min_rtt <f of_nat 0 || rtt <f s.min_rtt then rtt else s.min_rtt;
          max_rtt = if s.max_rtt <f of_nat 0 || s.max_rtt <f rtt then rtt else s.max_rtt;
        };
      }

  unfoldable pub deviation_loop : List PacketRttSample → ManagerStats F32 → ManagerStats F32
  unfolding deviation_step
  deviation_loop [] m = m
  deviation_loop (p ∷ l) m = deviation_loop l (if p.is_reliable then deviation_step p m else m)

  -- The members that the loop starts from, and the root that it ends with.
  unfoldable pub start_deviation : ManagerStats F32 → ManagerStats F32
  start_deviation m = record m {
    interval_stats = record m.interval_stats {
      rtt_dev = double_zero;
      max_rtt = of_int32 (negsuc 0);
      min_rtt = of_int32 (negsuc 0);
    };
  }

  unfoldable pub finish_deviation : ℕ → ManagerStats F32 → ManagerStats F32
  finish_deviation n m = record m {
    interval_stats = record m.interval_stats {
      rtt_dev = sqrt32 (m.interval_stats.rtt_dev /f of_nat n);
    };
  }

  unfoldable pub compute_rtt_deviation : MonitorInterval F32 → ManagerStats F32 → ManagerStats F32
  unfolding deviation_loop start_deviation finish_deviation
  compute_rtt_deviation i m =
      if ltb i.num_reliable_rtt 2
      then record m { interval_stats = record m.interval_stats { rtt_dev = of_nat 0 } }
      else finish_deviation i.num_reliable_rtt
          (deviation_loop i.packet_rtt_samples (start_deviation m))

  -- A loop over a history that adds a value of each index and element to `total`.
  unfoldable pub sum_history : (ℕ → F32 → F32) → ℕ → F32 → List F32 → F32
  sum_history f k total [] = total
  sum_history f k total (y ∷ l) = sum_history f (suc k) (total +f f k y) l

  unfoldable pub history_avg : (ℕ → F32 → F32) → List F32 → F32
  unfolding sum_history
  history_avg f l = sum_history f 0 double_zero l /f of_nat (length l)

  unfoldable pub compute_trending_gradient : ManagerStats F32 → ManagerStats F32
  unfolding history_avg sum_history
  compute_trending_gradient m =
      let l = m.mi_avg_rtt_history in
      let x_avg = history_avg (λ k y. of_nat k) l in
      let y_avg = history_avg (λ k y. y) l in
      let gradient =
        sum_history (λ k y. (of_nat k -f x_avg) *f (y -f y_avg)) 0 double_zero l
        /f sum_history (λ k y. (of_nat k -f x_avg) *f (of_nat k -f x_avg)) 0 double_zero l in
      record m {
        interval_stats = record m.interval_stats {
          trending_gradient = gradient;
          trending_gradient_cut = y_avg -f gradient *f x_avg;
        };
      }

  -- The loop over the squared distances from the line, which adds in `double`.
  unfoldable pub sum_trend_errors : IntervalStats F32 → ℕ → F32 → List F32 → F32
  sum_trend_errors s k total [] = total
  sum_trend_errors s k total (y ∷ l) =
      let line = of_nat k *f s.trending_gradient +f s.trending_gradient_cut in
      sum_trend_errors s (suc k) (narrow (widen total +d pow64 (widen (y -f line)) (literal64 2 0)))
        l

  unfoldable pub compute_trending_gradient_error : ManagerStats F32 → ManagerStats F32
  unfolding sum_trend_errors
  compute_trending_gradient_error m =
      let l = m.mi_avg_rtt_history in
      record m {
        interval_stats = record m.interval_stats {
          trending_gradient_error =
              sqrt32 (sum_trend_errors m.interval_stats 0 double_zero l /f of_nat (length l));
        };
      }

  unfoldable pub compute_trending_deviation : ManagerStats F32 → ManagerStats F32
  unfolding history_avg sum_history
  compute_trending_deviation m =
      let l = m.mi_rtt_dev_history in
      let avg = history_avg (λ k y. y) l in
      record m {
        interval_stats = record m.interval_stats {
          trending_deviation =
              sqrt32 (
                sum_history (λ k y. (avg -f y) *f (avg -f y)) 0 double_zero l /f of_nat (length l));
        };
      }
