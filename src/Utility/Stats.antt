-- ===== src/Utility/Stats.antt =====
-- pcc/pcc_utility_manager.{h,cpp}: the struct `IntervalStats`, the statistics that the manager keeps
-- between intervals, and the values they start with.
use pcc_uspace.Base.{ℕ, Bool, true, ◌*◌, List, []}
use pcc_uspace.Base.Int.{ℤ, pos, negsuc}
use pcc_uspace.Floats.{Floats}

pub record IntervalStats (F : Type 0) : Type 0 where
  pub interval_duration : F
  pub rtt_ratio : F
  pub marked_lost_bytes : ℤ
  pub loss_rate : F
  pub actual_sending_rate_mbps : F
  pub ack_rate_mbps : F
  pub avg_rtt : F
  pub rtt_dev : F
  pub min_rtt : F
  pub max_rtt : F
  pub approx_rtt_gradient : F
  pub rtt_gradient : F
  pub rtt_gradient_cut : F
  pub rtt_gradient_error : F
  pub trending_gradient : F
  pub trending_gradient_cut : F
  pub trending_gradient_error : F
  pub trending_deviation : F

-- The members of the manager from `interval_stats_` on.
pub record ManagerStats (F : Type 0) : Type 0 where
  pub interval_stats : IntervalStats F
  pub lost_bytes_tolerance_quota : ℕ
  pub avg_mi_rtt_dev : F
  pub dev_mi_rtt_dev : F
  pub min_rtt : F
  pub mi_avg_rtt_history : List F
  pub avg_trending_gradient : F
  pub min_trending_gradient : F
  pub dev_trending_gradient : F
  pub last_trending_gradient : F
  pub mi_rtt_dev_history : List F
  pub avg_trending_dev : F
  pub min_trending_dev : F
  pub dev_trending_dev : F
  pub last_trending_dev : F
  pub ratio_inflated_mi : F
  pub ratio_fluctuated_mi : F
  pub is_rtt_inflation_tolerable : Bool
  pub is_rtt_dev_tolerable : Bool

abbrev pub max_packet_size : ℕ
max_packet_size = 1500

abbrev pub bits_per_byte : ℕ
bits_per_byte = 8

abbrev pub rtt_history_len : ℕ
rtt_history_len = 6

abbrev pub lost_packet_tolerance : ℕ
lost_packet_tolerance = 10

module _ (fl : Floats) where
  open fl use {F32, of_int32, narrow, literal32, literal64, neg32, neg64}

  unfoldable pub loss_tolerance : F32
  loss_tolerance = literal32 5 2

  unfoldable pub loss_coefficient : F32
  loss_coefficient = neg32 (literal32 1000 0)

  unfoldable pub rtt_coefficient : F32
  rtt_coefficient = neg32 (literal32 200 0)

  unfoldable pub sending_rate_exponent : F32
  sending_rate_exponent = literal32 9 1

  unfoldable pub vivace_loss_coefficient : F32
  vivace_loss_coefficient = literal32 1135 2

  unfoldable pub latency_coefficient : F32
  latency_coefficient = literal32 900 0

  unfoldable pub rtt_deviation_coefficient : F32
  rtt_deviation_coefficient = literal32 15 4

  unfoldable pub hybrid_rate_transform_factor : F32
  hybrid_rate_transform_factor = literal32 1 1

  -- kAlpha and kBeta.
  unfoldable pub alpha : F32
  alpha = literal32 1 1

  unfoldable pub beta : F32
  beta = literal32 100 0

  unfoldable pub trending_reset_interval_ratio : F32
  trending_reset_interval_ratio = literal32 95 2

  unfoldable pub inflation_tolerance_gain_high : F32
  inflation_tolerance_gain_high = literal32 2 0

  unfoldable pub inflation_tolerance_gain_low : F32
  inflation_tolerance_gain_low = literal32 2 0

  -- The constructor of `IntervalStats` sets two members; `unset` holds what the others start as.
  unfoldable pub new_interval_stats : IntervalStats F32 → IntervalStats F32
  new_interval_stats unset = record unset {
    min_rtt = of_int32 (negsuc 0);
    max_rtt = of_int32 (negsuc 0);
  }

  -- -1.0, as a `float`.
  unfoldable pub minus_one : F32
  minus_one = narrow (neg64 (literal64 1 0))

  -- The constructor of the manager, on the members above.
  unfoldable pub new_stats : IntervalStats F32 → ManagerStats F32
  unfolding new_interval_stats minus_one
  new_stats unset = record {
    interval_stats = new_interval_stats unset;
    lost_bytes_tolerance_quota = max_packet_size * lost_packet_tolerance;
    avg_mi_rtt_dev = minus_one;
    dev_mi_rtt_dev = minus_one;
    min_rtt = minus_one;
    mi_avg_rtt_history = [];
    avg_trending_gradient = minus_one;
    min_trending_gradient = minus_one;
    dev_trending_gradient = minus_one;
    last_trending_gradient = minus_one;
    mi_rtt_dev_history = [];
    avg_trending_dev = minus_one;
    min_trending_dev = minus_one;
    dev_trending_dev = minus_one;
    last_trending_dev = minus_one;
    ratio_inflated_mi = of_int32 (pos 0);
    ratio_fluctuated_mi = of_int32 (pos 0);
    is_rtt_inflation_tolerable = true;
    is_rtt_dev_tolerable = true;
  }
