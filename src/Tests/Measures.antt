-- ===== src/Tests/Measures.antt =====
-- pcc/pcc_utility_manager.cpp: intervals with round trips, measured and valued under some tags.
use pcc_uspace.Base.{
  ℕ, ◌+◌, ◌≤◌, ◌<◌, true, false, ◌≡◌, refl, List, [], ◌∷◌, ◌&&◌, min, length, count_if, arith,
}
use pcc_uspace.Base.Int.{ℤ, pos, ◌*ℤ◌, ◌+ℤ◌, ◌-ℤ◌, ltb_ℤ, abs}
use pcc_uspace.Quic.Time.{div_ℤ}
use pcc_uspace.Base.Result.{err, utility_parameter, Returns}
use pcc_uspace.IntervalQueue.Defs.{
  PacketRttSample, MonitorInterval, new_interval, has_invalid_utility,
}
use pcc_uspace.Utility.{
  UtilityManager, calculate_utility, hybrid, scavenger, vivace, get_utility_parameter,
  new_utility_manager,
}
use pcc_uspace.Utility.Stats.{
  IntervalStats, ManagerStats, new_stats, rtt_history_len, trending_reset_interval_ratio,
}
use pcc_uspace.Utility.Metrics.{sum_samples, rtt_slope}
use pcc_uspace.Utility.Tolerance.{prepare_statistics}
use pcc_uspace.Utility.Formulas.{tolerated_gradient}
use pcc_uspace.Utility.Evaluate.{calculate_checked, parameters_read}
use pcc_uspace.Utility.Refinement.{
  calculate_checked-missing, calculate_utility-missing, pcc_utility,
}
use pcc_uspace.Utility.Judgement.{is_steep, prepare_statistics-is_steep, prepare_statistics-few}
use pcc_uspace.Utility.Histories.{IsBelowReset}
use pcc_uspace.Utility.Runs.{
  HasLength, UtilityFault, adds_history, configured, calculate_all, calculate_all-HasLength,
  calculate_all-IsBelowReset,
}
use pcc_uspace.Utility.Settings.{
  tag_set, parameter_set, apply_settings, get_utility_parameter-apply_settings,
}
use pcc_uspace.Tests.Fixed.{fixed, scaled, literal, times, quotient}

-- Members without an initial value start as 0.
abbrev pub zeros : IntervalStats ℤ
zeros = record {
  interval_duration = pos 0;
  rtt_ratio = pos 0;
  marked_lost_bytes = pos 0;
  loss_rate = pos 0;
  actual_sending_rate_mbps = pos 0;
  ack_rate_mbps = pos 0;
  avg_rtt = pos 0;
  rtt_dev = pos 0;
  min_rtt = pos 0;
  max_rtt = pos 0;
  approx_rtt_gradient = pos 0;
  rtt_gradient = pos 0;
  rtt_gradient_cut = pos 0;
  rtt_gradient_error = pos 0;
  trending_gradient = pos 0;
  trending_gradient_cut = pos 0;
  trending_gradient_error = pos 0;
  trending_deviation = pos 0;
}

abbrev sample : ℕ → ℕ → PacketRttSample
sample number rtt = record {
  packet_number = number;
  sample_rtt = pos rtt;
  ack_timestamp = pos (20000 + number);
  is_reliable = true;
  is_reliable_for_gradient_calculation = true;
}

-- Two reliable round trips, the second longer.
unfoldable pub measured : MonitorInterval ℤ
unfolding new_interval
measured = record (new_interval 800000 true (pos 100) (pos 20000)) {
  first_packet_sent_time = pos 1000;
  last_packet_sent_time = pos 2000;
  bytes_sent = 3000;
  bytes_acked = 3000;
  packet_rtt_samples = sample 1 20000 ∷ sample 3 26000 ∷ [];
  num_reliable_rtt = 2;
  num_reliable_rtt_for_gradient_calculation = 2;
  has_enough_reliable_rtt = true;
}

-- No reliable round trip.
unfoldable pub unmeasured : MonitorInterval ℤ
unfolding new_interval
unmeasured = record (new_interval 800000 true (pos 100) (pos 20000)) {
  first_packet_sent_time = pos 1000;
  last_packet_sent_time = pos 2000;
  bytes_sent = 3000;
  bytes_acked = 3000;
}

-- The slope, per packet.
slope : rtt_slope fixed (pos 2000) (pos 23000000) measured.packet_rtt_samples ≡ pos 3000000
unfolding rtt_slope sum_samples measured quotient times scaled div_ℤ ◌+ℤ◌ ◌-ℤ◌ ◌*ℤ◌ new_interval
slope = refl

unfoldable pub bounded : UtilityManager ℤ (ManagerStats ℤ)
unfolding configured
bounded = configured fixed zeros hybrid (pos 5000 ∷ [])

reads_enough : parameters_read bounded.utility_tag ≤ length bounded.utility_parameters
unfolding bounded configured parameters_read new_utility_manager
reads_enough = omega arith

unfoldable pub unbounded : UtilityManager ℤ (ManagerStats ℤ)
unfolding configured
unbounded = configured fixed zeros scavenger []

measured_valid : has_invalid_utility measured ≡ false
unfolding has_invalid_utility measured new_interval
measured_valid = refl

reads_too_many : length unbounded.utility_parameters < parameters_read unbounded.utility_tag
unfolding unbounded configured parameters_read new_utility_manager
reads_too_many = omega arith

calculate_checked-missing_example :
    calculate_checked fixed measured unbounded ≡ err utility_parameter
calculate_checked-missing_example =
    calculate_checked-missing fixed measured unbounded measured_valid reads_too_many

fails_in_sender :
    calculate_utility (pcc_utility fixed zeros) measured (pos 23000) unbounded
    ≡ err utility_parameter
fails_in_sender =
    calculate_utility-missing fixed zeros measured (pos 23000) unbounded measured_valid
      reads_too_many

abbrev three : List (MonitorInterval ℤ)
three = measured ∷ unmeasured ∷ measured ∷ []

calculate_all-HasLength_example :
    Returns UtilityFault
      (calculate_all fixed three (configured fixed zeros vivace []))
      (λ r. HasLength (min rtt_history_len (count_if adds_history three)) r.statistics)
calculate_all-HasLength_example = calculate_all-HasLength fixed zeros vivace [] three

none_below : IsBelowReset fixed (scaled (pos 0))
unfolding IsBelowReset trending_reset_interval_ratio scaled ◌*ℤ◌
none_below = refl

calculate_all-IsBelowReset_example :
    Returns UtilityFault
      (calculate_all fixed three (configured fixed zeros vivace []))
      (λ r. IsBelowReset fixed r.statistics.ratio_fluctuated_mi)
calculate_all-IsBelowReset_example =
    calculate_all-IsBelowReset fixed zeros vivace [] three none_below

abbrev fresh_stats : ManagerStats ℤ
fresh_stats = new_stats fixed zeros

prepare_statistics-is_steep_example :
    ((prepare_statistics fixed vivace measured fresh_stats).is_rtt_inflation_tolerable
        && is_steep fixed (prepare_statistics fixed vivace measured fresh_stats)
      ≡ false)
    × ((prepare_statistics fixed vivace measured fresh_stats).is_rtt_dev_tolerable
          && is_steep fixed (prepare_statistics fixed vivace measured fresh_stats)
        ≡ false)
prepare_statistics-is_steep_example = prepare_statistics-is_steep fixed vivace measured fresh_stats

few_reliable : unmeasured.num_reliable_rtt < 2
unfolding unmeasured new_interval
few_reliable = omega arith

few_for_gradient : unmeasured.num_reliable_rtt_for_gradient_calculation < 2
unfolding unmeasured new_interval
few_for_gradient = omega arith

none_steep : ltb_ℤ (literal 0 0) (abs (scaled (pos 0))) ≡ false
unfolding scaled abs ◌*ℤ◌
none_steep = refl

prepare_statistics-few_example :
    (prepare_statistics fixed vivace unmeasured fresh_stats ≡ record fresh_stats {
      interval_stats = (prepare_statistics fixed vivace unmeasured fresh_stats).interval_stats;
      is_rtt_inflation_tolerable = true;
      is_rtt_dev_tolerable = true;
    })
    × (tolerated_gradient fixed unmeasured (prepare_statistics fixed vivace unmeasured fresh_stats)
        ≡ literal 0 0)
prepare_statistics-few_example =
    prepare_statistics-few fixed vivace unmeasured fresh_stats few_reliable few_for_gradient
      none_steep

one_parameter : 0 < length bounded.utility_parameters
unfolding bounded configured new_utility_manager
one_parameter = omega arith

get_utility_parameter-apply_settings_example :
    get_utility_parameter
      (pos 0)
      (apply_settings (parameter_set (pos 7000) ∷ tag_set scavenger ∷ []) bounded)
      0
    ≡ get_utility_parameter (pos 0) bounded 0
get_utility_parameter-apply_settings_example =
    get_utility_parameter-apply_settings (parameter_set (pos 7000) ∷ tag_set scavenger ∷ []) bounded
      0 (pos 0) one_parameter
