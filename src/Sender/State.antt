-- ===== src/Sender/State.antt =====
-- The state of a sender: the members of `PccSender` and `PccVivaceSender`, but for the interval
-- queue, which the operations take beside it. `F` is the type `float`, `S` the statistics of the
-- utility manager.
use pcc_uspace.Base.{ℕ, Bool, true, false, ◌*◌, ◌%◌, if◌then◌else◌}
use pcc_uspace.Base.Int.{pos}
use pcc_uspace.Quic.Time.{QuicTime, Delta, zero_time}
use pcc_uspace.Quic.Bandwidth.{
  QuicBandwidth, u64, zero_bandwidth, from_bytes_and_time_delta, from_kbits_per_second,
}
use pcc_uspace.Utility.{UtilityManager, new_utility_manager, is_scavenger}

pub data SenderMode : Type 0 where
  starting probing decision_made : SenderMode

pub data RateChangeDirection : Type 0 where
  increase decrease : RateChangeDirection

-- The class of the object, by which its virtual functions are chosen.
pub data Variant : Type 0 where
  pcc vivace : Variant

pub record UtilityInfo (F : Type 0) : Type 0 where
  pub sending_rate : QuicBandwidth
  pub utility : F

pub record Sender (F S : Type 0) : Type 0 where
  pub variant : Variant
  pub mode : SenderMode
  pub sending_rate : QuicBandwidth
  pub has_seen_valid_rtt : Bool
  pub latest_utility : F
  pub conn_start_time : QuicTime
  pub monitor_duration : Delta
  pub direction : RateChangeDirection
  pub rounds : ℕ
  pub rtt_on_inflation_start : Delta
  pub max_cwnd_bytes : ℕ
  pub rtt_deviation : Delta
  pub min_rtt_deviation : Delta
  pub latest_rtt : Delta
  pub min_rtt : Delta
  pub avg_rtt : Delta
  pub latest_sent_timestamp : QuicTime
  pub latest_ack_timestamp : QuicTime
  pub utility_manager : UtilityManager F S
  pub latest_utility_info : UtilityInfo F
  pub incremental_rate_change_step_allowance : ℕ

abbrev pub is_starting : SenderMode → Bool
is_starting starting = true
is_starting _ = false

abbrev pub is_probing : SenderMode → Bool
is_probing probing = true
is_probing _ = false

abbrev pub is_decision_made : SenderMode → Bool
is_decision_made decision_made = true
is_decision_made _ = false

abbrev pub is_increase : RateChangeDirection → Bool
is_increase increase = true
is_increase decrease = false

abbrev pub is_vivace : Variant → Bool
is_vivace vivace = true
is_vivace pcc = false

-- kInitialRtt, in microseconds, and kDefaultTCPMSS.
abbrev pub initial_rtt : Delta
initial_rtt = pos 100000

abbrev pub default_tcp_mss : ℕ
default_tcp_mss = 1400

-- kMinRateChange and kMinSendingRate.
abbrev pub min_rate_change : QuicBandwidth
min_rate_change = from_kbits_per_second 500

abbrev pub min_sending_rate : QuicBandwidth
min_sending_rate = from_kbits_per_second 500

module _ {F S : Type 0} where
  -- Both constructors; `zero_value` is the `float` 0.0.
  unfoldable pub new_sender : Variant → F → S → ℕ → ℕ → Sender F S
  unfolding new_utility_manager
  new_sender v zero_value statistics initial_window max_window = record {
    variant = v;
    mode = starting;
    sending_rate = from_bytes_and_time_delta (initial_window * default_tcp_mss % u64) initial_rtt;
    has_seen_valid_rtt = false;
    latest_utility = zero_value;
    conn_start_time = zero_time;
    monitor_duration = zero_time;
    direction = increase;
    rounds = 1;
    rtt_on_inflation_start = zero_time;
    max_cwnd_bytes = max_window * default_tcp_mss % u64;
    rtt_deviation = zero_time;
    min_rtt_deviation = zero_time;
    latest_rtt = zero_time;
    min_rtt = zero_time;
    avg_rtt = zero_time;
    latest_sent_timestamp = zero_time;
    latest_ack_timestamp = zero_time;
    utility_manager = new_utility_manager statistics;
    latest_utility_info = record { sending_rate = zero_bandwidth; utility = zero_value };
    incremental_rate_change_step_allowance = 0;
  }

  unfoldable pub num_interval_groups_in_probing : Sender F S → ℕ
  num_interval_groups_in_probing s =
      if is_scavenger s.utility_manager.effective_utility_tag then 2 else 3
