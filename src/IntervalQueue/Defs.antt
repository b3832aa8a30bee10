-- ===== src/IntervalQueue/Defs.antt =====
-- The monitor interval and its queue: the structs of pcc_monitor_interval_queue.h, and every
-- operation of the queue but `OnCongestionEvent`. `F` is the type `float`.
use pcc_uspace.Base.{
  ℕ, Bool, true, false, ◌+◌, ◌%◌, ◌&&◌, List, [], ◌∷◌, ◌++◌, leb, ◌==◌, if◌then◌else◌, length,
}
use pcc_uspace.Base.Result.{Result, ok, err, front_of_empty, back_of_empty}
use pcc_uspace.Quic.{AckedPacket}
use pcc_uspace.Quic.Time.{QuicTime, Delta, zero_time, time_eq}
use pcc_uspace.Quic.Bandwidth.{QuicBandwidth, u64}

pub record PacketRttSample : Type 0 where
  pub packet_number : ℕ
  pub sample_rtt : Delta
  pub ack_timestamp : QuicTime
  pub is_reliable : Bool
  pub is_reliable_for_gradient_calculation : Bool

pub record LostPacketSample : Type 0 where
  pub packet_number : ℕ
  pub bytes : ℕ

pub record MonitorInterval (F : Type 0) : Type 0 where
  pub sending_rate : QuicBandwidth
  pub is_useful : Bool
  pub rtt_fluctuation_tolerance_ratio : F
  pub first_packet_sent_time : QuicTime
  pub last_packet_sent_time : QuicTime
  pub first_packet_number : ℕ
  pub last_packet_number : ℕ
  pub bytes_sent : ℕ
  pub bytes_acked : ℕ
  pub bytes_lost : ℕ
  pub rtt_on_monitor_start : Delta
  pub rtt_on_monitor_end : Delta
  pub min_rtt : Delta
  pub packet_sent_intervals : List Delta
  pub packet_rtt_samples : List PacketRttSample
  pub lost_packet_samples : List LostPacketSample
  pub num_reliable_rtt : ℕ
  pub num_reliable_rtt_for_gradient_calculation : ℕ
  pub has_enough_reliable_rtt : Bool
  pub is_monitor_duration_extended : Bool

-- The number of reliable samples that an interval wants.
abbrev pub min_reliable_rtt : ℕ
min_reliable_rtt = 4

-- The queue, without the pointer to its delegate, which is an argument of `on_congestion_event`.
pub record IntervalQueue (F : Type 0) : Type 0 where
  pub monitor_intervals : List (MonitorInterval F)
  pub pending_acked_packets : List AckedPacket
  pub pending_rtt : Delta
  pub pending_avg_rtt : Delta
  pub pending_ack_interval : Delta
  pub pending_event_time : QuicTime
  pub burst_flag : Bool
  pub avg_interval_ratio : F
  pub num_useful_intervals : ℕ
  pub num_available_intervals : ℕ

module _ {F : Type 0} where
  unfoldable pub new_interval : QuicBandwidth → Bool → F → Delta → MonitorInterval F
  new_interval rate useful ratio rtt = record {
    sending_rate = rate;
    is_useful = useful;
    rtt_fluctuation_tolerance_ratio = ratio;
    first_packet_sent_time = zero_time;
    last_packet_sent_time = zero_time;
    first_packet_number = 0;
    last_packet_number = 0;
    bytes_sent = 0;
    bytes_acked = 0;
    bytes_lost = 0;
    rtt_on_monitor_start = rtt;
    rtt_on_monitor_end = rtt;
    min_rtt = rtt;
    packet_sent_intervals = [];
    packet_rtt_samples = [];
    lost_packet_samples = [];
    num_reliable_rtt = 0;
    num_reliable_rtt_for_gradient_calculation = 0;
    has_enough_reliable_rtt = false;
    is_monitor_duration_extended = false;
  }

  -- The constructor; its argument is the `float` -1.0.
  unfoldable pub new_queue : F → IntervalQueue F
  new_queue minus_one = record {
    monitor_intervals = [];
    pending_acked_packets = [];
    pending_rtt = zero_time;
    pending_avg_rtt = zero_time;
    pending_ack_interval = zero_time;
    pending_event_time = zero_time;
    burst_flag = false;
    avg_interval_ratio = minus_one;
    num_useful_intervals = 0;
    num_available_intervals = 0;
  }

  unfoldable pub enqueue_new_monitor_interval :
      QuicBandwidth → Bool → F → Delta → IntervalQueue F → IntervalQueue F
  unfolding new_interval
  enqueue_new_monitor_interval rate useful ratio rtt q = record q {
    num_useful_intervals = if useful then q.num_useful_intervals + 1 else q.num_useful_intervals;
    monitor_intervals = q.monitor_intervals ++ (new_interval rate useful ratio rtt ∷ []);
  }

  -- The last interval of the queue, changed by a function.
  unfoldable pub update_back :
      (MonitorInterval F → MonitorInterval F) → List (MonitorInterval F) → List (MonitorInterval F)
  update_back f [] = []
  update_back f (i ∷ []) = f i ∷ []
  update_back f (i ∷ j ∷ l) = i ∷ update_back f (j ∷ l)

  unfoldable pub record_sent : QuicTime → ℕ → ℕ → Delta → MonitorInterval F → MonitorInterval F
  record_sent sent_time number bytes interval i = record i {
    first_packet_sent_time = if i.bytes_sent == 0 then sent_time else i.first_packet_sent_time;
    first_packet_number = if i.bytes_sent == 0 then number else i.first_packet_number;
    last_packet_sent_time = sent_time;
    last_packet_number = number;
    bytes_sent = (i.bytes_sent + bytes) % u64;
    packet_sent_intervals = i.packet_sent_intervals ++ (interval ∷ []);
  }

  -- On an empty queue the code logs the error and returns.
  unfoldable pub on_packet_sent : QuicTime → ℕ → ℕ → Delta → IntervalQueue F → IntervalQueue F
  unfolding update_back record_sent
  on_packet_sent sent_time number bytes interval q = record q {
    monitor_intervals =
        update_back (record_sent sent_time number bytes interval) q.monitor_intervals;
  }

  unfoldable pub last_of : List (MonitorInterval F) → Result (MonitorInterval F)
  last_of [] = err back_of_empty
  last_of (i ∷ []) = ok i
  last_of (i ∷ j ∷ l) = last_of (j ∷ l)

  unfoldable pub first_of_list : List (MonitorInterval F) → Result (MonitorInterval F)
  first_of_list [] = err front_of_empty
  first_of_list (i ∷ l) = ok i

  unfoldable pub front : IntervalQueue F → Result (MonitorInterval F)
  unfolding first_of_list
  front q = first_of_list q.monitor_intervals

  unfoldable pub current : IntervalQueue F → Result (MonitorInterval F)
  unfolding last_of
  current q = last_of q.monitor_intervals

  unfoldable pub is_empty : List (MonitorInterval F) → Bool
  is_empty [] = true
  is_empty (i ∷ l) = false

  unfoldable pub empty : IntervalQueue F → Bool
  unfolding is_empty
  empty q = is_empty q.monitor_intervals

  unfoldable pub size : IntervalQueue F → ℕ
  size q = length q.monitor_intervals

  unfoldable pub extend_current_interval : IntervalQueue F → Result (IntervalQueue F)
  unfolding is_empty update_back
  extend_current_interval q =
      if is_empty q.monitor_intervals
      then err back_of_empty
      else ok (record q {
        monitor_intervals =
            update_back (λ i. record i { is_monitor_duration_extended = true }) q.monitor_intervals;
      })

  unfoldable pub on_rtt_inflation_in_starting : IntervalQueue F → IntervalQueue F
  on_rtt_inflation_in_starting q = record q {
    monitor_intervals = [];
    num_useful_intervals = 0;
    num_available_intervals = 0;
  }

  unfoldable pub is_utility_available : MonitorInterval F → Bool
  is_utility_available i =
      i.has_enough_reliable_rtt && (i.bytes_acked + i.bytes_lost) % u64 == i.bytes_sent

  unfoldable pub interval_contains_packet : MonitorInterval F → ℕ → Bool
  interval_contains_packet i n = leb i.first_packet_number n && leb n i.last_packet_number

  unfoldable pub has_invalid_utility : MonitorInterval F → Bool
  has_invalid_utility i = time_eq i.first_packet_sent_time i.last_packet_sent_time
