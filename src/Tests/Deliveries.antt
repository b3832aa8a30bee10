-- ===== src/Tests/Deliveries.antt =====
-- The interval queue of pcc/pcc_monitor_interval_queue.cpp on concrete input: one useful interval
-- whose last packets are acknowledged, with a delegate that counts its calls.
use pcc_uspace.Base.{ℕ, true, ◌≡◌, ◌<◌, refl, List, [], ◌∷◌, arith, suc}
use pcc_uspace.Base.Int.{ℤ, pos}
use pcc_uspace.Base.Result.{Result, ok, ◌>>=◌, Returns, NoFault}
use pcc_uspace.Quic.Time.{QuicTime}
use pcc_uspace.IntervalQueue.Defs.{
  MonitorInterval, IntervalQueue, new_interval, new_queue, is_utility_available,
  has_invalid_utility, interval_contains_packet,
}
use pcc_uspace.IntervalQueue.Event.{CongestionEvent, on_congestion_event}
use pcc_uspace.IntervalQueue.Counts.{IsCounted}
use pcc_uspace.IntervalQueue.Delivery.{Concluded, on_congestion_event-Concluded}
use pcc_uspace.Tests.Fixed.{fixed, times, scaled, quotient}

-- An interval of two packets, 1 ms apart, one of them acknowledged, with its four RTT samples.
unfoldable pub waiting_interval : MonitorInterval ℤ
unfolding new_interval
waiting_interval = record (new_interval 800000 true (pos 100) (pos 20000)) {
  first_packet_sent_time = pos 1000;
  last_packet_sent_time = pos 2000;
  first_packet_number = 1;
  last_packet_number = 2;
  bytes_sent = 2000;
  bytes_acked = 1000;
  has_enough_reliable_rtt = true;
}

unfoldable pub waiting_queue : IntervalQueue ℤ
unfolding new_queue waiting_interval
waiting_queue = record (new_queue (pos 0)) {
  monitor_intervals = waiting_interval ∷ [];
  num_useful_intervals = 1;
  pending_acked_packets =
      record { packet_number = 2; bytes_acked = 1000; receive_timestamp = pos 0 } ∷ [];
  pending_rtt = pos 20000;
  pending_avg_rtt = pos 20000;
  pending_ack_interval = pos 1000;
  pending_event_time = pos 22000;
}

abbrev event : CongestionEvent
event = record {
  acked_packets = record { packet_number = 3; bytes_acked = 1000; receive_timestamp = pos 0 } ∷ [];
  lost_packets = [];
  avg_rtt = pos 20000;
  latest_rtt = pos 20000;
  min_rtt = pos 20000;
  event_time = pos 23000;
  ack_interval = pos 1000;
}

abbrev count_calls : IntervalQueue ℤ → List (MonitorInterval ℤ) → QuicTime → ℕ → Result ℕ
count_calls q useful t n = ok (suc n)

waiting_queue-IsCounted : IsCounted waiting_queue
unfolding waiting_queue waiting_interval is_utility_available has_invalid_utility
waiting_queue-IsCounted = record { counted = refl; timed = ((λ u a. refl), tt) }

-- The delegate is called once.
calls : (on_congestion_event fixed count_calls event waiting_queue 0 >>= λ r. ok r.1) ≡ ok 1
unfolding waiting_queue waiting_interval on_congestion_event is_utility_available
    interval_contains_packet times scaled quotient has_invalid_utility
calls = refl

on_congestion_event-Concluded_example :
    Returns NoFault
      (on_congestion_event fixed count_calls event waiting_queue 0)
      (Concluded fixed count_calls NoFault (λ n. 0 < n) event waiting_queue 0)
on_congestion_event-Concluded_example =
    on_congestion_event-Concluded fixed count_calls NoFault (λ n. 0 < n) event waiting_queue 0
      waiting_queue-IsCounted (λ q' useful n d. omega arith)
