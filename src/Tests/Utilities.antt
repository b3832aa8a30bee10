-- ===== src/Tests/Utilities.antt =====
-- pcc/pcc_vivace_sender.cpp: a Vivace sender in STARTING gets the utility of its one useful interval.
use pcc_uspace.Base.{true, ◌≤◌, refl, [], ◌∷◌, arith}
use pcc_uspace.Base.Int.{ℤ, pos}
use pcc_uspace.Base.Result.{Returns}
use pcc_uspace.IntervalQueue.Defs.{
  MonitorInterval, IntervalQueue, new_interval, new_queue, is_utility_available,
  has_invalid_utility,
}
use pcc_uspace.IntervalQueue.Delivery.{IsDelivery}
use pcc_uspace.Utility.{settings, Provided}
use pcc_uspace.Sender.State.{Sender, new_sender, vivace}
use pcc_uspace.Sender.Decisions.{RatesEqual, Moved}
use pcc_uspace.Sender.Events.{on_utility_available, max_num_useful}
use pcc_uspace.Sender.Soundness.{on_utility_available-Moved}
use pcc_uspace.Tests.Fixed.{fixed, share}

unfoldable pub settled_interval : MonitorInterval ℤ
unfolding new_interval
settled_interval = record (new_interval 800000 true (pos 100) (pos 20000)) {
  first_packet_sent_time = pos 1000;
  last_packet_sent_time = pos 2000;
  first_packet_number = 1;
  last_packet_number = 2;
  bytes_sent = 2000;
  bytes_acked = 1500;
  bytes_lost = 500;
  has_enough_reliable_rtt = true;
}

unfoldable pub settled_queue : IntervalQueue ℤ
unfolding new_queue settled_interval
settled_queue = record (new_queue (pos 0)) {
  monitor_intervals = settled_interval ∷ [];
  num_useful_intervals = 1;
  num_available_intervals = 1;
}

unfoldable pub beginner : Sender ℤ (Unit {0})
unfolding new_sender
beginner = new_sender vivace (pos 0) tt 10 100

within_bound : settled_queue.num_useful_intervals ≤ max_num_useful fixed share beginner
unfolding settled_queue beginner max_num_useful
within_bound = omega arith

beginner-Provided : Provided share (settings beginner.utility_manager)
unfolding beginner
beginner-Provided = omega arith

settled-IsDelivery : IsDelivery fixed settled_queue (settled_interval ∷ [])
unfolding settled_queue settled_interval is_utility_available has_invalid_utility
settled-IsDelivery = record {
  all_useful = refl;
  counted = refl;
  some_useful = omega arith;
  settled = ((refl, λ u a. refl), tt);
}

on_utility_available-Moved_example :
    Returns RatesEqual
      (on_utility_available fixed share settled_queue (settled_interval ∷ []) (pos 23000) beginner)
      (Moved fixed share beginner)
on_utility_available-Moved_example =
    on_utility_available-Moved fixed share settled_queue (settled_interval ∷ []) (pos 23000)
      beginner beginner-Provided within_bound settled-IsDelivery
