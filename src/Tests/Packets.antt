-- ===== src/Tests/Packets.antt =====
-- A `PacketTracker` of core/packet_tracker.h: two packets are enqueued, sent, and one is
-- acknowledged and deleted, the other lost.
use pcc_uspace.Base.{ℕ, true, ◌≡◌, ◌≤◌, refl, inl, inr, [], ◌∷◌, arith}
use pcc_uspace.Base.Result.{Result, ok, ◌>>=◌, Returns, NoFault}
use pcc_uspace.Tracker.Maps.{contains, Keys}
use pcc_uspace.Tracker.Record.{Timespec, Packet}
use pcc_uspace.Tracker.Defs.{
  PacketTracker, new_tracker, enqueue_packet, on_sent, on_ack, on_loss, delete_packet_record,
  get_min_seq_no,
}
use pcc_uspace.Tracker.Reads.{
  get_packet_rtt, get_packet_id, has_sendable_packets, get_lowest_sendable_seq_no,
  has_retransmittable_packets, get_lowest_retransmittable_seq_no,
}
use pcc_uspace.Tracker.Queues.{In}
use pcc_uspace.Tracker.Life.{IsTracked}
use pcc_uspace.Tracker.Runs.{
  Reached, Reached-IsTracked, Reached-get_min_seq_no, Reached-get_lowest_sendable,
  Reached-get_lowest_retransmittable,
}

abbrev first_packet : Packet
first_packet = record { seq_no = 7; msg_no = 1; payload = 10 ∷ 20 ∷ [] }

abbrev second_packet : Packet
second_packet = record { seq_no = 4; msg_no = 2; payload = 30 ∷ [] }

abbrev at_second : ℕ → Timespec
at_second s = record { tv_sec = s; tv_nsec = 500 }

-- What a run leaves that fails in no way, or a new tracker.
abbrev after : Result PacketTracker → PacketTracker
after (ok t) = t
after _ = new_tracker

unfoldable pub one_packet : PacketTracker
unfolding enqueue_packet new_tracker
one_packet = after (enqueue_packet first_packet new_tracker)

unfoldable pub two_packets : PacketTracker
unfolding one_packet enqueue_packet
two_packets = after (enqueue_packet second_packet one_packet)

-- The lower one of the two is sent and lost.
unfoldable pub one_sent : PacketTracker
unfolding two_packets on_sent
one_sent = after (on_sent second_packet (at_second 3) two_packets)

unfoldable pub one_lost : PacketTracker
unfolding one_sent on_loss
one_lost = after (on_loss 4 2 (at_second 5) one_sent)

one_packet-Reached : Reached one_packet
unfolding one_packet
one_packet-Reached =
    Reached.enqueued first_packet new_tracker one_packet Reached.started (omega arith) refl

two_packets-Reached : Reached two_packets
unfolding two_packets
two_packets-Reached =
    Reached.enqueued second_packet one_packet two_packets one_packet-Reached (omega arith) refl

one_sent-Reached : Reached one_sent
unfolding one_sent
one_sent-Reached =
    Reached.transmitted second_packet (at_second 3) two_packets one_sent two_packets-Reached refl

one_lost-Reached : Reached one_lost
unfolding one_lost
one_lost-Reached = Reached.missed 4 2 (at_second 5) one_sent one_lost one_sent-Reached refl

-- An acknowledgement two seconds after the packet was sent sets its RTT.
rtt_of_ack : (on_ack 4 2 (at_second 5) one_sent >>= get_packet_rtt 4 2) ≡ ok 2000000
unfolding one_sent on_ack get_packet_rtt
rtt_of_ack = refl

first_id : get_packet_id 4 2 one_sent ≡ ok 1
unfolding one_sent get_packet_id
first_id = refl

least_of_two : get_min_seq_no two_packets ≡ ok 4
unfolding two_packets get_min_seq_no
least_of_two = refl

Reached-IsTracked_example : IsTracked one_lost
Reached-IsTracked_example = Reached-IsTracked one_lost one_lost-Reached

lower_recorded : contains 4 two_packets.packet_record_map ≡ true
unfolding two_packets contains
lower_recorded = refl

Reached-get_min_seq_no_example :
    Returns NoFault (delete_packet_record 4 two_packets) (λ r. IsTracked r.1)
    × Returns NoFault (get_min_seq_no two_packets) (λ k.
      (contains k two_packets.packet_record_map ≡ true)
      × Keys (λ j. k ≤ j) two_packets.packet_record_map)
Reached-get_min_seq_no_example =
    Reached-get_min_seq_no two_packets 4 two_packets-Reached lower_recorded

first_queued : In 7 two_packets.send_queue
unfolding two_packets
first_queued = inr (inl refl)

first_recorded : contains 7 two_packets.packet_record_map ≡ true
unfolding two_packets contains
first_recorded = refl

Reached-get_lowest_sendable_example :
    ((has_sendable_packets two_packets).0 ≡ true)
    × (contains (get_lowest_sendable_seq_no two_packets).0 two_packets.packet_record_map ≡ true)
    × ((get_lowest_sendable_seq_no two_packets).0 ≤ 7)
    × Reached (get_lowest_sendable_seq_no two_packets).1
Reached-get_lowest_sendable_example =
    Reached-get_lowest_sendable two_packets 7 two_packets-Reached first_queued first_recorded

lost_queued : In 4 one_lost.retransmittable_queue
unfolding one_lost
lost_queued = inl refl

lost_recorded : contains 4 one_lost.packet_record_map ≡ true
unfolding one_lost contains
lost_recorded = refl

Reached-get_lowest_retransmittable_example :
    ((has_retransmittable_packets one_lost).0 ≡ true)
    × (contains (get_lowest_retransmittable_seq_no one_lost).0 one_lost.packet_record_map ≡ true)
    × ((get_lowest_retransmittable_seq_no one_lost).0 ≤ 4)
    × Reached (get_lowest_retransmittable_seq_no one_lost).1
Reached-get_lowest_retransmittable_example =
    Reached-get_lowest_retransmittable one_lost 4 one_lost-Reached lost_queued lost_recorded
