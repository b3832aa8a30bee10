-- ===== src/Tests/Connections.antt =====
-- A connection of pcc/pcc_sender.cpp on concrete input: packets are sent and acknowledged, the
-- first interval is useless for want of an RTT, the second one useful.
use pcc_uspace.Base.{ℕ, true, ◌≡◌, refl, List, [], ◌∷◌, arith, All}
use pcc_uspace.Base.Int.{pos, negsuc}
use pcc_uspace.Base.Result.{Result, ok, Returns, NoFault}
use pcc_uspace.Quic.{AckedPacket}
use pcc_uspace.Quic.Bandwidth.{from_bytes_and_time_delta}
use pcc_uspace.IntervalQueue.Defs.{empty, size, on_packet_sent, enqueue_new_monitor_interval}
use pcc_uspace.IntervalQueue.Updates.{Unsettled}
use pcc_uspace.Sender.State.{vivace}
use pcc_uspace.Sender.Rtt.{check_for_rtt_inflation}
use pcc_uspace.Sender.Decisions.{RatesEqual}
use pcc_uspace.Sender.Events.{Connection, send_packet, receive_feedback, can_send}
use pcc_uspace.Sender.Soundness.{IsSound}
use pcc_uspace.Sender.Sending.{send_packet-IsSound}
use pcc_uspace.Sender.Feedback.{Advanced, receive_feedback-Advanced}
use pcc_uspace.Sender.Runs.{Run, new_connection, Run-IsSound}
use pcc_uspace.Tests.Fixed.{rounded, times, scaled, quotient, fixed, share, fixed-RoundsWell}

unfoldable pub fresh : Connection fixed share
unfolding new_connection
fresh = new_connection fixed share vivace (negsuc 999) (pos 0) tt 10 100

abbrev after : Result (Connection fixed share) → Connection fixed share → Connection fixed share
after (ok c) d = c
after _ d = d

abbrev ack_of : ℕ → List AckedPacket
ack_of n = record { packet_number = n; bytes_acked = 1000; receive_timestamp = pos 0 } ∷ []

unfoldable pub one_sent : Connection fixed share
unfolding fresh send_packet empty size on_packet_sent enqueue_new_monitor_interval
    check_for_rtt_inflation from_bytes_and_time_delta rounded times scaled quotient
one_sent = after (send_packet fixed share 1 (pos 1000) 1 1000 fresh) fresh

unfoldable pub one_acked : Connection fixed share
unfolding one_sent receive_feedback empty size on_packet_sent enqueue_new_monitor_interval
    check_for_rtt_inflation from_bytes_and_time_delta rounded times scaled quotient
one_acked =
    after (receive_feedback fixed share true (pos 20000) (pos 21000) (ack_of 1) [] one_sent) fresh

unfoldable pub two_sent : Connection fixed share
unfolding one_acked send_packet empty size on_packet_sent enqueue_new_monitor_interval
    check_for_rtt_inflation from_bytes_and_time_delta rounded times scaled quotient
two_sent = after (send_packet fixed share 1 (pos 22000) 2 1000 one_acked) fresh

useful_of_two : two_sent.0.num_useful_intervals ≡ 1
unfolding two_sent
useful_of_two = refl

rtt_of_one : one_acked.1.avg_rtt ≡ pos 20000
unfolding one_acked
rtt_of_one = refl

-- The first RTT of 20 ms instead of 100 ms makes the rate five times as high.
rate_of_one : one_acked.1.sending_rate ≡ 5600000
unfolding one_acked
rate_of_one = refl

can_send_two : can_send fixed share two_sent ≡ true
unfolding two_sent can_send
can_send_two = refl

one_sent-Run : Run fixed share one_sent
unfolding one_sent fresh
one_sent-Run =
    Run.packet 1 (pos 1000) 1 1000 fresh one_sent (Run.opened vivace (negsuc 999) (pos 0) tt 10 100)
      (omega arith) (omega arith) tt refl

one_acked-Run : Run fixed share one_acked
unfolding one_acked
one_acked-Run =
    Run.feedback true (pos 20000) (pos 21000) (ack_of 1) [] one_sent one_acked one_sent-Run refl
      refl

room_of_one : All (Unsettled 1000) one_acked.0.monitor_intervals
unfolding one_acked
room_of_one = ((omega arith, omega arith), tt)

two_sent-Run : Run fixed share two_sent
unfolding two_sent
two_sent-Run =
    Run.packet 1 (pos 22000) 2 1000 one_acked two_sent one_acked-Run (omega arith) (omega arith)
      room_of_one refl

Run-IsSound_example :
    IsSound fixed share two_sent
    × Returns RatesEqual
        (receive_feedback fixed share true (pos 25000) (pos 47000) (ack_of 2) [] two_sent)
        (Advanced fixed share two_sent)
Run-IsSound_example =
    Run-IsSound fixed share fixed-RoundsWell two_sent two_sent-Run true (pos 25000) (pos 47000)
      (ack_of 2) [] refl

two_sent-IsSound : IsSound fixed share two_sent
two_sent-IsSound =
    (Run-IsSound fixed share fixed-RoundsWell two_sent two_sent-Run true (pos 0) (pos 0) [] []
      refl).0

one_acked-IsSound : IsSound fixed share one_acked
one_acked-IsSound =
    (Run-IsSound fixed share fixed-RoundsWell one_acked one_acked-Run true (pos 0) (pos 0) [] []
      refl).0

receive_feedback-Advanced_example :
    Returns RatesEqual
      (receive_feedback fixed share true (pos 25000) (pos 47000) (ack_of 2) [] two_sent)
      (Advanced fixed share two_sent)
receive_feedback-Advanced_example =
    receive_feedback-Advanced fixed share fixed-RoundsWell true (pos 25000) (pos 47000) (ack_of 2)
      [] two_sent refl two_sent-IsSound

send_packet-IsSound_example :
    Returns NoFault
      (send_packet fixed share 1 (pos 22000) 2 1000 one_acked)
      (λ c'. IsSound fixed share c' × (c'.1.mode ≡ one_acked.1.mode))
send_packet-IsSound_example =
    send_packet-IsSound fixed share NoFault 1 (pos 22000) 2 1000 one_acked (omega arith)
      (omega arith) one_acked-IsSound room_of_one
