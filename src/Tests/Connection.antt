-- ===== src/Tests/Connection.antt =====
-- core/core.cpp: a connection that queues two packets, sends both and hears of them, under a
-- controller that always agrees.
use mathlib.Core.Path.{subst}
use pcc_uspace.Tracker.Maps.{find}
use pcc_uspace.Tracker.Record.{PacketRecord, find_message}
use pcc_uspace.Base.{ℕ, ◌+◌, ◌*◌, Option, true, ◌≡◌, refl, [], ◌∷◌, none, some, arith}
use pcc_uspace.Base.Int.{pos, ◌+ℤ◌, ◌-ℤ◌}
use pcc_uspace.Base.Result.{
  Fault, Result, ok, err, Returns, NoFault, null_min_seq, no_message_record,
}
use pcc_uspace.Tracker.Defs.{new_tracker, enqueue_packet, on_sent}
use pcc_uspace.Tracker.Reads.{
  get_payload, get_last_msg_no, get_packet_id, get_packet_size, drop_unrecorded, purge_sendable,
  purge_retransmittable, has_sendable_packets, get_lowest_sendable_seq_no,
  has_retransmittable_packets, get_lowest_retransmittable_seq_no,
}
use pcc_uspace.SeqNo.{incseq, inc}
use pcc_uspace.SndBuffer.Blocks.{new_snd_buffer}
use pcc_uspace.Core.Controller.{Controller}
use pcc_uspace.Core.Sending.{Cudt, Clocks, OutPacket, queue_packet, schedule_next, pack_data}
use pcc_uspace.Core.Acks.{process_ack}
use pcc_uspace.Core.Choice.{IsLive}
use pcc_uspace.Core.Packing.{Packed}
use pcc_uspace.Core.Hearing.{process_ack-IsLive}
use pcc_uspace.Core.LastAck.{process_ack-last}
use pcc_uspace.Core.Runs.{Run, Run-IsLive, Run-Packed}
use pcc_uspace.Tracker.Life.{AnyFault}
use pcc_uspace.Core.Acks.{detect_losses}
use pcc_uspace.Core.Settled.{Settled, detect_losses-Settled}
use pcc_uspace.Tracker.Times.{IsTimed}
use pcc_uspace.Base.{length}
use pcc_uspace.Tests.Fixed.{fixed, times, quotient, scaled, truncated}
use pcc_uspace.Core.Sending.{schedule_next, get_sending_interval}
use pcc_uspace.Quic.Bandwidth.{to_u64}
use pcc_uspace.Quic.Time.{div_ℤ}
use pcc_uspace.Base.Int.{◌*ℤ◌}

abbrev agreeing : Controller
agreeing = record {
  State = ℕ;
  can_send = λ bytes n. true;
  on_packet_sent = λ random t id bytes n. ok (n + 1);
  on_congestion_event = λ updated rtt t acked lost n. ok n;
  pacing_rate = λ n. ok 1000;
}

abbrev at_time : ℕ → Clocks
at_time t = record { cycles = t; micros = t; monotonic = record { tv_sec = 1; tv_nsec = t * 1000 } }

unfoldable fresh_connection : Cudt fixed ℕ
fresh_connection = record {
  sender = 0;
  tracker = new_tracker;
  snd_buffer = new_snd_buffer 4 3;
  bytes_in_flight = pos 0;
  snd_curr_seq_no = 6;
  snd_last_data_ack = 7;
  syn_sending = true;
  rtt = pos 0;
  rtt_var = pos 0;
  target_time = 0;
  time_diff = pos 0;
  cpu_frequency = 1;
  mss = 1;
  start_time = 0;
  peer_id = pos 5;
  total_bytes = 0;
  sent_total = 0;
  trace_sent = 0;
  retrans_total = 0;
  trace_retrans = 0;
  recv_ack = 0;
  recv_ack_total = 0;
  snd_loss_total = 0;
  send_signals = 0;
}

-- The state behind a call, where it succeeds.
abbrev left_by : {A : Type 0} → A → Result A → A
left_by d (ok a) = a
left_by d (err e) = d

unfoldable one_queued : Cudt fixed ℕ
unfolding fresh_connection queue_packet
one_queued =
    left_by fresh_connection (queue_packet fixed agreeing (1 ∷ 2 ∷ 3 ∷ []) fresh_connection)

one_queued-result : queue_packet fixed agreeing (1 ∷ 2 ∷ 3 ∷ []) fresh_connection ≡ ok one_queued
unfolding one_queued new_tracker enqueue_packet incseq inc
one_queued-result = refl

one_queued-Run : Run fixed agreeing one_queued
unfolding one_queued new_tracker enqueue_packet incseq inc
one_queued-Run =
    Run.queued (1 ∷ 2 ∷ 3 ∷ []) fresh_connection one_queued (Run.opened fresh_connection refl)
      (omega arith) (refl, tt) one_queued-result

Run-Packed_example : Returns NoFault (pack_data fixed agreeing 0 (at_time 50) 40 one_queued) (λ x.
    IsLive x.1.tracker
    × Packed one_queued.tracker one_queued.bytes_in_flight x.1.bytes_in_flight x.0.0)
Run-Packed_example =
    Run-Packed fixed agreeing NoFault (λ random t id bytes s. tt) (λ s. tt) one_queued
      one_queued-Run 0 (at_time 50) 40

-- The state behind the packet's sending.
unfoldable one_sent : Cudt fixed ℕ
unfolding one_queued pack_data
one_sent = elim (pack_data fixed agreeing 0 (at_time 50) 40 one_queued) [
  | ok (out, s) ↦ s
  | err e ↦ one_queued
]

-- What the packet is, and when the next one goes.
abbrev first_out : Option OutPacket × ℕ
first_out = (
  some (record { seq_no = 7; msg_no = 1; payload = 1 ∷ 2 ∷ 3 ∷ []; time_stamp = 50; id = pos 5 }),
  8050,
)

one_sent-result : pack_data fixed agreeing 0 (at_time 50) 40 one_queued ≡ ok (first_out, one_sent)
unfolding one_sent new_tracker enqueue_packet incseq inc pack_data drop_unrecorded purge_sendable
    purge_retransmittable has_sendable_packets get_lowest_sendable_seq_no
    has_retransmittable_packets get_lowest_retransmittable_seq_no get_payload get_last_msg_no
    on_sent get_packet_id get_packet_size schedule_next get_sending_interval times quotient scaled
    truncated div_ℤ ◌*ℤ◌ ◌+ℤ◌ ◌-ℤ◌ to_u64
one_sent-result = refl

one_sent-Run : Run fixed agreeing one_sent
one_sent-Run =
    Run.packed 0 (at_time 50) 40 one_queued one_sent first_out one_queued-Run one_sent-result

abbrev Expected : Fault → Type 0
Expected no_message_record = Unit
Expected _ = ⊥

-- The only fault that an acknowledgement of the one packet may meet.
abbrev Emptied : Fault → Type 0
Emptied null_min_seq = Unit
Emptied _ = ⊥

one_sent-recorded :
    (r : PacketRecord)
    → find 7 one_sent.tracker.packet_record_map ≡ some r
    → Returns NoFault (find_message 1 r.msg_records) (λ g. Unit {0})
unfolding one_sent new_tracker enqueue_packet incseq inc pack_data drop_unrecorded purge_sendable
    purge_retransmittable has_sendable_packets get_lowest_sendable_seq_no
    has_retransmittable_packets get_lowest_retransmittable_seq_no get_payload get_last_msg_no
    on_sent get_packet_id get_packet_size truncated quotient scaled times find_message find
one_sent-recorded r f =
    subst
      (λ o. elim o as (λ z. Type 0) [
        | none ↦ Unit
        | some q ↦ Returns NoFault (find_message 1 q.msg_records) (λ g. Unit {0})
      ])
      f tt

process_ack-IsLive_example :
    Returns Emptied (process_ack fixed agreeing (at_time 90) 7 1 one_sent) (λ s. IsLive s.tracker)
process_ack-IsLive_example =
    process_ack-IsLive fixed agreeing Emptied (λ b d t a l s. tt) (at_time 90) 7 1 one_sent
      (omega arith) (Run-IsLive fixed agreeing one_sent one_sent-Run)
      (λ (r, f, e). subst (λ z. Returns NoFault z (λ g. Unit {0})) e (one_sent-recorded r f))
      (λ one last. tt)

process_ack-last_example :
    Returns AnyFault
      (process_ack fixed agreeing (at_time 90) 7 (get_last_msg_no 7 one_sent.tracker) one_sent)
      (λ s. ⊥)
unfolding one_sent new_tracker enqueue_packet incseq inc pack_data drop_unrecorded purge_sendable
    purge_retransmittable has_sendable_packets get_lowest_sendable_seq_no
    has_retransmittable_packets get_lowest_retransmittable_seq_no get_payload get_last_msg_no
    on_sent get_packet_id get_packet_size truncated quotient scaled times
process_ack-last_example =
    process_ack-last fixed agreeing (at_time 90) 7 one_sent
      (Run-IsLive fixed agreeing one_sent one_sent-Run).0 refl

-- The entry of the packet that was sent.
one_sent-IsTimed : IsTimed one_sent.tracker × (length one_sent.tracker.sent_time_map ≡ 1)
unfolding one_sent new_tracker enqueue_packet incseq inc pack_data drop_unrecorded purge_sendable
    purge_retransmittable has_sendable_packets get_lowest_sendable_seq_no
    has_retransmittable_packets get_lowest_retransmittable_seq_no get_payload get_last_msg_no
    on_sent get_packet_id get_packet_size truncated quotient scaled times
one_sent-IsTimed = (((_, refl, (_, refl, refl)), tt), refl)

detect_losses-Settled_example :
    Returns AnyFault
      (detect_losses fixed agreeing 2 (at_time 900) one_sent)
      (Settled fixed agreeing (at_time 900))
detect_losses-Settled_example =
    detect_losses-Settled fixed agreeing 2 (at_time 900) one_sent one_sent-IsTimed.0
      (omega (arith, one_sent-IsTimed.1))
