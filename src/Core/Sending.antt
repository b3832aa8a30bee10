-- ===== src/Core/Sending.antt =====
-- core/core.cpp: the members of `CUDT` that sending uses, `GetNextSeqNo` and `packData`, which holds
-- `pcc_sender_lock` where it uses them, and so is one step. Each clock is read once in a step, and
-- its value is an argument. Clock cycles are far below 2 ^ 63.
use pcc_uspace.Base.{
  ℕ, ◌+◌, ◌-◌, ◌*◌, ◌%◌, Bool, Option, none, some, List, length, ◌==◌, if◌then◌else◌,
}
use pcc_uspace.Base.Int.{ℤ, pos, ◌+ℤ◌, ◌-ℤ◌, ltb_ℤ}
use pcc_uspace.Base.Result.{Result, ok, ◌>>=◌}
use pcc_uspace.Quic.Bandwidth.{u64, to_u64, QuicBandwidth}
use pcc_uspace.SeqNo.{incseq}
use pcc_uspace.Tracker.Record.{Timespec}
use pcc_uspace.Tracker.Defs.{PacketTracker, enqueue_packet, on_sent}
use pcc_uspace.Tracker.Reads.{
  get_packet_id, get_packet_size, get_last_msg_no, get_payload, has_sendable_packets,
  get_lowest_sendable_seq_no, has_retransmittable_packets, get_lowest_retransmittable_seq_no,
}
use pcc_uspace.SndBuffer.Blocks.{SndBuffer}
use pcc_uspace.Floats.{Floats}
use pcc_uspace.Core.Controller.{Controller}

pub record Cudt (fl : Floats) (S : Type 0) : Type 0 where
  pub sender : S
  pub tracker : PacketTracker
  pub snd_buffer : SndBuffer
  pub bytes_in_flight : ℤ
  pub snd_curr_seq_no : ℕ
  pub snd_last_data_ack : ℕ
  pub syn_sending : Bool
  pub rtt : fl.F64
  pub rtt_var : fl.F64
  pub target_time : ℕ
  pub time_diff : ℤ
  pub cpu_frequency : ℕ
  pub mss : ℕ
  pub start_time : ℕ
  pub peer_id : ℤ
  pub total_bytes : ℕ
  pub sent_total : ℕ
  pub trace_sent : ℕ
  pub retrans_total : ℕ
  pub trace_retrans : ℕ
  pub recv_ack : ℕ
  pub recv_ack_total : ℕ
  pub snd_loss_total : ℕ
  pub send_signals : ℕ

-- The clocks that a call reads: `rdtsc`, `CTimer::getTime` and the monotonic clock.
pub record Clocks : Type 0 where
  pub cycles : ℕ
  pub micros : ℕ
  pub monotonic : Timespec

-- What `packData` makes of the packet that is handed to it.
pub record OutPacket : Type 0 where
  pub seq_no : ℕ
  pub msg_no : ℕ
  pub payload : List ℕ
  pub time_stamp : ℕ
  pub id : ℤ

module _ (fl : Floats) (c : Controller) where
  open c use {
    State, can_send as controller_can_send, on_packet_sent as controller_sent, on_congestion_event,
    pacing_rate as controller_rate,
  }

  unfoldable pub get_next_seq_no : Cudt fl State → ℕ × Cudt fl State
  get_next_seq_no s =
      (incseq s.snd_curr_seq_no, record s { snd_curr_seq_no = incseq s.snd_curr_seq_no })

  -- A round of the loop of `send`: the bytes of one packet are queued under the next number.
  unfoldable pub queue_packet : List ℕ → Cudt fl State → Result (Cudt fl State)
  unfolding get_next_seq_no
  queue_packet bytes s = do
    let (n, s') = get_next_seq_no s
    t ← enqueue_packet (record { seq_no = n; msg_no = 0; payload = bytes }) s'.tracker
    ok (record s' { tracker = t })

  -- How late the call comes.
  unfoldable pub note_delay : Clocks → Cudt fl State → Cudt fl State
  unfolding ◌+ℤ◌ ◌-ℤ◌
  note_delay k s =
      if s.target_time == 0
      then s
      else record s { time_diff = s.time_diff +ℤ (pos k.cycles -ℤ pos s.target_time) }

  -- The packet that goes next: the lowest lost one, or else the lowest that was never sent.
  unfoldable pub choose_packet : Cudt fl State → Option ℕ × Cudt fl State
  unfolding ◌+ℤ◌
  choose_packet s =
      let (some_lost, t1) = has_retransmittable_packets s.tracker in
      let (n1, t2) = get_lowest_retransmittable_seq_no t1 in
      let (some_new, t3) = has_sendable_packets t1 in
      let (n2, t4) = get_lowest_sendable_seq_no t3 in
      if some_lost
      then (
        some n1,
        record s {
          tracker = t2;
          retrans_total = s.retrans_total + 1;
          trace_retrans = s.trace_retrans + 1;
        },
      )
      else if some_new
      then (
        some n2,
        record s {
          tracker = t4;
          bytes_in_flight = s.bytes_in_flight +ℤ pos (get_packet_size n2 t4);
        },
      )
      else (none, record s { tracker = t3 })

  -- The clock cycles from one packet to the next at a rate of bits per second.
  unfoldable pub get_sending_interval : QuicBandwidth → Cudt fl State → ℤ
  get_sending_interval rate s =
      let cycles = fl.of_int32 (pos (s.cpu_frequency * s.mss % u64)) in
      let scaled = fl.mul32 (fl.mul32 cycles (fl.literal32 8 0)) (fl.literal32 1000000 0) in
      fl.truncate64 (fl.div64 (fl.widen scaled) (fl.of_int64 (pos rate)))

  -- The times of the next packet.
  unfoldable pub schedule_next : Clocks → ℤ → Cudt fl State → ℕ × Cudt fl State
  unfolding ◌+ℤ◌ ◌-ℤ◌ to_u64
  schedule_next k interval s =
      let ts = to_u64 (pos k.cycles +ℤ interval -ℤ s.time_diff) in
      if ltb_ℤ s.time_diff interval
      then (ts, record s { time_diff = pos 0; target_time = ts })
      else (k.cycles, record s { time_diff = s.time_diff -ℤ interval; target_time = k.cycles })

  -- `packData` from the choice of the packet on.
  unfoldable pub send_chosen :
      ℕ → Clocks → ℕ → Cudt fl State → Result ((OutPacket × ℕ) × Cudt fl State)
  unfolding schedule_next get_sending_interval
  send_chosen random k seq_no s = do
    payload ← get_payload seq_no s.tracker
    let msg_no = get_last_msg_no seq_no s.tracker + 1
    t ←
        on_sent (record { seq_no = seq_no; msg_no = msg_no; payload = payload }) k.monotonic
          s.tracker
    id ← get_packet_id seq_no msg_no t
    sender ← controller_sent random (pos k.micros) id (length payload) s.sender
    rate ← controller_rate sender
    let sent = record s {
      tracker = t;
      sender = sender;
      sent_total = s.sent_total + 1;
      trace_sent = s.trace_sent + 1;
      total_bytes = s.total_bytes + length payload;
    }
    let (ts, s') = schedule_next k (get_sending_interval rate sent) sent
    ok (
      (
        record {
          seq_no = seq_no;
          msg_no = msg_no;
          payload = payload;
          time_stamp = k.micros - s.start_time;
          id = s.peer_id;
        },
        ts,
      ),
      s',
    )

  -- `packData`, with the time that `ts` holds before: the packet or none, and the time behind.
  unfoldable pub send_if_any :
      ℕ → Clocks → ℕ → Option ℕ × Cudt fl State → Result ((Option OutPacket × ℕ) × Cudt fl State)
  unfolding send_chosen
  send_if_any random k ts (none, s) = ok ((none, ts), s)
  send_if_any random k ts (some n, s) = do
    ((p, ts'), s') ← send_chosen random k n s
    ok ((some p, ts'), s')

  -- The controller is asked first.
  unfoldable pub pack_now :
      ℕ → Clocks → ℕ → Cudt fl State → Result ((Option OutPacket × ℕ) × Cudt fl State)
  unfolding choose_packet send_if_any
  pack_now random k ts s =
      let sent = send_if_any random k ts (choose_packet s) in
      if controller_can_send s.bytes_in_flight s.sender
      then sent
      else ok ((none, k.cycles), record s { time_diff = pos 0; target_time = k.cycles })

  unfoldable pub pack_data :
      ℕ → Clocks → ℕ → Cudt fl State → Result ((Option OutPacket × ℕ) × Cudt fl State)
  unfolding note_delay pack_now
  pack_data random k ts s = pack_now random k ts (note_delay k s)
