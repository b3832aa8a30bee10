-- ===== src/Core/Acks.antt =====
-- core/core.cpp: `ProcessAck`, and the losses that `add_to_loss_record` and `checkTimers` find.
use pcc_uspace.Base.{
  ℕ, zero, suc, ◌+◌, ◌-◌, Bool, true, false, List, [], ◌∷◌, ltb, ◌==◌, if◌then◌else◌,
}
use pcc_uspace.Base.Int.{ℤ, pos, ◌-ℤ◌}
use pcc_uspace.Base.Result.{Result, ok, ◌>>=◌}
use pcc_uspace.Quic.{AckedPacket, LostPacket}
use pcc_uspace.Quic.Bandwidth.{to_u64}
use pcc_uspace.Quic.Time.{zero_time}
use pcc_uspace.SeqNo.{seqoff}
use pcc_uspace.Tracker.Record.{PacketState, lost, elapsed_us}
use pcc_uspace.Tracker.Defs.{on_ack, on_loss, delete_packet_record, get_min_seq_no}
use pcc_uspace.Tracker.Reads.{
  get_sent_time, get_packet_id, get_packet_rtt, get_packet_state, get_packet_size, get_last_msg_no,
  has_sent_packets, get_oldest_sent_seq_no,
}
use pcc_uspace.SndBuffer.Blocks.{ack_data}
use pcc_uspace.Floats.{Floats}
use pcc_uspace.Core.Controller.{Controller}
use pcc_uspace.Core.Sending.{Cudt, Clocks}

unfoldable pub is_lost : PacketState → Bool
is_lost lost = true
is_lost _ = false

abbrev pub magnitude : (fl : Floats) → fl.F64 → fl.F64
magnitude fl x = if fl.lt64 x (fl.literal64 0 0) then fl.neg64 x else x

-- The estimates of the RTT and its variance.
unfoldable pub smooth : {fl : Floats} {S : Type 0} → ℕ → Cudt fl S → Cudt fl S
smooth {fl} rtt_us s =
    let us = fl.of_int64 (pos rtt_us) in
    let rtt = fl.div64 (fl.add64 (fl.mul64 (fl.literal64 7 0) s.rtt) us) (fl.literal64 8 0) in
    let off = fl.mul64 (magnitude fl (fl.sub64 us rtt)) (fl.literal64 1 0) in
    let var = fl.add64 (fl.mul64 s.rtt_var (fl.literal64 7 0)) off in
    record s { rtt = rtt; rtt_var = fl.div64 var (fl.literal64 8 0) }

-- The send buffer moves on to the least number that is not acknowledged.
unfoldable pub move_on : {fl : Floats} {S : Type 0} → ℕ → ℤ → Cudt fl S → Cudt fl S
unfolding ack_data
move_on ack_no (pos (suc n)) s = record s {
  snd_buffer = ack_data (suc n) s.snd_buffer;
  snd_last_data_ack = ack_no;
  send_signals = if s.syn_sending then s.send_signals + 1 else s.send_signals;
}
move_on ack_no _ s = s

module _ (fl : Floats) (c : Controller) where
  open c use {State, on_congestion_event}

  -- The end of `ProcessAck`: the controller hears of the packet.
  unfoldable pub report_ack : Clocks → ℕ → ℕ → ℕ → Cudt fl State → Result (Cudt fl State)
  unfolding ◌-ℤ◌
  report_ack k id rtt_us size s = do
    let s' = record s { bytes_in_flight = s.bytes_in_flight -ℤ pos size }
    let acked : AckedPacket = record {
      packet_number = id;
      bytes_acked = size;
      receive_timestamp = pos k.micros;
    }
    sender ← on_congestion_event true (pos rtt_us) (pos k.micros) (acked ∷ []) [] s'.sender
    ok (record s' {
      sender = sender;
      recv_ack = s.recv_ack + 1;
      recv_ack_total = s.recv_ack_total + 1;
    })

  -- The record of a packet whose last message is acknowledged goes.
  unfoldable pub retire :
      Clocks → ℕ → PacketState → ℕ → ℕ → ℕ → Cudt fl State → Result (Cudt fl State)
  unfolding move_on is_lost report_ack
  retire k seq_no old_state id rtt_us size s = do
    (signal, t) ← delete_packet_record seq_no s.tracker
    ack_no ← get_min_seq_no t
    let s' = move_on ack_no (seqoff s.snd_last_data_ack ack_no) (record s {
      tracker = t;
      send_signals = if signal then s.send_signals + 1 else s.send_signals;
    })
    let report = report_ack k id rtt_us size s'
    if is_lost old_state then ok s' else if id == 0 then ok s' else report

  unfoldable pub process_ack : Clocks → ℕ → ℕ → Cudt fl State → Result (Cudt fl State)
  unfolding smooth retire
  process_ack k seq_no msg_no s = do
    let latest = get_last_msg_no seq_no s.tracker
    id ← get_packet_id seq_no msg_no s.tracker
    let old_state = get_packet_state seq_no s.tracker
    t ← on_ack seq_no msg_no k.monotonic s.tracker
    rtt_us ← get_packet_rtt seq_no msg_no t
    let s' = smooth rtt_us (record s { tracker = t })
    let size = get_packet_size seq_no t
    if msg_no == latest then retire k seq_no old_state id rtt_us size s' else ok s'

  -- The loop of `add_to_loss_record`, n numbers from `loss` on: the lost packets, and the state.
  unfoldable pub mark_losses :
      ℕ → ℕ → Clocks → Cudt fl State → Result (List LostPacket × Cudt fl State)
  mark_losses zero loss k s = ok ([], s)
  mark_losses (suc n) loss k s = do
    let msg_no = get_last_msg_no loss s.tracker
    id ← get_packet_id loss msg_no s.tracker
    let packet : LostPacket = record {
      packet_number = id;
      bytes_lost = get_packet_size loss s.tracker;
    }
    t ← on_loss loss msg_no k.monotonic s.tracker
    (packets, s') ←
        mark_losses n (loss + 1) k (record s { tracker = t; snd_loss_total = s.snd_loss_total + 1 })
    ok (packet ∷ packets, s')

  -- `add_to_loss_record`.
  unfoldable pub add_to_loss_record : ℕ → ℕ → Clocks → Cudt fl State → Result (Cudt fl State)
  unfolding mark_losses
  add_to_loss_record loss1 loss2 k s = do
    (packets, s') ← mark_losses (loss2 + 1 - loss1) loss1 k s
    sender ← on_congestion_event false zero_time (pos k.micros) [] packets s'.sender
    ok (record s' { sender = sender })

  -- How long a packet may be under way, in microseconds.
  unfoldable pub loss_threshold : Cudt fl State → ℕ
  unfolding to_u64
  loss_threshold s = to_u64 (
      fl.truncate64
        (fl.add64 (fl.mul64 (fl.literal64 2 0) s.rtt) (fl.mul64 (fl.of_int64 (pos 4)) s.rtt_var)))

  -- A round of the first loop of `checkTimers`, for the oldest packet: whether the loop goes on.
  unfoldable pub expire_oldest : Clocks → Cudt fl State → Result (Bool × Cudt fl State)
  unfolding add_to_loss_record loss_threshold
  expire_oldest k s = do
    (seq_no, t) ← get_oldest_sent_seq_no s.tracker
    let s' = record s { tracker = t }
    let late = add_to_loss_record seq_no seq_no k s' >>= λ s''. ok (true, s'')
    let rest = (do
      sent_time ← get_sent_time seq_no (get_last_msg_no seq_no t) t
      if ltb (loss_threshold s) (elapsed_us sent_time k.monotonic) then late else ok (false, s'))
    if has_sent_packets t then rest else ok (true, s')

  -- The loop, for at most as many rounds as the first argument says.
  unfoldable pub detect_losses : ℕ → Clocks → Cudt fl State → Result (Cudt fl State)
  unfolding expire_oldest
  detect_losses zero k s = ok s
  detect_losses (suc n) k s =
      let round = (do
        (more, s') ← expire_oldest k s
        if more then detect_losses n k s' else ok s') in
      if has_sent_packets s.tracker then round else ok s
