-- ===== src/Core/Runs.antt =====
-- core/core.cpp: the states of a connection that sends which its steps reach: packets are queued,
-- sent, acknowledged and found to be lost, in any order.
use mathlib.Core.Path.{subst}
use pcc_uspace.Base.{ℕ, sym, false, ◌<◌, ◌≡◌, ◌≢◌, refl, List, Option, arith, All}
use pcc_uspace.Base.Result.{Fault, ok, Returns, NoFault, >>=-Returns, Returns-with, Returns-ok}
use pcc_uspace.Quic.Time.{QuicTime}
use pcc_uspace.SeqNo.{incseq}
use pcc_uspace.Tracker.Maps.{contains}
use pcc_uspace.Tracker.Record.{Packet}
use pcc_uspace.Tracker.Defs.{PacketTracker, new_tracker, seq_end, enqueue_packet}
use pcc_uspace.Tracker.Life.{IsTracked, AnyFault, enqueue_packet-IsTracked}
use pcc_uspace.Tracker.Ready.{IsReady}
use pcc_uspace.Tracker.Steps.{enqueue_packet-IsReady}
use pcc_uspace.Floats.{Floats}
use pcc_uspace.Core.Controller.{Controller}
use pcc_uspace.Core.Sending.{Cudt, Clocks, OutPacket, queue_packet, pack_data}
use pcc_uspace.Core.Acks.{process_ack, detect_losses}
use pcc_uspace.Core.Choice.{IsLive}
use pcc_uspace.Core.Packing.{Packed, pack_data-Packed}
use pcc_uspace.Core.Hearing.{process_ack-IsLive}
use pcc_uspace.Core.LastAck.{some_result}
use pcc_uspace.Core.Losses.{detect_losses-IsLive}

-- The number is in no record and waits for no retransmission.
abbrev pub IsNew : ℕ → PacketTracker → Type 0
IsNew n t = (contains n t.packet_record_map ≡ false) × All (λ k. n ≢ k) t.retransmittable_queue

incseq-lt : (n : ℕ) → n < seq_end → incseq n < seq_end
unfolding incseq
incseq-lt n h = ground arith

pub new_tracker-IsLive : IsLive new_tracker
unfolding new_tracker
new_tracker-IsLive = (
  record {
    distinct = tt;
    range = tt;
    counted = refl;
    least = refl;
    send_sorted = tt;
    retransmit_sorted = tt;
  },
  record { distinct = tt; fits = tt; fresh = tt; unique = tt; sent = tt },
)

module _ (fl : Floats) (c : Controller) where
  open c use {State}

  pub data Run : Cudt fl State → Type 0 where
    opened : (s : Cudt fl State) → s.tracker ≡ new_tracker → Run s
    queued :
        (bytes : List ℕ) (s s' : Cudt fl State)
        → Run s
        → s.snd_curr_seq_no < seq_end
        → IsNew (incseq s.snd_curr_seq_no) s.tracker
        → queue_packet fl c bytes s ≡ ok s'
        → Run s'
    packed :
        (random : ℕ) (k : Clocks) (ts : ℕ) (s s' : Cudt fl State) (out : Option OutPacket × ℕ)
        → Run s
        → pack_data fl c random k ts s ≡ ok (out, s')
        → Run s'
    acknowledged :
        (k : Clocks) (n msg : ℕ) (s s' : Cudt fl State)
        → Run s
        → 0 < msg
        → process_ack fl c k n msg s ≡ ok s'
        → Run s'
    checked :
        (n : ℕ) (k : Clocks) (s s' : Cudt fl State)
        → Run s
        → detect_losses fl c n k s ≡ ok s'
        → Run s'

  queue_packet-IsLive :
      (bytes : List ℕ) (s : Cudt fl State)
      → IsLive s.tracker
      → s.snd_curr_seq_no < seq_end
      → IsNew (incseq s.snd_curr_seq_no) s.tracker
      → Returns NoFault (queue_packet fl c bytes s) (λ s'. IsLive s'.tracker)
  unfolding queue_packet
  queue_packet-IsLive bytes s (d, h) r (e, w) =
      let p : Packet = record { seq_no = incseq s.snd_curr_seq_no; msg_no = 0; payload = bytes } in
      let r' = incseq-lt s.snd_curr_seq_no r in
      >>=-Returns NoFault (enqueue_packet p s.tracker) _ IsLive _
        (Returns-with NoFault NoFault (enqueue_packet p s.tracker) IsTracked IsReady
          (enqueue_packet-IsTracked p s.tracker r' e d) (enqueue_packet-IsReady p s.tracker e w h))
        (λ t l. l)

  -- Every state that a run reaches satisfies both invariants of the tracker.
  pub Run-IsLive : (s : Cudt fl State) → Run s → IsLive s.tracker
  Run-IsLive s (opened _ e) = subst IsLive (sym e) new_tracker-IsLive
  Run-IsLive s' (queued bytes s _ r n w e) =
      Returns-ok NoFault (queue_packet fl c bytes s) (λ z. IsLive z.tracker) s' e
        (queue_packet-IsLive bytes s (Run-IsLive s r) n w)
  Run-IsLive s' (packed random k ts s _ out r e) =
      (Returns-ok AnyFault (pack_data fl c random k ts s)
        (λ x. IsLive x.1.tracker × Packed s.tracker s.bytes_in_flight x.1.bytes_in_flight x.0.0)
        (out, s') e
        (pack_data-Packed fl c AnyFault
          (λ random t id bytes z. some_result (c.on_packet_sent random t id bytes z))
          (λ z. some_result (c.pacing_rate z)) random k ts s (Run-IsLive s r))).0
  Run-IsLive s' (acknowledged k n msg s _ r p e) =
      Returns-ok AnyFault (process_ack fl c k n msg s) (λ z. IsLive z.tracker) s' e
        (process_ack-IsLive fl c AnyFault
          (λ b d t a l z. some_result (c.on_congestion_event b d t a l z)) k n msg s p
          (Run-IsLive s r) (λ x. tt) (λ x y. tt))
  Run-IsLive s' (checked n k s _ r e) =
      Returns-ok AnyFault (detect_losses fl c n k s) (λ z. IsLive z.tracker) s' e
        (detect_losses-IsLive fl c AnyFault tt
          (λ b d t a l z. some_result (c.on_congestion_event b d t a l z)) n k s (Run-IsLive s r))

  -- In every state that a run reaches, in which packets are queued under new numbers, sent,
  -- acknowledged under message numbers that are not 0, and found lost, `packData` fails at most as
  -- the controller does, given how the controller's calls fail, and leaves both invariants of the
  -- tracker. It sends nothing and leaves the bytes in flight, or it sends a recorded packet's
  -- payload under the number behind its last message, and adds its bytes if it was never sent.
  pub Run-Packed :
      (E : Fault → Type 0)
      → ((random : ℕ) (t : QuicTime) (id bytes : ℕ) (s : c.State)
          → Returns E (c.on_packet_sent random t id bytes s) (λ s'. Unit {0}))
      → ((s : c.State) → Returns E (c.pacing_rate s) (λ r. Unit {0}))
      → (s : Cudt fl State) → Run s
      → (random : ℕ) (k : Clocks) (ts : ℕ)
      → Returns E
          (pack_data fl c random k ts s)
          (λ x. IsLive x.1.tracker × Packed s.tracker s.bytes_in_flight x.1.bytes_in_flight x.0.0)
  Run-Packed E sent_fine rate_fine s r random k ts =
      pack_data-Packed fl c E sent_fine rate_fine random k ts s (Run-IsLive s r)
