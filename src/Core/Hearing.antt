-- ===== src/Core/Hearing.antt =====
-- core/core.cpp, `ProcessAck` and `add_to_loss_record`: what they leave of the tracker, and how they
-- fail.
use mathlib.Core.Path.{subst}
use pcc_uspace.Base.{
  ◌+◌, ◌-◌, ◌∙◌, ℕ, zero, suc, Bool, true, ◌<◌, ◌≡◌, refl, sym, List, arith, ◌==◌, Bool-cases,
  Option-cases, inl, inr,
}
use pcc_uspace.Base.Int.{ℤ, pos, negsuc}
use pcc_uspace.Base.Result.{
  Fault, NoFault, no_message_record, null_min_seq, Returns, >>=-Returns, Returns-mono, if-Returns,
  Returns-with, Returns_any, Returns-faults,
}
use pcc_uspace.Quic.{AckedPacket, LostPacket}
use pcc_uspace.Quic.Time.{QuicTime, Delta}
use pcc_uspace.Tracker.Maps.{find, contains, length-erase}
use pcc_uspace.Tracker.Record.{PacketState, Timespec, find_message, get_message_record}
use pcc_uspace.Tracker.Defs.{PacketTracker, on_ack, delete_packet_record, get_min_seq_no}
use pcc_uspace.Tracker.Reads.{get_packet_id, get_packet_rtt, get_last_msg_no}
use pcc_uspace.Tracker.Life.{IsTracked, AnyFault, on_ack-IsTracked}
use pcc_uspace.Tracker.Ready.{IsSentAt, find-none}
use pcc_uspace.Tracker.Messages.{UnknownMessage, NonEmpty, find_message-Returns}
use pcc_uspace.Tracker.Changes.{on_ack-IsReady, delete_packet_record-IsReady}
use pcc_uspace.Tracker.Counting.{
  Recorded, Unrecorded, Recorded-cases, on_ack-count, delete-count, get_min_seq_no-Returns,
  on_ack-Recorded, get_packet_id-Recorded, get_packet_rtt-Recorded,
}
use pcc_uspace.Floats.{Floats}
use pcc_uspace.Core.Controller.{Controller}
use pcc_uspace.Core.Sending.{Cudt, Clocks}
use pcc_uspace.Core.Acks.{smooth, move_on, report_ack, retire, process_ack, is_lost}
use pcc_uspace.Core.Choice.{IsLive}

move_on-tracker :
    {fl : Floats} {S : Type 0} (n : ℕ) (o : ℤ) (s : Cudt fl S) → (move_on n o s).tracker ≡ s.tracker
unfolding move_on
move_on-tracker n (pos (suc k)) s = refl
move_on-tracker n (pos zero) s = refl
move_on-tracker n (negsuc k) s = refl

pub unknown-in : (E : Fault → Type 0) → E no_message_record → (e : Fault) → UnknownMessage e → E e
unknown-in E h no_message_record u = h
unknown-in E h _ u = absurd u

-- The packet is recorded, and was sent.
abbrev Acknowledged : ℕ → PacketTracker → Type 0
Acknowledged n t = (contains n t.packet_record_map ≡ true) × IsSentAt t.packet_record_map n

module _ (n msg : ℕ) (t : PacketTracker) where
  -- An acknowledgement of a packet with no record has another message number than its last one.
  on_ack-Acknowledged :
      (now : Timespec)
      → 0 < msg
      → IsLive t
      → Returns UnknownMessage
          (on_ack n msg now t)
          (λ t'. IsLive t' × ((msg ≡ get_last_msg_no n t) → Acknowledged n t'))
  unfolding on_ack get_last_msg_no
  on_ack-Acknowledged now p (d, h) = elim (Bool-cases (contains n t.packet_record_map)) [
    | inl there ↦
        Returns-mono UnknownMessage (on_ack n msg now t) _ _
          (λ t' (d', (h', s, c)). ((d', h'), λ e. (c, s)))
          (Returns-with AnyFault UnknownMessage (on_ack n msg now t) IsTracked _
            (on_ack-IsTracked n msg now t d) (on_ack-IsReady n msg now t there h))
    | inr gone ↦
        let e = find-none n t.packet_record_map gone in
        rw (Returns, e) ((d, h), λ e'. absurd (ground (arith, e')))
  ]

  pub get_packet_id-Unknown : Returns UnknownMessage (get_packet_id n msg t) (λ id. Unit {0})
  unfolding get_packet_id get_message_record
  get_packet_id-Unknown = elim (Option-cases (find n t.packet_record_map)) [
    | inl e ↦ rw (Returns, e) tt
    | inr (r, e) ↦
        rw (Returns, e)
          (>>=-Returns UnknownMessage (find_message msg r.msg_records) _
            (λ m. NonEmpty r.msg_records) _ (find_message-Returns msg r.msg_records) (λ m x. tt))
  ]

  get_packet_rtt-Unknown : Returns UnknownMessage (get_packet_rtt n msg t) (λ rtt. Unit {0})
  unfolding get_packet_rtt get_message_record
  get_packet_rtt-Unknown = elim (Option-cases (find n t.packet_record_map)) [
    | inl e ↦ rw (Returns, e) tt
    | inr (r, e) ↦
        rw (Returns, e)
          (>>=-Returns UnknownMessage (find_message msg r.msg_records) _
            (λ m. NonEmpty r.msg_records) _ (find_message-Returns msg r.msg_records) (λ m x. tt))
  ]

module _ (fl : Floats) (c : Controller) (E : Fault → Type 0)
    (event_fine : (updated : Bool) (rtt : Delta) (t : QuicTime) (acked : List AckedPacket)
        (lost : List LostPacket) (s : c.State)
      → Returns E (c.on_congestion_event updated rtt t acked lost s) (λ s'. Unit {0})) where
  open c use {State}

  report_ack-IsLive :
      (k : Clocks) (id rtt_us size : ℕ) (s : Cudt fl State)
      → IsLive s.tracker
      → Returns E (report_ack fl c k id rtt_us size s) (λ s'. IsLive s'.tracker)
  unfolding report_ack
  report_ack-IsLive k id rtt_us size s l =
      >>=-Returns E (c.on_congestion_event true _ _ _ _ s.sender) _ (λ s'. Unit {0}) _
        (event_fine true _ _ _ _ s.sender) (λ s' x. l)

  -- A removal leaves both invariants, and one packet less.
  removed :
      (n : ℕ) (t : PacketTracker)
      → contains n t.packet_record_map ≡ true
      → IsSentAt t.packet_record_map n
      → IsLive t
      → Returns E
          (delete_packet_record n t)
          (λ r. IsLive r.1 × (r.1.cur_num_packets + 1 ≡ t.cur_num_packets))
  removed n t e sent (d, h) =
      let some_left : 0 < t.cur_num_packets =
        omega (arith, d.counted, length-erase n t.packet_record_map e) in
      Returns_any E (delete_packet_record n t)
        (λ r. IsLive r.1 × (r.1.cur_num_packets + 1 ≡ t.cur_num_packets))
        (Returns-mono NoFault (delete_packet_record n t) _ _
          (λ r (less, l). (l, omega (arith, less, some_left)))
          (Returns-with AnyFault NoFault (delete_packet_record n t)
            (λ r. r.1.cur_num_packets ≡ t.cur_num_packets - 1) (λ r. IsLive r.1) (delete-count n t)
            (delete_packet_record-IsReady n t e sent d h)))

  retire-IsLive :
      (k : Clocks) (n : ℕ) (old : PacketState) (id rtt_us size : ℕ) (s : Cudt fl State)
      → contains n s.tracker.packet_record_map ≡ true
      → IsSentAt s.tracker.packet_record_map n
      → IsLive s.tracker
      → (s.tracker.cur_num_packets ≡ 1 → E null_min_seq)
      → Returns E (retire fl c k n old id rtt_us size s) (λ s'. IsLive s'.tracker)
  unfolding retire
  retire-IsLive k n old id rtt_us size s e sent live emptied =
      >>=-Returns E (delete_packet_record n s.tracker) _
        (λ r. IsLive r.1 × (r.1.cur_num_packets + 1 ≡ s.tracker.cur_num_packets)) _
        (removed n s.tracker e sent live)
        λ (signal, t) (l, less).
          >>=-Returns E (get_min_seq_no t) _ (λ m. Unit {0}) _
            (get_min_seq_no-Returns E s.tracker.cur_num_packets t l.0 less emptied)
            λ m x.
              let l' = subst IsLive (sym (move_on-tracker m _ _)) l in
              if-Returns E (is_lost old) _ _ _ (λ a. l')
                (λ a.
                  if-Returns E (id == 0) _ _ _ (λ b. l')
                    (λ b. report_ack-IsLive k id rtt_us size _ l'))

  -- What the acknowledgement leaves of the tracker `t`, for the rest of `ProcessAck`.
  abbrev Heard : ℕ → ℕ → PacketTracker → PacketTracker → Type 0
  Heard n msg t t' =
      (IsLive t' × ((msg ≡ get_last_msg_no n t) → Acknowledged n t'))
      × (t'.cur_num_packets ≡ t.cur_num_packets)
      × Returns E (get_packet_rtt n msg t') (λ rtt. Unit {0})

  -- The reads of a message and its acknowledgement fail at most where the message has no record.
  heard :
      (n msg : ℕ) (now : Timespec) (t : PacketTracker)
      → 0 < msg
      → IsLive t
      → (Unrecorded n msg t → E no_message_record)
      → Returns E (get_packet_id n msg t) (λ id. Unit {0})
        × Returns E (on_ack n msg now t) (Heard n msg t)
  heard n msg now t p live unknown = elim (Recorded-cases n msg t) [
    | inl there ↦ (
      Returns_any E (get_packet_id n msg t) _ (get_packet_id-Recorded n msg t there),
      Returns_any E (on_ack n msg now t) _ (
          Returns-mono NoFault (on_ack n msg now t) _ (Heard n msg t)
            (λ t' (num, (l, x)). (
              l,
              num,
              Returns_any E (get_packet_rtt n msg t') _ (get_packet_rtt-Recorded n msg t' x),
            ))
            (Returns-with AnyFault NoFault (on_ack n msg now t)
              (λ t'. t'.cur_num_packets ≡ t.cur_num_packets) _ (on_ack-count n msg now t)
              (Returns-with UnknownMessage NoFault (on_ack n msg now t) _ (Recorded n msg)
                (on_ack-Acknowledged n msg t now p live) (on_ack-Recorded n msg now t there)))),
    )
    | inr gone ↦
        let known = unknown-in E (unknown gone) in
        (
          Returns-faults UnknownMessage E (get_packet_id n msg t) _ known
              (get_packet_id-Unknown n msg t),
          Returns-faults UnknownMessage E (on_ack n msg now t) _ known (
              Returns-mono UnknownMessage (on_ack n msg now t) _ (Heard n msg t)
                (λ t' (num, l). (
                  l,
                  num,
                  Returns-faults UnknownMessage E (get_packet_rtt n msg t') _ known
                      (get_packet_rtt-Unknown n msg t'),
                ))
                (Returns-with AnyFault UnknownMessage (on_ack n msg now t)
                  (λ t'. t'.cur_num_packets ≡ t.cur_num_packets) _ (on_ack-count n msg now t)
                  (on_ack-Acknowledged n msg t now p live))),
        )
  ]

  -- From a tracker with both invariants, an acknowledgement with a message number that is not 0
  -- leaves both invariants. It fails at most with `no_message_record`, where the packet's record
  -- has no message with the number, with `null_min_seq`, where it acknowledges the last message of
  -- the only packet, or as the controller does.
  pub process_ack-IsLive :
      (k : Clocks) (n msg : ℕ) (s : Cudt fl State)
      → 0 < msg
      → IsLive s.tracker
      → (Unrecorded n msg s.tracker → E no_message_record)
      → (s.tracker.cur_num_packets ≡ 1 → msg ≡ get_last_msg_no n s.tracker → E null_min_seq)
      → Returns E (process_ack fl c k n msg s) (λ s'. IsLive s'.tracker)
  unfolding process_ack smooth
  process_ack-IsLive k n msg s p live unknown emptied =
      let (named, told) = heard n msg k.monotonic s.tracker p live unknown in
      >>=-Returns E (get_packet_id n msg s.tracker) _ (λ id. Unit {0}) _ named
        λ id x.
          >>=-Returns E (on_ack n msg k.monotonic s.tracker) _ (Heard n msg s.tracker) _ told
            λ t ((l, again), num, timed).
              >>=-Returns E (get_packet_rtt n msg t) _ (λ rtt. Unit {0}) _ timed
                λ rtt y.
                  if-Returns E (msg == get_last_msg_no n s.tracker) _ _ _
                    (λ e.
                      let last : msg ≡ get_last_msg_no n s.tracker = ground (arith, e) in
                      let (there, sent) = again last in
                      retire-IsLive k n _ id rtt _ _ there sent l
                        (λ one. emptied (sym num ∙ one) last))
                    (λ e. l)
