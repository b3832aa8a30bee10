-- ===== src/Core/Packing.antt =====
-- core/core.cpp, `packData`: no check of the tracker fails, and the packet that is sent is one of its
-- records.
use mathlib.Core.Path.{subst}
use pcc_uspace.Base.{
  ℕ, ◌+◌, ◌≡◌, refl, sym, ap, ◌∙◌, Option, none, some, length, ◌==◌, Bool-cases, if-both, inl, inr,
  if◌then◌else◌,
}
use pcc_uspace.Base.Int.{ℤ, pos, ◌+ℤ◌, ltb_ℤ}
use pcc_uspace.Base.Result.{
  Fault, Returns, NoFault, >>=-Returns, Returns-mono, if-Returns, Returns-with, Returns_any,
}
use pcc_uspace.Quic.Time.{QuicTime}
use pcc_uspace.Tracker.Maps.{find}
use pcc_uspace.Tracker.Record.{
  Timespec, PacketRecord, Packet, is_queued, packet_size, most_recent_msg_no, get_message_record,
}
use pcc_uspace.Tracker.Defs.{PacketTracker, on_sent, send_recorded}
use pcc_uspace.Tracker.Reads.{get_payload, get_last_msg_no, get_packet_id}
use pcc_uspace.Tracker.Life.{IsTracked, AnyFault, send_recorded-IsTracked}
use pcc_uspace.Tracker.Times.{get_last_msg_no-find}
use pcc_uspace.Tracker.Changes.{OnTop, HasMessage, send_recorded-IsReady}
use pcc_uspace.Floats.{Floats}
use pcc_uspace.Core.Controller.{Controller}
use pcc_uspace.Core.Sending.{
  Cudt, Clocks, OutPacket, note_delay, choose_packet, get_sending_interval, schedule_next,
  send_chosen, send_if_any, pack_now, pack_data,
}
use pcc_uspace.Core.Choice.{IsLive, Chosen, choose_packet-Chosen}

-- What is sent from the tracker `t`, with the bytes in flight before and behind.
abbrev pub Packed : PacketTracker → ℤ → ℤ → Option OutPacket → Type 0
Packed t before behind none = behind ≡ before
Packed t before behind (some p) =
    (r : PacketRecord) × (find p.seq_no t.packet_record_map ≡ some r)
    × (p.payload ≡ r.payload)
    × (p.msg_no ≡ most_recent_msg_no r.msg_records + 1)
    × (behind ≡ (if is_queued r.packet_state then before +ℤ pos (packet_size r) else before))

schedule_next-tracker :
    (fl : Floats) (c : Controller) (k : Clocks) (interval : ℤ) (s : Cudt fl c.State)
    → ((schedule_next fl c k interval s).1.tracker ≡ s.tracker)
      × ((schedule_next fl c k interval s).1.bytes_in_flight ≡ s.bytes_in_flight)
unfolding schedule_next
schedule_next-tracker fl c k interval s = elim (Bool-cases (ltb_ℤ s.time_diff interval)) [
  | inl e ↦ rw e (refl, refl)
  | inr e ↦ rw e (refl, refl)
]

get_packet_id-Returns :
    (E : Fault → Type 0) (n msg : ℕ) (t : PacketTracker)
    → HasMessage n msg t
    → Returns E (get_packet_id n msg t) (λ id. Unit {0})
unfolding get_packet_id
get_packet_id-Returns E n msg t (r, f, s) =
    rw (Returns, f)
      (>>=-Returns E (get_message_record msg r) _ (λ m. Unit {0}) _
        (Returns_any E (get_message_record msg r) (λ m. Unit {0}) s.1) (λ m x. tt))

on_sent-IsLive :
    (E : Fault → Type 0) (r : PacketRecord) (p : Packet) (now : Timespec) (t : PacketTracker)
    → IsLive t
    → find p.seq_no t.packet_record_map ≡ some r
    → OnTop (is_queued r.packet_state) p.seq_no t
    → Returns E (on_sent p now t) (λ t'. IsLive t' × HasMessage p.seq_no p.msg_no t')
unfolding on_sent
on_sent-IsLive E r p now t (d, h) f o =
    rw (Returns, f)
      (Returns-mono E (send_recorded (some r) p now t) _ _ (λ t' (d', (h', took, m)). ((d', h'), m))
        (Returns_any E (send_recorded (some r) p now t) _ (
          Returns-with AnyFault NoFault (send_recorded (some r) p now t) IsTracked _
            (send_recorded-IsTracked (some r) p now t d) (send_recorded-IsReady r p now t f o h))))

module _ (fl : Floats) (c : Controller) (E : Fault → Type 0)
    (sent_fine : (random : ℕ) (t : QuicTime) (id bytes : ℕ) (s : c.State)
      → Returns E (c.on_packet_sent random t id bytes s) (λ s'. Unit {0}))
    (rate_fine : (s : c.State) → Returns E (c.pacing_rate s) (λ r. Unit {0})) where
  open c use {State}

  -- The choice is sent.
  send_chosen-Packed :
      (random : ℕ) (k : Clocks) (n : ℕ) (r : PacketRecord) (s : Cudt fl State)
      → IsLive s.tracker
      → find n s.tracker.packet_record_map ≡ some r
      → OnTop (is_queued r.packet_state) n s.tracker
      → Returns E (send_chosen fl c random k n s) (λ x.
        IsLive x.1.tracker
        × (x.0.0.seq_no ≡ n)
        × (x.0.0.payload ≡ r.payload)
        × (x.0.0.msg_no ≡ most_recent_msg_no r.msg_records + 1)
        × (x.1.bytes_in_flight ≡ s.bytes_in_flight))
  unfolding send_chosen get_payload
  send_chosen-Packed random k n r s l f o =
      let e = get_last_msg_no-find n r s.tracker f in
      let p : Packet = record {
        seq_no = n;
        msg_no = get_last_msg_no n s.tracker + 1;
        payload = r.payload;
      } in
      let message = ap (λ z. z + 1) e in
      rw (Returns, f)
        (>>=-Returns E (on_sent p k.monotonic s.tracker) _
          (λ t'. IsLive t' × HasMessage n (get_last_msg_no n s.tracker + 1) t') _
          (on_sent-IsLive E r p k.monotonic s.tracker l f o)
          λ t' (l', m).
            >>=-Returns E (get_packet_id n _ t') _ (λ id. Unit {0}) _
              (get_packet_id-Returns E n _ t' m)
              λ id x.
                >>=-Returns E (c.on_packet_sent random _ id _ s.sender) _ (λ s'. Unit {0}) _
                  (sent_fine random _ id _ s.sender)
                  λ sender y.
                    >>=-Returns E (c.pacing_rate sender) _ (λ r. Unit {0}) _ (rate_fine sender)
                      λ rate z.
                        let sent : Cudt fl State = record s {
                          tracker = t';
                          sender = sender;
                          sent_total = s.sent_total + 1;
                          trace_sent = s.trace_sent + 1;
                          total_bytes = s.total_bytes + length r.payload;
                        } in
                        let kept =
                          schedule_next-tracker fl c k (get_sending_interval fl c rate sent) sent in
                        (subst IsLive (sym kept.0) l', refl, refl, message, kept.1))

  send_if_any-Packed :
      (random : ℕ) (k : Clocks) (ts : ℕ) (s s' : Cudt fl State) (o : Option ℕ)
      → Chosen s (o, s')
      → Returns E
          (send_if_any fl c random k ts (o, s'))
          (λ x. IsLive x.1.tracker × Packed s.tracker s.bytes_in_flight x.1.bytes_in_flight x.0.0)
  unfolding send_if_any
  send_if_any-Packed random k ts s s' none (l, same, bytes) = (l, bytes)
  send_if_any-Packed random k ts s s' (some n) (l, same, (r, f, o, bytes)) =
      let f' : find n s'.tracker.packet_record_map ≡ some r = ap (find n) same ∙ f in
      >>=-Returns E (send_chosen fl c random k n s') _ _ _
        (send_chosen-Packed random k n r s' l f' o)
        λ x (l', at, p, m, b).
          (l', (r, ap (λ j. find j s.tracker.packet_record_map) at ∙ f, p, m, b ∙ bytes))

  pack_now-Packed :
      (random : ℕ) (k : Clocks) (ts : ℕ) (s : Cudt fl State)
      → IsLive s.tracker
      → Returns E
          (pack_now fl c random k ts s)
          (λ x. IsLive x.1.tracker × Packed s.tracker s.bytes_in_flight x.1.bytes_in_flight x.0.0)
  unfolding pack_now
  pack_now-Packed random k ts s l =
      let chosen = choose_packet fl c s in
      if-Returns E (c.can_send s.bytes_in_flight s.sender) _ _ _
        (λ e. send_if_any-Packed random k ts s chosen.1 chosen.0 (choose_packet-Chosen fl c s l))
        (λ e. (l, refl))

  -- From a tracker with both invariants, `packData` fails at most as the controller does and leaves
  -- both invariants. It sends nothing and leaves the bytes in flight, or it sends a recorded packet's
  -- payload under the number behind its last message, and adds its bytes if it was never sent.
  pub pack_data-Packed :
      (random : ℕ) (k : Clocks) (ts : ℕ) (s : Cudt fl State)
      → IsLive s.tracker
      → Returns E
          (pack_data fl c random k ts s)
          (λ x. IsLive x.1.tracker × Packed s.tracker s.bytes_in_flight x.1.bytes_in_flight x.0.0)
  unfolding pack_data note_delay
  pack_data-Packed random k ts s l =
      if-both (s.target_time == 0) s _
        (λ s'.
          Returns E (pack_now fl c random k ts s') (λ x.
            IsLive x.1.tracker × Packed s.tracker s.bytes_in_flight x.1.bytes_in_flight x.0.0))
        (pack_now-Packed random k ts s l) (pack_now-Packed random k ts _ l)
