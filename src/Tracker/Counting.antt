-- ===== src/Tracker/Counting.antt =====
-- core/packet_tracker.h: the number of packets, and the faults of an acknowledgement.
use mathlib.Core.Path.{subst}
use pcc_uspace.Base.{
  ℕ, ◌-◌, ◌+◌, ◌≡◌, ◌⊎◌, refl, List, [], ◌∷◌, some, arith, length, ◌==◌, Bool-cases, Option-cases,
  inl, inr,
}
use pcc_uspace.Base.Result.{
  err, check, not_recorded, no_message_record, null_min_seq, Fault, NoFault, Returns, >>=-Returns,
}
use pcc_uspace.Tracker.Maps.{find, contains, erase}
use pcc_uspace.Tracker.Record.{
  acked, Timespec, PacketRecord, MessageRecord, find_message, last_message, set_rtt,
  get_message_record, update_messages, update_record,
}
use pcc_uspace.Tracker.Defs.{
  PacketTracker, on_ack, settle, delete_packet_record, get_min_seq_no, next_min,
}
use pcc_uspace.Tracker.Reads.{get_packet_id, get_packet_rtt}
use pcc_uspace.Tracker.Minimum.{IsLeast}
use pcc_uspace.Tracker.Life.{IsTracked, AnyFault, anything}
use pcc_uspace.Tracker.Ready.{find-update, find-contains}
use pcc_uspace.Tracker.Messages.{NonEmpty, last_message-Returns}

-- The number of packets behind an acknowledgement and a removal.
pub on_ack-count :
    (n msg : ℕ) (now : Timespec) (t : PacketTracker)
    → Returns AnyFault (on_ack n msg now t) (λ t'. t'.cur_num_packets ≡ t.cur_num_packets)
unfolding on_ack settle
on_ack-count n msg now t = elim (Option-cases (find n t.packet_record_map)) [
  | inl e ↦ rw (Returns, e) refl
  | inr (r, e) ↦
      rw (Returns, e)
        (>>=-Returns AnyFault (get_message_record msg r) _ (λ m. Unit {0}) _
          (anything (get_message_record msg r))
          λ m x.
            >>=-Returns AnyFault (update_record acked msg 0 now r) _ (λ m. Unit {0}) _
              (anything (update_record acked msg 0 now r)) (λ r' y. refl))
]

pub delete-count :
    (n : ℕ) (t : PacketTracker)
    → Returns AnyFault (delete_packet_record n t) (λ r. r.1.cur_num_packets ≡ t.cur_num_packets - 1)
unfolding delete_packet_record
delete-count n t =
    >>=-Returns AnyFault (check (contains n t.packet_record_map) not_recorded) _ (λ u. Unit {0}) _
      (anything (check (contains n t.packet_record_map) not_recorded))
      λ u x.
        >>=-Returns AnyFault
          (next_min t.cur_min_seq n (t.cur_num_packets - 1) (erase n t.packet_record_map)) _
          (λ o. Unit {0}) _
          (anything
            (next_min t.cur_min_seq n (t.cur_num_packets - 1) (erase n t.packet_record_map)))
          (λ o y. refl)

-- Behind the removal of a recorded packet, the least number is missing only where it was the one
-- packet.
pub get_min_seq_no-Returns :
    (E : Fault → Type 0) (before : ℕ) (t : PacketTracker)
    → IsTracked t
    → t.cur_num_packets + 1 ≡ before
    → (before ≡ 1 → E null_min_seq)
    → Returns E (get_min_seq_no t) (λ n. Unit {0})
unfolding get_min_seq_no
get_min_seq_no-Returns E before t d less emptied = elim (Option-cases t.cur_min_seq) [
  | inl e ↦
      let gone : length t.packet_record_map ≡ 0 =
        subst (λ o. IsLeast o t.packet_record_map) e d.least in
      rw (Returns, e) (emptied (omega (arith, gone, d.counted, less)))
  | inr (n, e) ↦ rw (Returns, e) tt
]

-- The record of the packet, where there is one, has no message with the number.
abbrev pub Unrecorded : ℕ → ℕ → PacketTracker → Type 0
Unrecorded n msg t =
    (r : PacketRecord) × (find n t.packet_record_map ≡ some r)
    × (find_message msg r.msg_records ≡ err no_message_record)

-- The record of the packet, where there is one, has a message with the number.
abbrev pub Recorded : ℕ → ℕ → PacketTracker → Type 0
Recorded n msg t =
    (r : PacketRecord)
    → find n t.packet_record_map ≡ some r
    → Returns NoFault (find_message msg r.msg_records) (λ g. Unit {0})

message_cases :
    (msg : ℕ) (l : List MessageRecord)
    → Returns NoFault (find_message msg l) (λ g. Unit {0})
      ⊎ (find_message msg l ≡ err no_message_record)
unfolding find_message
message_cases msg [] = inr refl
message_cases msg (m ∷ l) = elim (Bool-cases (m.msg_no == msg)) [
  | inl t ↦ rw (Returns, t) (inl tt)
  | inr f ↦ rw (Returns, f) (message_cases msg l)
]

pub Recorded-cases : (n msg : ℕ) (t : PacketTracker) → Recorded n msg t ⊎ Unrecorded n msg t
Recorded-cases n msg t = elim (Option-cases (find n t.packet_record_map)) [
  | inl e ↦ inl (λ r f. absurd (ground (arith, e, f)))
  | inr (r, e) ↦ elim (message_cases msg r.msg_records) [
    | inl h ↦ inl (λ q f.
        let same : r ≡ q = ground (arith, e, f) in
        subst (λ z. Returns NoFault (find_message msg z.msg_records) (λ g. Unit {0})) same h)
    | inr h ↦ inr (r, e, h)
  ]
]

set_rtt-found :
    (msg : ℕ) (now : Timespec) (l : List MessageRecord)
    → Returns NoFault (find_message msg l) (λ g. Unit {0})
    → Returns NoFault
        (set_rtt msg now l)
        (λ k. NonEmpty k × Returns NoFault (find_message msg k) (λ g. Unit {0}))
unfolding set_rtt find_message
set_rtt-found msg now [] h = h
set_rtt-found msg now (m ∷ l) h = elim (Bool-cases (m.msg_no == msg)) [
  | inl t ↦ rw (Returns, t) (tt, rw (Returns, t) tt)
  | inr f ↦
      rw (Returns, f)
        (>>=-Returns NoFault (set_rtt msg now l) _ _ _ (set_rtt-found msg now l (rw f at h))
          (λ k x. (tt, rw (Returns, f) x.1)))
]

update_record-found :
    (msg : ℕ) (now : Timespec) (r : PacketRecord)
    → Returns NoFault (find_message msg r.msg_records) (λ g. Unit {0})
    → Returns NoFault
        (update_record acked msg 0 now r)
        (λ r'. Returns NoFault (find_message msg r'.msg_records) (λ g. Unit {0}))
unfolding update_record update_messages
update_record-found msg now r h =
    >>=-Returns NoFault (set_rtt msg now r.msg_records) _
      (λ k. NonEmpty k × Returns NoFault (find_message msg k) (λ g. Unit {0})) _
      (set_rtt-found msg now r.msg_records h)
      (λ k (e, x).
        >>=-Returns NoFault (last_message k) _ (λ m. Unit {0}) _ (last_message-Returns k e)
          (λ m y. x))

-- An acknowledgement of a message that was sent does not fail, and the message stays.
pub on_ack-Recorded :
    (n msg : ℕ) (now : Timespec) (t : PacketTracker)
    → Recorded n msg t
    → Returns NoFault (on_ack n msg now t) (Recorded n msg)
unfolding on_ack settle get_message_record
on_ack-Recorded n msg now t h = elim (Option-cases (find n t.packet_record_map)) [
  | inl e ↦ rw (Returns, e) h
  | inr (r, e) ↦
      rw (Returns, e)
        (>>=-Returns NoFault (find_message msg r.msg_records) _ (λ g. Unit {0}) _ (h r e)
          (λ g x.
            >>=-Returns NoFault (update_record acked msg 0 now r) _
              (λ r'. Returns NoFault (find_message msg r'.msg_records) (λ g. Unit {0})) _
              (update_record-found msg now r (h r e))
              (λ r' y q f.
                let u =
                  find-update n n r' t.packet_record_map
                    (find-contains n r t.packet_record_map e) in
                let same : r' ≡ q = ground (arith, u, f) in
                subst (λ z. Returns NoFault (find_message msg z.msg_records) (λ g. Unit {0})) same
                  y)))
]

module _ (n msg : ℕ) (t : PacketTracker) (h : Recorded n msg t) where
  pub get_packet_id-Recorded : Returns NoFault (get_packet_id n msg t) (λ id. Unit {0})
  unfolding get_packet_id get_message_record
  get_packet_id-Recorded = elim (Option-cases (find n t.packet_record_map)) [
    | inl e ↦ rw (Returns, e) tt
    | inr (r, e) ↦
        rw (Returns, e)
          (>>=-Returns NoFault (find_message msg r.msg_records) _ (λ g. Unit {0}) _ (h r e)
            (λ g x. tt))
  ]

  pub get_packet_rtt-Recorded : Returns NoFault (get_packet_rtt n msg t) (λ rtt. Unit {0})
  unfolding get_packet_rtt get_message_record
  get_packet_rtt-Recorded = elim (Option-cases (find n t.packet_record_map)) [
    | inl e ↦ rw (Returns, e) tt
    | inr (r, e) ↦
        rw (Returns, e)
          (>>=-Returns NoFault (find_message msg r.msg_records) _ (λ g. Unit {0}) _ (h r e)
            (λ g x. tt))
  ]
