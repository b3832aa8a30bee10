-- ===== src/Tracker/Reads.antt =====
-- core/packet_tracker.h: the questions that `PacketTracker` answers. Those on a queue first drop
-- the packets whose record is gone.
use pcc_uspace.Base.{ℕ, Bool, true, false, List, [], ◌∷◌, none, some, if◌then◌else◌}
use pcc_uspace.Base.Result.{Result, ok, err, ◌>>=◌, top_of_empty, not_recorded}
use pcc_uspace.Tracker.Maps.{find, contains}
use pcc_uspace.Tracker.Record.{
  PacketState, none_state, Timespec, PacketRecord, packet_size, get_message_record,
  most_recent_msg_no,
}
use pcc_uspace.Tracker.Defs.{PacketTracker, find_sent}

-- `GetPacketSentTime`, `GetPacketId` and `GetPacketRtt`: zero for a packet with no record.
unfoldable pub get_sent_time : ℕ → ℕ → PacketTracker → Result Timespec
unfolding find get_message_record
get_sent_time seq_no msg_no t = elim (find seq_no t.packet_record_map) [
  | none ↦ ok (record { tv_sec = 0; tv_nsec = 0 })
  | some r ↦ get_message_record msg_no r >>= λ m. ok m.sent_time
]

unfoldable pub get_packet_id : ℕ → ℕ → PacketTracker → Result ℕ
unfolding find get_message_record
get_packet_id seq_no msg_no t = elim (find seq_no t.packet_record_map) [
  | none ↦ ok 0
  | some r ↦ get_message_record msg_no r >>= λ m. ok m.packet_id
]

unfoldable pub get_packet_rtt : ℕ → ℕ → PacketTracker → Result ℕ
unfolding find get_message_record
get_packet_rtt seq_no msg_no t = elim (find seq_no t.packet_record_map) [
  | none ↦ ok 0
  | some r ↦ get_message_record msg_no r >>= λ m. ok m.rtt_us
]

unfoldable pub get_packet_state : ℕ → PacketTracker → PacketState
unfolding find
get_packet_state seq_no t = elim (find seq_no t.packet_record_map) [
  | none ↦ none_state
  | some r ↦ r.packet_state
]

unfoldable pub get_packet_size : ℕ → PacketTracker → ℕ
unfolding find packet_size
get_packet_size seq_no t = elim (find seq_no t.packet_record_map) [
  | none ↦ 0
  | some r ↦ packet_size r
]

unfoldable pub get_last_msg_no : ℕ → PacketTracker → ℕ
unfolding find most_recent_msg_no
get_last_msg_no seq_no t = elim (find seq_no t.packet_record_map) [
  | none ↦ 0
  | some r ↦ most_recent_msg_no r.msg_records
]

unfoldable pub get_payload : ℕ → PacketTracker → Result (List ℕ)
unfolding find
get_payload seq_no t = elim (find seq_no t.packet_record_map) [
  | none ↦ err not_recorded
  | some r ↦ ok r.payload
]

-- The loop of the four operations below.
unfoldable pub drop_unrecorded : List (ℕ × PacketRecord) → List ℕ → List ℕ
unfolding contains
drop_unrecorded m [] = []
drop_unrecorded m (n ∷ l) = if contains n m then n ∷ l else drop_unrecorded m l

abbrev pub has_top : List ℕ → Bool
has_top [] = false
has_top (n ∷ l) = true

abbrev pub top_or_zero : List ℕ → ℕ
top_or_zero [] = 0
top_or_zero (n ∷ l) = n

unfoldable pub purge_sendable : PacketTracker → PacketTracker
unfolding drop_unrecorded
purge_sendable t = record t { send_queue = drop_unrecorded t.packet_record_map t.send_queue }

unfoldable pub purge_retransmittable : PacketTracker → PacketTracker
unfolding drop_unrecorded
purge_retransmittable t = record t {
  retransmittable_queue = drop_unrecorded t.packet_record_map t.retransmittable_queue;
}

unfoldable pub has_sendable_packets : PacketTracker → Bool × PacketTracker
unfolding purge_sendable
has_sendable_packets t = (has_top (purge_sendable t).send_queue, purge_sendable t)

unfoldable pub get_lowest_sendable_seq_no : PacketTracker → ℕ × PacketTracker
unfolding purge_sendable
get_lowest_sendable_seq_no t = (top_or_zero (purge_sendable t).send_queue, purge_sendable t)

unfoldable pub has_retransmittable_packets : PacketTracker → Bool × PacketTracker
unfolding purge_retransmittable
has_retransmittable_packets t =
    (has_top (purge_retransmittable t).retransmittable_queue, purge_retransmittable t)

unfoldable pub get_lowest_retransmittable_seq_no : PacketTracker → ℕ × PacketTracker
unfolding purge_retransmittable
get_lowest_retransmittable_seq_no t =
    (top_or_zero (purge_retransmittable t).retransmittable_queue, purge_retransmittable t)

abbrev pub has_sent_packets : PacketTracker → Bool
has_sent_packets t = elim t.sent_queue [ [] ↦ false | x ∷ l ↦ true ]

-- The loop of `GetOldestSentSeqNo` on a queue that is not empty.
unfoldable pub oldest_sent : List (Timespec × ℕ) → List Timespec → ℕ × List Timespec
unfolding find_sent
oldest_sent m [] = (0, [])
oldest_sent m (x ∷ l) = elim (find_sent x m) [ none ↦ oldest_sent m l | some n ↦ (n, x ∷ l) ]

-- `GetOldestSentSeqNo`: it reads the top before it tests whether the queue is empty.
unfoldable pub get_oldest_sent_seq_no : PacketTracker → Result (ℕ × PacketTracker)
unfolding oldest_sent
get_oldest_sent_seq_no t = elim t.sent_queue [
  | [] ↦ err top_of_empty
  | x ∷ l ↦ ok (
    (oldest_sent t.sent_time_map (x ∷ l)).0,
    record t { sent_queue = (oldest_sent t.sent_time_map (x ∷ l)).1 },
  )
]
