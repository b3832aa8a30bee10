-- ===== src/Tracker/Record.antt =====
-- core/packet_tracker.h, the class `PacketRecord`: one packet and the messages that carried it.
use pcc_uspace.Base.{
  ℕ, Bool, true, false, ◌&&◌, List, [], ◌∷◌, ◌++◌, leb, ltb, ◌==◌, if◌then◌else◌, length,
}
use pcc_uspace.Base.Int.{pos, ◌+ℤ◌, ◌-ℤ◌, ◌*ℤ◌}
use pcc_uspace.Base.Result.{Result, ok, err, ◌>>=◌, no_message_record, back_of_empty}
use pcc_uspace.Quic.Time.{div_ℤ}
use pcc_uspace.Quic.Bandwidth.{to_u64}

pub data PacketState : Type 0 where
  none_state queued sent acked lost : PacketState

-- `struct timespec` of the monotonic clock.
pub record Timespec : Type 0 where
  pub tv_sec : ℕ
  pub tv_nsec : ℕ

-- `operator==` of core.cpp.
abbrev pub timespec_eq : Timespec → Timespec → Bool
timespec_eq a b = (a.tv_sec == b.tv_sec) && (a.tv_nsec == b.tv_nsec)

-- `a` stands no later than `b`.
abbrev pub timespec_le : Timespec → Timespec → Bool
timespec_le a b = if a.tv_sec == b.tv_sec then leb a.tv_nsec b.tv_nsec else ltb a.tv_sec b.tv_sec

pub record MessageRecord : Type 0 where
  pub rtt_us : ℕ
  pub msg_no : ℕ
  pub packet_id : ℕ
  pub sent_time : Timespec

-- The fields of `CPacket` that the tracker reads; `payload` are the bytes at `m_pcData`.
pub record Packet : Type 0 where
  pub seq_no : ℕ
  pub msg_no : ℕ
  pub payload : List ℕ

-- `packet_size_` is the length of the payload.
pub record PacketRecord : Type 0 where
  pub packet_state : PacketState
  pub payload : List ℕ
  pub seq_no : ℕ
  pub msg_records : List MessageRecord

abbrev pub is_queued : PacketState → Bool
is_queued queued = true
is_queued _ = false

unfoldable pub new_record : Packet → PacketState → PacketRecord
new_record p st = record {
  packet_state = st;
  payload = p.payload;
  seq_no = p.seq_no;
  msg_records = [];
}

unfoldable pub packet_size : PacketRecord → ℕ
packet_size r = length r.payload

unfoldable pub find_message : ℕ → List MessageRecord → Result MessageRecord
find_message n [] = err no_message_record
find_message n (m ∷ l) = if m.msg_no == n then ok m else find_message n l

-- `SafeGetMessageRecord`.
unfoldable pub get_message_record : ℕ → PacketRecord → Result MessageRecord
unfolding find_message
get_message_record n r = find_message n r.msg_records

unfoldable pub last_message : List MessageRecord → Result MessageRecord
last_message [] = err back_of_empty
last_message (m ∷ []) = ok m
last_message (m ∷ k ∷ l) = last_message (k ∷ l)

-- The number of the last message, or 0 where there is none.
unfoldable pub most_recent_msg_no : List MessageRecord → ℕ
most_recent_msg_no [] = 0
most_recent_msg_no (m ∷ []) = m.msg_no
most_recent_msg_no (m ∷ k ∷ l) = most_recent_msg_no (k ∷ l)

-- The microseconds between two times; the quotient truncates towards zero and the sum is
-- converted to `uint64_t`.
unfoldable pub elapsed_us : Timespec → Timespec → ℕ
unfolding to_u64 div_ℤ ◌+ℤ◌ ◌-ℤ◌ ◌*ℤ◌
elapsed_us start now = to_u64 (
    pos 1000000 *ℤ (pos now.tv_sec -ℤ pos start.tv_sec)
    +ℤ div_ℤ (pos now.tv_nsec -ℤ pos start.tv_nsec) 1000)

-- The first message with the number takes the RTT that ends now.
unfoldable pub set_rtt : ℕ → Timespec → List MessageRecord → Result (List MessageRecord)
unfolding elapsed_us
set_rtt n now [] = err no_message_record
set_rtt n now (m ∷ l) =
    let rest = set_rtt n now l in
    if m.msg_no == n
    then ok (record m { rtt_us = elapsed_us m.sent_time now } ∷ l)
    else (do l' ← rest; ok (m ∷ l'))

-- The first part of `UpdateRecord`; `now` is what `clock_gettime` gives.
unfoldable pub update_messages :
    PacketState → ℕ → ℕ → Timespec → List MessageRecord → Result (List MessageRecord)
unfolding set_rtt
update_messages sent msg_no id now l =
    ok (l ++ (record { rtt_us = 0; msg_no = msg_no; packet_id = id; sent_time = now } ∷ []))
update_messages acked msg_no id now l = set_rtt msg_no now l
update_messages _ msg_no id now l = ok l

-- `UpdateRecord`: the state changes only for the last message.
unfoldable pub update_record : PacketState → ℕ → ℕ → Timespec → PacketRecord → Result PacketRecord
unfolding update_messages last_message
update_record st msg_no id now r = do
  l ← update_messages st msg_no id now r.msg_records
  m ← last_message l
  ok (record r {
    msg_records = l;
    packet_state = if msg_no == m.msg_no then st else r.packet_state;
  })
