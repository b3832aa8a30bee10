-- ===== src/Tracker/Defs.antt =====
-- core/packet_tracker.h, the class `PacketTracker`. Each operation runs under the tracker's lock, so
-- it is one step; `DeletePacketRecord` also says whether it signals the condition variable. The
-- sequence numbers are `int32_t` and the packet ids `uint64_t`, as core.h has them.
use pcc_uspace.Base.{
  ℕ, Bool, true, false, not, ◌+◌, ◌-◌, ◌%◌, List, [], ◌∷◌, Option, none, some, leb, ltb, ◌==◌,
  if◌then◌else◌, zero, suc,
}
use pcc_uspace.Base.Result.{
  Result, ok, err, ◌>>=◌, ◌>>◌, check, top_of_empty, null_min_seq, min_seq_overflow,
  already_recorded, not_recorded, not_queued, sent_out_of_order, retransmitted_out_of_order,
}
use pcc_uspace.Quic.Bandwidth.{u64}
use pcc_uspace.Tracker.Maps.{find, contains, erase, update}
use pcc_uspace.Tracker.Record.{
  PacketState, queued, sent, acked, lost, is_queued, Timespec, timespec_eq, timespec_le, Packet,
  PacketRecord, new_record, get_message_record, update_record,
}

pub record PacketTracker : Type 0 where
  pub packet_record_map : List (ℕ × PacketRecord)
  pub retransmittable_queue : List ℕ
  pub send_queue : List ℕ
  pub sent_queue : List Timespec
  pub sent_time_map : List (Timespec × ℕ)
  pub prev_packet_id : ℕ
  pub cur_num_packets : ℕ
  pub cur_min_seq : Option ℕ

-- kArbitraryPacketLimit, and the number behind the largest `int32_t`.
abbrev pub arbitrary_packet_limit : ℕ
arbitrary_packet_limit = 100000

abbrev pub seq_end : ℕ
seq_end = 2147483648

unfoldable pub new_tracker : PacketTracker
new_tracker = record {
  packet_record_map = [];
  retransmittable_queue = [];
  send_queue = [];
  sent_queue = [];
  sent_time_map = [];
  prev_packet_id = 0;
  cur_num_packets = 0;
  cur_min_seq = none;
}

unfoldable pub can_enqueue_packet : PacketTracker → Bool
can_enqueue_packet t = ltb t.cur_num_packets arbitrary_packet_limit

-- `push` of the two kinds of priority queues.
unfoldable pub push_seq : ℕ → List ℕ → List ℕ
push_seq n [] = n ∷ []
push_seq n (k ∷ l) = if leb n k then n ∷ k ∷ l else k ∷ push_seq n l

unfoldable pub push_time : Timespec → List Timespec → List Timespec
push_time x [] = x ∷ []
push_time x (y ∷ l) = if timespec_le x y then x ∷ y ∷ l else y ∷ push_time x l

-- `sent_time_map_`: an `insert` keeps the value of a time that is there.
unfoldable pub find_sent : Timespec → List (Timespec × ℕ) → Option ℕ
find_sent x [] = none
find_sent x ((y, n) ∷ m) = if timespec_eq x y then some n else find_sent x m

unfoldable pub insert_sent : Timespec → ℕ → List (Timespec × ℕ) → List (Timespec × ℕ)
unfolding find_sent
insert_sent x n m = elim (find_sent x m) [ none ↦ (x, n) ∷ m | some k ↦ m ]

unfoldable pub erase_sent : Timespec → List (Timespec × ℕ) → List (Timespec × ℕ)
erase_sent x [] = []
erase_sent x ((y, n) ∷ m) = if timespec_eq x y then m else (y, n) ∷ erase_sent x m

unfoldable pub least_seq : Option ℕ → ℕ → ℕ
least_seq none n = n
least_seq (some k) n = if ltb n k then n else k

-- `EnqueuePacket`.
unfoldable pub enqueue_packet : Packet → PacketTracker → Result PacketTracker
unfolding least_seq contains new_record push_seq
enqueue_packet p t = do
  check (not (contains p.seq_no t.packet_record_map)) already_recorded
  ok (record t {
    cur_min_seq = some (least_seq t.cur_min_seq p.seq_no);
    packet_record_map = (p.seq_no, new_record p queued) ∷ t.packet_record_map;
    send_queue = push_seq p.seq_no t.send_queue;
    cur_num_packets = t.cur_num_packets + 1;
  })

unfoldable pub top : List ℕ → Result ℕ
top [] = err top_of_empty
top (n ∷ l) = ok n

unfoldable pub pop : List ℕ → List ℕ
pop [] = []
pop (n ∷ l) = l

-- Takes the packet from the queue that its state names.
unfoldable pub take_from_queue : Bool → ℕ → PacketTracker → Result PacketTracker
unfolding top pop
take_from_queue true seq_no t = do
  n ← top t.send_queue
  check (seq_no == n) sent_out_of_order
  ok (record t { send_queue = pop t.send_queue })
take_from_queue false seq_no t = do
  n ← top t.retransmittable_queue
  check (seq_no == n) retransmitted_out_of_order
  ok (record t { retransmittable_queue = pop t.retransmittable_queue })

unfoldable pub send_recorded :
    Option PacketRecord → Packet → Timespec → PacketTracker → Result PacketTracker
unfolding take_from_queue update update_record get_message_record push_time insert_sent
send_recorded none p now t = err not_queued
send_recorded (some r) p now t = do
  t' ← take_from_queue (is_queued r.packet_state) p.seq_no t
  let id = (t'.prev_packet_id + 1) % u64
  r' ← update_record sent p.msg_no id now r
  m ← get_message_record p.msg_no r'
  ok (record t' {
    prev_packet_id = id;
    packet_record_map = update p.seq_no r' t'.packet_record_map;
    sent_queue = push_time m.sent_time t'.sent_queue;
    sent_time_map = insert_sent m.sent_time p.seq_no t'.sent_time_map;
  })

-- `OnPacketSent`.
unfoldable pub on_sent : Packet → Timespec → PacketTracker → Result PacketTracker
unfolding find send_recorded
on_sent p now t = send_recorded (find p.seq_no t.packet_record_map) p now t

-- The part that `OnPacketAck` and `OnPacketLoss` share: the packet's record takes the new state.
unfoldable pub settle :
    PacketState → PacketRecord → ℕ → ℕ → Timespec → PacketTracker → Result PacketTracker
unfolding get_message_record erase_sent update_record update
settle st r seq_no msg_no now t = do
  m ← get_message_record msg_no r
  r' ← update_record st msg_no 0 now r
  ok (record t {
    sent_time_map = erase_sent m.sent_time t.sent_time_map;
    packet_record_map = update seq_no r' t.packet_record_map;
  })

-- `OnPacketAck`, which ignores a packet with no record.
unfoldable pub on_ack : ℕ → ℕ → Timespec → PacketTracker → Result PacketTracker
unfolding find settle
on_ack seq_no msg_no now t = elim (find seq_no t.packet_record_map) [
  | none ↦ ok t
  | some r ↦ settle acked r seq_no msg_no now t
]

-- `OnPacketLoss`.
unfoldable pub on_loss : ℕ → ℕ → Timespec → PacketTracker → Result PacketTracker
unfolding find settle push_seq
on_loss seq_no msg_no now t = elim (find seq_no t.packet_record_map) [
  | none ↦ ok t
  | some r ↦ settle lost r seq_no msg_no now t >>= λ t'.
      ok (record t' { retransmittable_queue = push_seq seq_no t'.retransmittable_queue })
]

-- The loop of `DeletePacketRecord`: the least recorded number from `n` on. The first argument
-- counts the numbers up to the largest `int32_t`, behind which the increment overflows.
unfoldable pub next_recorded : ℕ → ℕ → List (ℕ × PacketRecord) → Result ℕ
unfolding contains
next_recorded zero n m = err min_seq_overflow
next_recorded (suc room) n m = elim (contains n m) [
  | true ↦ ok n
  | false ↦ next_recorded room (n + 1) m
]

unfoldable pub next_min : Option ℕ → ℕ → ℕ → List (ℕ × PacketRecord) → Result (Option ℕ)
unfolding next_recorded
next_min none seq_no num m = err null_min_seq
next_min (some k) seq_no num m =
    if k == seq_no
    then (if num == 0
        then ok none
        else (do n ← next_recorded (seq_end - (k + 1)) (k + 1) m; ok (some n)))
    else ok (some k)

-- `DeletePacketRecord`.
unfoldable pub delete_packet_record : ℕ → PacketTracker → Result (Bool × PacketTracker)
unfolding contains erase next_min
delete_packet_record seq_no t = do
  check (contains seq_no t.packet_record_map) not_recorded
  let m = erase seq_no t.packet_record_map
  let num = t.cur_num_packets - 1
  least ← next_min t.cur_min_seq seq_no num m
  ok (
    ltb num arbitrary_packet_limit,
    record t { packet_record_map = m; cur_num_packets = num; cur_min_seq = least },
  )

unfoldable pub get_min_seq_no : PacketTracker → Result ℕ
get_min_seq_no t = elim t.cur_min_seq [ none ↦ err null_min_seq | some n ↦ ok n ]
