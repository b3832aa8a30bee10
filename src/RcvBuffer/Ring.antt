-- ===== src/RcvBuffer/Ring.antt =====
-- core/buffer.{h,cpp}, `CRcvBuffer`: its state, and the operations but those on messages. A unit is
-- held by value where the code holds a pointer, since no two places of the ring point at one unit;
-- `unit_count` is the number of used units of the unit queue. The offset of the bytes already read
-- (`m_iNotch`) never exceeds the length of the first unit, so that differences are of numbers.
use pcc_uspace.Base.{
  ℕ, zero, suc, ◌+◌, ◌-◌, ◌%◌, ◌||◌, min, Option, none, some, List, [], ◌∷◌, ◌++◌, leb, ltb, ◌==◌,
  if◌then◌else◌, length, take, drop, get_or, set,
}
use pcc_uspace.Base.Int.{ℤ, pos, negsuc, ◌+ℤ◌, ◌-ℤ◌, eqb_ℤ}
use pcc_uspace.Base.Result.{Result, ok, err, ◌>>=◌, null_unit}

-- A packet of the unit queue: the members that the buffer reads, and the flag.
pub record PacketUnit : Type 0 where
  pub seq_no : ℤ
  pub msg_no : ℤ
  pub payload : List ℕ
  pub flag : ℕ

pub record RcvBuffer : Type 0 where
  pub units : List (Option PacketUnit)
  pub size : ℕ
  pub start_pos : ℕ
  pub last_ack_pos : ℕ
  pub max_pos : ℕ
  pub notch : ℕ
  pub ack_queue : List ℤ
  pub seq_offset : ℤ
  pub unit_count : ℤ

unfoldable pub empty_units : ℕ → List (Option PacketUnit)
empty_units zero = []
empty_units (suc n) = none ∷ empty_units n

unfoldable pub new_rcv_buffer : ℤ → ℤ → ℕ → RcvBuffer
unfolding empty_units
new_rcv_buffer count first_seq_no bufsize = record {
  units = empty_units bufsize;
  size = bufsize;
  start_pos = 0;
  last_ack_pos = 0;
  max_pos = 0;
  notch = 0;
  ack_queue = [];
  seq_offset = first_seq_no;
  unit_count = count;
}

unfoldable pub get_rcv_data_size : RcvBuffer → ℕ
get_rcv_data_size b =
    if leb b.start_pos b.last_ack_pos
    then b.last_ack_pos - b.start_pos
    else b.size + b.last_ack_pos - b.start_pos

unfoldable pub get_avail_buf_size : RcvBuffer → ℕ
unfolding get_rcv_data_size
get_avail_buf_size b = b.size - get_rcv_data_size b - 1

-- The search of `addData` for an empty place, n rounds from the offset i on: the offset.
unfoldable pub find_hole : RcvBuffer → ℕ → ℕ → Option ℕ
find_hole b zero i = none
find_hole b (suc n) i =
    let rest = find_hole b n (i + 1) in
    elim (get_or b.units ((b.last_ack_pos + i) % b.size) none) [ none ↦ some i | some u ↦ rest ]

-- `m_iMaxPos -= i`, but not below 0.
unfoldable pub move_ack : RcvBuffer → Option ℕ → ℤ × RcvBuffer
move_ack b none = (pos 0, b)
move_ack b (some i) =
    (pos i, record b { last_ack_pos = (b.last_ack_pos + i) % b.size; max_pos = b.max_pos - i })

unfoldable pub put_unit : PacketUnit → ℕ → RcvBuffer → RcvBuffer
unfolding ◌+ℤ◌
put_unit u place b = record b {
  units = set b.units place (some (record u { flag = 1 }));
  unit_count = b.unit_count +ℤ pos 1;
}

unfoldable pub add_data : PacketUnit → ℕ → RcvBuffer → ℤ × RcvBuffer
unfolding find_hole move_ack put_unit
add_data u offset b =
    let c = record b { max_pos = if ltb b.max_pos offset then offset else b.max_pos } in
    let place = (b.last_ack_pos + offset) % b.size in
    let d = put_unit u place c in
    elim (get_or c.units place none) [
      | some v ↦ (negsuc 0, c)
      | none ↦ move_ack d (find_hole d (d.max_pos + 2) 0)
    ]

-- The unit at a place, which the code dereferences.
unfoldable pub unit_at : RcvBuffer → ℕ → Result PacketUnit
unit_at b p = elim (get_or b.units p none) [ none ↦ err null_unit | some u ↦ ok u ]

-- The first place is emptied, and its unit is free again.
unfoldable pub next_unit : RcvBuffer → RcvBuffer
unfolding ◌-ℤ◌
next_unit b = record b {
  units = set b.units b.start_pos none;
  unit_count = b.unit_count -ℤ pos 1;
  start_pos = if b.start_pos + 1 == b.size then 0 else b.start_pos + 1;
  notch = 0;
}

-- What a round of the loop of `readBuffer` leaves, of a unit with some bytes left to read.
unfoldable pub after_round : ℕ → ℕ → RcvBuffer → RcvBuffer
unfolding next_unit
after_round left rs b =
    if ltb left rs || rs == left then next_unit b else record b { notch = b.notch + rs }

-- The loop: at most n rounds, with rs bytes to read. It gives the bytes and what remains of rs.
unfoldable pub read_loop : ℕ → RcvBuffer → ℕ → Result (List ℕ × ℕ × RcvBuffer)
unfolding unit_at after_round
read_loop zero b rs = ok ([], rs, b)
read_loop (suc n) b rs = if b.start_pos == b.last_ack_pos || rs == 0 then ok ([], rs, b) else do
  u ← unit_at b b.start_pos
  let left = length u.payload - b.notch
  (bytes, remaining, c) ← read_loop n (after_round left rs b) (rs - min left rs)
  ok (take (min left rs) (drop b.notch u.payload) ++ bytes, remaining, c)

-- The bytes, their number, and the buffer. Each round but the last frees a place.
unfoldable pub read_buffer : ℕ → RcvBuffer → Result (List ℕ × ℕ × RcvBuffer)
unfolding read_loop get_rcv_data_size
read_buffer len b = do
  (bytes, remaining, c) ← read_loop (get_rcv_data_size b) b len
  ok (bytes, len - remaining, c)

-- The loop of `AckData`; its counter i stays 2.
unfoldable pub pop_acked : RcvBuffer → List ℤ → ℕ → ℕ × List ℤ
unfolding ◌-ℤ◌
pop_acked b [] count = (count, [])
pop_acked b (t ∷ l) count =
    let rest = pop_acked b l (count + 1) in
    if eqb_ℤ (t -ℤ b.seq_offset) (pos (b.last_ack_pos + 2)) then rest else (count, t ∷ l)

unfoldable pub ack_data : ℤ → RcvBuffer → RcvBuffer
unfolding pop_acked ◌-ℤ◌
ack_data seq_no b =
    let (count, queue) =
      if eqb_ℤ (seq_no -ℤ b.seq_offset) (pos (b.last_ack_pos + 1))
      then pop_acked b b.ack_queue 1
      else (0, b.ack_queue) in
    record b {
      ack_queue = queue;
      last_ack_pos = (b.last_ack_pos + count) % b.size;
      max_pos = b.max_pos - count;
    }
