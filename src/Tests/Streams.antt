-- ===== src/Tests/Streams.antt =====
-- core/buffer.cpp: a ring of three places with two packets, of which five bytes are read.
use pcc_uspace.Base.{ℕ, ◌≡◌, refl, List, [], ◌∷◌, arith}
use pcc_uspace.Base.Int.{pos, ◌+ℤ◌, ◌-ℤ◌}
use pcc_uspace.Base.Result.{Result, ok, Returns, NoFault}
use pcc_uspace.RcvBuffer.Ring.{
  PacketUnit, RcvBuffer, new_rcv_buffer, empty_units, get_rcv_data_size, find_hole, move_ack,
  put_unit, add_data, unit_at, next_unit, after_round, read_loop, read_buffer,
}
use pcc_uspace.RcvBuffer.Stream.{collect, cons_found, first_length}
use pcc_uspace.RcvBuffer.Rounds.{unread}
use pcc_uspace.RcvBuffer.Reading.{Holds, IsRead, read_buffer-IsRead}

abbrev packet : ℕ → List ℕ → PacketUnit
packet n bytes = record { seq_no = pos n; msg_no = pos 1; payload = bytes; flag = 1 }

abbrev first_packet : PacketUnit
first_packet = packet 10 (1 ∷ 2 ∷ 3 ∷ 4 ∷ [])

abbrev second_packet : PacketUnit
second_packet = packet 11 (5 ∷ 6 ∷ 7 ∷ [])

-- The second packet comes before the first, and one byte was read of it since.
unfoldable two_packets : RcvBuffer
unfolding new_rcv_buffer add_data
two_packets =
    record (add_data first_packet 0
      (add_data second_packet 1 (new_rcv_buffer (pos 0) (pos 10) 3)).1).1 { notch = 1 }

-- The second packet leaves a hole, the first fills it.
acked : get_rcv_data_size two_packets ≡ 2
unfolding two_packets get_rcv_data_size new_rcv_buffer add_data empty_units find_hole move_ack
    put_unit ◌+ℤ◌
acked = refl

two_packets-Holds : Holds two_packets (first_packet ∷ second_packet ∷ [])
unfolding two_packets get_rcv_data_size new_rcv_buffer add_data empty_units find_hole move_ack
    put_unit ◌+ℤ◌ collect cons_found first_length
two_packets-Holds = record {
  units_length = refl;
  start_inside = omega arith;
  room = omega arith;
  reaches = refl;
  collected = refl;
  notch_inside = omega arith;
}

read_buffer-IsRead_example :
    Returns NoFault
      (read_buffer 5 two_packets)
      (IsRead (unread two_packets (first_packet ∷ second_packet ∷ [])) 5)
read_buffer-IsRead_example =
    read_buffer-IsRead two_packets (first_packet ∷ second_packet ∷ []) 5 two_packets-Holds

-- The bytes of a result.
abbrev bytes_in : Result (List ℕ × ℕ × RcvBuffer) → List ℕ
bytes_in (ok r) = r.0
bytes_in _ = []

five_read : bytes_in (read_buffer 5 two_packets) ≡ 2 ∷ 3 ∷ 4 ∷ 5 ∷ 6 ∷ []
unfolding read_buffer read_loop unit_at after_round next_unit two_packets get_rcv_data_size
    new_rcv_buffer add_data empty_units find_hole move_ack put_unit ◌+ℤ◌ ◌-ℤ◌
five_read = refl
