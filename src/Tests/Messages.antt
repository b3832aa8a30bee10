-- ===== src/Tests/Messages.antt =====
-- core/packet.cpp: control packets that are packed, and a handshake that is sent.
use pcc_uspace.Base.{
  ℕ, ◌≡◌, refl, ◌+◌, ◌*◌, ◌^◌, List, [], ◌∷◌, Option, none, some, true, false, if◌then◌else◌, arith,
}
use pcc_uspace.Base.Int.{ℤ, pos, negsuc, ltb_ℤ}
use pcc_uspace.Base.Result.{err, Returns, NoFault, null_parameter}
use pcc_uspace.Packets.Header.{
  Packet, new_packet, packet_type, pack, get_ack_seq_no, get_msg_boundary, get_msg_order_flag,
  get_msg_seq,
}
use pcc_uspace.Packets.HandShake.{HandShake, new_handshake, serialize, deserialize, content_size}
use pcc_uspace.Packets.Laws.{
  IsControl, carries_number, needs_number, pack-IsControl, pack-get_ack_seq_no, pack-none,
}
use pcc_uspace.Packets.RoundTrip.{HasWords, serialize-deserialize}

abbrev no_data : Option ℕ
no_data = none

abbrev blank : Packet ℕ
blank = new_packet

pack-IsControl_example :
    Returns NoFault
      (pack 6 (some (pos 17)) none (pos 0) blank)
      (λ q. IsControl 6 q × (q.time_stamp ≡ blank.time_stamp) × (q.id ≡ blank.id))
pack-IsControl_example = pack-IsControl 6 (pos 17) none (pos 0) blank (omega arith)

ack2_carries : carries_number (packet_type 6) ≡ true
unfolding carries_number packet_type
ack2_carries = refl

pack-get_ack_seq_no_example :
    Returns NoFault (pack 6 (some (pos 17)) none (pos 0) blank) (λ q. get_ack_seq_no q ≡ pos 17)
pack-get_ack_seq_no_example =
    pack-get_ack_seq_no 6 (pos 17) none (pos 0) blank ack2_carries (omega arith)

pack-none_example :
    if needs_number (packet_type 8)
    then pack 8 none no_data (pos 0) blank ≡ err null_parameter
    else Returns NoFault (pack 8 none none (pos 0) blank) (IsControl 8)
pack-none_example = pack-none 8 none (pos 0) blank (omega arith)

-- The first packet of a message in order, number 5.
unfoldable first_of_message : Packet ℕ
unfolding new_packet
first_of_message = record blank { msg_no = 2 * 2 ^ 30 + 2 ^ 29 + 5 }

first_fields :
    (get_msg_boundary first_of_message ≡ 2)
    × (get_msg_order_flag first_of_message ≡ true)
    × (get_msg_seq first_of_message ≡ 5)
unfolding get_msg_boundary get_msg_order_flag get_msg_seq first_of_message
first_fields = (refl, refl, refl)

unfoldable offer : HandShake
unfolding new_handshake
offer = record new_handshake {
  version = pos 4;
  isn = pos 1000;
  mss = pos 1500;
  req_type = negsuc 0;
  peer_ip0 = 4294967295;
}

offer-HasWords : HasWords offer
unfolding offer new_handshake
offer-HasWords = record {
  ip0_fits = omega arith;
  ip1_fits = omega arith;
  ip2_fits = omega arith;
  ip3_fits = omega arith;
}

abbrev buffer : List ℤ
buffer =
    pos 9
    ∷ pos 9
    ∷ pos 9
    ∷ pos 9
    ∷ pos 9
    ∷ pos 9
    ∷ pos 9
    ∷ pos 9
    ∷ pos 9
    ∷ pos 9
    ∷ pos 9
    ∷ pos 9
    ∷ pos 9
    ∷ []

large_enough : ltb_ℤ (pos 52) (pos content_size) ≡ false
large_enough = refl

serialize-deserialize_example :
    deserialize
      (serialize offer buffer (pos 52)).2
      (serialize offer buffer (pos 52)).1
      new_handshake
    ≡ (pos 0, offer)
serialize-deserialize_example =
    serialize-deserialize offer new_handshake buffer (pos 52) offer-HasWords (omega arith)
      large_enough
