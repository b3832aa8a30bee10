-- ===== src/Packets/Header.antt =====
-- core/packet.{h,cpp}, `CPacket`: the four words of the header, `pack`, and the fields that are
-- read. A word is a natural number below 2 ^ 32; shifts and masks are quotients and remainders by
-- powers of 2. `D` is what a pointer to control information points at.
use pcc_uspace.Base.{ℕ, Bool, ◌+◌, ◌-◌, ◌*◌, ◌/◌, ◌%◌, ◌^◌, Option, none, some, ◌==◌, if◌then◌else◌}
use pcc_uspace.Base.Int.{ℤ, pos, negsuc}
use pcc_uspace.Base.Result.{Result, ok, err, ◌>>=◌, null_parameter}
use pcc_uspace.Windows.Int32.{to_int32}

-- `uint32_t` from `int32_t`.
unfoldable pub to_word : ℤ → ℕ
to_word (pos n) = n % 2 ^ 32
to_word (negsuc n) = 2 ^ 32 - 1 - n % 2 ^ 32

-- The base of the second vector: NULL, the packet's own `__pad`, or what the caller gave.
pub data Content (D : Type 0) : Type 0 where
  null_base : Content D
  pad_base : Content D
  given : D → Content D

-- The first word: the sequence number, or the bit 0 with the type.
pub record Packet (D : Type 0) : Type 0 where
  pub seq_no : ℕ
  pub msg_no : ℕ
  pub time_stamp : ℕ
  pub id : ℕ
  pub base : Content D
  pub len : ℤ

-- The cases of the switch in `pack`.
pub data PacketType : Type 0 where
  handshake keep_alive ack nak congestion_warning shutdown : PacketType
  ack2 drop_request error_signal user_defined undefined : PacketType

unfoldable pub packet_type : ℕ → PacketType
packet_type t =
    if t == 0
    then handshake
    else if t == 1
    then keep_alive
    else if t == 2
    then ack
    else if t == 3
    then nak
    else if t == 4
    then congestion_warning
    else if t == 5
    then shutdown
    else if t == 6
    then ack2
    else if t == 7
    then drop_request
    else if t == 8
    then error_signal
    else if t == 32767
    then user_defined
    else undefined

-- 0x80000000 | (pkttype << 16).
unfoldable pub control_word : ℕ → ℕ
control_word t = 2 ^ 31 + t * 2 ^ 16 % 2 ^ 31

module _ {D : Type 0} where
  unfoldable pub new_packet : Packet D
  new_packet = record {
    seq_no = 0;
    msg_no = 0;
    time_stamp = 0;
    id = 0;
    base = null_base;
    len = pos 0;
  }

  unfoldable pub base_of : Option D → Content D
  base_of none = null_base
  base_of (some d) = given d

  -- `*(int32_t *)lparam`, written to the second word.
  unfoldable pub write_number : Option ℤ → Packet D → Result (Packet D)
  unfolding to_word
  write_number none p = err null_parameter
  write_number (some n) p = ok (record p { msg_no = to_word n })

  unfoldable pub write_given : Option D → ℤ → Packet D → Packet D
  unfolding base_of
  write_given r size p = record p { base = base_of r; len = size }

  unfoldable pub write_pad : Packet D → Packet D
  write_pad p = record p { base = pad_base; len = pos 4 }

  unfoldable pub pack_case : PacketType → Option ℤ → Option D → ℤ → Packet D → Result (Packet D)
  unfolding write_number write_given write_pad
  pack_case ack none r size p = ok (write_given r size p)
  pack_case ack (some n) r size p = do q ← write_number (some n) p; ok (write_given r size q)
  pack_case ack2 l r size p = do q ← write_number l p; ok (write_pad q)
  pack_case nak l r size p = ok (write_given r size p)
  pack_case congestion_warning l r size p = ok (write_pad p)
  pack_case keep_alive l r size p = ok (write_pad p)
  pack_case handshake l r size p = ok (write_given r size p)
  pack_case shutdown l r size p = ok (write_pad p)
  pack_case drop_request l r size p = do q ← write_number l p; ok (write_given r size q)
  pack_case error_signal l r size p = do q ← write_number l p; ok (write_pad q)
  pack_case user_defined l none size p = ok (write_pad p)
  pack_case user_defined l (some d) size p = ok (write_given (some d) size p)
  pack_case undefined l r size p = ok p

  unfoldable pub pack : ℕ → Option ℤ → Option D → ℤ → Packet D → Result (Packet D)
  unfolding packet_type control_word pack_case
  pack t l r size p = pack_case (packet_type t) l r size (record p { seq_no = control_word t })

  unfoldable pub get_length : Packet D → ℤ
  get_length p = p.len

  unfoldable pub set_length : ℤ → Packet D → Packet D
  set_length n p = record p { len = n }

  unfoldable pub get_flag : Packet D → ℕ
  get_flag p = p.seq_no / 2 ^ 31

  unfoldable pub get_type : Packet D → ℕ
  get_type p = p.seq_no / 2 ^ 16 % 2 ^ 15

  unfoldable pub get_extended_type : Packet D → ℕ
  get_extended_type p = p.seq_no % 2 ^ 16

  unfoldable pub get_ack_seq_no : Packet D → ℤ
  unfolding to_int32
  get_ack_seq_no p = to_int32 p.msg_no

  unfoldable pub get_msg_boundary : Packet D → ℕ
  get_msg_boundary p = p.msg_no / 2 ^ 30

  unfoldable pub get_msg_order_flag : Packet D → Bool
  get_msg_order_flag p = p.msg_no / 2 ^ 29 % 2 == 1

  unfoldable pub get_msg_seq : Packet D → ℕ
  get_msg_seq p = p.msg_no % 2 ^ 29
