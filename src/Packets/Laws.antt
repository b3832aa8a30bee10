-- ===== src/Packets/Laws.antt =====
-- core/packet.cpp: the fields of a packet that was packed, and a handshake that was sent.
use pcc_uspace.Base.{
  ℕ, Bool, true, false, ◌≡◌, refl, ap, ◌∙◌, ◌≤◌, ◌<◌, ◌/◌, ◌%◌, ◌^◌, Option, none, some,
  if◌then◌else◌, arith,
}
use pcc_uspace.Base.Int.{ℤ, pos, negsuc}
use pcc_uspace.Base.Result.{err, Returns, Returns-mono, NoFault, null_parameter}
use pcc_uspace.Windows.Int32.{to_int32}
use pcc_uspace.Packets.Header.{
  to_word, Packet, PacketType, handshake, keep_alive, ack, nak, congestion_warning, shutdown, ack2,
  drop_request, error_signal, user_defined, undefined, packet_type, control_word, write_number,
  write_given, write_pad, pack_case, pack, get_flag, get_type, get_extended_type, get_ack_seq_no,
}

-- The integers that 32 bits hold.
abbrev pub IsInt32 : ℤ → Type 0
IsInt32 (pos n) = n < 2 ^ 31
IsInt32 (negsuc n) = n < 2 ^ 31

pub to_word-to_int32 : (n : ℕ) → n < 2 ^ 32 → to_word (to_int32 n) ≡ n
unfolding to_word to_int32
to_word-to_int32 n h = ground arith

to_int32-to_word : (n : ℤ) → IsInt32 n → to_int32 (to_word n) ≡ n
unfolding to_word to_int32
to_int32-to_word (pos n) h = ground arith
to_int32-to_word (negsuc n) h = ground arith

-- The types whose `lparam` is written to the packet.
unfoldable pub carries_number : PacketType → Bool
carries_number ack = true
carries_number ack2 = true
carries_number drop_request = true
carries_number error_signal = true
carries_number _ = false

-- The types for which a NULL `lparam` is read.
unfoldable pub needs_number : PacketType → Bool
needs_number ack2 = true
needs_number drop_request = true
needs_number error_signal = true
needs_number _ = false

control_word-flag : (t : ℕ) → t ≤ 32767 → control_word t / 2 ^ 31 ≡ 1
unfolding control_word
control_word-flag t h = omega arith

control_word-type : (t : ℕ) → t ≤ 32767 → control_word t / 2 ^ 16 % 2 ^ 15 ≡ t
unfolding control_word
control_word-type t h = omega arith

control_word-extended : (t : ℕ) → control_word t % 2 ^ 16 ≡ 0
unfolding control_word
control_word-extended t = omega arith

-- A statement with a weaker second branch.
else-mono : (b : Bool) (P Q R : Type 0) → (Q → R) → (if b then P else Q) → (if b then P else R)
else-mono true P Q R f h = h
else-mono false P Q R f h = f h

-- A packet with another base and length, and perhaps another second word.
record SameHeader {D : Type 0} (p q : Packet D) : Type 0 where
  same_seq : q.seq_no ≡ p.seq_no
  same_time : q.time_stamp ≡ p.time_stamp
  same_id : q.id ≡ p.id

module _ {D : Type 0} where
  same :
      (p q : Packet D)
      → q.seq_no ≡ p.seq_no
      → q.time_stamp ≡ p.time_stamp
      → q.id ≡ p.id
      → SameHeader p q
  same p q a b c = record { same_seq = a; same_time = b; same_id = c }

  -- A number that `lparam` points at is always read.
  pack_case-SameHeader :
      (k : PacketType) (n : ℤ) (r : Option D) (size : ℤ) (p : Packet D)
      → Returns NoFault (pack_case k (some n) r size p) (SameHeader p)
  unfolding pack_case write_number write_given write_pad
  pack_case-SameHeader ack n r size p = same p _ refl refl refl
  pack_case-SameHeader ack2 n r size p = same p _ refl refl refl
  pack_case-SameHeader nak n r size p = same p _ refl refl refl
  pack_case-SameHeader congestion_warning n r size p = same p _ refl refl refl
  pack_case-SameHeader keep_alive n r size p = same p _ refl refl refl
  pack_case-SameHeader handshake n r size p = same p _ refl refl refl
  pack_case-SameHeader shutdown n r size p = same p _ refl refl refl
  pack_case-SameHeader drop_request n r size p = same p _ refl refl refl
  pack_case-SameHeader error_signal n r size p = same p _ refl refl refl
  pack_case-SameHeader user_defined n none size p = same p _ refl refl refl
  pack_case-SameHeader user_defined n (some d) size p = same p _ refl refl refl
  pack_case-SameHeader undefined n r size p = same p _ refl refl refl

  -- The second word holds the number, for the types that carry one.
  pack_case-number :
      (k : PacketType) (n : ℤ) (r : Option D) (size : ℤ) (p : Packet D)
      → carries_number k ≡ true
      → Returns NoFault (pack_case k (some n) r size p) (λ q. q.msg_no ≡ to_word n)
  unfolding pack_case write_number write_given write_pad carries_number
  pack_case-number ack n r size p h = refl
  pack_case-number ack2 n r size p h = refl
  pack_case-number drop_request n r size p h = refl
  pack_case-number error_signal n r size p h = refl
  pack_case-number nak n r size p h = cc
  pack_case-number congestion_warning n r size p h = cc
  pack_case-number keep_alive n r size p h = cc
  pack_case-number handshake n r size p h = cc
  pack_case-number shutdown n r size p h = cc
  pack_case-number user_defined n r size p h = cc
  pack_case-number undefined n r size p h = cc

  -- Without a number, the types that need one fail, and the others do not.
  pack_case-none :
      (k : PacketType) (r : Option D) (size : ℤ) (p : Packet D)
      → (if needs_number k
          then pack_case k none r size p ≡ err null_parameter
          else Returns NoFault (pack_case k none r size p) (SameHeader p))
  unfolding pack_case write_number write_given write_pad needs_number
  pack_case-none ack r size p = same p _ refl refl refl
  pack_case-none ack2 r size p = refl
  pack_case-none nak r size p = same p _ refl refl refl
  pack_case-none congestion_warning r size p = same p _ refl refl refl
  pack_case-none keep_alive r size p = same p _ refl refl refl
  pack_case-none handshake r size p = same p _ refl refl refl
  pack_case-none shutdown r size p = same p _ refl refl refl
  pack_case-none drop_request r size p = refl
  pack_case-none error_signal r size p = refl
  pack_case-none user_defined none size p = same p _ refl refl refl
  pack_case-none user_defined (some d) size p = same p _ refl refl refl
  pack_case-none undefined r size p = same p _ refl refl refl

  -- The fields of the first word that say what a control packet is.
  pub record IsControl (t : ℕ) (q : Packet D) : Type 0 where
    pub is_flagged : get_flag q ≡ 1
    pub has_type : get_type q ≡ t
    pub not_extended : get_extended_type q ≡ 0

  header-IsControl : (t : ℕ) (q : Packet D) → t ≤ 32767 → q.seq_no ≡ control_word t → IsControl t q
  unfolding get_flag get_type get_extended_type
  header-IsControl t q h e = record {
    is_flagged = ap (λ x. x / 2 ^ 31) e ∙ control_word-flag t h;
    has_type = ap (λ x. x / 2 ^ 16 % 2 ^ 15) e ∙ control_word-type t h;
    not_extended = ap (λ x. x % 2 ^ 16) e ∙ control_word-extended t;
  }

  -- Packing a control packet of any type up to 0x7FFF with a number to read does not fail, gives
  -- the flag 1, the type and the extended type 0, and keeps the time stamp and the socket's id.
  pub pack-IsControl :
      (t : ℕ) (n : ℤ) (r : Option D) (size : ℤ) (p : Packet D)
      → t ≤ 32767
      → Returns NoFault
          (pack t (some n) r size p)
          (λ q. IsControl t q × (q.time_stamp ≡ p.time_stamp) × (q.id ≡ p.id))
  unfolding pack
  pack-IsControl t n r size p h =
      let started = record p { seq_no = control_word t } in
      Returns-mono NoFault (pack_case (packet_type t) (some n) r size started) (SameHeader started)
        _ (λ q k. (header-IsControl t q h k.same_seq, k.same_time, k.same_id))
        (pack_case-SameHeader (packet_type t) n r size started)

  -- For the types that carry a number, packing an `int32_t` does not fail, and the number is read
  -- back.
  pub pack-get_ack_seq_no :
      (t : ℕ) (n : ℤ) (r : Option D) (size : ℤ) (p : Packet D)
      → carries_number (packet_type t) ≡ true
      → IsInt32 n
      → Returns NoFault (pack t (some n) r size p) (λ q. get_ack_seq_no q ≡ n)
  unfolding pack get_ack_seq_no
  pack-get_ack_seq_no t n r size p c h =
      let started = record p { seq_no = control_word t } in
      Returns-mono NoFault (pack_case (packet_type t) (some n) r size started) _ _
        (λ q k. ap to_int32 k ∙ to_int32-to_word n h)
        (pack_case-number (packet_type t) n r size started c)

  -- X
  pub pack-none :
      (t : ℕ) (r : Option D) (size : ℤ) (p : Packet D)
      → t ≤ 32767
      → (if needs_number (packet_type t)
          then pack t none r size p ≡ err null_parameter
          else Returns NoFault (pack t none r size p) (IsControl t))
  unfolding pack
  pack-none t r size p h =
      let started = record p { seq_no = control_word t } in
      else-mono (needs_number (packet_type t)) _ _ _
        (Returns-mono NoFault (pack_case (packet_type t) none r size started) _ _
          (λ q k. header-IsControl t q h k.same_seq))
        (pack_case-none (packet_type t) r size started)
