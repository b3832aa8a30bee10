-- ===== src/Packets/HandShake.antt =====
-- core/packet.{h,cpp}, `CHandShake`. A buffer is the list of the 32-bit words that the code writes
-- and reads through an `int32_t` pointer; its size in bytes is an argument, as in the code.
use pcc_uspace.Base.{ℕ, ◌+◌, List, [], ◌∷◌, get_or, set, if◌then◌else◌}
use pcc_uspace.Base.Int.{ℤ, pos, negsuc, ltb_ℤ}
use pcc_uspace.Windows.Int32.{to_int32}
use pcc_uspace.Packets.Header.{to_word}

pub record HandShake : Type 0 where
  pub version : ℤ
  pub type : ℤ
  pub isn : ℤ
  pub mss : ℤ
  pub flight_flag_size : ℤ
  pub req_type : ℤ
  pub id : ℤ
  pub cookie : ℤ
  -- The four words of m_piPeerIP.
  pub peer_ip0 : ℕ
  pub peer_ip1 : ℕ
  pub peer_ip2 : ℕ
  pub peer_ip3 : ℕ

abbrev pub content_size : ℕ
content_size = 48

unfoldable pub new_handshake : HandShake
new_handshake = record {
  version = pos 0;
  type = pos 0;
  isn = pos 0;
  mss = pos 0;
  flight_flag_size = pos 0;
  req_type = pos 0;
  id = pos 0;
  cookie = pos 0;
  peer_ip0 = 0;
  peer_ip1 = 0;
  peer_ip2 = 0;
  peer_ip3 = 0;
}

-- The twelve words of a handshake, in the order in which they are written.
unfoldable pub words : HandShake → List ℤ
unfolding to_int32
words h =
    h.version
    ∷ h.type
    ∷ h.isn
    ∷ h.mss
    ∷ h.flight_flag_size
    ∷ h.req_type
    ∷ h.id
    ∷ h.cookie
    ∷ to_int32 h.peer_ip0
    ∷ to_int32 h.peer_ip1
    ∷ to_int32 h.peer_ip2
    ∷ to_int32 h.peer_ip3
    ∷ []

-- Words written to a buffer one after the other, from an index on.
unfoldable pub write_words : List ℤ → ℕ → List ℤ → List ℤ
write_words [] k buf = buf
write_words (x ∷ l) k buf = write_words l (k + 1) (set buf k x)

-- The result, the size after the call, and the buffer.
unfoldable pub serialize : HandShake → List ℤ → ℤ → ℤ × ℤ × List ℤ
unfolding words write_words
serialize h buf size =
    if ltb_ℤ size (pos content_size)
    then (negsuc 0, size, buf)
    else (pos 0, pos content_size, write_words (words h) 0 buf)

-- The members that the twelve words of a buffer set.
unfoldable pub read_words : List ℤ → HandShake
unfolding to_word
read_words buf = record {
  version = get_or buf 0 (pos 0);
  type = get_or buf 1 (pos 0);
  isn = get_or buf 2 (pos 0);
  mss = get_or buf 3 (pos 0);
  flight_flag_size = get_or buf 4 (pos 0);
  req_type = get_or buf 5 (pos 0);
  id = get_or buf 6 (pos 0);
  cookie = get_or buf 7 (pos 0);
  peer_ip0 = to_word (get_or buf 8 (pos 0));
  peer_ip1 = to_word (get_or buf 9 (pos 0));
  peer_ip2 = to_word (get_or buf 10 (pos 0));
  peer_ip3 = to_word (get_or buf 11 (pos 0));
}

-- The result, and the handshake after the call.
unfoldable pub deserialize : List ℤ → ℤ → HandShake → ℤ × HandShake
unfolding read_words
deserialize buf size h =
    if ltb_ℤ size (pos content_size) then (negsuc 0, h) else (pos 0, read_words buf)
