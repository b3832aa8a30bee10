-- ===== src/Packets/RoundTrip.antt =====
-- core/packet.cpp: a handshake written to a buffer and read from it.
use pcc_uspace.Base.{
  ℕ, zero, suc, ◌≡◌, refl, ap, ◌∙◌, ◌≤◌, ◌<◌, ◌+◌, ◌^◌, List, [], ◌∷◌, length, length-set, get_or,
  set, get_or-set_self, get_or-set_ne, arith, false,
}
use pcc_uspace.Base.Int.{ℤ, pos, ltb_ℤ}
use pcc_uspace.Packets.HandShake.{
  HandShake, words, write_words, serialize, read_words, deserialize, content_size,
}
use pcc_uspace.Packets.Laws.{to_word-to_int32}

plus_zero : (k : ℕ) → k + 0 ≡ k
plus_zero k = omega arith

none_plus : (i : ℕ) → i ≡ 0 + i
none_plus i = omega arith

plus_suc : (k i : ℕ) → k + suc i ≡ k + 1 + i
plus_suc k i = omega arith

-- A word before the written ones stays.
write_words_before :
    (l : List ℤ) (k i : ℕ) (buf : List ℤ)
    → i < k
    → get_or (write_words l k buf) i (pos 0) ≡ get_or buf i (pos 0)
unfolding write_words
write_words_before [] k i buf h = refl
write_words_before (x ∷ l) k i buf h =
    write_words_before l (k + 1) i (set buf k x) (omega (arith, h))
    ∙ get_or-set_ne buf k i x (pos 0) (λ e. omega (arith, h, e))

-- A written word is read where it was written.
get_or-write_words :
    (l : List ℤ) (k i : ℕ) (buf : List ℤ)
    → i < length l
    → k + length l ≤ length buf
    → get_or (write_words l k buf) (k + i) (pos 0) ≡ get_or l i (pos 0)
unfolding write_words
get_or-write_words [] k i buf h b = absurd (omega arith)
get_or-write_words (x ∷ l) k zero buf h b =
    ap (λ j. get_or (write_words l (k + 1) (set buf k x)) j (pos 0)) (plus_zero k)
    ∙ write_words_before l (k + 1) k (set buf k x) (omega arith)
    ∙ get_or-set_self buf k x (pos 0) (omega (arith, b))
get_or-write_words (x ∷ l) k (suc i) buf h b =
    ap (λ j. get_or (write_words l (k + 1) (set buf k x)) j (pos 0)) (plus_suc k i)
    ∙ get_or-write_words l (k + 1) i (set buf k x) (omega (arith, h))
        (omega (arith, b, length-set buf k x))

-- The words of the address are `uint32_t`.
pub record HasWords (h : HandShake) : Type 0 where
  pub ip0_fits : h.peer_ip0 < 2 ^ 32
  pub ip1_fits : h.peer_ip1 < 2 ^ 32
  pub ip2_fits : h.peer_ip2 < 2 ^ 32
  pub ip3_fits : h.peer_ip3 < 2 ^ 32

read-write :
    (h : HandShake) (buf : List ℤ)
    → HasWords h
    → 12 ≤ length buf
    → read_words (write_words (words h) 0 buf) ≡ h
unfolding read_words words
read-write h buf fits b = rw (
  at 0 (omega arith),
  at 1 (omega arith),
  at 2 (omega arith),
  at 3 (omega arith),
  at 4 (omega arith),
  at 5 (omega arith),
  at 6 (omega arith),
  at 7 (omega arith),
  at 8 (omega arith),
  at 9 (omega arith),
  at 10 (omega arith),
  at 11 (omega arith),
  to_word-to_int32 h.peer_ip0 fits.ip0_fits,
  to_word-to_int32 h.peer_ip1 fits.ip1_fits,
  to_word-to_int32 h.peer_ip2 fits.ip2_fits,
  to_word-to_int32 h.peer_ip3 fits.ip3_fits,
)
  where
    at :
        (i : ℕ)
        → i < 12
        → get_or (write_words (words h) 0 buf) i (pos 0) ≡ get_or (words h) i (pos 0)
    at i below =
        ap (λ j. get_or (write_words (words h) 0 buf) j (pos 0)) (none_plus i)
        ∙ get_or-write_words (words h) 0 i buf (omega (arith, below)) (omega (arith, b))

-- A handshake whose address words are `uint32_t`, written to a buffer of at least twelve words
-- whose size is given as no less than 48, is read back from it as it was.
pub serialize-deserialize :
    (h old : HandShake) (buf : List ℤ) (size : ℤ)
    → HasWords h
    → 12 ≤ length buf
    → ltb_ℤ size (pos content_size) ≡ false
    → deserialize (serialize h buf size).2 (serialize h buf size).1 old ≡ (pos 0, h)
unfolding serialize deserialize
serialize-deserialize h old buf size fits b enough =
    rw (enough) (ap (λ g. (pos 0, g)) (read-write h buf fits b))
