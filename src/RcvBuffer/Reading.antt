-- ===== src/RcvBuffer/Reading.antt =====
-- core/buffer.cpp, `CRcvBuffer`: `readBuffer` on the stream of bytes.
use mathlib.Core.Path.{subst}
use native.Mathlib.Nat.{mod-eq_of_lt}
use pcc_uspace.Base.{
  ℕ, zero, suc, ◌+◌, ◌-◌, ◌%◌, ◌≡◌, sym, ap, ◌∙◌, min, false, Option, none, some, List, [], ◌∷◌,
  ◌++◌, ltb, ltb→lt, ◌==◌, ◌||◌, length, take, drop, get_or, arith, Bool-cases, inl, inr,
  length-take, drop_none, take_none,
}
use pcc_uspace.Base.Result.{ok, ◌>>=◌, Returns, NoFault, >>=-Returns}
use pcc_uspace.Windows.Entries.{mod-wrap, plus_suc}
use pcc_uspace.RcvBuffer.Ring.{
  PacketUnit, RcvBuffer, get_rcv_data_size, unit_at, next_unit, after_round, read_loop, read_buffer,
}
use pcc_uspace.RcvBuffer.Stream.{collect, bytes_of, HasUnits, cons_found}
use pcc_uspace.RcvBuffer.Rounds.{
  unread, other_place, others_same, next_unit-HasUnits, Done, or_true, still_reading,
  read_loop-zero, read_nothing, unit_left, unit_bytes, nothing_wanted, read_whole, read_part,
}

-- The place to read from is not the end while a unit is left.
not_at_end :
    (b : RcvBuffer) (n : ℕ) (l : List PacketUnit)
    → HasUnits b (suc n) l
    → (b.start_pos == b.last_ack_pos) ≡ false
not_at_end b n l h = ground (
  arith,
  ap (λ p. p % b.size) (plus_suc b.start_pos n) ∙ h.reaches,
  other_place b.start_pos b.size n h.start_inside h.room,
)

-- At the end there is nothing to read.
read_end : (b : RcvBuffer) (rs : ℕ) → HasUnits b 0 [] → Done (unread b []) rs ([], rs, b)
unfolding bytes_of
read_end b rs h =
    subst (λ s. Done s rs ([], rs, b)) (sym (drop_none b.notch))
      (record {
        bytes_read = sym (take_none rs);
        still_wanted = omega arith;
        places_left = 0;
        units_left = [];
        stand_left = h;
        bytes_left = drop_none b.notch ∙ sym (drop_none rs);
      })

-- The unit at the place to read from.
unit_found :
    (b : RcvBuffer) (n : ℕ) (u : PacketUnit) (l : List PacketUnit)
    → HasUnits b (suc n) (u ∷ l)
    → unit_at b b.start_pos ≡ ok u
unfolding unit_at collect
unit_found b n u l h = rw (
  unit_at,
  ap (λ p. get_or b.units p none) (sym (mod-eq_of_lt h.start_inside))
      ∙ (others_same (get_or b.units (b.start_pos % b.size) none)
          (collect b.units b.size n (b.start_pos + 1)) u l h.collected).0,
)

never_empty : (o : Option PacketUnit) (r : Option (List PacketUnit)) → ¬ (cons_found o r ≡ some [])
unfolding cons_found
never_empty none r e = cc
never_empty (some u) none e = cc
never_empty (some u) (some l) e = cc

-- A round on a unit, from what the rounds behind it do.
read_round :
    (n : ℕ) (b : RcvBuffer) (u : PacketUnit) (l : List PacketUnit) (rs : ℕ)
    → HasUnits b (suc n) (u ∷ l)
    → Returns NoFault
        (read_loop n (next_unit b) (rs - min (unit_left b u l rs) rs))
        (Done (unread (next_unit b) l) (rs - min (unit_left b u l rs) rs))
    → Returns NoFault
        (read_loop n (after_round (unit_left b u l rs) rs b) (rs - min (unit_left b u l rs) rs)
          >>= (λ r. ok (take (min (unit_left b u l rs) rs) (unit_bytes b u l rs) ++ r.0, r.1, r.2)))
        (Done (unread b (u ∷ l)) rs)
unfolding after_round
read_round n b u l rs h rest =
    elim (Bool-cases (ltb (unit_left b u l rs) rs || rs == unit_left b u l rs)) [
      | inl whole ↦ rw (whole) (
          >>=-Returns NoFault (read_loop n (next_unit b) (rs - min (unit_left b u l rs) rs)) _
            (Done (unread (next_unit b) l) (rs - min (unit_left b u l rs) rs)) _ rest
            (λ r d. read_whole b u l rs n r h (ground arith) d))
      | inr part ↦
          rw
            (
              part,
              nothing_wanted b u l rs (ground arith),
              read_loop-zero n (record b { notch = b.notch + rs }),
            )
            (read_part b u l rs n h (ground arith))
    ]

pub read_loop-Done :
    (n : ℕ) (b : RcvBuffer) (l : List PacketUnit) (rs : ℕ)
    → HasUnits b n l
    → Returns NoFault (read_loop n b rs) (Done (unread b l) rs)
unfolding read_loop collect
read_loop-Done zero b [] rs h = read_end b rs h
read_loop-Done zero b (u ∷ l) rs h = absurd (cc (h.collected))
read_loop-Done (suc n) b l zero h =
    rw (or_true (b.start_pos == b.last_ack_pos)) (read_nothing b (suc n) l h)
read_loop-Done (suc n) b [] (suc rs) h = absurd (never_empty _ _ h.collected)
read_loop-Done (suc n) b (u ∷ l) (suc rs) h =
    rw
      (
        Returns,
        still_reading (b.start_pos == b.last_ack_pos) rs (not_at_end b n (u ∷ l) h),
        unit_found b n u l h,
      )
      (read_round n b u l (suc rs) h (
        read_loop-Done n (next_unit b) l (suc rs - min (unit_left b u l (suc rs)) (suc rs))
          (next_unit-HasUnits b n u l h)))

-- The places up to the last acknowledged one are as many as the buffer says.
size_unique :
    (b : RcvBuffer) (n : ℕ) (l : List PacketUnit) → HasUnits b n l → get_rcv_data_size b ≡ n
unfolding get_rcv_data_size
size_unique b n l h = elim (Bool-cases (ltb (b.start_pos + n) b.size)) [
  | inl inside ↦ ground (
    arith,
    h.reaches,
    h.room,
    h.start_inside,
    mod-eq_of_lt (ltb→lt (b.start_pos + n) b.size inside),
  )
  | inr wrapped ↦
      ground (arith, h.reaches, h.room, h.start_inside, mod-wrap (b.start_pos + n) b.size)
]

-- A buffer that holds units in all places up to the last acknowledged one.
abbrev pub Holds : RcvBuffer → List PacketUnit → Type 0
Holds b l = HasUnits b (get_rcv_data_size b) l

-- What a call gives from a stream, and the units that hold what it leaves of it.
pub record IsRead (s : List ℕ) (len : ℕ) (r : List ℕ × ℕ × RcvBuffer) : Type 0 where
  pub bytes : r.0 ≡ take len s
  pub number : r.1 ≡ length r.0
  pub others : List PacketUnit
  pub holds : Holds r.2 others
  pub remain : unread r.2 others ≡ drop len s

-- From a buffer that holds a unit in each place up to the last acknowledged one, `read_buffer`
-- meets no empty place, gives the first bytes that were not read yet, as many as wanted or as
-- there are, with their number, and leaves a buffer that holds units with exactly the other bytes.
pub read_buffer-IsRead :
    (b : RcvBuffer) (l : List PacketUnit) (len : ℕ)
    → Holds b l
    → Returns NoFault (read_buffer len b) (IsRead (unread b l) len)
unfolding read_buffer
read_buffer-IsRead b l len h =
    >>=-Returns NoFault (read_loop (get_rcv_data_size b) b len) _ (Done (unread b l) len)
      (IsRead (unread b l) len) (read_loop-Done (get_rcv_data_size b) b l len h)
      (λ r d. record {
        bytes = d.bytes_read;
        number =
            omega (arith, d.still_wanted, ap length d.bytes_read, length-take len (unread b l));
        others = d.units_left;
        holds =
            subst (λ n. HasUnits r.2 n d.units_left)
              (sym (size_unique r.2 d.places_left d.units_left d.stand_left)) d.stand_left;
        remain = d.bytes_left;
      })
