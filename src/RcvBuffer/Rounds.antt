-- ===== src/RcvBuffer/Rounds.antt =====
-- core/buffer.cpp, `CRcvBuffer`: one round of the loop of `readBuffer` on the stream of bytes.
use mathlib.Core.Path.{subst, ap₂}
use native.Mathlib.Nat.{mod-lt, mod-eq_of_lt, mod-add-mod}
use mathlib.Core.List.{append-nil}
use pcc_uspace.Base.{
  ℕ, zero, suc, ◌+◌, ◌-◌, ◌%◌, ◌≤◌, ◌<◌, ◌≡◌, refl, sym, ap, ◌∙◌, min, Bool, true, false, Option,
  none, some, List, [], ◌∷◌, ◌++◌, ltb, ltb→lt, ◌==◌, ◌||◌, length, take, drop, get_or, set,
  get_or-set_ne, length-set, arith, Bool-cases, inl, inr, take-append_long, drop-append_long,
  take-append_short, drop-append_short, length-append, length-drop, take_all, drop-drop,
}
use pcc_uspace.Base.Result.{ok}
use pcc_uspace.Windows.Entries.{mod-wrap, plus_suc, next_index}
use pcc_uspace.RcvBuffer.Ring.{PacketUnit, RcvBuffer, next_unit, read_loop}
use pcc_uspace.RcvBuffer.Stream.{
  collect, bytes_of, first_length, HasUnits, collect-agree, cons_found,
}

-- The bytes that are left to read of some units.
abbrev pub unread : RcvBuffer → List PacketUnit → List ℕ
unread b l = drop b.notch (bytes_of l)

-- The next place to read from is none of the places behind it.
pub other_place : (p size k : ℕ) → p < size → suc k < size → ¬ (p ≡ (p + 1 + k) % size)
other_place p size k h r e = elim (Bool-cases (ltb (p + 1 + k) size)) [
  | inl inside ↦ ground (arith, mod-eq_of_lt (ltb→lt (p + 1 + k) size inside))
  | inr wrapped ↦ ground (arith, mod-wrap (p + 1 + k) size)
]

-- The index behind the place to read from, in both forms.
next_place :
    (b : RcvBuffer) → b.start_pos < b.size → (next_unit b).start_pos ≡ (b.start_pos + 1) % b.size
unfolding next_unit
next_place b h = sym (next_index b.start_pos b.size h)

pub others_same :
    (o : Option PacketUnit) (r : Option (List PacketUnit)) (u : PacketUnit) (l : List PacketUnit)
    → cons_found o r ≡ some (u ∷ l)
    → (o ≡ some u) × (r ≡ some l)
unfolding cons_found
others_same none r u l h = cc
others_same (some v) none u l h = cc
others_same (some v) (some k) u l h = (cc, cc)

-- A place that is freed leaves the units behind it.
pub next_unit-HasUnits :
    (b : RcvBuffer) (n : ℕ) (u : PacketUnit) (l : List PacketUnit)
    → HasUnits b (suc n) (u ∷ l)
    → HasUnits (next_unit b) n l
unfolding next_unit collect
next_unit-HasUnits b n u l h =
    let place = next_place b h.start_inside in
    record {
      units_length = length-set b.units b.start_pos none ∙ h.units_length;
      start_inside =
          subst (λ p. p < b.size) (sym place)
            (mod-lt (b.start_pos + 1) (omega (arith, h.start_inside)));
      room = omega (arith, h.room);
      reaches =
          ap (λ p. (p + n) % b.size) place
          ∙ mod-add-mod (b.start_pos + 1) b.size n
          ∙ ap (λ p. p % b.size) (plus_suc b.start_pos n)
          ∙ h.reaches;
      collected =
          collect-agree (set b.units b.start_pos none) b.units b.size n (next_unit b).start_pos
            (b.start_pos + 1)
            (λ k below.
              ap (λ p. get_or (set b.units b.start_pos none) ((p + k) % b.size) none) place
              ∙ ap (λ p. get_or (set b.units b.start_pos none) p none)
                  (mod-add-mod (b.start_pos + 1) b.size k)
              ∙ get_or-set_ne b.units b.start_pos ((b.start_pos + 1 + k) % b.size) none none
                  (other_place b.start_pos b.size k h.start_inside (omega (arith, h.room, below))))
          ∙ (others_same (get_or b.units (b.start_pos % b.size) none)
              (collect b.units b.size n (b.start_pos + 1)) u l h.collected).1;
      notch_inside = omega arith;
    }

-- What a read of rs bytes from a stream gives, of which some units are left.
pub record Done (s : List ℕ) (rs : ℕ) (r : List ℕ × ℕ × RcvBuffer) : Type 0 where
  pub bytes_read : r.0 ≡ take rs s
  pub still_wanted : r.1 ≡ rs - length s
  pub places_left : ℕ
  pub units_left : List PacketUnit
  pub stand_left : HasUnits r.2 places_left units_left
  pub bytes_left : unread r.2 units_left ≡ drop rs s

pub or_true : (a : Bool) → (a || true) ≡ true
or_true true = refl
or_true false = refl

pub still_reading : (a : Bool) (rs : ℕ) → a ≡ false → (a || suc rs == 0) ≡ false
still_reading true rs h = cc
still_reading false rs h = ground arith

-- Where nothing is wanted, nothing is read.
pub read_loop-zero : (n : ℕ) (b : RcvBuffer) → read_loop n b 0 ≡ ok ([], 0, b)
unfolding read_loop
read_loop-zero zero b = refl
read_loop-zero (suc n) b = rw (or_true (b.start_pos == b.last_ack_pos))

pub read_nothing :
    (b : RcvBuffer) (n : ℕ) (l : List PacketUnit) → HasUnits b n l → Done (unread b l) 0 ([], 0, b)
read_nothing b n l h = record {
  bytes_read = refl;
  still_wanted = omega arith;
  places_left = n;
  units_left = l;
  stand_left = h;
  bytes_left = refl;
}

-- The unread bytes of the first unit, before those of the others.
unread_first :
    (b : RcvBuffer) (u : PacketUnit) (l : List PacketUnit)
    → b.notch ≤ length u.payload
    → unread b (u ∷ l) ≡ drop b.notch u.payload ++ bytes_of l
unfolding bytes_of
unread_first b u l h = drop-append_short b.notch u.payload (bytes_of l) h

-- A unit that is read to its end.
module _ (b : RcvBuffer) (u : PacketUnit) (l : List PacketUnit) (rs : ℕ) where
  abbrev pub unit_left : ℕ
  unit_left = length u.payload - b.notch

  abbrev pub unit_bytes : List ℕ
  unit_bytes = drop b.notch u.payload

  length-unit_bytes : length unit_bytes ≡ unit_left
  length-unit_bytes = length-drop b.notch u.payload

  split : b.notch ≤ length u.payload → unread b (u ∷ l) ≡ unit_bytes ++ bytes_of l
  split h = unread_first b u l h

  length-unread :
      b.notch ≤ length u.payload → length (unread b (u ∷ l)) ≡ unit_left + length (bytes_of l)
  length-unread h =
      ap length (split h)
      ∙ length-append unit_bytes (bytes_of l)
      ∙ ap (λ k. k + length (bytes_of l)) length-unit_bytes

  rest_wanted : unit_left ≤ rs → rs - min unit_left rs ≡ rs - length unit_bytes
  rest_wanted h = omega (arith, h, length-unit_bytes)

  all_taken : unit_left ≤ rs → length unit_bytes ≤ min unit_left rs
  all_taken h = omega (arith, h, length-unit_bytes)

  part_taken : rs < unit_left → min unit_left rs ≡ rs
  part_taken h = omega (arith, h)

  pub nothing_wanted : rs < unit_left → rs - min unit_left rs ≡ 0
  nothing_wanted h = omega (arith, h)

  pub read_whole :
      (n : ℕ) (r : List ℕ × ℕ × RcvBuffer)
      → HasUnits b (suc n) (u ∷ l)
      → unit_left ≤ rs
      → Done (unread (next_unit b) l) (rs - min unit_left rs) r
      → Done (unread b (u ∷ l)) rs (take (min unit_left rs) unit_bytes ++ r.0, r.1, r.2)
  unfolding next_unit first_length
  read_whole n r h long d =
      let fits = subst (λ k. k ≤ rs) (sym length-unit_bytes) long in
      record {
        bytes_read =
            ap₂ ◌++◌ (take_all (min unit_left rs) unit_bytes (all_taken long))
              (d.bytes_read ∙ ap (λ k. take k (bytes_of l)) (rest_wanted long))
            ∙ sym (take-append_long rs unit_bytes (bytes_of l) fits)
            ∙ ap (take rs) (sym (split h.notch_inside));
        still_wanted = omega (arith, d.still_wanted, length-unread h.notch_inside, long);
        places_left = d.places_left;
        units_left = d.units_left;
        stand_left = d.stand_left;
        bytes_left =
            d.bytes_left
            ∙ ap (λ k. drop k (bytes_of l)) (rest_wanted long)
            ∙ sym (drop-append_long rs unit_bytes (bytes_of l) fits)
            ∙ ap (drop rs) (sym (split h.notch_inside));
      }

  pub read_part :
      (n : ℕ)
      → HasUnits b (suc n) (u ∷ l)
      → rs < unit_left
      → Done
          (unread b (u ∷ l))
          rs
          (take (min unit_left rs) unit_bytes ++ [], 0, record b { notch = b.notch + rs })
  unfolding first_length
  read_part n h short = record {
    bytes_read =
        append-nil (take (min unit_left rs) unit_bytes)
        ∙ ap (λ k. take k unit_bytes) (part_taken short)
        ∙ sym
            (take-append_short rs unit_bytes (bytes_of l) (omega (arith, short, length-unit_bytes)))
        ∙ ap (take rs) (sym (split h.notch_inside));
    still_wanted = omega (arith, length-unread h.notch_inside, short);
    places_left = suc n;
    units_left = u ∷ l;
    stand_left = record {
      units_length = h.units_length;
      start_inside = h.start_inside;
      room = h.room;
      reaches = h.reaches;
      collected = h.collected;
      notch_inside = omega (arith, h.notch_inside, short);
    };
    bytes_left = sym (drop-drop rs b.notch (bytes_of (u ∷ l)));
  }
