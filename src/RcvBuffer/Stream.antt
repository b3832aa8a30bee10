-- ===== src/RcvBuffer/Stream.antt =====
-- core/buffer.cpp, `CRcvBuffer`: the bytes that stand in the ring between the place to read from
-- and the last acknowledged one.
use mathlib.Core.Path.{ap₂}
use pcc_uspace.Base.{
  ℕ, zero, suc, ◌+◌, ◌%◌, ◌≤◌, ◌<◌, ◌≡◌, refl, sym, ap, ◌∙◌, Option, none, some, List, [], ◌∷◌,
  ◌++◌, length, get_or, arith,
}
use pcc_uspace.Windows.Entries.{plus_suc, plus_zero}
use pcc_uspace.RcvBuffer.Ring.{PacketUnit, RcvBuffer}

unfoldable pub cons_found : Option PacketUnit → Option (List PacketUnit) → Option (List PacketUnit)
cons_found none l = none
cons_found (some u) none = none
cons_found (some u) (some l) = some (u ∷ l)

-- The units in n places from an index on, around the ring, if there is one in each.
unfoldable pub collect : List (Option PacketUnit) → ℕ → ℕ → ℕ → Option (List PacketUnit)
unfolding cons_found
collect units size zero j = some []
collect units size (suc n) j =
    cons_found (get_or units (j % size) none) (collect units size n (j + 1))

-- The payloads, one after the other.
unfoldable pub bytes_of : List PacketUnit → List ℕ
bytes_of [] = []
bytes_of (u ∷ l) = u.payload ++ bytes_of l

-- How many bytes of the first unit may have been read.
unfoldable pub first_length : List PacketUnit → ℕ
first_length [] = 0
first_length (u ∷ l) = length u.payload

-- n units stand from the place to read from up to the last acknowledged place.
pub record HasUnits (b : RcvBuffer) (n : ℕ) (l : List PacketUnit) : Type 0 where
  pub units_length : length b.units ≡ b.size
  pub start_inside : b.start_pos < b.size
  pub room : n < b.size
  pub reaches : (b.start_pos + n) % b.size ≡ b.last_ack_pos
  pub collected : collect b.units b.size n b.start_pos ≡ some l
  pub notch_inside : b.notch ≤ first_length l

-- Two rings that agree at n places have the same units there.
pub collect-agree :
    (xs ys : List (Option PacketUnit)) (size n i j : ℕ)
    → ((k : ℕ) → k < n → get_or xs ((i + k) % size) none ≡ get_or ys ((j + k) % size) none)
    → collect xs size n i ≡ collect ys size n j
unfolding collect
collect-agree xs ys size zero i j h = refl
collect-agree xs ys size (suc n) i j h =
    ap₂ cons_found
      (ap (λ a. get_or xs (a % size) none) (plus_zero i)
        ∙ h 0 (omega arith)
        ∙ ap (λ a. get_or ys (a % size) none) (sym (plus_zero j)))
      (collect-agree xs ys size n (i + 1) (j + 1) (λ k below.
        ap (λ a. get_or xs (a % size) none) (plus_suc i k)
        ∙ h (suc k) (omega (arith, below))
        ∙ ap (λ a. get_or ys (a % size) none) (sym (plus_suc j k))))

-- A unit, and units, that make up a list.
pub record Split (o : Option PacketUnit) (r : Option (List PacketUnit)) (l : List PacketUnit)
    : Type 0 where
  pub first : PacketUnit
  pub others : List PacketUnit
  pub is_first : o ≡ some first
  pub are_others : r ≡ some others
  pub together : l ≡ first ∷ others

pub cons_found-Split :
    (o : Option PacketUnit) (r : Option (List PacketUnit)) (l : List PacketUnit)
    → cons_found o r ≡ some l
    → Split o r l
unfolding cons_found
cons_found-Split none r l h = cc
cons_found-Split (some u) none l h = cc
cons_found-Split (some u) (some k) l h = record {
  first = u;
  others = k;
  is_first = refl;
  are_others = refl;
  together = cc;
}
