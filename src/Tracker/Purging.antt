-- ===== src/Tracker/Purging.antt =====
-- core/packet_tracker.h: what the loops that drop unrecorded packets leave of a queue.
use pcc_uspace.Base.{ℕ, true, ◌≡◌, refl, List, [], ◌∷◌, All, Bool-cases, inl, inr}
use pcc_uspace.Base.Result.{ok}
use pcc_uspace.Tracker.Maps.{contains}
use pcc_uspace.Tracker.Record.{PacketRecord}
use pcc_uspace.Tracker.Defs.{top}
use pcc_uspace.Tracker.Reads.{has_top, top_or_zero, drop_unrecorded}
use pcc_uspace.Tracker.Ready.{Unique}

module _ (m : List (ℕ × PacketRecord)) where
  pub drop_unrecorded-All : (P : ℕ → Type 0) (l : List ℕ) → All P l → All P (drop_unrecorded m l)
  unfolding drop_unrecorded
  drop_unrecorded-All P [] h = tt
  drop_unrecorded-All P (n ∷ l) h = elim (Bool-cases (contains n m)) [
    | inl t ↦ rw t h
    | inr f ↦ rw f (drop_unrecorded-All P l h.1)
  ]

  pub drop_unrecorded-Unique : (l : List ℕ) → Unique l → Unique (drop_unrecorded m l)
  unfolding drop_unrecorded
  drop_unrecorded-Unique [] h = tt
  drop_unrecorded-Unique (n ∷ l) h = elim (Bool-cases (contains n m)) [
    | inl t ↦ rw t h
    | inr f ↦ rw f (drop_unrecorded-Unique l h.1)
  ]

  pub drop_unrecorded_twice :
      (l : List ℕ) → drop_unrecorded m (drop_unrecorded m l) ≡ drop_unrecorded m l
  unfolding drop_unrecorded
  drop_unrecorded_twice [] = refl
  drop_unrecorded_twice (n ∷ l) = elim (Bool-cases (contains n m)) [
    | inl t ↦ rw (t, drop_unrecorded) (rw t)
    | inr f ↦ rw f (drop_unrecorded_twice l)
  ]

  -- What stands on top of a purged queue that is not empty.
  pub top-drop_unrecorded :
      (l : List ℕ)
      → has_top (drop_unrecorded m l) ≡ true
      → (top (drop_unrecorded m l) ≡ ok (top_or_zero (drop_unrecorded m l)))
        × (contains (top_or_zero (drop_unrecorded m l)) m ≡ true)
  unfolding drop_unrecorded top
  top-drop_unrecorded [] h = cc
  top-drop_unrecorded (n ∷ l) h = elim (Bool-cases (contains n m)) [
    | inl t ↦ rw t (refl, t)
    | inr f ↦ rw f (top-drop_unrecorded l (rw f at h))
  ]
