-- ===== src/Tracker/Maps.antt =====
-- The containers of core/packet_tracker.h: an unordered map as an association list, and a priority
-- queue with the least element on top as a sorted list.
use pcc_uspace.Base.{
  ℕ, Bool, true, false, ◌≡◌, List, [], ◌∷◌, Option, none, some, ◌==◌, if◌then◌else◌, arith, All,
  length, suc, Bool-cases, inl, inr, refl,
}

module _ {V : Type 0} where
  unfoldable pub find : ℕ → List (ℕ × V) → Option V
  find k [] = none
  find k ((j, v) ∷ m) = if k == j then some v else find k m

  unfoldable pub contains : ℕ → List (ℕ × V) → Bool
  contains k [] = false
  contains k ((j, v) ∷ m) = if k == j then true else contains k m

  unfoldable pub erase : ℕ → List (ℕ × V) → List (ℕ × V)
  erase k [] = []
  erase k ((j, v) ∷ m) = if k == j then m else (j, v) ∷ erase k m

  -- A change of the value at a key, made through a pointer that the map holds.
  unfoldable pub update : ℕ → V → List (ℕ × V) → List (ℕ × V)
  update k w [] = []
  update k w ((j, v) ∷ m) = if k == j then (j, w) ∷ m else (j, v) ∷ update k w m

  -- No key stands twice.
  abbrev pub Distinct : List (ℕ × V) → Type 0
  Distinct [] = Unit
  Distinct ((k, v) ∷ m) = (contains k m ≡ false) × Distinct m

  -- Every key satisfies a predicate.
  abbrev pub Keys : (ℕ → Type 0) → List (ℕ × V) → Type 0
  Keys P m = All (λ x. P x.0) m

  pub Keys-contains :
      (P : ℕ → Type 0) (k : ℕ) (m : List (ℕ × V)) → Keys P m → contains k m ≡ true → P k
  unfolding contains
  Keys-contains P k [] h e = cc
  Keys-contains P k ((j, v) ∷ m) h e = elim (Bool-cases (k == j)) [
    | inl t ↦ let same : k ≡ j = ground (arith, t) in rw same h.0
    | inr f ↦ Keys-contains P k m h.1 (ground (arith, f, e))
  ]

  pub erase-contains :
      (k j : ℕ) (m : List (ℕ × V))
      → Distinct m
      → contains j (erase k m) ≡ (if k == j then false else contains j m)
  unfolding erase contains
  erase-contains k j [] d = ground arith
  erase-contains k j ((i, v) ∷ m) d = ground (arith, erase-contains k j m d.1, d.0)

  pub erase-Distinct : (k : ℕ) (m : List (ℕ × V)) → Distinct m → Distinct (erase k m)
  unfolding erase
  erase-Distinct k [] d = tt
  erase-Distinct k ((i, v) ∷ m) d = elim (Bool-cases (k == i)) [
    | inl t ↦ rw t d.1
    | inr f ↦ rw f (ground (arith, erase-contains k i m d.1, d.0), erase-Distinct k m d.1)
  ]

  pub erase-Keys : (P : ℕ → Type 0) (k : ℕ) (m : List (ℕ × V)) → Keys P m → Keys P (erase k m)
  unfolding erase
  erase-Keys P k [] h = tt
  erase-Keys P k ((i, v) ∷ m) h = elim (Bool-cases (k == i)) [
    | inl t ↦ rw t h.1
    | inr f ↦ rw f (h.0, erase-Keys P k m h.1)
  ]

  pub length-erase :
      (k : ℕ) (m : List (ℕ × V)) → contains k m ≡ true → suc (length (erase k m)) ≡ length m
  unfolding erase contains
  length-erase k [] h = cc
  length-erase k ((i, v) ∷ m) h = ground (arith, length-erase k m)

  pub update-contains :
      (k j : ℕ) (w : V) (m : List (ℕ × V)) → contains j (update k w m) ≡ contains j m
  unfolding update contains
  update-contains k j w [] = refl
  update-contains k j w ((i, v) ∷ m) = ground (arith, update-contains k j w m)

  pub length-update : (k : ℕ) (w : V) (m : List (ℕ × V)) → length (update k w m) ≡ length m
  unfolding update
  length-update k w [] = refl
  length-update k w ((i, v) ∷ m) = ground (arith, length-update k w m)

  pub update-Keys :
      (P : ℕ → Type 0) (k : ℕ) (w : V) (m : List (ℕ × V)) → Keys P m → Keys P (update k w m)
  unfolding update
  update-Keys P k w [] h = tt
  update-Keys P k w ((i, v) ∷ m) h = elim (Bool-cases (k == i)) [
    | inl t ↦ rw t h
    | inr f ↦ rw f (h.0, update-Keys P k w m h.1)
  ]

  pub update-Distinct : (k : ℕ) (w : V) (m : List (ℕ × V)) → Distinct m → Distinct (update k w m)
  unfolding update
  update-Distinct k w [] d = tt
  update-Distinct k w ((i, v) ∷ m) d = elim (Bool-cases (k == i)) [
    | inl t ↦ rw t d
    | inr f ↦ rw f (ground (arith, update-contains k i w m, d.0), update-Distinct k w m d.1)
  ]
