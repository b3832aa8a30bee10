-- ===== src/Tracker/Queues.antt =====
-- The order of sending in core/packet_tracker.h: the queues, and their tops once the unrecorded
-- packets are dropped.
use pcc_uspace.Base.{
  ℕ, true, false, ◌≤◌, ◌≡◌, refl, List, [], ◌∷◌, leb, arith, All, Bool-cases, inl, inr, ◌⊎◌, sym,
  ap, ◌∙◌,
}
use pcc_uspace.Tracker.Maps.{contains}
use pcc_uspace.Tracker.Record.{PacketRecord}
use pcc_uspace.Tracker.Defs.{push_seq, pop}
use pcc_uspace.Tracker.Reads.{drop_unrecorded, has_top, top_or_zero}

abbrev pub Sorted : List ℕ → Type 0
Sorted [] = Unit
Sorted (n ∷ l) = All (λ k. n ≤ k) l × Sorted l

pub push_seq-All : (P : ℕ → Type 0) (n : ℕ) (l : List ℕ) → P n → All P l → All P (push_seq n l)
unfolding push_seq
push_seq-All P n [] p h = (p, h)
push_seq-All P n (k ∷ l) p h = elim (Bool-cases (leb n k)) [
  | inl t ↦ rw t (p, h)
  | inr f ↦ rw f (h.0, push_seq-All P n l p h.1)
]

All-le : (n k : ℕ) (l : List ℕ) → n ≤ k → All (λ j. k ≤ j) l → All (λ j. n ≤ j) l
All-le n k [] p h = tt
All-le n k (j ∷ l) p h = (omega (arith, h.0), All-le n k l p h.1)

pub push_seq-Sorted : (n : ℕ) (l : List ℕ) → Sorted l → Sorted (push_seq n l)
unfolding push_seq
push_seq-Sorted n [] h = (tt, tt)
push_seq-Sorted n (k ∷ l) h = elim (Bool-cases (leb n k)) [
  | inl t ↦ let small : n ≤ k = ground (arith, t) in rw t ((small, All-le n k l small h.0), h)
  | inr f ↦ rw f (push_seq-All (λ j. k ≤ j) n l (ground (arith, f)) h.0, push_seq-Sorted n l h.1)
]

pub pop-Sorted : (l : List ℕ) → Sorted l → Sorted (pop l)
unfolding pop
pop-Sorted [] h = tt
pop-Sorted (n ∷ l) h = h.1

pub drop_unrecorded-Sorted :
    (m : List (ℕ × PacketRecord)) (l : List ℕ) → Sorted l → Sorted (drop_unrecorded m l)
unfolding drop_unrecorded
drop_unrecorded-Sorted m [] h = tt
drop_unrecorded-Sorted m (n ∷ l) h = elim (Bool-cases (contains n m)) [
  | inl t ↦ rw t h
  | inr f ↦ rw f (drop_unrecorded-Sorted m l h.1)
]

-- What the top of the purged queue is to a recorded packet of the queue.
abbrev pub IsLowest : List (ℕ × PacketRecord) → List ℕ → ℕ → Type 0
IsLowest m q n = (has_top q ≡ true) × (contains (top_or_zero q) m ≡ true) × (top_or_zero q ≤ n)

abbrev pub In : ℕ → List ℕ → Type 0
In n [] = ⊥
In n (k ∷ l) = (n ≡ k) ⊎ In n l

In-All : (P : ℕ → Type 0) (n : ℕ) (l : List ℕ) → All P l → In n l → P n
In-All P n [] h i = absurd i
In-All P n (k ∷ l) h (inl e) = rw e h.0
In-All P n (k ∷ l) h (inr i) = In-All P n l h.1 i

pub drop_unrecorded-IsLowest :
    (m : List (ℕ × PacketRecord)) (l : List ℕ) (n : ℕ)
    → Sorted l
    → In n l
    → contains n m ≡ true
    → IsLowest m (drop_unrecorded m l) n
unfolding drop_unrecorded
drop_unrecorded-IsLowest m [] n h i e = absurd i
drop_unrecorded-IsLowest m (k ∷ l) n h i e = elim (Bool-cases (contains k m)) [
  | inl t ↦ rw t (refl, t, first_least k l n h.0 i)
  | inr f ↦ rw f (drop_unrecorded-IsLowest m l n h.1 (not_first k l n f e i) e)
]
  where
    first_least : (k : ℕ) (l : List ℕ) (n : ℕ) → All (λ j. k ≤ j) l → In n (k ∷ l) → k ≤ n
    first_least k l n h (inl e) = omega (arith, e)
    first_least k l n h (inr i) = In-All (λ j. k ≤ j) n l h i

    not_first :
        (k : ℕ) (l : List ℕ) (n : ℕ)
        → contains k m ≡ false
        → contains n m ≡ true
        → In n (k ∷ l)
        → In n l
    not_first k l n f e (inl s) =
        (let clash : true ≡ false = sym e ∙ ap (λ j. contains j m) s ∙ f in cc)
    not_first k l n f e (inr i) = i
