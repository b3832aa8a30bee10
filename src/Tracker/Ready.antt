-- ===== src/Tracker/Ready.antt =====
-- core/packet_tracker.h: what lets each packet in the tracker's queues be sent: the state and the
-- messages of its record.
use pcc_uspace.Base.{
  ℕ, true, false, ◌≡◌, ◌≢◌, ◌⊎◌, inl, inr, refl, List, [], ◌∷◌, Option, none, some, ◌==◌,
  if◌then◌else◌, arith, All, Bool-cases,
}
use pcc_uspace.Tracker.Maps.{find, contains, erase, update, Distinct}
use pcc_uspace.Tracker.Record.{is_queued, PacketRecord}
use pcc_uspace.Tracker.Defs.{PacketTracker}

-- A record whose packet is queued has no message.
abbrev pub IsFresh : PacketRecord → Type 0
IsFresh r = (is_queued r.packet_state ≡ true) × (r.msg_records ≡ [])

abbrev pub Fits : PacketRecord → Type 0
Fits r = (is_queued r.packet_state ≡ false) ⊎ IsFresh r

abbrev pub Records : (PacketRecord → Type 0) → List (ℕ × PacketRecord) → Type 0
Records P m = All (λ x. P x.1) m

-- The number stands for a packet that was never sent, or for none of those.
abbrev pub IsFreshAt : List (ℕ × PacketRecord) → ℕ → Type 0
IsFreshAt m n = (r : PacketRecord) × (find n m ≡ some r) × IsFresh r

abbrev pub NotFresh : Option PacketRecord → Type 0
NotFresh none = Unit
NotFresh (some r) = is_queued r.packet_state ≡ false

abbrev pub IsSentAt : List (ℕ × PacketRecord) → ℕ → Type 0
IsSentAt m n = NotFresh (find n m)

abbrev pub Unique : List ℕ → Type 0
Unique [] = Unit
Unique (n ∷ l) = All (λ k. n ≢ k) l × Unique l

pub record IsReady (t : PacketTracker) : Type 0 where
  pub distinct : Distinct t.packet_record_map
  pub fits : Records Fits t.packet_record_map
  pub fresh : All (IsFreshAt t.packet_record_map) t.send_queue
  pub unique : Unique t.send_queue
  pub sent : All (IsSentAt t.packet_record_map) t.retransmittable_queue

pub All-map {ℓ} :
    {A : Type ℓ} (P Q : A → Type 0) (l : List A) → ((a : A) → P a → Q a) → All P l → All Q l
All-map P Q [] f h = tt
All-map P Q (a ∷ l) f h = (f a h.0, All-map P Q l f h.1)

-- The same, for elements that differ from `n`.
pub All-other :
    (P Q : ℕ → Type 0) (n : ℕ) (l : List ℕ)
    → ((k : ℕ) → n ≢ k → P k → Q k)
    → All (λ k. n ≢ k) l
    → All P l
    → All Q l
All-other P Q n [] f d h = tt
All-other P Q n (k ∷ l) f d h = (f k d.0 h.0, All-other P Q n l f d.1 h.1)

module _ (P : PacketRecord → Type 0) where
  pub Records-find :
      (n : ℕ) (r : PacketRecord) (m : List (ℕ × PacketRecord))
      → Records P m
      → find n m ≡ some r
      → P r
  unfolding find
  Records-find n r [] h e = absurd (ground (arith, e))
  Records-find n r ((j, v) ∷ m) h e = elim (Bool-cases (n == j)) [
    | inl t ↦ let same : v ≡ r = ground (arith, e, t) in rw (← same) h.0
    | inr f ↦ Records-find n r m h.1 (ground (arith, e, f))
  ]

  pub Records-update :
      (n : ℕ) (r : PacketRecord) (m : List (ℕ × PacketRecord))
      → P r
      → Records P m
      → Records P (update n r m)
  unfolding update
  Records-update n r [] p h = tt
  Records-update n r ((j, v) ∷ m) p h = elim (Bool-cases (n == j)) [
    | inl t ↦ rw t (p, h.1)
    | inr f ↦ rw f (h.0, Records-update n r m p h.1)
  ]

  pub Records-erase : (n : ℕ) (m : List (ℕ × PacketRecord)) → Records P m → Records P (erase n m)
  unfolding erase
  Records-erase n [] h = tt
  Records-erase n ((j, v) ∷ m) h = elim (Bool-cases (n == j)) [
    | inl t ↦ rw t h.1
    | inr f ↦ rw f (h.0, Records-erase n m h.1)
  ]

pub find-update :
    (n k : ℕ) (r : PacketRecord) (m : List (ℕ × PacketRecord))
    → contains n m ≡ true
    → find k (update n r m) ≡ (if n == k then some r else find k m)
unfolding find update contains
find-update n k r [] c = cc
find-update n k r ((j, v) ∷ m) c = ground (arith, find-update n k r m)

pub find-update_other :
    (n k : ℕ) (r : PacketRecord) (m : List (ℕ × PacketRecord))
    → n ≢ k
    → find k (update n r m) ≡ find k m
unfolding find update
find-update_other n k r [] d = refl
find-update_other n k r ((j, v) ∷ m) d = ground (arith, find-update_other n k r m)

pub find-none : (n : ℕ) (m : List (ℕ × PacketRecord)) → contains n m ≡ false → find n m ≡ none
unfolding find contains
find-none n [] c = refl
find-none n ((j, v) ∷ m) c = ground (arith, find-none n m)

pub find-erase :
    (n k : ℕ) (m : List (ℕ × PacketRecord))
    → Distinct m
    → find k (erase n m) ≡ (if n == k then none else find k m)
unfolding find erase contains
find-erase n k [] d = ground arith
find-erase n k ((j, v) ∷ m) d = ground (arith, find-erase n k m d.1, find-none j m d.0)

pub find-contains :
    (n : ℕ) (r : PacketRecord) (m : List (ℕ × PacketRecord))
    → find n m ≡ some r
    → contains n m ≡ true
unfolding find contains
find-contains n r [] e = absurd (ground (arith, e))
find-contains n r ((j, v) ∷ m) e = ground (arith, find-contains n r m)

pub find-cons_self :
    (n : ℕ) (r : PacketRecord) (m : List (ℕ × PacketRecord)) → find n ((n, r) ∷ m) ≡ some r
unfolding find
find-cons_self n r m = ground arith

pub find-cons_other :
    (n k : ℕ) (r : PacketRecord) (m : List (ℕ × PacketRecord))
    → n ≢ k
    → find k ((n, r) ∷ m) ≡ find k m
unfolding find
find-cons_other n k r m d = ground arith

pub contains-find :
    (n : ℕ) (m : List (ℕ × PacketRecord)) → contains n m ≡ true → ¬ (find n m ≡ none)
unfolding find contains
contains-find n [] c e = cc
contains-find n ((j, v) ∷ m) c e = ground (arith, contains-find n m)
