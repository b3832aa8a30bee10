-- ===== src/Tracker/Minimum.antt =====
-- The least sequence number of core/packet_tracker.h, and the loop that looks for the next one.
use pcc_uspace.Base.{
  ℕ, true, false, ◌+◌, ◌-◌, ◌≤◌, ◌<◌, ◌≡◌, ◌∙◌, List, [], ◌∷◌, Option, none, some, ◌==◌, zero, suc,
  arith, length, Bool-cases, inl, inr,
}
use pcc_uspace.Base.Result.{ok, Returns, NoFault, >>=-Returns, if-Returns}
use pcc_uspace.Tracker.Maps.{
  contains, erase, update, Distinct, Keys, Keys-contains, erase-contains, erase-Keys, length-erase,
  update-contains, update-Keys,
}
use pcc_uspace.Tracker.Record.{PacketRecord}
use pcc_uspace.Tracker.Defs.{seq_end, least_seq, next_recorded, next_min}

-- The least key of a map, or none for an empty map.
abbrev pub IsLeast : Option ℕ → List (ℕ × PacketRecord) → Type 0
IsLeast none m = length m ≡ 0
IsLeast (some k) m = (contains k m ≡ true) × Keys (λ n. k ≤ n) m

Keys-mono :
    (P Q : ℕ → Type 0) (m : List (ℕ × PacketRecord)) → ((n : ℕ) → P n → Q n) → Keys P m → Keys Q m
Keys-mono P Q [] f h = tt
Keys-mono P Q ((k, v) ∷ m) f h = (f k h.0, Keys-mono P Q m f h.1)

Keys-both :
    (P Q : ℕ → Type 0) (m : List (ℕ × PacketRecord)) → Keys P m → Keys Q m → Keys (λ k. P k × Q k) m
Keys-both P Q [] h k = tt
Keys-both P Q (x ∷ m) h k = ((h.0, k.0), Keys-both P Q m h.1 k.1)

Keys-empty : (P : ℕ → Type 0) (m : List (ℕ × PacketRecord)) → length m ≡ 0 → Keys P m
Keys-empty P [] h = tt
Keys-empty P (x ∷ m) h = absurd (omega (arith, h))

pub enqueue-IsLeast :
    (o : Option ℕ) (n : ℕ) (r : PacketRecord) (m : List (ℕ × PacketRecord))
    → IsLeast o m
    → IsLeast (some (least_seq o n)) ((n, r) ∷ m)
unfolding least_seq contains
enqueue-IsLeast none n r m h = (ground arith, (omega arith, Keys-empty _ m h))
enqueue-IsLeast (some k) n r m h = (
  ground (arith, h.0),
  (
    ground arith,
    Keys-mono (λ j. k ≤ j) (λ j. least_seq (some k) n ≤ j) m (λ j l. ground (arith, l)) h.1,
  ),
)

pub update-IsLeast :
    (o : Option ℕ) (k : ℕ) (r : PacketRecord) (m : List (ℕ × PacketRecord))
    → IsLeast o m
    → length (update k r m) ≡ length m
    → IsLeast o (update k r m)
update-IsLeast none k r m h e = e ∙ h
update-IsLeast (some j) k r m h e =
    (update-contains k j r m ∙ h.0, update-Keys (λ n. j ≤ n) k r m h.1)

-- Without the key `n`, the bound moves up by one.
Keys-advance :
    (n b : ℕ) (m : List (ℕ × PacketRecord))
    → contains n m ≡ false
    → Keys (λ k. (n ≤ k) × (k < b)) m
    → Keys (λ k. (n + 1 ≤ k) × (k < b)) m
unfolding contains
Keys-advance n b [] e h = tt
Keys-advance n b ((k, v) ∷ m) e h =
    ((ground (arith, h.0), h.0.1), Keys-advance n b m (ground (arith, e)) h.1)

-- The loop ends at the least key, if every key lies in the numbers that it has left.
next_recorded-IsLeast :
    (room n : ℕ) (m : List (ℕ × PacketRecord))
    → 0 < length m
    → Keys (λ k. (n ≤ k) × (k < n + room)) m
    → Returns NoFault (next_recorded room n m) (λ k. IsLeast (some k) m)
unfolding next_recorded
next_recorded-IsLeast zero n [] p h = omega arith
next_recorded-IsLeast zero n ((k, v) ∷ m) p h = absurd (omega (arith, h.0))
next_recorded-IsLeast (suc room) n m p h = elim (Bool-cases (contains n m)) [
  | inl t ↦ rw (Returns, t) (t, Keys-mono _ (λ k. n ≤ k) m (λ k x. x.0) h)
  | inr f ↦
      rw (Returns, f)
        (next_recorded-IsLeast room (n + 1) m p (
          Keys-mono _ (λ k. (n + 1 ≤ k) × (k < n + 1 + room)) m (λ k x. (x.0, omega (arith, x.1)))
            (Keys-advance n (n + suc room) m f h)))
]

-- Behind the least key, the numbers up to the largest hold every other key.
room_left :
    (k n : ℕ) (m : List (ℕ × PacketRecord))
    → Distinct m
    → Keys (λ j. j < seq_end) m
    → (k == n) ≡ true
    → IsLeast (some k) m
    → Keys (λ j. (k + 1 ≤ j) × (j < k + 1 + (seq_end - (k + 1)))) (erase n m)
room_left k n m d b e h =
    let small : k < seq_end = Keys-contains (λ j. j < seq_end) k m b h.0 in
    let gone : contains k (erase n m) ≡ false = ground (arith, erase-contains n k m d, e) in
    Keys-mono (λ j. (k + 1 ≤ j) × (j < seq_end)) _ (erase n m)
      (λ j x. (x.0, omega (arith, x.1, small)))
      (Keys-advance k seq_end (erase n m) gone
        (erase-Keys (λ j. (k ≤ j) × (j < seq_end)) n m (Keys-both _ _ m h.1 b)))

-- The removal of a recorded packet finds the new least number.
pub next_min-IsLeast :
    (o : Option ℕ) (n : ℕ) (m : List (ℕ × PacketRecord))
    → Distinct m
    → Keys (λ k. k < seq_end) m
    → contains n m ≡ true
    → IsLeast o m
    → Returns NoFault (next_min o n (length m - 1) (erase n m)) (λ o'. IsLeast o' (erase n m))
unfolding next_min
next_min-IsLeast none n [] d b c h = cc
next_min-IsLeast none n (x ∷ m) d b c h = absurd (omega (arith, h))
next_min-IsLeast (some k) n m d b c h =
    if-Returns NoFault (k == n) _ (ok (some k)) _
      (λ e.
        if-Returns NoFault (length m - 1 == 0) (ok none) _ _
          (λ z. ground (arith, length-erase n m c))
          (λ z.
            >>=-Returns NoFault (next_recorded (seq_end - (k + 1)) (k + 1) (erase n m)) _ _ _
              (next_recorded-IsLeast (seq_end - (k + 1)) (k + 1) (erase n m)
                (ground (arith, length-erase n m c)) (room_left k n m d b e h))
              λ j x. x))
      (λ e. (ground (arith, erase-contains n k m d, h.0), erase-Keys _ n m h.1))
