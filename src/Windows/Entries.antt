-- ===== src/Windows/Entries.antt =====
-- core/window.cpp, `CACKWindow`: the entries of the ring as a list, the oldest first, and `store`.
use native.Mathlib.Nat.{mod-eq_of_lt, mod-eq-sub-mod}
use mathlib.Core.Path.{subst, ap₂}
use pcc_uspace.Base.{
  ℕ, zero, suc, ◌+◌, ◌-◌, ◌%◌, ◌≤◌, ◌<◌, ◌≡◌, refl, ap, ◌∙◌, List, [], ◌∷◌, ◌++◌, leb, ◌==◌,
  if◌then◌else◌, get_or, length, true, arith, Bool-cases, inl, inr, ltb, ltb→lt,
}
use pcc_uspace.Base.Int.{ℤ, pos}
use pcc_uspace.Windows.Ack.{AckWindow}

pub record AckEntry : Type 0 where
  pub seq_no : ℤ
  pub ack_no : ℤ
  pub time_stamp : ℕ

-- The arrays have the window's size, and both indices lie inside.
pub record IsValid (w : AckWindow) : Type 0 where
  pub some_size : 0 < w.size
  pub head_inside : w.head < w.size
  pub tail_inside : w.tail < w.size
  pub seq_length : length w.ack_seq_nos ≡ w.size
  pub ack_length : length w.acks ≡ w.size
  pub time_length : length w.time_stamps ≡ w.size

unfoldable pub entry_at : AckWindow → ℕ → AckEntry
entry_at w i = record {
  seq_no = get_or w.ack_seq_nos i (pos 0);
  ack_no = get_or w.acks i (pos 0);
  time_stamp = get_or w.time_stamps i 0;
}

-- n entries from an index on, around the ring.
unfoldable pub entries_from : AckWindow → ℕ → ℕ → List AckEntry
unfolding entry_at
entries_from w zero j = []
entries_from w (suc n) j = entry_at w (j % w.size) ∷ entries_from w n (j + 1)

abbrev pub count : AckWindow → ℕ
count w = if leb w.tail w.head then w.head - w.tail else w.head + w.size - w.tail

unfoldable pub entries : AckWindow → List AckEntry
unfolding entries_from
entries w = entries_from w (count w) w.tail

-- An index in the second round of the ring.
pub mod-wrap : (a s : ℕ) → s ≤ a → a < s + s → a % s ≡ a - s
mod-wrap a s h k = mod-eq-sub-mod h ∙ mod-eq_of_lt (omega arith)

-- The index behind an index of the ring.
pub next_index : (a s : ℕ) → a < s → (a + 1) % s ≡ (if a + 1 == s then 0 else a + 1)
next_index a s h = elim (Bool-cases (a + 1 == s)) [
  | inl last ↦ rw (last) (last_wraps last)
  | inr inside ↦ rw (inside) (mod-eq_of_lt (ground arith))
]
  where
    last_wraps : (a + 1 == s) ≡ true → (a + 1) % s ≡ 0
    last_wraps e = mod-wrap (a + 1) s (ground arith) (ground arith) ∙ ground arith

pub length-entries_from : (w : AckWindow) (n j : ℕ) → length (entries_from w n j) ≡ n
unfolding entries_from
length-entries_from w zero j = refl
length-entries_from w (suc n) j = omega (arith, length-entries_from w n (j + 1))

pub plus_suc : (j n : ℕ) → j + 1 + n ≡ j + suc n
plus_suc j n = omega arith

pub plus_zero : (k : ℕ) → k ≡ k + 0
plus_zero k = omega arith

-- One more entry stands at the end.
pub entries_from-append :
    (w : AckWindow) (n j : ℕ)
    → entries_from w (suc n) j ≡ entries_from w n j ++ (entry_at w ((j + n) % w.size) ∷ [])
unfolding entries_from
entries_from-append w zero j = ap (λ a. entry_at w (a % w.size) ∷ []) (plus_zero j)
entries_from-append w (suc n) j =
    ap (λ l. entry_at w (j % w.size) ∷ l)
      (subst
        (λ a.
          entries_from w (suc n) (j + 1)
          ≡ entries_from w n (j + 1) ++ (entry_at w (a % w.size) ∷ []))
        (plus_suc j n) (entries_from-append w n (j + 1)))

-- Entries that two windows have in common.
pub entries_from-agree :
    (w v : AckWindow) (n i j : ℕ)
    → ((k : ℕ) → k < n → entry_at w ((i + k) % w.size) ≡ entry_at v ((j + k) % v.size))
    → entries_from w n i ≡ entries_from v n j
unfolding entries_from
entries_from-agree w v zero i j h = refl
entries_from-agree w v (suc n) i j h = ap₂ ◌∷◌ (rw (plus_zero i, plus_zero j) (h 0 (omega arith))) (
    entries_from-agree w v n (i + 1) (j + 1)
      (λ k below. rw (plus_suc i k, plus_suc j k) (h (suc k) (omega (arith, below)))))

module _ (w : AckWindow) (valid : IsValid w) where
  -- The head is the index behind the entries, and the index of none of them.
  pub head_behind : (w.tail + count w) % w.size ≡ w.head
  head_behind =
      ground (
        arith,
        valid.tail_inside,
        mod-eq_of_lt valid.head_inside,
        mod-wrap (w.head + w.size) w.size,
      )

  pub head_free : (k : ℕ) → k < count w → ¬ (w.head ≡ (w.tail + k) % w.size)
  head_free k h e = elim (Bool-cases (ltb (w.tail + k) w.size)) [
    | inl inside ↦ ground (arith, mod-eq_of_lt (ltb→lt (w.tail + k) w.size inside))
    | inr wrapped ↦ ground (arith, valid.tail_inside, mod-wrap (w.tail + k) w.size)
  ]
