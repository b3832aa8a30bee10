-- ===== src/Windows/Searches.antt =====
-- core/window.cpp, `CACKWindow`: the two loops of `acknowledge` on the list of entries.
use native.Mathlib.Nat.{mod-eq_of_lt}
use pcc_uspace.Base.{
  ℕ, zero, suc, ◌+◌, ◌%◌, ◌≤◌, ◌≡◌, ◌⊎◌, refl, sym, ap, Option, none, some, List, [], ◌∷◌,
  if◌then◌else◌, get_or, arith, Bool-cases, inl, inr,
}
use pcc_uspace.Base.Int.{ℤ, pos, eqb_ℤ}
use pcc_uspace.Windows.Ack.{AckWindow, find_straight, find_wrapped}
use pcc_uspace.Windows.Entries.{AckEntry, entry_at, entries_from, plus_suc, plus_zero}

-- The first entry with a number, and the entries behind it.
unfoldable pub find_entry : ℤ → List AckEntry → Option (AckEntry × List AckEntry)
find_entry seq [] = none
find_entry seq (e ∷ l) =
    let rest = find_entry seq l in if eqb_ℤ seq e.seq_no then some (e, l) else rest

-- A match k entries behind an index, with m more entries behind it.
pub record Match (seq : ℤ) (w : AckWindow) (n j : ℕ) : Type 0 where
  pub before : ℕ
  pub behind : ℕ
  pub position : n ≡ before + suc behind
  pub index_found : find_wrapped seq w n j ≡ some ((j + before) % w.size)
  pub entry_found :
      find_entry seq (entries_from w n j)
      ≡ some (entry_at w ((j + before) % w.size), entries_from w behind (j + suc before))

-- Nothing is found in either.
pub record NoMatch (seq : ℤ) (w : AckWindow) (n j : ℕ) : Type 0 where
  pub no_index : find_wrapped seq w n j ≡ none
  pub no_entry : find_entry seq (entries_from w n j) ≡ none

pub find-Match : (seq : ℤ) (w : AckWindow) (n j : ℕ) → NoMatch seq w n j ⊎ Match seq w n j
unfolding find_wrapped find_entry entries_from entry_at
find-Match seq w zero j = inl (record { no_index = refl; no_entry = refl })
find-Match seq w (suc n) j =
    elim (Bool-cases (eqb_ℤ seq (get_or w.ack_seq_nos (j % w.size) (pos 0)))) [
      | inl same ↦ inr (record {
        before = 0;
        behind = n;
        position = omega arith;
        index_found = rw (same) (ap (λ x. some (x % w.size)) (plus_zero j));
        entry_found =
            rw (same)
              (ap (λ x. some (entry_at w (x % w.size), entries_from w n (j + 1))) (plus_zero j));
      })
      | inr differs ↦ elim (find-Match seq w n (j + 1)) [
        | inl missing ↦ inl (record {
          no_index = rw (differs) missing.no_index;
          no_entry = rw (differs) missing.no_entry;
        })
        | inr found ↦ inr (record {
          before = suc found.before;
          behind = found.behind;
          position = omega (arith, found.position);
          index_found = rw (differs, sym (plus_suc j found.before)) found.index_found;
          entry_found =
              rw (differs, sym (plus_suc j found.before), sym (plus_suc j (suc found.before)))
                found.entry_found;
        })
      ]
    ]

-- Inside the arrays the two loops read the same indices.
pub straight-wrapped :
    (seq : ℤ) (w : AckWindow) (n i : ℕ)
    → i + n ≤ w.size
    → find_straight seq w n i ≡ find_wrapped seq w n i
unfolding find_straight find_wrapped
straight-wrapped seq w zero i h = refl
straight-wrapped seq w (suc n) i h = rw (
  mod-eq_of_lt {n = i} {m = w.size} (omega arith),
  straight-wrapped seq w n (i + 1) (omega arith),
)
