-- ===== src/Windows/Acknowledge.antt =====
-- core/window.cpp, `CACKWindow`: `acknowledge` on the list of entries.
use native.Mathlib.Nat.{mod-lt, mod-add-mod, mod-eq_of_lt}
use pcc_uspace.Base.{
  ℕ, suc, ◌+◌, ◌-◌, ◌%◌, ◌≡◌, ap, ◌∙◌, Option, none, some, List, leb, ltb, ◌==◌, get_or, length-set,
  true, false, arith, Bool-cases, inl, inr, if-both, ltb→lt,
}
use pcc_uspace.Base.Int.{ℤ, pos, negsuc}
use pcc_uspace.Windows.Int32.{elapsed}
use pcc_uspace.Windows.Ack.{
  AckWindow, find_straight, find_wrapped, reset, take_straight, take_wrapped, answer, acknowledge,
}
use pcc_uspace.Windows.Searches.{find_entry, find-Match, straight-wrapped}
use pcc_uspace.Windows.Entries.{
  AckEntry, IsValid, entry_at, entries_from, count, entries, entries_from-agree, head_free,
  mod-wrap,
}

-- A match gives its time and number, and drops the entries up to it; without one nothing changes.
unfoldable pub report :
    ℕ → ℤ → List AckEntry → Option (AckEntry × List AckEntry) → ℤ × ℤ × List AckEntry
report now ack l none = (negsuc 0, ack, l)
report now ack l (some found) = (elapsed now found.0.time_stamp, found.0.ack_no, found.1)

abbrev pub acknowledged : ℕ → ℤ → ℤ → List AckEntry → ℤ × ℤ × List AckEntry
acknowledged now seq ack l = report now ack l (find_entry seq l)

plus_assoc : (a b c : ℕ) → a + b + c ≡ a + (b + c)
plus_assoc a b c = omega arith

plus_shift : (a b c : ℕ) → a + b + (1 + c) ≡ a + suc b + c
plus_shift a b c = omega arith

-- What stands behind a match, in terms of the window without the entries up to it.
module _ (w : AckWindow) (valid : IsValid w) (before behind : ℕ)
    (position : count w ≡ before + suc behind) where
  abbrev moved : AckWindow
  moved = record w { tail = ((w.tail + before) % w.size + 1) % w.size }

  moved_inside : ltb (w.tail + before + 1) w.size ≡ true → moved.tail ≡ w.tail + before + 1
  moved_inside h =
      mod-add-mod (w.tail + before) w.size 1 ∙ mod-eq_of_lt (ltb→lt (w.tail + before + 1) w.size h)

  moved_wrapped :
      ltb (w.tail + before + 1) w.size ≡ false → moved.tail ≡ w.tail + before + 1 - w.size
  moved_wrapped h =
      mod-add-mod (w.tail + before) w.size 1
      ∙ mod-wrap (w.tail + before + 1) w.size (ground arith)
          (ground (arith, position, valid.tail_inside, valid.head_inside))

  moved_count : count moved ≡ behind
  moved_count = elim (Bool-cases (ltb (w.tail + before + 1) w.size)) [
    | inl inside ↦
        ground (arith, position, valid.tail_inside, valid.head_inside, moved_inside inside)
    | inr wrapped ↦
        ground (arith, position, valid.tail_inside, valid.head_inside, moved_wrapped wrapped)
  ]

  moved_index :
      (k : ℕ)
      → (((w.tail + before) % w.size + 1) % w.size + k) % w.size
        ≡ (w.tail + suc before + k) % w.size
  moved_index k =
      mod-add-mod ((w.tail + before) % w.size + 1) w.size k
      ∙ ap (λ x. x % w.size) (plus_assoc ((w.tail + before) % w.size) 1 k)
      ∙ mod-add-mod (w.tail + before) w.size (1 + k)
      ∙ ap (λ x. x % w.size) (plus_shift w.tail before k)

  entries-moved : entries moved ≡ entries_from w behind (w.tail + suc before)
  unfolding entries entries_from entry_at
  entries-moved =
      ap (λ n. entries_from moved n moved.tail) moved_count
      ∙ entries_from-agree moved w behind moved.tail (w.tail + suc before)
          (λ k below. ap (entry_at w) (moved_index k))

  -- A match is never at the head.
  not_head : ((w.tail + before) % w.size == w.head) ≡ false
  not_head = ground (arith, head_free w valid before (omega (arith, position)))

  take_wrapped-moved : take_wrapped ((w.tail + before) % w.size) w ≡ moved
  unfolding take_wrapped
  take_wrapped-moved = rw (not_head)

  -- A match that the head follows is the last entry.
  last_behind :
      leb w.tail w.head ≡ true → ((w.tail + before) % w.size + 1 == w.head) ≡ true → behind ≡ 0
  last_behind straight last = ground (
    arith,
    position,
    valid.head_inside,
    mod-eq_of_lt {n = w.tail + before} {m = w.size} (ground (arith, position, valid.head_inside)),
  )

  entries-take_straight :
      leb w.tail w.head ≡ true
      → entries (take_straight ((w.tail + before) % w.size) w)
        ≡ entries_from w behind (w.tail + suc before)
  unfolding take_straight reset entries entries_from
  entries-take_straight straight = elim (Bool-cases ((w.tail + before) % w.size + 1 == w.head)) [
    | inl last ↦ rw (last, last_behind straight last)
    | inr more ↦ rw (more) entries-moved
  ]

-- The result of a call, with the entries in place of the window.
unfoldable pub seen : ℤ × ℤ × AckWindow → ℤ × ℤ × List AckEntry
seen r = (r.0, r.1, entries r.2)

module _ (now : ℕ) (seq ack : ℤ) (w : AckWindow) (valid : IsValid w) where
  -- The answer to a search of the whole ring, for a removal that drops what it has to.
  answered :
      (take : ℕ → AckWindow → AckWindow)
      → ((before behind : ℕ)
          → count w ≡ before + suc behind
          → entries (take ((w.tail + before) % w.size) w)
            ≡ entries_from w behind (w.tail + suc before))
      → seen (answer now ack (find_wrapped seq w (count w) w.tail) take w)
        ≡ acknowledged now seq ack (entries w)
  unfolding seen answer report entries entry_at
  answered take drops = elim (find-Match seq w (count w) w.tail) [
    | inl missing ↦ rw (missing.no_index, missing.no_entry)
    | inr found ↦
        rw (found.index_found, found.entry_found)
          (ap
            (λ l. (
              elapsed now (get_or w.time_stamps ((w.tail + found.before) % w.size) 0),
              get_or w.acks ((w.tail + found.before) % w.size) (pos 0),
              l,
            ))
            (drops found.before found.behind found.position))
  ]

  straight_search :
      leb w.tail w.head ≡ true
      → acknowledge now seq ack w
        ≡ answer now ack (find_wrapped seq w (count w) w.tail) take_straight w
  unfolding acknowledge
  straight_search h = rw (h) (
      ap (λ o. answer now ack o take_straight w)
        (straight-wrapped seq w (w.head - w.tail) w.tail (ground (arith, valid.head_inside))))

  wrapped_search :
      leb w.tail w.head ≡ false
      → acknowledge now seq ack w
        ≡ answer now ack (find_wrapped seq w (count w) w.tail) take_wrapped w
  unfolding acknowledge
  wrapped_search h = rw (h)

  -- On a valid window, `acknowledge`, in either branch, answers for the first entry with the
  -- number, the oldest first, with its age and data sequence number, and drops the entries up to
  -- it; without such an entry it gives -1 and changes nothing.
  pub acknowledge-acknowledged :
      seen (acknowledge now seq ack w) ≡ acknowledged now seq ack (entries w)
  acknowledge-acknowledged = elim (Bool-cases (leb w.tail w.head)) [
    | inl straight ↦
        ap seen (straight_search straight)
        ∙ answered take_straight (λ before behind position.
          entries-take_straight w valid before behind position straight)
    | inr around ↦
        ap seen (wrapped_search around)
        ∙ answered take_wrapped (λ before behind position.
          ap entries (take_wrapped-moved w valid before behind position)
          ∙ entries-moved w valid before behind position)
  ]

  reset-IsValid : IsValid (reset w)
  unfolding reset
  reset-IsValid = record {
    some_size = valid.some_size;
    head_inside = valid.some_size;
    tail_inside = valid.some_size;
    seq_length = length-set w.ack_seq_nos 0 (negsuc 0) ∙ valid.seq_length;
    ack_length = valid.ack_length;
    time_length = valid.time_length;
  }

  from-IsValid : (i : ℕ) → IsValid (record w { tail = (i + 1) % w.size })
  from-IsValid i = record {
    some_size = valid.some_size;
    head_inside = valid.head_inside;
    tail_inside = mod-lt (i + 1) valid.some_size;
    seq_length = valid.seq_length;
    ack_length = valid.ack_length;
    time_length = valid.time_length;
  }

  answer-IsValid :
      (o : Option ℕ) (take : ℕ → AckWindow → AckWindow)
      → ((i : ℕ) → IsValid (take i w))
      → IsValid (answer now ack o take w).2
  unfolding answer
  answer-IsValid none take h = valid
  answer-IsValid (some i) take h = h i

  -- `acknowledge` keeps a window valid.
  pub acknowledge-IsValid : IsValid (acknowledge now seq ack w).2
  unfolding acknowledge take_straight take_wrapped
  acknowledge-IsValid =
      if-both (leb w.tail w.head)
        (answer now ack (find_straight seq w (w.head - w.tail) w.tail) take_straight w)
        (answer now ack (find_wrapped seq w (w.head + w.size - w.tail) w.tail) take_wrapped w)
        (λ r. IsValid r.2)
        (answer-IsValid (find_straight seq w (w.head - w.tail) w.tail) take_straight (λ i.
          if-both (i + 1 == w.head) (reset w) (record w { tail = (i + 1) % w.size }) IsValid
            reset-IsValid (from-IsValid i)))
        (answer-IsValid (find_wrapped seq w (w.head + w.size - w.tail) w.tail) take_wrapped (λ j.
          if-both (j == w.head) (reset w) (record w { tail = (j + 1) % w.size }) IsValid
            reset-IsValid (from-IsValid j)))
