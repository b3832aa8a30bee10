-- ===== src/Windows/Store.antt =====
-- core/window.cpp, `CACKWindow`: `store` on the list of entries.
use native.Mathlib.Nat.{mod-lt, mod-add-mod}
use mathlib.Core.Path.{ap₂}
use pcc_uspace.Base.{
  ℕ, suc, ◌+◌, ◌%◌, ◌≡◌, sym, ap, ◌∙◌, List, [], ◌∷◌, ◌++◌, ◌==◌, if◌then◌else◌, length, drop,
  length-set, get_or-set_self, get_or-set_ne, true, false, arith, Bool-cases, inl, inr, if-both,
}
use pcc_uspace.Base.Int.{ℤ, pos}
use pcc_uspace.Windows.Ack.{AckWindow, write_head, forget_oldest, store}
use pcc_uspace.Windows.Entries.{
  AckEntry, IsValid, entry_at, entries_from, count, entries, next_index, length-entries_from,
  entries_from-append, entries_from-agree, head_behind, head_free,
}

-- The ring holds one entry less than its size; a new one takes the place of the oldest.
unfoldable pub stored : ℕ → AckEntry → List AckEntry → List AckEntry
stored size e l = if length l + 1 == size then drop 1 (l ++ (e ∷ [])) else l ++ (e ∷ [])

-- Writing at the head leaves the entries, since it stands behind them all.
module _ (now : ℕ) (seq ack : ℤ) (w : AckWindow) (valid : IsValid w) where
  written : (i : ℕ) → ¬ (w.head ≡ i) → entry_at (write_head now seq ack w) i ≡ entry_at w i
  unfolding write_head entry_at
  written i h = rw (
    get_or-set_ne w.ack_seq_nos w.head i seq (pos 0) h,
    get_or-set_ne w.acks w.head i ack (pos 0) h,
    get_or-set_ne w.time_stamps w.head i now 0 h,
  )

  written_head :
      entry_at (write_head now seq ack w) w.head
      ≡ record { seq_no = seq; ack_no = ack; time_stamp = now }
  unfolding write_head entry_at
  written_head = rw (
    get_or-set_self w.ack_seq_nos w.head seq (pos 0)
        (omega (arith, valid.seq_length, valid.head_inside)),
    get_or-set_self w.acks w.head ack (pos 0) (omega (arith, valid.ack_length, valid.head_inside)),
    get_or-set_self w.time_stamps w.head now 0
        (omega (arith, valid.time_length, valid.head_inside)),
  )

  -- One entry more than the window had, from the tail on.
  with_head :
      entries_from (write_head now seq ack w) (suc (count w)) w.tail
      ≡ entries w ++ (record { seq_no = seq; ack_no = ack; time_stamp = now } ∷ [])
  unfolding entries write_head
  with_head =
      entries_from-append (write_head now seq ack w) (count w) w.tail
      ∙ ap₂ ◌++◌
          (entries_from-agree (write_head now seq ack w) w (count w) w.tail w.tail
            (λ k below. written ((w.tail + k) % w.size) (head_free w valid k below)))
          (ap (λ e. e ∷ [])
            (ap (entry_at (write_head now seq ack w)) (head_behind w valid) ∙ written_head))

  -- The ring is full exactly where the head meets the tail.
  fills : ((w.head + 1) % w.size == w.tail) ≡ (count w + 1 == w.size)
  fills = ground (arith, valid.tail_inside, valid.head_inside, next_index w.head w.size)

  count_room :
      ((w.head + 1) % w.size == w.tail) ≡ false → count (write_head now seq ack w) ≡ suc (count w)
  unfolding write_head
  count_room h = ground (arith, valid.tail_inside, valid.head_inside, next_index w.head w.size)

  count_full :
      ((w.head + 1) % w.size == w.tail) ≡ true
      → count (forget_oldest (write_head now seq ack w)) ≡ count w
  unfolding forget_oldest write_head
  count_full h = ground (
    arith,
    valid.tail_inside,
    valid.head_inside,
    next_index w.head w.size,
    next_index w.tail w.size,
  )

  entries_full :
      ((w.head + 1) % w.size == w.tail) ≡ true
      → entries (forget_oldest (write_head now seq ack w))
        ≡ drop 1 (entries w ++ (record { seq_no = seq; ack_no = ack; time_stamp = now } ∷ []))
  unfolding forget_oldest write_head entries entries_from
  entries_full h =
      let v = write_head now seq ack w in
      ap (λ n. entries_from (forget_oldest v) n ((w.tail + 1) % w.size)) (count_full h)
      ∙ entries_from-agree (forget_oldest v) v (count w) ((w.tail + 1) % w.size) (w.tail + 1)
          (λ k below. ap (entry_at v) (mod-add-mod (w.tail + 1) w.size k))
      ∙ ap (drop 1) with_head

  entries_room :
      ((w.head + 1) % w.size == w.tail) ≡ false
      → entries (write_head now seq ack w)
        ≡ entries w ++ (record { seq_no = seq; ack_no = ack; time_stamp = now } ∷ [])
  unfolding entries write_head
  entries_room h =
      ap (λ n. entries_from (write_head now seq ack w) n w.tail) (count_room h) ∙ with_head

  stored_when : (length (entries w) + 1 == w.size) ≡ ((w.head + 1) % w.size == w.tail)
  unfolding entries
  stored_when = ap (λ n. n + 1 == w.size) (length-entries_from w (count w) w.tail) ∙ sym fills

  -- On a valid window, `store` puts the entry behind the others, and drops the oldest one if the
  -- window's size would be reached.
  pub store-stored :
      entries (store now seq ack w)
      ≡ stored w.size (record { seq_no = seq; ack_no = ack; time_stamp = now }) (entries w)
  unfolding store stored write_head
  store-stored = elim (Bool-cases ((w.head + 1) % w.size == w.tail)) [
    | inl full ↦ rw (stored_when, full) (entries_full full)
    | inr room ↦ rw (stored_when, room) (entries_room room)
  ]

  -- `store` keeps a window valid.
  pub store-IsValid : IsValid (store now seq ack w)
  unfolding store write_head forget_oldest
  store-IsValid =
      if-both ((w.head + 1) % w.size == w.tail) (forget_oldest (write_head now seq ack w))
        (write_head now seq ack w) IsValid
        (record {
          some_size = valid.some_size;
          head_inside = mod-lt (w.head + 1) valid.some_size;
          tail_inside = mod-lt (w.tail + 1) valid.some_size;
          seq_length = length-set w.ack_seq_nos w.head seq ∙ valid.seq_length;
          ack_length = length-set w.acks w.head ack ∙ valid.ack_length;
          time_length = length-set w.time_stamps w.head now ∙ valid.time_length;
        })
        (record {
          some_size = valid.some_size;
          head_inside = mod-lt (w.head + 1) valid.some_size;
          tail_inside = valid.tail_inside;
          seq_length = length-set w.ack_seq_nos w.head seq ∙ valid.seq_length;
          ack_length = length-set w.acks w.head ack ∙ valid.ack_length;
          time_length = length-set w.time_stamps w.head now ∙ valid.time_length;
        })
