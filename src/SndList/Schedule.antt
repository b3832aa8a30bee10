-- ===== src/SndList/Schedule.antt =====
-- core/queue.cpp, `CSndUList`: what its calls leave of a good schedule.
use pcc_uspace.Base.{
  ℕ, zero, suc, ◌-◌, ◌*◌, ◌≤◌, ◌<◌, ◌≡◌, ◌⊎◌, inl, inr, Bool, true, false, none, some, arith, ltb,
  ◌==◌, refl, ap, ◌∙◌, if◌then◌else◌, lt→ltb, Bool-cases, Option-cases,
}
use pcc_uspace.Base.Int.{pos, negsuc}
use pcc_uspace.SndList.Heap.{SndList, key, parent, remove_node}
use pcc_uspace.SndList.Calls.{
  insert, hasten, reschedule_at, update_node, get_next_proc_time, Popped, nothing, send_from, pop,
}
use pcc_uspace.SndList.Order.{IsSchedule, root_least}
use pcc_uspace.SndList.Inserting.{IsScheduled, insert_node-IsSchedule}
use pcc_uspace.SndList.Removing.{IsRemoved, remove_node-IsIndexed, remove_node-IsHeap_iff}

-- In a good schedule that has a socket, `getNextProcTime` gives a time that is not 0 and not later
-- than that of the socket.
pub get_next_proc_time-least :
    (l : SndList) (u i : ℕ)
    → IsSchedule l
    → l.loc u ≡ some i
    → (0 < get_next_proc_time l) × (get_next_proc_time l ≤ l.time u)
unfolding get_next_proc_time
get_next_proc_time-least l u i s at =
    let x = s.indexed in
    let h : i < l.count = x.inside u i at in
    ground (arith, x.placed 0, s.positive (l.heap 0), root_least l i s.ordered h, x.found u i at)

module _ (u h : ℕ) (l : SndList) (s : IsSchedule l) (at : l.loc u ≡ some h)
    (f : (h ≡ 0) ⊎ (key l (parent h) ≤ key l (l.count - 1))) where
  remove_node-IsSchedule : IsSchedule (remove_node u l) × IsRemoved u l (remove_node u l)
  remove_node-IsSchedule =
      let (y, r) = remove_node-IsIndexed u h l at s.indexed in
      (
        record {
          ordered = (remove_node-IsHeap_iff u h l at s.indexed s.ordered).1 f;
          indexed = y;
          positive = λ v e. rw r.same_time (ground (arith, s.positive v, r.same_nodes v, r.absent));
          fits = omega (arith, r.less, r.same_length, s.fits);
          room = omega (arith, r.same_length, s.room);
        },
        r,
      )

-- What was removed and put back.
IsScheduled-again :
    (u ts : ℕ) (l m l' : SndList) → IsRemoved u l m → IsScheduled u ts m l' → IsScheduled u ts l l'
IsScheduled-again u ts l m l' r s = record {
  present = s.present;
  stamped = s.stamped;
  same_nodes = λ v n. s.same_nodes v n ∙ r.same_nodes v n;
  same_times = λ v n. s.same_times v n ∙ ap (λ t. t v) r.same_time;
}

-- What `pop` makes of the first socket `u`.
abbrev pub HandedOut : ℕ → Bool → Bool × ℕ → SndList → Popped × SndList → Type 0
HandedOut u false (full, ts) l (r, l') = (r ≡ nothing) × IsRemoved u l l'
HandedOut u true (full, zero) l (r, l') =
    (r.result ≡ (if full then pos 1 else negsuc 0)) × (r.address ≡ some u) × IsRemoved u l l'
HandedOut u true (full, suc t) l (r, l') =
    (r.result ≡ (if full then pos 1 else negsuc 0))
    × (r.address ≡ some u)
    × IsScheduled u (suc t) l l'

send_from-HandedOut :
    (u : ℕ) (packed : Bool × ℕ) (l m : SndList)
    → IsSchedule m
    → IsRemoved u l m
    → l.count ≤ l.array_length
    → IsSchedule (send_from u packed m).1 × HandedOut u true packed l (send_from u packed m)
unfolding send_from
send_from-HandedOut u (full, zero) l m s r f = (s, (refl, refl, r))
send_from-HandedOut u (full, suc t) l m s r f =
    let (y, z) =
      insert_node-IsSchedule (suc t) u m r.absent s (omega arith)
        (omega (arith, r.less, r.same_length)) in
    rw (lt→ltb 0 (suc t) (omega arith)) (y, (refl, refl, IsScheduled-again u (suc t) l m _ r z))

serve :
    (u : ℕ) (b : Bool) (packed : Bool × ℕ) (l m : SndList)
    → IsSchedule m
    → IsRemoved u l m
    → l.count ≤ l.array_length
    → let after = if b then send_from u packed m else (nothing, m) in
      IsSchedule after.1 × HandedOut u b packed l after
serve u false (full, ts) l m s r f = (s, (refl, r))
serve u true packed l m s r f = send_from-HandedOut u packed l m s r f

-- From a good schedule, `pop` leaves a good schedule. It changes nothing if the schedule is empty
-- or its first time is not reached; else it takes the first socket out, and if the socket is
-- connected, hands it out with the result of `packData` and puts it back at its next time, if that
-- is not 0.
pub pop-HandedOut :
    (clock : ℕ) (ready : ℕ → Bool) (pack : ℕ → Bool × ℕ) (l : SndList)
    → IsSchedule l
    → IsSchedule (pop clock ready pack l).1
      × (((l.count ≡ 0) ⊎ (clock < key l 0)) × (pop clock ready pack l ≡ (nothing, l))
          ⊎ (0 < l.count)
            × (key l 0 ≤ clock)
            × HandedOut (l.heap 0) (ready (l.heap 0)) (pack (l.heap 0)) l (pop clock ready pack l))
unfolding pop
pop-HandedOut clock ready pack l s = elim (Bool-cases (l.count == 0)) [
  | inl e ↦ rw e (s, inl (inl (ground arith), refl))
  | inr e ↦ elim (Bool-cases (ltb clock (key l 0))) [
    | inl early ↦ rw (e, early) (s, inl (inr (ground arith), refl))
    | inr due ↦
        let p : 0 < l.count = ground arith in
        let (m, r) = remove_node-IsSchedule (l.heap 0) 0 l s (s.indexed.placed 0 p) (inl refl) in
        let (y, h) = serve (l.heap 0) (ready (l.heap 0)) (pack (l.heap 0)) l _ m r s.fits in
        rw (e, due) (y, inr (p, ground arith, h))
  ]
]

-- `update` of the first socket, which stays where it is.
hasten-IsScheduled :
    (u : ℕ) (l : SndList)
    → IsSchedule l
    → l.loc u ≡ some 0
    → IsSchedule (hasten u l) × IsScheduled u 1 l (hasten u l)
unfolding hasten
hasten-IsScheduled u l s at =
    let x = s.indexed in
    (
      record {
        ordered = λ c p n. ground (
          arith,
          s.ordered c,
          x.found u 0 at,
          x.placed c,
          x.placed (parent c),
          s.positive (l.heap c),
          ap l.loc (x.found u 0 at),
        );
        indexed = record { placed = x.placed; inside = x.inside; found = x.found };
        positive = λ v e. ground (arith, s.positive v);
        fits = s.fits;
        room = s.room;
      },
      record {
        present = rw at;
        stamped = ground arith;
        same_nodes = λ v n. refl;
        same_times = λ v n. ground arith;
      },
    )

reschedule_at-IsScheduled :
    (u h : ℕ) (l : SndList)
    → IsSchedule l
    → l.loc u ≡ some h
    → (h ≡ 0) ⊎ (key l (parent h) ≤ key l (l.count - 1))
    → IsSchedule (reschedule_at u h l) × IsScheduled u 1 l (reschedule_at u h l)
unfolding reschedule_at
reschedule_at-IsScheduled u zero l s at f = hasten-IsScheduled u l s at
reschedule_at-IsScheduled u (suc h) l s at f =
    let (m, r) = remove_node-IsSchedule u (suc h) l s at f in
    let (y, z) =
      insert_node-IsSchedule 1 u (remove_node u l) r.absent m (omega arith)
        (omega (arith, r.less, r.same_length, s.fits)) in
    (y, IsScheduled-again u 1 l _ _ r z)

-- In a good schedule with room, `update` with rescheduling puts a socket to time 1 and leaves a
-- good schedule, with the other sockets as they were, if the socket is absent, is the first, or
-- the last entry is not earlier than the one above the socket.
pub update_node-IsScheduled :
    (u : ℕ) (l : SndList)
    → IsSchedule l
    → l.count < l.array_length
    → ((h : ℕ) → l.loc u ≡ some h → (h ≡ 0) ⊎ (key l (parent h) ≤ key l (l.count - 1)))
    → IsSchedule (update_node u true l) × IsScheduled u 1 l (update_node u true l)
unfolding update_node
update_node-IsScheduled u l s room f = elim (Option-cases (l.loc u)) [
  | inl absent ↦ rw (absent, update_node) (insert_node-IsSchedule 1 u l absent s (omega arith) room)
  | inr (h, at) ↦ rw (at, update_node) (reschedule_at-IsScheduled u h l s at (f h at))
]

-- `insert` of an absent socket at a time that is not 0 into a good schedule, with room or memory
-- for more, leaves a good schedule that has the socket at that time and the others as they were.
pub insert-IsScheduled :
    (has_memory : Bool) (ts u : ℕ) (l : SndList)
    → IsSchedule l
    → l.loc u ≡ none
    → 0 < ts
    → (l.count < l.array_length) ⊎ (has_memory ≡ true)
    → IsSchedule (insert has_memory ts u l) × IsScheduled u ts l (insert has_memory ts u l)
unfolding insert
insert-IsScheduled b ts u l s absent later room = elim (Bool-cases (l.count == l.array_length)) [
  | inr e ↦ rw e (insert_node-IsSchedule ts u l absent s later (ground (arith, s.fits)))
  | inl e ↦
      let memory : b ≡ true = ground arith in
      let l2 = record l { array_length = l.array_length * 2 } in
      let s2 : IsSchedule l2 = record {
        ordered = s.ordered;
        indexed = record {
          placed = s.indexed.placed;
          inside = s.indexed.inside;
          found = s.indexed.found;
        };
        positive = s.positive;
        fits = omega (arith, s.fits);
        room = omega (arith, s.room);
      } in
      let (y, z) = insert_node-IsSchedule ts u l2 absent s2 later (ground (arith, s.room)) in
      rw (e, memory)
        (
          y,
          record {
            present = z.present;
            stamped = z.stamped;
            same_nodes = z.same_nodes;
            same_times = z.same_times;
          },
        )
]
