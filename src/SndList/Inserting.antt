-- ===== src/SndList/Inserting.antt =====
-- core/queue.cpp, `CSndUList::insert_`: a node is added to a good schedule.
use pcc_uspace.Base.{ℕ, ◌<◌, ◌≡◌, ◌≢◌, true, none, arith, ap}
use pcc_uspace.Base.Places.{is_some}
use pcc_uspace.SndList.Heap.{SndList, parent, append, settle, insert_node}
use pcc_uspace.SndList.Order.{IsHeap, IsIndexed, IsSchedule}
use pcc_uspace.SndList.Rising.{IsRising, IsRaised, rise-IsRaised}

-- The schedule `l'` holds `u` with the time `ts`, and every other socket as `l` does.
pub record IsScheduled (u ts : ℕ) (l l' : SndList) : Type 0 where
  pub present : is_some (l'.loc u) ≡ true
  pub stamped : l'.time u ≡ ts
  pub same_nodes : (v : ℕ) → v ≢ u → is_some (l'.loc v) ≡ is_some (l.loc v)
  pub same_times : (v : ℕ) → v ≢ u → l'.time v ≡ l.time v

module _ (ts u : ℕ) (l : SndList) (absent : l.loc u ≡ none) where
  other : (i : ℕ) → IsIndexed l → i < l.count → l.heap i ≢ u
  other i x p e = ground (arith, x.placed i, ap l.loc e, absent)

  append-IsRising : IsHeap l → IsIndexed l → IsRising u (append ts u l) l.count
  unfolding append
  append-IsRising h x = record {
    within = omega arith;
    held = ground arith;
    absent = absent;
    placed = λ i p n. ground (arith, x.placed i);
    inside = λ v i e. ground (arith, x.inside v i);
    found = λ v i e. ground (arith, x.inside v i, x.found v i);
    edges = λ c p n m. ground (arith, h c, other c x, other (parent c) x);
    bridged = λ c p n m z. absurd (omega arith);
  }

-- The entry at `q` gets its place.
settle-IsSchedule :
    (u ts : ℕ) (l l' : SndList) (q : ℕ)
    → l.loc u ≡ none
    → IsSchedule l
    → 0 < ts
    → l.count < l.array_length
    → IsRaised u (append ts u l) l' q
    → IsSchedule (settle u (l', q))
unfolding settle append
settle-IsSchedule u ts l l' q absent s pos room r =
    let v = r.rising in
    record {
      ordered = r.ordered;
      indexed = record {
        placed = λ i p. ground (arith, v.placed i, v.held);
        inside = λ w i e. ground (arith, v.inside w i, v.within);
        found = λ w i e. ground (arith, v.found w i, v.held);
      };
      positive = λ w e. rw r.same_time (ground (arith, s.positive w, r.same_nodes w));
      fits = omega (arith, r.same_count, r.same_length);
      room = omega (arith, r.same_length, s.room);
    }

settle-IsScheduled :
    (u ts : ℕ) (l l' : SndList) (q : ℕ)
    → IsRaised u (append ts u l) l' q
    → IsScheduled u ts l (settle u (l', q))
unfolding settle append
settle-IsScheduled u ts l l' q r = record {
  present = ground arith;
  stamped = rw r.same_time (ground arith);
  same_nodes = λ w n. ground (arith, r.same_nodes w);
  same_times = λ w n. rw r.same_time (ground arith);
}

-- A socket that is not in the schedule is added to it, and nothing else changes.
pub insert_node-IsSchedule :
    (ts u : ℕ) (l : SndList)
    → l.loc u ≡ none
    → IsSchedule l
    → 0 < ts
    → l.count < l.array_length
    → IsSchedule (insert_node ts u l) × IsScheduled u ts l (insert_node ts u l)
unfolding insert_node
insert_node-IsSchedule ts u l absent s pos room =
    let r =
      rise-IsRaised l.count l.count u (append ts u l) (omega arith)
        (append-IsRising ts u l absent s.ordered s.indexed) in
    rw (absent, insert_node)
      (settle-IsSchedule u ts l _ _ absent s pos room r, settle-IsScheduled u ts l _ _ r)
