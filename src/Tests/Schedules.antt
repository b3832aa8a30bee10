-- ===== src/Tests/Schedules.antt =====
-- core/queue.cpp, `CSndUList`: schedules of up to seven sockets; core/buffer.cpp, `CSndBuffer`: a
-- circle of blocks that grows.
use pcc_uspace.Base.{
  ℕ, ◌≤◌, ◌<◌, ◌≡◌, ◌⊎◌, ◌↔◌, inr, Bool, true, false, none, List, [], ◌∷◌, refl, arith, ◌==◌, map,
}
use pcc_uspace.Base.Int.{negsuc}
use pcc_uspace.SndList.Heap.{SndList, key, new_snd_list, lift, remove_node}
use pcc_uspace.SndList.Calls.{insert, update_node, pop, nothing}
use pcc_uspace.SndList.Order.{IsHeap, IsSchedule}
use pcc_uspace.SndList.Inserting.{IsScheduled}
use pcc_uspace.SndList.Removing.{remove_node-IsHeap_iff}
use pcc_uspace.SndList.Schedule.{
  pop-HandedOut, HandedOut, update_node-IsScheduled, insert-IsScheduled,
}
use pcc_uspace.SndBuffer.Blocks.{SndBuffer, new_snd_buffer, advance, seek, ack_data}
use pcc_uspace.SndBuffer.Growth.{add_buffer}
use pcc_uspace.SndBuffer.Circle.{IsCircle, new_snd_buffer-IsCircle, ack_data-advance}

empty-IsSchedule : IsSchedule new_snd_list
empty-IsSchedule = record {
  ordered = λ c p n. absurd (omega arith);
  indexed = record {
    placed = λ i p. absurd (omega arith);
    inside = λ u i e. cc e;
    found = λ u i e. cc e;
  };
  positive = λ u e. cc e;
  fits = omega arith;
  room = omega arith;
}

-- The sockets with their times, the first one inserted last.
abbrev schedule : List (ℕ × ℕ) → SndList
schedule [] = new_snd_list
schedule ((u, ts) ∷ l) = insert true ts u (schedule l)

-- Socket 1 is due at 20, socket 0 at 30.
abbrev two : SndList
two = schedule ((1, 20) ∷ (0, 30) ∷ [])

one-IsSchedule : IsSchedule (schedule ((0, 30) ∷ []))
one-IsSchedule =
    (insert-IsScheduled true 30 0 new_snd_list empty-IsSchedule refl (omega arith) (inr refl)).0

insert-IsScheduled_example : IsSchedule two × IsScheduled 1 20 (schedule ((0, 30) ∷ [])) two
unfolding insert
insert-IsScheduled_example =
    insert-IsScheduled true 20 1 (schedule ((0, 30) ∷ [])) one-IsSchedule refl (omega arith)
      (inr refl)

two-IsSchedule : IsSchedule two
unfolding insert
two-IsSchedule =
    (insert-IsScheduled true 20 1 (schedule ((0, 30) ∷ [])) one-IsSchedule refl (omega arith)
      (inr refl)).0

abbrev next_at : ℕ → ℕ → Bool × ℕ
next_at t u = (true, t)

pop-HandedOut_example :
    IsSchedule (pop 25 (λ u. true) (next_at 50) two).1
    × (((two.count ≡ 0) ⊎ (25 < key two 0)) × (pop 25 (λ u. true) (next_at 50) two ≡ (nothing, two))
        ⊎ (0 < two.count)
          × (key two 0 ≤ 25)
          × HandedOut (two.heap 0) true (true, 50) two (pop 25 (λ u. true) (next_at 50) two))
pop-HandedOut_example = pop-HandedOut 25 (λ u. true) (next_at 50) two two-IsSchedule

-- The first socket is served and put behind the other.
popped : map (pop 25 (λ u. true) (next_at 50) two).1.heap (0 ∷ 1 ∷ []) ≡ 0 ∷ 1 ∷ []
unfolding pop insert lift
popped = refl

update_node-IsScheduled_example :
    IsSchedule (update_node 0 true two) × IsScheduled 0 1 two (update_node 0 true two)
unfolding insert lift
update_node-IsScheduled_example =
    update_node-IsScheduled 0 two two-IsSchedule (omega arith)
      (λ h e. inr (let at : h ≡ 1 = ground (arith, e) in rw at (omega arith)))

-- A heap whose last entry is earlier than the one above place 3.
abbrev seven : SndList
seven = schedule ((6, 4) ∷ (5, 3) ∷ (4, 12) ∷ (3, 11) ∷ (2, 2) ∷ (1, 10) ∷ (0, 1) ∷ [])

seven_times : map (key seven) (0 ∷ 1 ∷ 2 ∷ 3 ∷ 4 ∷ 5 ∷ 6 ∷ []) ≡ 1 ∷ 10 ∷ 2 ∷ 11 ∷ 12 ∷ 3 ∷ 4 ∷ []
unfolding insert lift
seven_times = refl

-- One more socket.
more-IsSchedule :
    (u ts : ℕ) (l : SndList)
    → IsSchedule l
    → l.loc u ≡ none
    → 0 < ts
    → IsSchedule (insert true ts u l)
more-IsSchedule u ts l s absent late = (insert-IsScheduled true ts u l s absent late (inr refl)).0

seven-IsSchedule : IsSchedule seven
unfolding insert lift
seven-IsSchedule =
    let s0 = more-IsSchedule 0 1 new_snd_list empty-IsSchedule refl (omega arith) in
    let s1 = more-IsSchedule 1 10 _ s0 refl (omega arith) in
    let s2 = more-IsSchedule 2 2 _ s1 refl (omega arith) in
    let s3 = more-IsSchedule 3 11 _ s2 refl (omega arith) in
    let s4 = more-IsSchedule 4 12 _ s3 refl (omega arith) in
    let s5 = more-IsSchedule 5 3 _ s4 refl (omega arith) in
    more-IsSchedule 6 4 _ s5 refl (omega arith)

-- Without socket 3, socket 6 with its time 4 stands below socket 1 with its time 10.
remove_node-IsHeap_iff_example :
    IsHeap (remove_node 3 seven) ↔ ((◌≡◌ {A = ℕ} 3 0) ⊎ (key seven 1 ≤ key seven 6))
unfolding insert lift
remove_node-IsHeap_iff_example =
    remove_node-IsHeap_iff 3 3 seven refl seven-IsSchedule.indexed seven-IsSchedule.ordered

-- A circle of four blocks; the second buffer's start is reached by the short way.
ack_data-advance_example :
    ((ack_data 6 (new_snd_buffer 4 3)).first
      ≡ advance (new_snd_buffer 4 3).next 6 (new_snd_buffer 4 3).first)
    × IsCircle (ack_data 6 (new_snd_buffer 4 3))
ack_data-advance_example =
    ack_data-advance (new_snd_buffer 4 3) 6 (new_snd_buffer-IsCircle 4 3 (omega arith))

-- Seven bytes in blocks of three fill a circle of two blocks, which grows to four; one is
-- acknowledged, and the circle grows again in its middle.
grown : SndBuffer
unfolding add_buffer ack_data new_snd_buffer
grown = add_buffer (8 ∷ 9 ∷ 10 ∷ 11 ∷ []) 0 (negsuc 0) false (
    ack_data 1
      (add_buffer (1 ∷ 2 ∷ 3 ∷ 4 ∷ 5 ∷ 6 ∷ 7 ∷ []) 0 (negsuc 0) false (new_snd_buffer 2 3)))

-- Is the block behind `n` others the same on both ways?
same_way : SndBuffer → ℕ → Bool
unfolding seek advance
same_way b n = seek b n == advance b.next n b.first

grown_ways :
    map (same_way grown) (0 ∷ 1 ∷ 2 ∷ 3 ∷ 4 ∷ 5 ∷ 6 ∷ 7 ∷ [])
    ≡ true ∷ true ∷ true ∷ true ∷ true ∷ true ∷ true ∷ true ∷ []
unfolding same_way grown
grown_ways = refl

grown_bytes :
    map (λ n. (grown.block (advance grown.next n grown.first)).payload) (0 ∷ 1 ∷ 2 ∷ 3 ∷ [])
    ≡ (4 ∷ 5 ∷ 6 ∷ []) ∷ (7 ∷ []) ∷ (8 ∷ 9 ∷ 10 ∷ []) ∷ (11 ∷ []) ∷ []
unfolding grown advance
grown_bytes = refl
