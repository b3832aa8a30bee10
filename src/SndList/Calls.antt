-- ===== src/SndList/Calls.antt =====
-- core/queue.cpp, `CSndUList`: the calls that its clients make. `has_memory` says whether a larger
-- array can be allocated, `ready` which sockets are connected and not broken, and `pack` is
-- `packData` of a socket: whether there is a packet, and the time of the next one.
use pcc_uspace.Base.{ℕ, zero, suc, ◌+◌, ◌*◌, Bool, Option, none, some, ltb, ◌==◌, if◌then◌else◌}
use pcc_uspace.Base.Int.{ℤ, pos, negsuc}
use pcc_uspace.Base.Places.{update}
use pcc_uspace.SndList.Heap.{SndList, key, insert_node, remove_node}

unfoldable pub insert : Bool → ℕ → ℕ → SndList → SndList
unfolding insert_node
insert has_memory ts u l =
    if l.count == l.array_length
    then (if has_memory
        then insert_node ts u (record l { array_length = l.array_length * 2 })
        else l)
    else insert_node ts u l

-- `update` of a socket at the head of the heap.
unfoldable pub hasten : ℕ → SndList → SndList
hasten u l = record l { time = update l.time u 1; interrupts = l.interrupts + 1 }

unfoldable pub reschedule_at : ℕ → ℕ → SndList → SndList
unfolding hasten insert_node remove_node
reschedule_at u zero l = hasten u l
reschedule_at u (suc h) l = insert_node 1 u (remove_node u l)

unfoldable pub update_node : ℕ → Bool → SndList → SndList
unfolding reschedule_at insert_node
update_node u reschedule l = elim (l.loc u) [
  | none ↦ insert_node 1 u l
  | some h ↦ if reschedule then reschedule_at u h l else l
]

unfoldable pub get_next_proc_time : SndList → ℕ
get_next_proc_time l = if l.count == 0 then 0 else key l 0

-- What `pop` returns, and the socket whose address it hands out.
pub record Popped : Type 0 where
  pub result : ℤ
  pub address : Option ℕ

abbrev pub nothing : Popped
nothing = record { result = negsuc 0; address = none }

-- `packData` is called, and the socket is put back if there is a next time.
unfoldable pub send_from : ℕ → Bool × ℕ → SndList → Popped × SndList
unfolding insert_node
send_from u (full, ts) l = (
  record { result = if full then pos 1 else negsuc 0; address = some u },
  (if ltb 0 ts then insert_node ts u l else l),
)

unfoldable pub pop : ℕ → (ℕ → Bool) → (ℕ → Bool × ℕ) → SndList → Popped × SndList
unfolding send_from remove_node
pop clock ready pack l =
    let u = l.heap 0 in
    let rest = remove_node u l in
    if l.count == 0
    then (nothing, l)
    else if ltb clock (key l 0)
    then (nothing, l)
    else if ready u
    then send_from u (pack u) rest
    else (nothing, rest)
