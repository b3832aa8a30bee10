-- ===== src/SndList/Heap.antt =====
-- core/queue.{h,cpp}, `CSndUList`: the sockets that wait to send, a heap in an array ordered by the
-- time of their next packet. A socket is a number, and its node the time stamp and the place in the
-- heap that the tables give it. `count` is `m_iLastEntry + 1`; times are `uint64_t` far below
-- 2 ^ 64. The signals to the timer and to the sending thread are counted.
use pcc_uspace.Base.{
  ℕ, zero, suc, ◌+◌, ◌-◌, ◌*◌, ◌/◌, ◌&&◌, Option, none, some, ltb, ◌==◌, if◌then◌else◌,
}
use pcc_uspace.Base.Places.{update}

pub record SndList : Type 0 where
  pub heap : ℕ → ℕ
  pub array_length : ℕ
  pub count : ℕ
  pub time : ℕ → ℕ
  pub loc : ℕ → Option ℕ
  pub interrupts : ℕ
  pub signals : ℕ

abbrev pub new_snd_list : SndList
new_snd_list = record {
  heap = λ i. 0;
  array_length = 4096;
  count = 0;
  time = λ u. 0;
  loc = λ u. none;
  interrupts = 0;
  signals = 0;
}

-- The time stamp at a place of the heap.
abbrev pub key : SndList → ℕ → ℕ
key l i = l.time (l.heap i)

abbrev pub parent : ℕ → ℕ
parent q = (q - 1) / 2

-- A round of the loop of `insert_`: the node above moves down to `q`.
unfoldable pub lift : ℕ → ℕ → SndList → SndList
lift p q l = record l {
  heap = update (update l.heap p (l.heap q)) q (l.heap p);
  loc = update l.loc (l.heap p) (some q);
}

-- The loop of `insert_`, with its last `q`; each round more than halves `q`.
unfoldable pub rise : ℕ → ℕ → SndList → SndList × ℕ
rise zero q l = (l, q)
rise (suc k) q l =
    let p = parent q in
    let rest = rise k p (lift p q l) in
    if q == 0 then (l, q) else if ltb (key l q) (key l p) then rest else (l, q)

-- The node gets its place; `insert_` wakes the timer for a new first entry, and the thread for the
-- first entry of an empty list.
unfoldable pub settle : ℕ → SndList × ℕ → SndList
settle u (l, q) = record l {
  loc = update l.loc u (some q);
  interrupts = if q == 0 then l.interrupts + 1 else l.interrupts;
  signals = if l.count == 1 then l.signals + 1 else l.signals;
}

unfoldable pub append : ℕ → ℕ → SndList → SndList
append ts u l = record l {
  heap = update l.heap l.count u;
  count = l.count + 1;
  time = update l.time u ts;
}

unfoldable pub insert_node : ℕ → ℕ → SndList → SndList
unfolding append rise settle
insert_node ts u l =
    let added = settle u (rise l.count l.count (append ts u l)) in
    elim (l.loc u) [ some i ↦ l | none ↦ added ]

-- A round of the loop of `remove_`.
unfoldable pub exchange : ℕ → ℕ → SndList → SndList
exchange p q l = record l {
  heap = update (update l.heap p (l.heap q)) q (l.heap p);
  loc = update (update l.loc (l.heap q) (some p)) (l.heap p) (some q);
}

unfoldable pub smaller_child : ℕ → SndList → ℕ
smaller_child q l =
    let p = q * 2 + 1 in if ltb (p + 1) l.count && ltb (key l (p + 1)) (key l p) then p + 1 else p

-- The loop of `remove_`; each round raises `q`, which stays below the count.
unfoldable pub sink : ℕ → ℕ → SndList → SndList
sink zero q l = l
sink (suc k) q l =
    let p = smaller_child q l in
    let rest = sink k p (exchange p q l) in
    if ltb (q * 2 + 1) l.count then (if ltb (key l p) (key l q) then rest else l) else l

-- The last entry takes the place that becomes free.
unfoldable pub fill : ℕ → SndList → SndList
fill h l = record l {
  heap = update l.heap h (l.heap (l.count - 1));
  count = l.count - 1;
  loc = update l.loc (l.heap (l.count - 1)) (some h);
}

unfoldable pub forget : ℕ → SndList → SndList
forget u l = record l { loc = update l.loc u none }

-- The last test of `remove_`.
unfoldable pub wake_single : SndList → SndList
wake_single l = record l { interrupts = if l.count == 1 then l.interrupts + 1 else l.interrupts }

unfoldable pub remove_node : ℕ → SndList → SndList
unfolding fill sink smaller_child forget wake_single
remove_node u l = elim (l.loc u) [
  | none ↦ wake_single l
  | some h ↦ wake_single (forget u (sink l.count h (fill h l)))
]
