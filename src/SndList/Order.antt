-- ===== src/SndList/Order.antt =====
-- core/queue.cpp, `CSndUList`: what a good schedule is, and its first entry.
use pcc_uspace.Base.{ℕ, zero, suc, ◌≤◌, ◌<◌, ◌≡◌, true, some, arith}
use pcc_uspace.Base.Places.{is_some}
use pcc_uspace.SndList.Heap.{SndList, key, parent}

-- No entry is earlier than the one above it.
abbrev pub IsHeap : SndList → Type 0
IsHeap l = (c : ℕ) → 0 < c → c < l.count → key l (parent c) ≤ key l c

-- The nodes know their places.
pub record IsIndexed (l : SndList) : Type 0 where
  pub placed : (i : ℕ) → i < l.count → l.loc (l.heap i) ≡ some i
  pub inside : (u i : ℕ) → l.loc u ≡ some i → i < l.count
  pub found : (u i : ℕ) → l.loc u ≡ some i → l.heap i ≡ u

-- A time stamp of 0 would stand for an empty schedule.
pub record IsSchedule (l : SndList) : Type 0 where
  pub ordered : IsHeap l
  pub indexed : IsIndexed l
  pub positive : (u : ℕ) → is_some (l.loc u) ≡ true → 0 < l.time u
  pub fits : l.count ≤ l.array_length
  pub room : 0 < l.array_length

root_least_below :
    (k : ℕ) (l : SndList) (i : ℕ) → IsHeap l → i < k → i < l.count → key l 0 ≤ key l i
root_least_below zero l i h f p = absurd (omega arith)
root_least_below (suc k) l i h f p = ground (arith, h i, root_least_below k l (parent i) h)

-- The first entry has the least time stamp.
pub root_least : (l : SndList) (i : ℕ) → IsHeap l → i < l.count → key l 0 ≤ key l i
root_least l i h p = root_least_below (suc i) l i h (omega arith) p
