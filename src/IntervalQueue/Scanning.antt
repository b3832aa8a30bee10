-- ===== src/IntervalQueue/Scanning.antt =====
-- The loop of `OnCongestionEvent` over the intervals and what it counts
-- (pcc_monitor_interval_queue.cpp).
use pcc_uspace.Base.{ℕ, false, ◌+◌, ◌≤◌, ◌≡◌, ◌≢◌, le→leb, List, [], ◌∷◌, count_if, All, arith}
use pcc_uspace.Base.Result.{Fault, Result, ok, ◌>>=◌, Returns, >>=-Returns}
use pcc_uspace.Floats.{Floats}
use pcc_uspace.IntervalQueue.Defs.{MonitorInterval, IntervalQueue}
use pcc_uspace.IntervalQueue.Event.{
  CongestionEvent, BurstFilter, Verdict, useless, settled, waiting, invalid, completed, counts,
  Scan, visit, prepend, scan, advance,
}
use pcc_uspace.IntervalQueue.Counts.{useful_count, Timed, ready, Visited, visit-Visited}

module _ (fl : Floats) where
  open fl use {F32}

  -- What the loop leaves of the intervals `l`, started with `n` available ones.
  pub record Scanned (l : List (MonitorInterval F32)) (n : ℕ) (s : Scan F32) : Type 0 where
    pub flags : useful_count s.intervals ≡ useful_count l
    pub tally : s.has_invalid ≡ false → s.available ≡ n + count_if ready s.intervals
    pub times : s.has_invalid ≡ false → All Timed s.intervals

  prepend-Scanned :
      (n : ℕ) (l : List (MonitorInterval F32)) (v : Verdict) (i i' : MonitorInterval F32)
      (s : Scan F32)
      → Visited fl i v i'
      → v ≢ invalid
      → Scanned l (n + counts v) s
      → Scanned (i ∷ l) n (prepend fl i' s)
  unfolding prepend
  prepend-Scanned n l v i i' s w ne h = ground arith

  -- An interval that counts as available is useful, so the rest of the loop keeps the bound.
  counts-bound :
      (useful n : ℕ) (l : List (MonitorInterval F32)) (v : Verdict) (i i' : MonitorInterval F32)
      → Visited fl i v i'
      → v ≢ invalid
      → n + useful_count (i ∷ l) ≤ useful
      → n + counts v + useful_count l ≤ useful
  counts-bound useful n l v i i' w ne b = ground arith

  module _ (E : Fault → Type 0) (useful n : ℕ) (l : List (MonitorInterval F32))
      (rest : Result (Scan F32)) where
    -- The step that each verdict but `invalid` shares.
    rest-Scanned :
        (v : Verdict) (i i' : MonitorInterval F32)
        → v ≢ invalid
        → Visited fl i v i'
        → (n + counts v + useful_count l ≤ useful → Returns E rest (Scanned l (n + counts v)))
        → n + useful_count (i ∷ l) ≤ useful
        → Returns E (rest >>= λ s. ok (prepend fl i' s)) (Scanned (i ∷ l) n)
    rest-Scanned v i i' ne w k b =
        >>=-Returns E rest _ (Scanned l (n + counts v)) _
          (k (counts-bound useful n l v i i' w ne b)) λ s h. prepend-Scanned n l v i i' s w ne h

    advance-Scanned :
        (v : Verdict) (f : BurstFilter F32) (i i' : MonitorInterval F32)
        → Visited fl i v i'
        → (n + counts v + useful_count l ≤ useful → Returns E rest (Scanned l (n + counts v)))
        → n + useful_count (i ∷ l) ≤ useful
        → Returns E (advance fl useful n l rest v f i') (Scanned (i ∷ l) n)
    unfolding advance
    advance-Scanned useless f i i' w k b = rest-Scanned useless i i' (cc) w k b
    advance-Scanned settled f i i' w k b = rest-Scanned settled i i' (cc) w k b
    advance-Scanned waiting f i i' w k b = rest-Scanned waiting i i' (cc) w k b
    advance-Scanned invalid f i i' w k b = ground arith
    advance-Scanned completed f i i' w k b =
        rw (le→leb (n + 1) useful (omega (arith, counts-bound useful n l completed i i' w (cc) b)))
          (rest-Scanned completed i i' (cc) w k b)

  -- The loop over the intervals fails no `assert`, and `Scanned` says what it leaves.
  pub scan-Scanned :
      (E : Fault → Type 0) (q : IntervalQueue F32) (e : CongestionEvent)
      (l : List (MonitorInterval F32)) (f : BurstFilter F32) (n : ℕ)
      → All Timed l
      → n + useful_count l ≤ q.num_useful_intervals
      → Returns E (scan fl q e l f n) (Scanned l n)
  unfolding scan
  scan-Scanned E q e [] f n t b = ground arith
  scan-Scanned E q e (i ∷ l) f n t b =
      let (v, f', i') = visit fl q e f i in
      advance-Scanned E q.num_useful_intervals n l (scan fl q e l f' (n + counts v)) v f' i i'
        (visit-Visited fl q e f i t.0) (λ b'. scan-Scanned E q e l f' (n + counts v) t.1 b') b
