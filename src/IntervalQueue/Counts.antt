-- ===== src/IntervalQueue/Counts.antt =====
-- The counters of the queue, and the removal of the useful intervals
-- (pcc_monitor_interval_queue.cpp).
use pcc_uspace.Base.{
  ℕ, Bool, true, false, ◌≡◌, refl, sym, ◌∙◌, ◌⊎◌, List, [], ◌∷◌, zero, suc, count_if,
  count_if-append, All, arith, ◌&&◌, if◌then◌else◌,
}
use pcc_uspace.Base.Result.{Fault, Returns}
use pcc_uspace.Floats.{Floats}
use pcc_uspace.Quic.{LostPacket, AckedPacket}
use pcc_uspace.Quic.Time.{Delta}
use pcc_uspace.Quic.Bandwidth.{QuicBandwidth}
use pcc_uspace.IntervalQueue.Defs.{
  MonitorInterval, IntervalQueue, update_back, enqueue_new_monitor_interval, new_interval,
  is_utility_available, has_invalid_utility,
}
use pcc_uspace.IntervalQueue.Event.{
  CongestionEvent, BurstFilter, Verdict, invalid, counts, record_lost, record_all_lost, drop_useful,
  record_acked, record_all_acked, visit,
}

module _ {F : Type 0} where
  abbrev pub useful_count : List (MonitorInterval F) → ℕ
  useful_count = count_if (λ i. i.is_useful)

  -- A useful interval whose utility is available was sent over more than one instant.
  abbrev pub Timed : MonitorInterval F → Type 0
  Timed i = i.is_useful ≡ true → is_utility_available i ≡ true → has_invalid_utility i ≡ false

  -- The counter is the number of useful intervals.
  pub record IsCounted (q : IntervalQueue F) : Type 0 where
    pub counted : q.num_useful_intervals ≡ useful_count q.monitor_intervals
    pub timed : All Timed q.monitor_intervals

  -- Changing the last interval keeps the number of useful ones, if it keeps the flag.
  pub useful_count-update_back :
      (f : MonitorInterval F → MonitorInterval F)
      → ((i : MonitorInterval F) → (f i).is_useful ≡ i.is_useful)
      → (l : List (MonitorInterval F)) → useful_count (update_back f l) ≡ useful_count l
  unfolding update_back
  useful_count-update_back f h [] = refl
  useful_count-update_back f h (i ∷ []) = ground (arith, h i)
  useful_count-update_back f h (i ∷ j ∷ l) = ground (arith, useful_count-update_back f h (j ∷ l))

  pub enqueue-counted :
      (rate : QuicBandwidth) (useful : Bool) (ratio : F) (rtt : Delta) (q : IntervalQueue F)
      → q.num_useful_intervals ≡ useful_count q.monitor_intervals
      → let q' = enqueue_new_monitor_interval rate useful ratio rtt q in
        q'.num_useful_intervals ≡ useful_count q'.monitor_intervals
  unfolding enqueue_new_monitor_interval
  enqueue-counted rate useful ratio rtt q h = ground (
    arith,
    count_if-append (λ (i : MonitorInterval F). i.is_useful) q.monitor_intervals
        (new_interval rate useful ratio rtt ∷ []),
  )

  pub Timed-of-none : (l : List (MonitorInterval F)) → useful_count l ≡ 0 → All Timed l
  Timed-of-none [] h = tt
  Timed-of-none (i ∷ l) h = ((λ u. absurd (ground arith)), Timed-of-none l (ground arith))

  -- Started with the number of useful intervals of its list, the removal loop never reads the
  -- front of an empty list, and leaves no useful interval.
  pub drop_useful-Returns :
      (E : Fault → Type 0) (l : List (MonitorInterval F)) (n : ℕ)
      → n ≡ useful_count l
      → Returns E (drop_useful l n) (λ r. useful_count r ≡ 0)
  unfolding drop_useful
  drop_useful-Returns E [] zero h = refl
  drop_useful-Returns E [] (suc n) h = absurd (omega arith)
  drop_useful-Returns E (i ∷ l) zero h = sym h
  drop_useful-Returns E (i ∷ l) (suc n) h =
      drop_useful-Returns E l (if i.is_useful then n else suc n) (ground arith)

  is_useful-record_all_lost :
      (ps : List LostPacket) (i : MonitorInterval F)
      → (record_all_lost ps i).is_useful ≡ i.is_useful
  unfolding record_all_lost
  is_useful-record_all_lost [] i = refl
  is_useful-record_all_lost (p ∷ ps) i =
      ground (arith, is_useful-record_all_lost ps (record_lost p i))

  -- Is the interval's utility wanted and available?
  abbrev pub ready : MonitorInterval F → Bool
  ready i = i.is_useful && is_utility_available i

module _ (fl : Floats) where
  open fl use {F32}

  is_useful-record_acked :
      (q : IntervalQueue F32) (e : CongestionEvent) (p : AckedPacket)
      (s : BurstFilter F32 × MonitorInterval F32)
      → (record_acked fl q e p s).1.is_useful ≡ s.1.is_useful
  unfolding record_acked
  is_useful-record_acked q e p s = ground arith

  is_useful-record_all_acked :
      (q : IntervalQueue F32) (e : CongestionEvent) (ps : List AckedPacket)
      (s : BurstFilter F32 × MonitorInterval F32)
      → (record_all_acked fl q e ps s).1.is_useful ≡ s.1.is_useful
  unfolding record_all_acked
  is_useful-record_all_acked q e [] s = refl
  is_useful-record_all_acked q e (p ∷ ps) s =
      is_useful-record_all_acked q e ps (record_acked fl q e p s) ∙ is_useful-record_acked q e p s

  -- What the loop's body keeps, and what its verdict says.
  pub record Visited (i : MonitorInterval F32) (v : Verdict) (i' : MonitorInterval F32)
      : Type 0 where
    pub flag : i'.is_useful ≡ i.is_useful
    pub count : (v ≡ invalid) ⊎ (counts v ≡ (if ready i' then 1 else 0))
    pub time : (v ≡ invalid) ⊎ Timed i'

  pub visit-Visited :
      (q : IntervalQueue F32) (e : CongestionEvent) (f : BurstFilter F32) (i : MonitorInterval F32)
      → Timed i
      → let (v, f', i') = visit fl q e f i in Visited i v i'
  unfolding visit is_utility_available has_invalid_utility
  visit-Visited q e f i h = ground (
    arith,
    is_useful-record_all_lost e.lost_packets i,
    is_useful-record_all_acked q e q.pending_acked_packets (f, record_all_lost e.lost_packets i),
  )
