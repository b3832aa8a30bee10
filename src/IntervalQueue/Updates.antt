-- ===== src/IntervalQueue/Updates.antt =====
-- The operations of the queue besides `OnCongestionEvent` and its invariant
-- (pcc_monitor_interval_queue.cpp).
use pcc_uspace.Base.{
  ℕ, Bool, true, false, ◌+◌, ◌≤◌, ◌<◌, ◌≡◌, refl, sym, ◌∙◌, List, [], ◌∷◌, ◌++◌, All, arith,
}
use pcc_uspace.Base.Result.{Fault, Returns}
use pcc_uspace.Quic.Time.{QuicTime, Delta}
use pcc_uspace.Quic.Bandwidth.{QuicBandwidth, u64}
use pcc_uspace.IntervalQueue.Defs.{
  MonitorInterval, IntervalQueue, update_back, record_sent, enqueue_new_monitor_interval,
  new_interval, on_packet_sent, extend_current_interval, on_rtt_inflation_in_starting, is_empty,
  last_of, is_utility_available, has_invalid_utility,
}
use pcc_uspace.IntervalQueue.Counts.{
  useful_count, Timed, IsCounted, enqueue-counted, useful_count-update_back,
}

module _ {F : Type 0} where
  pub All-append :
      (P : MonitorInterval F → Type 0) (l m : List (MonitorInterval F))
      → All P l
      → All P m
      → All P (l ++ m)
  All-append P [] m h k = k
  All-append P (i ∷ l) m h k = (h.0, All-append P l m h.1 k)

  pub All-update_back :
      (f : MonitorInterval F → MonitorInterval F) (P Q : MonitorInterval F → Type 0)
      → ((i : MonitorInterval F) → P i → Q i)
      → ((i : MonitorInterval F) → P i → Q (f i))
      → (l : List (MonitorInterval F)) → All P l
      → All Q (update_back f l)
  unfolding update_back
  All-update_back f P Q keep new [] h = tt
  All-update_back f P Q keep new (i ∷ []) h = (new i h.0, tt)
  All-update_back f P Q keep new (i ∷ j ∷ l) h =
      (keep i h.0, All-update_back f P Q keep new (j ∷ l) h.1)

  -- No more bytes of the interval are acknowledged or lost than were sent, and `bytes` more of them
  -- do not wrap.
  abbrev pub Unsettled : ℕ → MonitorInterval F → Type 0
  Unsettled bytes i = (i.bytes_acked + i.bytes_lost ≤ i.bytes_sent) × (i.bytes_sent + bytes < u64)

  new_interval-Timed :
      (rate : QuicBandwidth) (useful : Bool) (ratio : F) (rtt : Delta)
      → Timed (new_interval rate useful ratio rtt)
  unfolding new_interval is_utility_available
  new_interval-Timed rate useful ratio rtt a b = cc

  -- A new interval, useful or not, keeps the queue's counter right and its available intervals
  -- `Timed`.
  pub enqueue-IsCounted :
      (rate : QuicBandwidth) (useful : Bool) (ratio : F) (rtt : Delta) (q : IntervalQueue F)
      → IsCounted q
      → IsCounted (enqueue_new_monitor_interval rate useful ratio rtt q)
  unfolding enqueue_new_monitor_interval
  enqueue-IsCounted rate useful ratio rtt q c = record {
    counted = enqueue-counted rate useful ratio rtt q c.counted;
    timed =
        All-append Timed q.monitor_intervals (new_interval rate useful ratio rtt ∷ []) c.timed
          (new_interval-Timed rate useful ratio rtt, tt);
  }

  record_sent-Timed :
      (t : QuicTime) (number bytes : ℕ) (gap : Delta) (i : MonitorInterval F)
      → 0 < bytes
      → Unsettled bytes i
      → Timed (record_sent t number bytes gap i)
  unfolding record_sent is_utility_available
  record_sent-Timed t number bytes gap i pos h a b = absurd (ground arith)

  -- Recording a sent packet of some bytes keeps the queue's counter right and its available
  -- intervals `Timed`, if each interval has no more bytes acknowledged or lost than sent and
  -- counts the packet's bytes without wrapping.
  pub on_packet_sent-IsCounted :
      (t : QuicTime) (number bytes : ℕ) (gap : Delta) (q : IntervalQueue F)
      → 0 < bytes
      → All (Unsettled bytes) q.monitor_intervals
      → IsCounted q
      → IsCounted (on_packet_sent t number bytes gap q)
  unfolding on_packet_sent
  on_packet_sent-IsCounted t number bytes gap q pos h c = record {
    counted =
        c.counted
        ∙ sym (
            useful_count-update_back (record_sent t number bytes gap) (λ i. ground arith)
              q.monitor_intervals);
    timed =
        All-update_back (record_sent t number bytes gap) (λ i. Timed i × Unsettled bytes i) Timed
          (λ i p. p.0) (λ i p. record_sent-Timed t number bytes gap i pos p.1) q.monitor_intervals
          (All-both q.monitor_intervals c.timed h);
  }
    where
      All-both :
          (l : List (MonitorInterval F))
          → All Timed l
          → All (Unsettled bytes) l
          → All (λ i. Timed i × Unsettled bytes i) l
      All-both [] h k = tt
      All-both (i ∷ l) h k = ((h.0, k.0), All-both l h.1 k.1)

  extended-Timed :
      (i : MonitorInterval F) → Timed i → Timed (record i { is_monitor_duration_extended = true })
  unfolding is_utility_available has_invalid_utility
  extended-Timed i p = p

  -- On a queue that is not empty, whose counter is right and whose available intervals are
  -- `Timed`, marking the last interval as extended succeeds, keeps both, and leaves the counter as
  -- it was.
  pub extend-Returns :
      (E : Fault → Type 0) (q : IntervalQueue F)
      → is_empty q.monitor_intervals ≡ false
      → IsCounted q
      → Returns E
          (extend_current_interval q)
          (λ q'. IsCounted q' × (q'.num_useful_intervals ≡ q.num_useful_intervals))
  unfolding extend_current_interval
  extend-Returns E q e c = rw e (
    record {
      counted =
          c.counted
          ∙ sym (
              useful_count-update_back (λ i. record i { is_monitor_duration_extended = true })
                (λ i. refl) q.monitor_intervals);
      timed =
          All-update_back (λ i. record i { is_monitor_duration_extended = true }) Timed Timed
            (λ i p. p) extended-Timed q.monitor_intervals c.timed;
    },
    refl,
  )

  pub on_rtt_inflation-IsCounted :
      (q : IntervalQueue F) → IsCounted (on_rtt_inflation_in_starting q)
  unfolding on_rtt_inflation_in_starting
  on_rtt_inflation-IsCounted q = record { counted = refl; timed = tt }

  -- A queue with a useful interval has a back.
  pub last_of-Returns :
      (E : Fault → Type 0) (l : List (MonitorInterval F))
      → is_empty l ≡ false
      → Returns E (last_of l) (λ i. Unit {0})
  unfolding last_of is_empty
  last_of-Returns E [] h = cc
  last_of-Returns E (i ∷ []) h = tt
  last_of-Returns E (i ∷ j ∷ l) h = last_of-Returns E (j ∷ l) refl

  pub not_empty : (l : List (MonitorInterval F)) → 0 < useful_count l → is_empty l ≡ false
  unfolding is_empty
  not_empty [] h = absurd (omega arith)
  not_empty (i ∷ l) h = refl
