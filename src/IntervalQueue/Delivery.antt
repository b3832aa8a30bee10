-- ===== src/IntervalQueue/Delivery.antt =====
-- `OnCongestionEvent`, whole: the counters, and what the delegate is called with
-- (pcc_monitor_interval_queue.cpp).
use pcc_uspace.Base.{
  Bool, true, false, ◌≤◌, ◌<◌, ◌≡◌, ==_iff, refl, sym, ◌⊎◌, inl, inr, List, [], ◌∷◌, length,
  count_if, keep_if, length-keep_if, All, arith, Bool-cases, ltb, ◌==◌,
}
use pcc_uspace.Base.Result.{Fault, Result, ok, ◌>>=◌, Returns, >>=-Returns, Returns-mono}
use pcc_uspace.Floats.{Floats}
use pcc_uspace.Quic.Time.{QuicTime}
use pcc_uspace.IntervalQueue.Defs.{MonitorInterval, IntervalQueue}
use pcc_uspace.IntervalQueue.Event.{
  CongestionEvent, Scan, drop_useful, scan, after_scan, remove_useful, deliver, conclude,
  on_congestion_event,
}
use pcc_uspace.IntervalQueue.Counts.{
  useful_count, Timed, IsCounted, ready, drop_useful-Returns, Timed-of-none,
}
use pcc_uspace.IntervalQueue.Scanning.{Scanned, scan-Scanned}

module _ (fl : Floats) where
  open fl use {F32}

  -- What the delegate is called with: every useful interval of the queue, in order, at least one,
  -- each with its utility available and sent over more than one instant.
  pub record IsDelivery (q : IntervalQueue F32) (useful : List (MonitorInterval F32)) : Type 0 where
    pub all_useful : useful ≡ keep_if (λ i. i.is_useful) q.monitor_intervals
    pub counted : length useful ≡ q.num_useful_intervals
    pub some_useful : 0 < length useful
    pub settled : All (λ i. (ready i ≡ true) × Timed i) useful

  count-ready-le : (l : List (MonitorInterval F32)) → count_if ready l ≤ useful_count l
  count-ready-le [] = omega arith
  count-ready-le (i ∷ l) = ground (arith, count-ready-le l)

  ready-keep_if :
      (l : List (MonitorInterval F32))
      → All Timed l
      → count_if ready l ≡ useful_count l
      → All (λ i. (ready i ≡ true) × Timed i) (keep_if (λ i. i.is_useful) l)
  ready-keep_if [] t h = tt
  ready-keep_if (i ∷ l) t h = ground (arith, count-ready-le l, ready-keep_if l t.1)

  module _ {D : Type 0}
      (delegate : IntervalQueue F32 → List (MonitorInterval F32) → QuicTime → D → Result D)
      (E : Fault → Type 0) (P : D → Type 0) (e : CongestionEvent) where
    -- What an event leaves of the queue `q` and of the delegate's state `d`.
    abbrev pub Concluded : IntervalQueue F32 → D → IntervalQueue F32 × D → Type 0
    Concluded q d (q', d') =
        IsCounted q'
        × (((d' ≡ d)
              × ((q'.num_useful_intervals ≡ q.num_useful_intervals)
                  ⊎ (q'.num_useful_intervals ≡ 0)))
            ⊎ (P d' × (q'.num_useful_intervals ≡ 0)))

    -- A delegate that accepts every delivery of the queue `q`.
    abbrev pub Accepts : IntervalQueue F32 → D → Type 0
    Accepts q d =
        (q' : IntervalQueue F32) (useful : List (MonitorInterval F32))
        → q'.num_useful_intervals ≡ q.num_useful_intervals
        → IsDelivery q' useful
        → Returns E (delegate q' useful e.event_time d) P

    remove_useful-IsCounted :
        (q : IntervalQueue F32)
        → q.num_useful_intervals ≡ useful_count q.monitor_intervals
        → Returns E (remove_useful fl q) (λ q'. IsCounted q' × (q'.num_useful_intervals ≡ 0))
    unfolding remove_useful
    remove_useful-IsCounted q h =
        >>=-Returns E (drop_useful q.monitor_intervals q.num_useful_intervals) _
          (λ l. useful_count l ≡ 0) _
          (drop_useful-Returns E q.monitor_intervals q.num_useful_intervals h)
          λ l z. (record { counted = sym z; timed = Timed-of-none l z }, refl)

    deliver-Returns :
        (q : IntervalQueue F32) (d : D)
        → 0 < q.num_useful_intervals
        → IsCounted q
        → q.num_available_intervals ≡ q.num_useful_intervals
        → q.num_available_intervals ≡ count_if ready q.monitor_intervals
        → Accepts q d
        → Returns E (deliver fl delegate q e d) P
    unfolding deliver
    deliver-Returns q d pos c full tally acc =
        let useful = keep_if (λ i. i.is_useful) q.monitor_intervals in
        let len = length-keep_if (λ i. i.is_useful) q.monitor_intervals in
        rw ((==_iff q.num_available_intervals (length useful)).1 (omega (arith, len, c.counted))) (
          acc q useful refl (record {
            all_useful = refl;
            counted = omega (arith, len, c.counted);
            some_useful = omega (arith, len, c.counted);
            settled = ready-keep_if q.monitor_intervals c.timed (omega (arith, c.counted));
          }))

    -- The removal, behind what the delegate returned.
    removed-Concluded :
        (q : IntervalQueue F32) (d : D) (m : Result D)
        → q.num_useful_intervals ≡ useful_count q.monitor_intervals
        → Returns E m (λ d'. (d' ≡ d) ⊎ P d')
        → Returns E (m >>= λ d'. remove_useful fl q >>= λ q'. ok (q', d')) (Concluded q d)
    removed-Concluded q d m h r =
        >>=-Returns E m _ (λ d'. (d' ≡ d) ⊎ P d') _ r
          λ d' a.
            >>=-Returns E (remove_useful fl q) _
              (λ q'. IsCounted q' × (q'.num_useful_intervals ≡ 0)) _ (remove_useful-IsCounted q h)
              λ q' k. ground arith

    conclude-Concluded :
        (q : IntervalQueue F32) (d : D) (has_invalid : Bool)
        → q.num_useful_intervals ≡ useful_count q.monitor_intervals
        → 0 < q.num_useful_intervals
        → (has_invalid ≡ false → q.num_available_intervals ≡ count_if ready q.monitor_intervals)
        → (has_invalid ≡ false → All Timed q.monitor_intervals)
        → Accepts q d
        → Returns E (conclude fl delegate q e has_invalid d) (Concluded q d)
    unfolding conclude
    conclude-Concluded q d true h pos n t acc =
        elim (Bool-cases (ltb q.num_available_intervals q.num_useful_intervals)) [
          | inl less ↦ rw less (removed-Concluded q d (ok d) h (inl refl))
          | inr all ↦ rw all (removed-Concluded q d (ok d) h (inl refl))
        ]
    conclude-Concluded q d false h pos n t acc =
        elim (Bool-cases (ltb q.num_available_intervals q.num_useful_intervals)) [
          | inl less ↦ rw less (c, inl (refl, inl refl))
          | inr all ↦ rw all (
              removed-Concluded q d (deliver fl delegate q e d) h (
                Returns-mono E (deliver fl delegate q e d) P _ (λ d' p. inr p)
                  (deliver-Returns q d pos c
                    (ground (arith, n refl, count-ready-le q.monitor_intervals)) (n refl) acc)))
        ]
      where
        c : IsCounted q
        c = record { counted = h; timed = t refl }

    -- From a queue whose counter is right and whose available intervals are `Timed`, an event
    -- fails none of the queue's checks, given that the delegate accepts every delivery of it, and
    -- leaves such a queue. Either the delegate's state is as before and the counter is as before
    -- or 0, or the delegate's new state satisfies what it promises and the counter is 0.
    pub on_congestion_event-Concluded :
        (q : IntervalQueue F32) (d : D)
        → IsCounted q
        → Accepts q d
        → Returns E (on_congestion_event fl delegate e q d) (Concluded q d)
    unfolding on_congestion_event
    on_congestion_event-Concluded q d c acc = elim (Bool-cases (q.num_useful_intervals == 0)) [
      | inl none ↦ rw none (record { counted = c.counted; timed = c.timed }, inl (refl, inl refl))
      | inr some ↦ rw some (
          >>=-Returns E
            (scan fl q e q.monitor_intervals
              (record { burst_flag = q.burst_flag; avg_interval_ratio = q.avg_interval_ratio }) 0)
            _ (Scanned fl q.monitor_intervals 0) _
            (scan-Scanned fl E q e q.monitor_intervals _ 0 c.timed (omega (arith, c.counted)))
            λ s w. concluded s w (ground arith))
    ]
      where
        concluded :
            (s : Scan F32)
            → Scanned fl q.monitor_intervals 0 s
            → 0 < q.num_useful_intervals
            → Returns E
                (conclude fl delegate (after_scan fl q e s) e s.has_invalid d)
                (Concluded q d)
        concluded s w pos =
            conclude-Concluded (after_scan fl q e s) d s.has_invalid
              (omega (arith, w.flags, c.counted)) pos (λ h. omega (arith, w.tally h)) w.times acc
