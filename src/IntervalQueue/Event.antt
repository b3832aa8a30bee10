-- ===== src/IntervalQueue/Event.antt =====
-- `PccMonitorIntervalQueue::OnCongestionEvent`: the two packet loops of an interval, the loop over
-- the intervals, the call of the delegate and the removal of the intervals that it has seen.
use pcc_uspace.Base.{
  ℕ, Bool, true, false, not, ◌+◌, ◌%◌, ◌&&◌, List, [], ◌∷◌, ◌++◌, ltb, leb, ◌==◌, if◌then◌else◌,
  suc, zero, length, keep_if,
}
use pcc_uspace.Base.Int.{pos}
use pcc_uspace.Base.Result.{
  Result, ok, err, ◌>>=◌, ◌>>◌, check, front_of_empty, available_exceeds_useful, available_mismatch,
}
use pcc_uspace.Floats.{Floats}
use pcc_uspace.Quic.{AckedPacket, LostPacket}
use pcc_uspace.Quic.Time.{QuicTime, Delta, is_zero, time_lt}
use pcc_uspace.Quic.Bandwidth.{u64}
use pcc_uspace.IntervalQueue.Defs.{
  MonitorInterval, IntervalQueue, is_utility_available, interval_contains_packet,
  has_invalid_utility, min_reliable_rtt,
}

-- The arguments of `OnCongestionEvent`.
pub record CongestionEvent : Type 0 where
  pub acked_packets : List AckedPacket
  pub lost_packets : List LostPacket
  pub avg_rtt : Delta
  pub latest_rtt : Delta
  pub min_rtt : Delta
  pub event_time : QuicTime
  pub ack_interval : Delta

-- `burst_flag_` and `avg_interval_ratio_`, which the loops update as they go.
pub record BurstFilter (F : Type 0) : Type 0 where
  pub burst_flag : Bool
  pub avg_interval_ratio : F

-- What the loop over the intervals makes of one of them.
pub data Verdict : Type 0 where
  useless : Verdict
  settled : Verdict
  waiting : Verdict
  invalid : Verdict
  completed : Verdict

-- The state of the loop over the intervals.
pub record Scan (F : Type 0) : Type 0 where
  pub intervals : List (MonitorInterval F)
  pub filter : BurstFilter F
  pub available : ℕ
  pub has_invalid : Bool

-- By how much the verdict raises `num_available_intervals_`.
abbrev pub counts : Verdict → ℕ
counts settled = 1
counts completed = 1
counts _ = 0

module _ {F : Type 0} where
  unfoldable pub record_lost : LostPacket → MonitorInterval F → MonitorInterval F
  record_lost p i =
      if interval_contains_packet i p.packet_number
      then record i {
        bytes_lost = (i.bytes_lost + p.bytes_lost) % u64;
        lost_packet_samples =
            i.lost_packet_samples
            ++ (record { packet_number = p.packet_number; bytes = p.bytes_lost } ∷ []);
      }
      else i

  unfoldable pub record_all_lost : List LostPacket → MonitorInterval F → MonitorInterval F
  unfolding record_lost
  record_all_lost [] i = i
  record_all_lost (p ∷ ps) i = record_all_lost ps (record_lost p i)

  -- The changes that one acknowledged packet makes to its interval.
  unfoldable pub credit :
      IntervalQueue F → AckedPacket → Bool → MonitorInterval F → MonitorInterval F
  credit q p reliable i =
      let count = if reliable then i.num_reliable_rtt + 1 else i.num_reliable_rtt in
      record i {
        rtt_on_monitor_start =
            if i.bytes_acked == 0 then q.pending_avg_rtt else i.rtt_on_monitor_start;
        bytes_acked = (i.bytes_acked + p.bytes_acked) % u64;
        num_reliable_rtt = count;
        num_reliable_rtt_for_gradient_calculation =
            if reliable
            then i.num_reliable_rtt_for_gradient_calculation + 1
            else i.num_reliable_rtt_for_gradient_calculation;
        packet_rtt_samples =
            i.packet_rtt_samples
            ++ (record {
              packet_number = p.packet_number;
              sample_rtt = q.pending_rtt;
              ack_timestamp = q.pending_event_time;
              is_reliable = reliable;
              is_reliable_for_gradient_calculation = reliable;
            }
                ∷ []);
        has_enough_reliable_rtt =
            if leb min_reliable_rtt count then true else i.has_enough_reliable_rtt;
      }

  -- `while (num_useful_intervals_ > 0)`: drop intervals from the front until no useful one is left.
  unfoldable pub drop_useful : List (MonitorInterval F) → ℕ → Result (List (MonitorInterval F))
  drop_useful [] zero = ok []
  drop_useful [] (suc n) = err front_of_empty
  drop_useful (i ∷ l) zero = ok (i ∷ l)
  drop_useful (i ∷ l) (suc n) = drop_useful l (if i.is_useful then n else suc n)

module _ (fl : Floats) where
  open fl use {F32, of_int32, widen, narrow, literal64, div32, lt32, lt64, add64, mul64, div64}

  -- The ratio of two ACK intervals, the larger over the smaller.
  unfoldable pub interval_ratio : Delta → Delta → F32
  interval_ratio pending now =
      let ratio = div32 (of_int32 pending) (of_int32 now) in
      if lt64 (widen ratio) (literal64 1 0)
      then narrow (div64 (literal64 1 0) (widen ratio))
      else ratio

  -- Is the RTT sample reliable? The pending ACK interval is not zero.
  unfoldable pub judge :
      IntervalQueue F32 → CongestionEvent → BurstFilter F32 → F32 → BurstFilter F32 × Bool
  judge q e f ratio =
      let avg =
        if lt32 f.avg_interval_ratio (of_int32 (pos 0)) then ratio else f.avg_interval_ratio in
      let jump = lt64 (mul64 (literal64 50 0) (widen avg)) (widen ratio) in
      let over = time_lt q.pending_rtt e.latest_rtt && time_lt q.pending_rtt q.pending_avg_rtt in
      (
        record {
          burst_flag = if jump then true else f.burst_flag && not over;
          avg_interval_ratio =
              narrow
                (add64 (mul64 (widen avg) (literal64 9 1)) (mul64 (widen ratio) (literal64 1 1)));
        },
        not jump && not f.burst_flag,
      )

  unfoldable pub is_reliable :
      IntervalQueue F32 → CongestionEvent → BurstFilter F32 → BurstFilter F32 × Bool
  unfolding judge interval_ratio
  is_reliable q e f =
      if is_zero q.pending_ack_interval
      then (f, false)
      else judge q e f (interval_ratio q.pending_ack_interval e.ack_interval)

  unfoldable pub record_acked :
      IntervalQueue F32
      → CongestionEvent
      → AckedPacket
      → BurstFilter F32 × MonitorInterval F32
      → BurstFilter F32 × MonitorInterval F32
  unfolding is_reliable credit
  record_acked q e p (f, i) =
      if interval_contains_packet i p.packet_number
      then (let (f', reliable) = is_reliable q e f in (f', credit q p reliable i))
      else (f, i)

  -- The loop over the packets acknowledged by the previous event.
  unfoldable pub record_all_acked :
      IntervalQueue F32
      → CongestionEvent
      → List AckedPacket
      → BurstFilter F32 × MonitorInterval F32
      → BurstFilter F32 × MonitorInterval F32
  unfolding record_acked
  record_all_acked q e [] s = s
  record_all_acked q e (p ∷ ps) s = record_all_acked q e ps (record_acked q e p s)

  -- The body of the loop over the intervals.
  unfoldable pub visit :
      IntervalQueue F32
      → CongestionEvent
      → BurstFilter F32
      → MonitorInterval F32
      → Verdict × BurstFilter F32 × MonitorInterval F32
  unfolding record_all_lost record_all_acked
  visit q e f i =
      if not i.is_useful
      then (useless, f, i)
      else if is_utility_available i
      then (settled, f, i)
      else (let (f', i') =
            record_all_acked q e q.pending_acked_packets (f, record_all_lost e.lost_packets i) in
          let final = record i' { rtt_on_monitor_end = e.avg_rtt; min_rtt = e.min_rtt } in
          if not (is_utility_available i')
          then (waiting, f', i')
          else if has_invalid_utility i'
          then (invalid, f', final)
          else (completed, f', final))

  unfoldable pub prepend : MonitorInterval F32 → Scan F32 → Scan F32
  prepend i s = record s { intervals = i ∷ s.intervals }

  -- What the loop does behind an interval, given its rest `l` and what the loop makes of that.
  unfoldable pub advance :
      ℕ
      → ℕ
      → List (MonitorInterval F32)
      → Result (Scan F32)
      → Verdict
      → BurstFilter F32
      → MonitorInterval F32
      → Result (Scan F32)
  unfolding prepend
  advance useful n l rest useless f i = do s ← rest; ok (prepend i s)
  advance useful n l rest settled f i = do s ← rest; ok (prepend i s)
  advance useful n l rest waiting f i = do s ← rest; ok (prepend i s)
  advance useful n l rest invalid f i =
      ok (record { intervals = i ∷ l; filter = f; available = n; has_invalid = true })
  advance useful n l rest completed f i = do
    check (leb (n + 1) useful) available_exceeds_useful
    s ← rest
    ok (prepend i s)

  -- The loop: it stops at an interval whose utility is invalid.
  unfoldable pub scan :
      IntervalQueue F32
      → CongestionEvent
      → List (MonitorInterval F32)
      → BurstFilter F32
      → ℕ
      → Result (Scan F32)
  unfolding visit advance
  scan q e [] f n = ok (record { intervals = []; filter = f; available = n; has_invalid = false })
  scan q e (i ∷ l) f n =
      let (v, f', i') = visit q e f i in
      advance q.num_useful_intervals n l (scan q e l f' (n + counts v)) v f' i'

  -- The queue behind the loop, with the event's packets pending.
  unfoldable pub after_scan : IntervalQueue F32 → CongestionEvent → Scan F32 → IntervalQueue F32
  after_scan q e s = record q {
    monitor_intervals = s.intervals;
    pending_acked_packets = e.acked_packets;
    pending_rtt = e.latest_rtt;
    pending_avg_rtt = e.avg_rtt;
    pending_ack_interval = e.ack_interval;
    pending_event_time = e.event_time;
    burst_flag = s.filter.burst_flag;
    avg_interval_ratio = s.filter.avg_interval_ratio;
    num_available_intervals = s.available;
  }

  unfoldable pub remove_useful : IntervalQueue F32 → Result (IntervalQueue F32)
  unfolding drop_useful
  remove_useful q = do
    l ← drop_useful q.monitor_intervals q.num_useful_intervals
    ok (record q { monitor_intervals = l; num_useful_intervals = 0; num_available_intervals = 0 })

  -- `delegate_->OnUtilityAvailable`, on a state `D` of the delegate; it can read the queue.
  module _ {D : Type 0}
      (delegate : IntervalQueue F32 → List (MonitorInterval F32) → QuicTime → D → Result D) where
    unfoldable pub deliver : IntervalQueue F32 → CongestionEvent → D → Result D
    deliver q e d = do
      let useful = keep_if (λ i. i.is_useful) q.monitor_intervals
      check (q.num_available_intervals == length useful) available_mismatch
      delegate q useful e.event_time d

    unfoldable pub conclude :
        IntervalQueue F32 → CongestionEvent → Bool → D → Result (IntervalQueue F32 × D)
    unfolding deliver remove_useful
    conclude q e has_invalid d =
        if ltb q.num_available_intervals q.num_useful_intervals && not has_invalid
        then ok (q, d)
        else do d' ← if has_invalid then ok d else deliver q e d; q' ← remove_useful q; ok (q', d')

    unfoldable pub on_congestion_event :
        CongestionEvent → IntervalQueue F32 → D → Result (IntervalQueue F32 × D)
    unfolding scan after_scan conclude
    on_congestion_event e q d =
        if q.num_useful_intervals == 0 then ok (record q { num_available_intervals = 0 }, d) else do
          s ←
              scan q e q.monitor_intervals
                (record { burst_flag = q.burst_flag; avg_interval_ratio = q.avg_interval_ratio }) 0
          conclude (after_scan q e s) e s.has_invalid d
