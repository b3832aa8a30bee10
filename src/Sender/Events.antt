-- ===== src/Sender/Events.antt =====
-- The entry points of a sender: a packet is sent, packets are acknowledged or lost, and the
-- questions that the transport asks (pcc_sender.cpp).
use pcc_uspace.Base.{
  ◌+◌, ◌%◌, ℕ, Bool, true, false, not, ◌-◌, ◌*◌, ◌||◌, List, ltb, ◌==◌, if◌then◌else◌, length,
}
use pcc_uspace.Base.Int.{pos, ◌-ℤ◌}
use pcc_uspace.Base.Result.{Result, ok, ◌>>=◌, ◌>>◌, check, useful_without_rtt}
use pcc_uspace.Floats.{Floats}
use pcc_uspace.Quic.{AckedPacket, LostPacket}
use pcc_uspace.Quic.Time.{QuicTime, Delta, zero_time, is_zero, is_initialized, time_lt, scale_delta}
use pcc_uspace.Quic.Bandwidth.{u64, QuicBandwidth, scale_rate, to_bytes_per_period}
use pcc_uspace.IntervalQueue.Defs.{
  MonitorInterval, IntervalQueue, current, empty, size, on_packet_sent,
  enqueue_new_monitor_interval, extend_current_interval, on_rtt_inflation_in_starting,
}
use pcc_uspace.IntervalQueue.Event.{on_congestion_event}
use pcc_uspace.Utility.{UtilityTag, UtilityFunction, set_utility_tag, set_utility_parameter}
use pcc_uspace.Sender.State.{
  Sender, starting, probing, decision_made, Variant, pcc, vivace, is_starting, is_probing,
  is_increase, initial_rtt, num_interval_groups_in_probing,
}
use pcc_uspace.Sender.Rtt.{update_rtt, check_for_rtt_inflation, max_rtt_fluctuation_tolerance}
use pcc_uspace.Sender.Rates.{
  probe_down, decision_up, inverse, enter_probing, maybe_set_sending_rate,
}
use pcc_uspace.Sender.Pcc.{pcc_on_utility_available}
use pcc_uspace.Sender.Vivace.{vivace_on_utility_available}

module _ (fl : Floats) (u : UtilityFunction fl.F32) where
  open fl use {F32, of_int32, narrow, literal32, literal64, div32, lt32}
  open u use {Statistics}

  -- A sender and its interval queue.
  abbrev pub Connection : Type 0
  Connection = IntervalQueue F32 × Sender F32 Statistics

  -- The virtual call that the queue makes.
  unfoldable pub dispatch :
      Variant
      → IntervalQueue F32
      → List (MonitorInterval F32)
      → QuicTime
      → Sender F32 Statistics
      → Result (Sender F32 Statistics)
  unfolding pcc_on_utility_available vivace_on_utility_available
  dispatch pcc = pcc_on_utility_available fl u
  dispatch vivace = vivace_on_utility_available fl u

  unfoldable pub on_utility_available :
      IntervalQueue F32
      → List (MonitorInterval F32)
      → QuicTime
      → Sender F32 Statistics
      → Result (Sender F32 Statistics)
  unfolding dispatch
  on_utility_available q useful event_time s = dispatch s.variant q useful event_time s

  -- `GetSendingRateForNonUsefulInterval`, of both classes.
  unfoldable pub rate_for_non_useful : Sender F32 Statistics → QuicBandwidth
  unfolding scale_rate inverse probe_down decision_up
  rate_for_non_useful s = elim s.variant [
    | vivace ↦ s.sending_rate
    | pcc ↦ elim s.mode [
      | starting ↦ scale_rate fl s.sending_rate (narrow (literal64 5 1))
      | probing ↦ scale_rate fl s.sending_rate (probe_down fl)
      | decision_made ↦
          if is_increase s.direction
          then scale_rate fl s.sending_rate (inverse fl (decision_up fl s.rounds))
          else s.sending_rate
    ]
  ]

  -- How many useful intervals the queue may hold in the sender's mode.
  unfoldable pub max_num_useful : Sender F32 Statistics → ℕ
  max_num_useful s = if is_probing s.mode then 2 * num_interval_groups_in_probing s else 1

  unfoldable pub create_useful_interval : IntervalQueue F32 → Sender F32 Statistics → Result Bool
  unfolding max_num_useful
  create_useful_interval q s =
      if is_zero s.avg_rtt
      then (do check (is_starting s.mode) useful_without_rtt; ok false)
      else ok (ltb q.num_useful_intervals (max_num_useful s))

  -- Is the share of reliable RTT samples above kMinReliabilityRatio?
  unfoldable pub is_reliable_interval : MonitorInterval F32 → Bool
  is_reliable_interval i =
      lt32 (literal32 8 1)
        (div32 (of_int32 (pos i.num_reliable_rtt)) (of_int32 (pos (length i.packet_rtt_samples))))

  -- The end of `CreateNewInterval`, for the interval `i` at the back.
  unfoldable pub create_behind :
      MonitorInterval F32 → QuicTime → Connection → Result (Bool × Connection)
  unfolding is_reliable_interval
  create_behind i event_time (q, s) =
      if not i.is_useful
      then ok (false, (q, s))
      else if not i.has_enough_reliable_rtt
          || time_lt (event_time -ℤ i.first_packet_sent_time) s.monitor_duration
      then ok (false, (q, s))
      else if is_reliable_interval i
      then ok (true, (q, s))
      else if i.is_monitor_duration_extended
      then ok (true, (q, s))
      else (do
        q' ← extend_current_interval q
        ok (
          false,
          (q', record s { monitor_duration = scale_delta fl s.monitor_duration (literal64 2 0) }),
        ))

  unfoldable pub create_new_interval : QuicTime → Connection → Result (Bool × Connection)
  unfolding create_behind
  create_new_interval event_time (q, s) =
      if empty q
      then ok (true, (q, s))
      else if is_zero s.latest_rtt
      then ok (false, (q, s))
      else if q.num_useful_intervals == 0
      then ok (true, (q, s))
      else (do i ← current q; create_behind i event_time (q, s))

  -- The branch of `OnPacketSent` that opens an interval; `random` is the value of `rand()`.
  unfoldable pub open_interval : ℕ → Connection → Result Connection
  unfolding maybe_set_sending_rate create_useful_interval rate_for_non_useful
  open_interval random (q, s) = do
    s' ← maybe_set_sending_rate fl random q s
    let s'' = record s' { monitor_duration = scale_delta fl s'.min_rtt (literal64 1 0) }
    useful ← create_useful_interval q s''
    let rate = if useful then s''.sending_rate else rate_for_non_useful s''
    ok (
      enqueue_new_monitor_interval rate useful (max_rtt_fluctuation_tolerance fl s'') s''.avg_rtt q,
      s'',
    )

  -- The first packet starts the clocks of the connection.
  unfoldable pub start_clock : QuicTime → Sender F32 Statistics → Sender F32 Statistics
  start_clock t s =
      if is_initialized s.conn_start_time
      then s
      else record s { conn_start_time = t; latest_sent_timestamp = t }

  -- `PccSender::OnPacketSent`.
  unfoldable pub send_packet : ℕ → QuicTime → ℕ → ℕ → Connection → Result Connection
  unfolding start_clock create_new_interval open_interval
  send_packet random sent_time number bytes (q, s) = do
    (new, c) ← create_new_interval sent_time (q, start_clock sent_time s)
    (q', s') ← if new then open_interval random c else ok c
    ok (
      on_packet_sent sent_time number bytes (sent_time -ℤ s'.latest_sent_timestamp) q',
      record s' { latest_sent_timestamp = sent_time },
    )

  -- The part of `OnCongestionEvent` that updates the sender: the RTT, and on the first event the
  -- sending rate. It gives the ACK interval.
  unfoldable pub take_rtt :
      Bool → Delta → QuicTime → Sender F32 Statistics → Delta × Sender F32 Statistics
  unfolding update_rtt
  take_rtt rtt_updated rtt event_time s =
      let last =
        if is_initialized s.latest_ack_timestamp then s.latest_ack_timestamp else event_time in
      let started = record s { latest_ack_timestamp = last } in
      if rtt_updated
      then (event_time -ℤ last, update_rtt fl event_time rtt started)
      else (zero_time, started)

  unfoldable pub first_rtt : Sender F32 Statistics → Sender F32 Statistics
  first_rtt s = if s.has_seen_valid_rtt then s else record s {
    has_seen_valid_rtt = true;
    sending_rate =
        if time_lt s.latest_rtt initial_rtt
        then scale_rate fl s.sending_rate (div32 (of_int32 initial_rtt) (of_int32 s.latest_rtt))
        else s.sending_rate;
  }

  -- The early way into PROBING: is the mode STARTING and the RTT inflated?
  unfoldable pub inflated_in_starting : Connection → Result (Bool × Sender F32 Statistics)
  inflated_in_starting (q, s) =
      if is_starting s.mode then check_for_rtt_inflation fl q s else ok (false, s)

  -- `PccSender::OnCongestionEvent`.
  unfoldable pub receive_feedback :
      Bool → Delta → QuicTime → List AckedPacket → List LostPacket → Connection → Result Connection
  unfolding take_rtt first_rtt inflated_in_starting on_congestion_event on_utility_available
  receive_feedback rtt_updated rtt event_time acked lost (q, s) = do
    let (ack_interval, s1) = take_rtt rtt_updated rtt event_time s
    (inflated, s2) ← inflated_in_starting (q, first_rtt s1)
    if inflated
        then (do let q' = on_rtt_inflation_in_starting q; s3 ← enter_probing fl q' s2; ok (q', s3))
        else on_congestion_event fl on_utility_available
            (record {
              acked_packets = acked;
              lost_packets = lost;
              avg_rtt = s2.avg_rtt;
              latest_rtt = s2.latest_rtt;
              min_rtt = s2.min_rtt;
              event_time = event_time;
              ack_interval = ack_interval;
            })
            q s2

  -- `CanSend`: what stands behind its two returns in the source is never run. The difference is one
  -- of `size_t` numbers, which wraps.
  unfoldable pub can_send : Connection → Bool
  can_send (q, s) = if ltb 4 ((size q + u64 - q.num_useful_intervals) % u64) then false else true

  unfoldable pub pacing_rate : Connection → Result QuicBandwidth
  pacing_rate (q, s) = if empty q then ok s.sending_rate else (do i ← current q; ok i.sending_rate)

  unfoldable pub get_congestion_window : Sender F32 Statistics → ℕ
  get_congestion_window s =
      to_bytes_per_period s.sending_rate (if is_zero s.min_rtt then initial_rtt else s.min_rtt)

  unfoldable pub change_utility_tag : UtilityTag → Sender F32 Statistics → Sender F32 Statistics
  unfolding set_utility_tag
  change_utility_tag tag s = record s { utility_manager = set_utility_tag tag s.utility_manager }

  unfoldable pub add_utility_parameter : F32 → Sender F32 Statistics → Sender F32 Statistics
  unfolding set_utility_parameter
  add_utility_parameter value s = record s {
    utility_manager = set_utility_parameter value s.utility_manager;
  }
