-- ===== src/Sender/Rtt.antt =====
-- The RTT estimates of a sender (`UpdateRtt`) and its test for RTT inflation.
use pcc_uspace.Base.{Bool, false, ◌||◌, List, [], ◌∷◌, if◌then◌else◌}
use pcc_uspace.Base.Int.{pos, ◌+ℤ◌, ◌-ℤ◌, abs}
use pcc_uspace.Base.Result.{Result, ok, ◌>>=◌}
use pcc_uspace.Floats.{Floats}
use pcc_uspace.Quic.Time.{QuicTime, Delta, zero_time, div_ℤ, is_zero, time_lt, time_le, scale_delta}
use pcc_uspace.IntervalQueue.Defs.{MonitorInterval, IntervalQueue, last_of}
use pcc_uspace.Sender.State.{Sender, is_starting}

module _ (fl : Floats) where
  open fl use {
    F32, F64, of_int32, of_int64, widen, narrow, literal64, add32, add64, mul64, truncate64,
  }

  unfoldable pub new_rtt_deviation : Delta → Delta → Delta → Delta
  unfolding div_ℤ ◌-ℤ◌ abs
  new_rtt_deviation deviation avg rtt =
      if is_zero deviation
      then div_ℤ rtt 2
      else truncate64 (
          add64 (mul64 (literal64 75 2) (of_int64 deviation))
            (mul64 (literal64 25 2) (of_int64 (abs (avg -ℤ rtt)))))

  -- The smoothed RTT, once there is one.
  unfoldable pub smooth_rtt : Delta → Delta → Delta
  smooth_rtt avg rtt = scale_delta fl avg (literal64 875 3) +ℤ scale_delta fl rtt (literal64 125 3)

  module _ {S : Type 0} where
    unfoldable pub update_rtt : QuicTime → Delta → Sender F32 S → Sender F32 S
    unfolding new_rtt_deviation
    update_rtt event_time rtt s =
        let deviation = new_rtt_deviation s.rtt_deviation s.avg_rtt rtt in
        record s {
          latest_rtt = rtt;
          rtt_deviation = deviation;
          min_rtt_deviation =
              if is_zero s.min_rtt_deviation || time_lt deviation s.min_rtt_deviation
              then deviation
              else s.min_rtt_deviation;
          avg_rtt = if is_zero s.avg_rtt then rtt else smooth_rtt s.avg_rtt rtt;
          min_rtt = if is_zero s.min_rtt || time_lt rtt s.min_rtt then rtt else s.min_rtt;
          latest_ack_timestamp = event_time;
        }

    -- What stands behind the `return` of this function in the source is never run.
    unfoldable pub max_rtt_fluctuation_tolerance : Sender F32 S → F32
    max_rtt_fluctuation_tolerance s =
        if is_starting s.mode then narrow (literal64 100 0) else narrow (literal64 1 0)

    -- The test over the interval at the back of the queue. The two flags of the source that would
    -- change it are constant and false.
    unfoldable pub exceeds_tolerance : Sender F32 S → MonitorInterval F32 → Bool
    unfolding max_rtt_fluctuation_tolerance
    exceeds_tolerance s i =
        time_lt
          (scale_delta fl i.rtt_on_monitor_start
            (widen (add32 (of_int32 (pos 1)) (max_rtt_fluctuation_tolerance s))))
          s.avg_rtt

    unfoldable pub inflation_over :
        List (MonitorInterval F32) → Sender F32 S → Result (Bool × Sender F32 S)
    unfolding last_of exceeds_tolerance
    inflation_over [] s = ok (false, record s { rtt_on_inflation_start = zero_time })
    inflation_over (i ∷ l) s =
        if is_zero i.rtt_on_monitor_start || time_le s.latest_rtt s.avg_rtt
        then ok (false, record s { rtt_on_inflation_start = zero_time })
        else do
          c ← last_of (i ∷ l)
          let inflated = exceeds_tolerance s c
          let start =
              if is_zero s.rtt_on_inflation_start then s.avg_rtt else s.rtt_on_inflation_start
          ok (inflated, record s { rtt_on_inflation_start = if inflated then zero_time else start })

    unfoldable pub check_for_rtt_inflation :
        IntervalQueue F32 → Sender F32 S → Result (Bool × Sender F32 S)
    unfolding inflation_over
    check_for_rtt_inflation q s = inflation_over q.monitor_intervals s
