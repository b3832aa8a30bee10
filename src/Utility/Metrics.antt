-- ===== src/Utility/Metrics.antt =====
-- pcc/pcc_utility_manager.cpp: the metrics of one interval, from `PreProcessing` to
-- `ComputeRttDeviation`. Operations on `float` end in f, those on `double` in d. The library's
-- `pow`, `sqrt` and `abs` are the overloads for the arguments' types.
use pcc_uspace.Base.{
  ℕ, Bool, ◌+◌, ◌-◌, ◌/◌, ◌%◌, ◌||◌, List, [], ◌∷◌, ltb, ◌==◌, if◌then◌else◌, length, take, drop,
  count_if, zero, suc,
}
use pcc_uspace.Base.Int.{pos, ◌+ℤ◌, ◌-ℤ◌}
use pcc_uspace.Floats.{Floats}
use pcc_uspace.Quic.Time.{QuicTime, Delta, zero_time, scale_delta}
use pcc_uspace.Quic.Bandwidth.{u64, transfer_time}
use pcc_uspace.IntervalQueue.Defs.{PacketRttSample, MonitorInterval}
use pcc_uspace.Utility.Stats.{IntervalStats, max_packet_size, bits_per_byte}

-- The time stamp of the sample at an index inside the list.
unfoldable pub ack_time_at : List PacketRttSample → ℕ → QuicTime
ack_time_at [] k = zero_time
ack_time_at (p ∷ l) zero = p.ack_timestamp
ack_time_at (p ∷ l) (suc k) = ack_time_at l k

abbrev pub is_for_gradient : PacketRttSample → Bool
is_for_gradient p = p.is_reliable_for_gradient_calculation

-- The sum of the round trips of the samples for the gradient, onto `total`.
unfoldable pub sum_rtt : Delta → List PacketRttSample → Delta
unfolding ◌+ℤ◌
sum_rtt total [] = total
sum_rtt total (p ∷ l) = sum_rtt (if is_for_gradient p then total +ℤ p.sample_rtt else total) l

module _ (fl : Floats) where
  open fl use {
    F32, of_int32, widen, narrow, literal64, sqrt32, pow64, add32 as ◌+f◌, sub32 as ◌-f◌,
    mul32 as ◌*f◌, div32 as ◌/f◌, lt32 as ◌<f◌, add64 as ◌+d◌, mul64 as ◌*d◌, div64 as ◌/d◌,
  }

  infixl 65 ◌+f◌ ◌-f◌ ◌+d◌
  infixl 70 ◌*f◌ ◌/f◌ ◌*d◌ ◌/d◌
  infix 50 ◌<f◌
  -- `static_cast<float>` of a number.
  abbrev of_nat : ℕ → F32
  of_nat n = of_int32 (pos n)

  abbrev rtt_of : PacketRttSample → F32
  rtt_of p = of_int32 p.sample_rtt

  unfoldable pub pre_processing : IntervalStats F32 → IntervalStats F32
  pre_processing s = record s { marked_lost_bytes = pos 0 }

  unfoldable pub interval_duration_of : MonitorInterval F32 → F32
  unfolding ◌+ℤ◌ ◌-ℤ◌ transfer_time
  interval_duration_of i = of_int32 (
      i.last_packet_sent_time
      -ℤ i.first_packet_sent_time
      +ℤ transfer_time i.sending_rate max_packet_size)

  -- The difference `bytes_acked - kMaxPacketSize` is of unsigned numbers.
  unfoldable pub ack_rate_of : MonitorInterval F32 → F32 → F32
  unfolding ack_time_at ◌-ℤ◌
  ack_rate_of i duration =
      let n = length i.packet_rtt_samples in
      if ltb 1 n
      then of_nat ((i.bytes_acked + u64 - max_packet_size) % u64)
        *f of_nat bits_per_byte
        /f of_int32 (ack_time_at i.packet_rtt_samples (n - 1) -ℤ ack_time_at i.packet_rtt_samples 0)
      else if n == 1
      then of_nat i.bytes_acked /f duration
      else of_nat 0

  unfoldable pub compute_simple_metrics :
      MonitorInterval F32 → IntervalStats F32 → IntervalStats F32
  unfolding interval_duration_of ack_rate_of ◌-ℤ◌
  compute_simple_metrics i s =
      let duration = interval_duration_of i in
      record s {
        interval_duration = duration;
        rtt_ratio = of_int32 i.rtt_on_monitor_start /f of_int32 i.rtt_on_monitor_end;
        loss_rate = of_int32 (pos i.bytes_lost -ℤ s.marked_lost_bytes) /f of_nat i.bytes_sent;
        actual_sending_rate_mbps = of_nat i.bytes_sent *f of_nat bits_per_byte /f duration;
        ack_rate_mbps = ack_rate_of i duration;
      }

  -- The mean of the samples' round trips: their sum times 1.0 / n.
  unfoldable pub mean_rtt : List PacketRttSample → Delta
  unfolding sum_rtt scale_delta
  mean_rtt l =
      scale_delta fl (sum_rtt zero_time l)
        (literal64 1 0 /d widen (of_nat (count_if is_for_gradient l)))

  unfoldable pub approx_gradient : List PacketRttSample → List PacketRttSample → F32
  unfolding mean_rtt ◌+ℤ◌ ◌-ℤ◌
  approx_gradient first second =
      if count_if is_for_gradient first == 0 || count_if is_for_gradient second == 0
      then narrow (literal64 0 0)
      else narrow (
          literal64 2 0
          *d widen (of_int32 (mean_rtt second -ℤ mean_rtt first))
          /d widen (of_int32 (mean_rtt second +ℤ mean_rtt first)))

  -- The two halves have the same length, so an odd last sample is in neither.
  unfoldable pub compute_approx_rtt_gradient :
      MonitorInterval F32 → IntervalStats F32 → IntervalStats F32
  unfolding approx_gradient
  compute_approx_rtt_gradient i s =
      let half = length i.packet_rtt_samples / 2 in
      record s {
        approx_rtt_gradient =
            approx_gradient (take half i.packet_rtt_samples)
              (take half (drop half i.packet_rtt_samples));
      }

  -- A loop that adds a value of each sample for the gradient to `total`.
  unfoldable pub sum_samples : (PacketRttSample → F32) → F32 → List PacketRttSample → F32
  sum_samples f total [] = total
  sum_samples f total (p ∷ l) = sum_samples f (if is_for_gradient p then total +f f p else total) l

  -- The average of a value over the samples for the gradient.
  unfoldable pub sample_avg : (PacketRttSample → F32) → MonitorInterval F32 → F32
  unfolding sum_samples
  sample_avg f i =
      sum_samples f (narrow (literal64 0 0)) i.packet_rtt_samples
      /f of_nat i.num_reliable_rtt_for_gradient_calculation

  abbrev number_of : PacketRttSample → F32
  number_of p = of_nat p.packet_number

  -- The slope of the regression line, per packet.
  unfoldable pub rtt_slope : F32 → F32 → List PacketRttSample → F32
  unfolding sum_samples
  rtt_slope x_avg y_avg l =
      sum_samples (λ p. (number_of p -f x_avg) *f (rtt_of p -f y_avg)) (narrow (literal64 0 0)) l
      /f sum_samples (λ p. (number_of p -f x_avg) *f (number_of p -f x_avg))
          (narrow (literal64 0 0)) l

  unfoldable pub compute_rtt_gradient : MonitorInterval F32 → IntervalStats F32 → IntervalStats F32
  unfolding sample_avg rtt_slope transfer_time
  compute_rtt_gradient i s =
      let x_avg = sample_avg number_of i in
      let y_avg = sample_avg rtt_of i in
      let gradient =
        rtt_slope x_avg y_avg i.packet_rtt_samples
        /f of_int32 (transfer_time i.sending_rate max_packet_size) in
      if ltb i.num_reliable_rtt_for_gradient_calculation 2
      then record s { rtt_gradient = of_nat 0; rtt_gradient_cut = of_nat 0 }
      else record s {
        rtt_gradient = gradient;
        avg_rtt = y_avg;
        rtt_gradient_cut = y_avg -f gradient *f x_avg;
      }

  -- The loop over the squared distances from the line, which adds in `double`.
  unfoldable pub sum_errors : IntervalStats F32 → F32 → List PacketRttSample → F32
  sum_errors s total [] = total
  sum_errors s total (p ∷ l) =
      let line = number_of p *f s.rtt_gradient +f s.rtt_gradient_cut in
      let added = narrow (widen total +d pow64 (widen (rtt_of p -f line)) (literal64 2 0)) in
      sum_errors s (if is_for_gradient p then added else total) l

  unfoldable pub compute_rtt_gradient_error :
      MonitorInterval F32 → IntervalStats F32 → IntervalStats F32
  unfolding sum_errors
  compute_rtt_gradient_error i s =
      let total = sum_errors s (narrow (literal64 0 0)) i.packet_rtt_samples in
      record s {
        rtt_gradient_error =
            if ltb i.num_reliable_rtt_for_gradient_calculation 2
            then narrow (literal64 0 0)
            else sqrt32 (total /f of_nat i.num_reliable_rtt_for_gradient_calculation) /f s.avg_rtt;
      }
