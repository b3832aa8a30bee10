-- ===== src/Sender/Soundness.antt =====
-- The invariant of a sender and its queue (pcc_sender.cpp), and the deliveries of the queue.
use pcc_uspace.Base.{
  ℕ, true, false, ◌*◌, ◌≤◌, ◌<◌, ◌≡◌, refl, ap, length-keep_if, List, length, All, arith,
  if◌then◌else◌,
}
use pcc_uspace.Base.Int.{ℤ, pos, negsuc, pos_part, neg_part, +ℤ_parts}
use pcc_uspace.Base.Result.{Returns}
use pcc_uspace.Floats.{Floats}
use pcc_uspace.Quic.Time.{QuicTime, is_zero, scale_delta}
use pcc_uspace.IntervalQueue.Defs.{MonitorInterval, IntervalQueue, is_empty}
use pcc_uspace.IntervalQueue.Counts.{IsCounted, Timed, ready}
use pcc_uspace.IntervalQueue.Updates.{not_empty}
use pcc_uspace.IntervalQueue.Delivery.{IsDelivery}
use pcc_uspace.Utility.{UtilityFunction, settings, Provided}
use pcc_uspace.Sender.State.{
  Sender, SenderMode, starting, probing, decision_made, Variant, pcc, vivace, is_starting,
  is_probing, num_interval_groups_in_probing,
}
use pcc_uspace.Sender.Rtt.{smooth_rtt}
use pcc_uspace.Sender.Events.{Connection, dispatch, on_utility_available, max_num_useful}
use pcc_uspace.Sender.Decisions.{RatesEqual, Fits, Moved, pcc_on_utility_available-Moved}
use pcc_uspace.Sender.VivaceMoves.{vivace_on_utility_available-Moved}

-- What the smoothing of the RTT relies on: 7/8 of a positive number of microseconds rounds to a
-- positive number, and 1/8 of one that is not negative to one that is not negative.
pub record RoundsWell (fl : Floats) : Type 0 where
  pub keeps_positive :
      (n : ℕ)
      → 0 < n
      → (neg_part (scale_delta fl (pos n) (fl.literal64 875 3)) ≡ 0)
        × (0 < pos_part (scale_delta fl (pos n) (fl.literal64 875 3)))
  pub keeps_nonneg : (n : ℕ) → neg_part (scale_delta fl (pos n) (fl.literal64 125 3)) ≡ 0

module _ (fl : Floats) (u : UtilityFunction fl.F32) where
  open fl use {F32}
  open u use {Statistics}

  -- The counters of the queue are right; it holds no more useful intervals than the mode allows;
  -- before the first RTT the mode is STARTING and no interval is useful; and the utility function
  -- has the parameters that it reads.
  pub record IsSound (c : Connection fl u) : Type 0 where
    pub queue : IsCounted c.0
    pub bound : c.0.num_useful_intervals ≤ max_num_useful fl u c.1
    pub nonneg : neg_part c.1.avg_rtt ≡ 0
    pub provided : Provided u (settings c.1.utility_manager)
    pub known :
        is_zero c.1.avg_rtt ≡ true
        → (is_starting c.1.mode ≡ true)
          × (c.0.num_useful_intervals ≡ 0)
          × (is_zero c.1.latest_rtt ≡ true)

  Fits-of-bound :
      (s : Sender F32 Statistics) (n : ℕ)
      → 0 < n
      → n ≤ max_num_useful fl u s
      → Fits fl u s.mode (num_interval_groups_in_probing s) n
  unfolding max_num_useful
  Fits-of-bound s n p b = fits s.mode (num_interval_groups_in_probing s) n p b
    where
      fits :
          (m : SenderMode) (groups n : ℕ)
          → 0 < n
          → n ≤ (if is_probing m then 2 * groups else 1)
          → Fits fl u m groups n
      fits starting groups n p b = omega arith
      fits probing groups n p b = (p, b)
      fits decision_made groups n p b = omega arith

  dispatch-Moved :
      (v : Variant) (q : IntervalQueue F32) (useful : List (MonitorInterval F32)) (t : QuicTime)
      (s : Sender F32 Statistics)
      → s.variant ≡ v
      → Provided u (settings s.utility_manager)
      → is_empty q.monitor_intervals ≡ false
      → All (λ i. (ready i ≡ true) × Timed i) useful
      → Fits fl u s.mode (num_interval_groups_in_probing s) (length useful)
      → Returns RatesEqual (dispatch fl u v q useful t s) (Moved fl u s)
  unfolding dispatch
  dispatch-Moved pcc q useful t s e p ne h f =
      pcc_on_utility_available-Moved fl u q useful t s p ne h f
  dispatch-Moved vivace q useful t s e p ne h f =
      vivace_on_utility_available-Moved fl u q useful t s e p ne h f

  -- The sender, of either class, whose tag has the parameters that its formula reads, accepts
  -- every delivery of a queue that holds no more useful intervals than its mode allows: no check
  -- fails but the one on two equal sending rates, the class, the smoothed RTT, the tag and its
  -- parameters stay, and the move between modes is allowed.
  pub on_utility_available-Moved :
      (q : IntervalQueue F32) (useful : List (MonitorInterval F32)) (t : QuicTime)
      (s : Sender F32 Statistics)
      → Provided u (settings s.utility_manager)
      → q.num_useful_intervals ≤ max_num_useful fl u s
      → IsDelivery fl q useful
      → Returns RatesEqual (on_utility_available fl u q useful t s) (Moved fl u s)
  unfolding on_utility_available
  on_utility_available-Moved q useful t s p b d =
      dispatch-Moved s.variant q useful t s refl p
        (not_empty q.monitor_intervals (
          omega (
            arith,
            ap length d.all_useful,
            length-keep_if (λ i. i.is_useful) q.monitor_intervals,
            d.some_useful,
          )))
        d.settled (Fits-of-bound s (length useful) d.some_useful (omega (arith, d.counted)))

  -- If rounding is as `RoundsWell` says, then smoothing a positive RTT with one that is not
  -- negative gives a positive one.
  pub smooth_rtt-pos :
      RoundsWell fl
      → (a r : ℤ) → neg_part a ≡ 0
      → is_zero a ≡ false
      → neg_part r ≡ 0
      → (neg_part (smooth_rtt fl a r) ≡ 0) × (is_zero (smooth_rtt fl a r) ≡ false)
  unfolding smooth_rtt
  smooth_rtt-pos w (pos a) (pos r) p z n = ground (
    arith,
    w.keeps_positive a,
    w.keeps_nonneg r,
    +ℤ_parts (scale_delta fl (pos a) (fl.literal64 875 3))
        (scale_delta fl (pos r) (fl.literal64 125 3)),
  )
  smooth_rtt-pos w (pos a) (negsuc r) p z n = absurd (omega arith)
  smooth_rtt-pos w (negsuc a) r p z n = absurd (omega arith)
