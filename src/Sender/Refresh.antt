-- ===== src/Sender/Refresh.antt =====
-- The RTT part of `PccSender::OnCongestionEvent`: what it may change, and when it finds inflation.
use pcc_uspace.Base.{
  Bool, true, false, ◌||◌, ◌≡◌, refl, inl, inr, List, [], ◌∷◌, arith, if◌then◌else◌, Bool-cases,
}
use pcc_uspace.Base.Int.{neg_part}
use pcc_uspace.Base.Result.{Returns, >>=-Returns, Returns-mono, if-Returns}
use pcc_uspace.Floats.{Floats}
use pcc_uspace.Quic.Time.{QuicTime, Delta, is_zero, time_le, is_initialized}
use pcc_uspace.IntervalQueue.Defs.{MonitorInterval, IntervalQueue, is_empty, last_of}
use pcc_uspace.IntervalQueue.Updates.{last_of-Returns}
use pcc_uspace.Utility.{UtilityFunction}
use pcc_uspace.Sender.State.{Sender, is_starting}
use pcc_uspace.Sender.Rtt.{update_rtt, inflation_over, check_for_rtt_inflation}
use pcc_uspace.Sender.Decisions.{RatesEqual}
use pcc_uspace.Sender.Events.{Connection, take_rtt, first_rtt, inflated_in_starting}
use pcc_uspace.Sender.Soundness.{RoundsWell, IsSound, smooth_rtt-pos}

module _ (fl : Floats) (u : UtilityFunction fl.F32) where
  open fl use {F32}
  open u use {Statistics}

  -- The RTT estimates may change, and the sending rate.
  pub record Refreshed (s s' : Sender F32 Statistics) : Type 0 where
    pub variant : s'.variant ≡ s.variant
    pub mode : s'.mode ≡ s.mode
    pub manager : s'.utility_manager ≡ s.utility_manager
    pub nonneg : neg_part s'.avg_rtt ≡ 0
    pub known :
        is_zero s'.avg_rtt ≡ true → (is_zero s.avg_rtt ≡ true) × (is_zero s'.latest_rtt ≡ true)

  update_rtt-Refreshed :
      RoundsWell fl
      → (t : QuicTime) (rtt : Delta) (s : Sender F32 Statistics) → neg_part rtt ≡ 0
      → neg_part s.avg_rtt ≡ 0
      → Refreshed s (update_rtt fl t rtt s)
  unfolding update_rtt
  update_rtt-Refreshed w t rtt s h n = elim (Bool-cases (is_zero s.avg_rtt)) [
    | inl z ↦ record {
      variant = refl;
      mode = refl;
      manager = refl;
      nonneg = rw z h;
      known = λ e. (z, ground arith);
    }
    | inr z ↦ record {
      variant = refl;
      mode = refl;
      manager = refl;
      nonneg = rw z (smooth_rtt-pos fl u w s.avg_rtt rtt n z h).0;
      known = λ e. absurd (ground (arith, smooth_rtt-pos fl u w s.avg_rtt rtt n z h));
    }
  ]

  pub first_rtt-Refreshed :
      (s s' : Sender F32 Statistics) → Refreshed s s' → Refreshed s (first_rtt fl u s')
  unfolding first_rtt
  first_rtt-Refreshed s s' r = ground arith

  pub take_rtt-Refreshed :
      RoundsWell fl
      → (updated : Bool) (rtt : Delta) (t : QuicTime) (c : Connection fl u) → neg_part rtt ≡ 0
      → IsSound fl u c
      → Refreshed c.1 (take_rtt fl u updated rtt t c.1).1
  unfolding take_rtt
  take_rtt-Refreshed w true rtt t c h sound =
      let s = c.1 in
      let last = if is_initialized s.latest_ack_timestamp then s.latest_ack_timestamp else t in
      let k =
        update_rtt-Refreshed w t rtt (record s { latest_ack_timestamp = last }) h sound.nonneg in
      record {
        variant = k.variant;
        mode = k.mode;
        manager = k.manager;
        nonneg = k.nonneg;
        known = k.known;
      }
  take_rtt-Refreshed w false rtt t c h sound = record {
    variant = refl;
    mode = refl;
    manager = refl;
    nonneg = sound.nonneg;
    known = λ e. (e, (sound.known e).2);
  }

  -- Only `rtt_on_inflation_start_` differs.
  pub record SameState (s s' : Sender F32 Statistics) : Type 0 where
    pub variant : s'.variant ≡ s.variant
    pub mode : s'.mode ≡ s.mode
    pub manager : s'.utility_manager ≡ s.utility_manager
    pub avg_rtt : s'.avg_rtt ≡ s.avg_rtt
    pub latest_rtt : s'.latest_rtt ≡ s.latest_rtt

  not_above_zero : (a b : Delta) → is_zero a ≡ true → is_zero b ≡ true → time_le b a ≡ true
  not_above_zero a b e h = ground arith

  inflation_over-Returns :
      (l : List (MonitorInterval F32)) (s : Sender F32 Statistics)
      → (is_zero s.avg_rtt ≡ true → is_zero s.latest_rtt ≡ true)
      → Returns RatesEqual
          (inflation_over fl l s)
          (λ r. SameState s r.1 × (r.0 ≡ true → is_zero s.avg_rtt ≡ false))
  unfolding inflation_over is_empty
  inflation_over-Returns [] s h = (
    record { variant = refl; mode = refl; manager = refl; avg_rtt = refl; latest_rtt = refl },
    λ e. cc,
  )
  inflation_over-Returns (i ∷ l) s h =
      if-Returns RatesEqual (is_zero i.rtt_on_monitor_start || time_le s.latest_rtt s.avg_rtt) _ _ _
        (λ e. (
          record { variant = refl; mode = refl; manager = refl; avg_rtt = refl; latest_rtt = refl },
          λ e. cc,
        ))
        (λ e.
          >>=-Returns RatesEqual (last_of (i ∷ l)) _ (λ b. Unit {0}) _
            (last_of-Returns RatesEqual (i ∷ l) is_empty-cons)
            λ b x. (
              record {
                variant = refl;
                mode = refl;
                manager = refl;
                avg_rtt = refl;
                latest_rtt = refl;
              },
              λ y. above e,
            ))
    where
      is_empty-cons : is_empty (i ∷ l) ≡ false
      is_empty-cons = refl

      above :
          (is_zero i.rtt_on_monitor_start || time_le s.latest_rtt s.avg_rtt) ≡ false
          → is_zero s.avg_rtt ≡ false
      above e = elim (Bool-cases (is_zero s.avg_rtt)) [
        | inl z ↦ ground (arith, not_above_zero s.avg_rtt s.latest_rtt z (h z))
        | inr z ↦ z
      ]

  -- The early test leaves the state, and finds inflation only in STARTING with a known RTT.
  pub inflated_in_starting-Returns :
      (q : IntervalQueue F32) (s : Sender F32 Statistics)
      → (is_zero s.avg_rtt ≡ true → is_zero s.latest_rtt ≡ true)
      → Returns RatesEqual (inflated_in_starting fl u (q, s)) (λ r.
        SameState s r.1 × (r.0 ≡ true → (is_zero s.avg_rtt ≡ false) × (is_starting s.mode ≡ true)))
  unfolding inflated_in_starting check_for_rtt_inflation
  inflated_in_starting-Returns q s h =
      if-Returns RatesEqual (is_starting s.mode) _ _ _
        (λ m.
          Returns-mono RatesEqual (inflation_over fl q.monitor_intervals s)
            (λ r. SameState s r.1 × (r.0 ≡ true → is_zero s.avg_rtt ≡ false)) _
            (λ r k. (k.0, λ e. (k.1 e, m))) (inflation_over-Returns q.monitor_intervals s h))
        (λ m. (
          record { variant = refl; mode = refl; manager = refl; avg_rtt = refl; latest_rtt = refl },
          λ e. cc,
        ))
