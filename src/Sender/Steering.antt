-- ===== src/Sender/Steering.antt =====
-- `MaybeSetSendingRate` and `CreateUsefulInterval` (pcc_sender.cpp): what a new interval is sent with
-- and whether it is useful.
use pcc_uspace.Base.{
  ℕ, Bool, true, false, not, ◌*◌, ◌<◌, ◌≡◌, refl, ltb, ◌==◌, ==_iff, arith, if◌then◌else◌,
}
use pcc_uspace.Base.Result.{Fault, ok, Returns, >>=-Returns, check-Returns, if-Returns}
use pcc_uspace.Floats.{Floats}
use pcc_uspace.Quic.Time.{is_zero}
use pcc_uspace.IntervalQueue.Defs.{IntervalQueue, is_empty, last_of, current}
use pcc_uspace.IntervalQueue.Counts.{IsCounted}
use pcc_uspace.IntervalQueue.Updates.{last_of-Returns, not_empty}
use pcc_uspace.Utility.{UtilityFunction}
use pcc_uspace.Sender.State.{
  Sender, SenderMode, starting, probing, decision_made, is_starting, is_probing,
  num_interval_groups_in_probing,
}
use pcc_uspace.Sender.Rates.{
  restore_in, maybe_set_sending_rate, round_complete, set_probing_rate,
  restore_central_sending_rate, probe, scale_by,
}
use pcc_uspace.Sender.Events.{max_num_useful, create_useful_interval}

module _ (fl : Floats) (u : UtilityFunction fl.F32) (E : Fault → Type 0) where
  open fl use {F32}
  open u use {Statistics}

  -- What the choice of a rate leaves alone.
  pub record SameControl (s s' : Sender F32 Statistics) : Type 0 where
    pub mode : s'.mode ≡ s.mode
    pub manager : s'.utility_manager ≡ s.utility_manager
    pub avg_rtt : s'.avg_rtt ≡ s.avg_rtt
    pub latest_rtt : s'.latest_rtt ≡ s.latest_rtt

  probe-SameControl :
      (random n : ℕ) (s s' : Sender F32 Statistics)
      → SameControl s s'
      → SameControl s (probe fl random n s')
  unfolding probe scale_by
  probe-SameControl random n s s' k = ground arith

  groups_pos : (s : Sender F32 Statistics) → 0 < num_interval_groups_in_probing s
  unfolding num_interval_groups_in_probing
  groups_pos s = ground arith

  round_complete-Returns :
      (q : IntervalQueue F32) (s : Sender F32 Statistics)
      → IsCounted q
      → Returns E (round_complete fl q s) (λ b. Unit {0})
  unfolding round_complete current
  round_complete-Returns q s c =
      if-Returns E (q.num_useful_intervals == 2 * num_interval_groups_in_probing s) _ _ _
        (λ e.
          >>=-Returns E (last_of q.monitor_intervals) _ (λ i. Unit {0}) _
            (last_of-Returns E q.monitor_intervals (
              not_empty q.monitor_intervals (
                omega (
                  arith,
                  c.counted,
                  groups_pos s,
                  (==_iff q.num_useful_intervals (2 * num_interval_groups_in_probing s)).0 e,
                ))))
            λ i t. tt)
        (λ e. tt)

  restore_in-SameControl :
      (m : SenderMode) (q : IntervalQueue F32) (s : Sender F32 Statistics)
      → (m ≡ probing → is_empty q.monitor_intervals ≡ false)
      → Returns E (restore_in fl m q s) (SameControl s)
  unfolding restore_in scale_by current
  restore_in-SameControl starting q s h = ground arith
  restore_in-SameControl probing q s h =
      >>=-Returns E (current q) _ (λ i. Unit {0}) _ (last_of-Returns E q.monitor_intervals (h refl))
        λ i t. ground arith
  restore_in-SameControl decision_made q s h = ground arith

  set_probing_rate-SameControl :
      (random : ℕ) (q : IntervalQueue F32) (s : Sender F32 Statistics)
      → IsCounted q
      → Returns E (set_probing_rate fl random q s) (SameControl s)
  unfolding set_probing_rate restore_central_sending_rate
  set_probing_rate-SameControl random q s c =
      if-Returns E (q.num_useful_intervals == 0) (ok (probe fl random 0 s)) _ (SameControl s)
        (λ e. probe-SameControl random 0 s s (ground arith))
        (λ e.
          >>=-Returns E (restore_in fl s.mode q s) _ (SameControl s) _
            (restore_in-SameControl s.mode q s
              (λ m. not_empty q.monitor_intervals (ground (arith, c.counted))))
            λ s' k. chosen s' k (q.num_useful_intervals == 2 * num_interval_groups_in_probing s))
    where
      chosen :
          (s' : Sender F32 Statistics)
          → SameControl s s'
          → (b : Bool) → SameControl s (if b then s' else probe fl random q.num_useful_intervals s')
      chosen s' k true = k
      chosen s' k false = probe-SameControl random q.num_useful_intervals s s' k

  pub maybe_set_sending_rate-SameControl :
      (random : ℕ) (q : IntervalQueue F32) (s : Sender F32 Statistics)
      → IsCounted q
      → Returns E (maybe_set_sending_rate fl random q s) (SameControl s)
  unfolding maybe_set_sending_rate
  maybe_set_sending_rate-SameControl random q s c =
      if-Returns E (not (is_probing s.mode)) (ok s) _ (SameControl s) (λ e. ground arith)
        (λ e.
          >>=-Returns E (round_complete fl q s) _ (λ b. Unit {0}) _ (round_complete-Returns q s c)
            λ b t.
              if-Returns E b (ok s) _ (SameControl s) (λ e. ground arith)
                (λ e. set_probing_rate-SameControl random q s c))

  pub create_useful_interval-Returns :
      (q : IntervalQueue F32) (s : Sender F32 Statistics)
      → (is_zero s.avg_rtt ≡ true → is_starting s.mode ≡ true)
      → Returns E (create_useful_interval fl u q s) (λ b.
        b ≡ true → (is_zero s.avg_rtt ≡ false) × (q.num_useful_intervals < max_num_useful fl u s))
  unfolding create_useful_interval
  create_useful_interval-Returns q s h =
      if-Returns E (is_zero s.avg_rtt) _ (ok (ltb q.num_useful_intervals (max_num_useful fl u s))) _
        (λ e. check-Returns E (is_starting s.mode) _ (ok false) _ (h e) (λ f. cc))
        (λ e f. (e, ground arith))
