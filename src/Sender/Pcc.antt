-- ===== src/Sender/Pcc.antt =====
-- `PccSender::OnUtilityAvailable`: utilities in, the next mode and sending rate out.
use pcc_uspace.Base.{
  ℕ, Bool, true, false, not, ◌+◌, ◌-◌, ◌*◌, List, [], ◌∷◌, ltb, ◌==◌, if◌then◌else◌, zero, suc,
  length, get_or,
}
use pcc_uspace.Base.Int.{pos, ◌-ℤ◌}
use pcc_uspace.Base.Result.{Result, ok, ◌>>=◌, ◌>>◌, check, utility_count}
use pcc_uspace.Floats.{Floats}
use pcc_uspace.Quic.Time.{QuicTime, Delta}
use pcc_uspace.Quic.Bandwidth.{zero_bandwidth, rate_lt}
use pcc_uspace.IntervalQueue.Defs.{MonitorInterval, IntervalQueue}
use pcc_uspace.Utility.{UtilityManager, UtilityFunction, calculate_utility}
use pcc_uspace.Sender.State.{
  Sender, SenderMode, RateChangeDirection, UtilityInfo, starting, probing, decision_made, increase,
  decrease, is_increase, num_interval_groups_in_probing,
}
use pcc_uspace.Sender.Rates.{
  scale_by, decision_up, decision_down, enter_probing, enter_decision_made, max_f32,
}

module _ (fl : Floats) where
  open fl use {F32, of_int32, literal32, lt32}

  abbrev pub no_info : UtilityInfo F32
  no_info = record { sending_rate = zero_bandwidth; utility = literal32 0 0 }

  -- `utility_info[k]`; each use stands behind a test of the vector's size.
  abbrev pub info_at : List (UtilityInfo F32) → ℕ → UtilityInfo F32
  info_at infos k = get_or infos k no_info

  -- Does the higher rate of the i-th pair of intervals have the better utility?
  unfoldable pub increase_wins : List (UtilityInfo F32) → ℕ → Bool
  increase_wins infos i =
      let a = info_at infos (2 * i) in
      let b = info_at infos (2 * i + 1) in
      if lt32 b.utility a.utility
      then rate_lt b.sending_rate a.sending_rate
      else rate_lt a.sending_rate b.sending_rate

  -- The loop of `CanMakeDecision` from round `i`, with `rest` rounds to go.
  unfoldable pub consistent_from : List (UtilityInfo F32) → ℕ → ℕ → Bool → Bool
  unfolding increase_wins
  consistent_from infos zero i first = true
  consistent_from infos (suc rest) i first =
      let this = increase_wins infos i in
      let first' = if i == 0 then this else first in
      let later = consistent_from infos rest (i + 1) first' in
      if (if this then not first' else first') then false else later

  module _ (u : UtilityFunction F32) where
    open u use {Statistics}

    unfoldable pub can_make_decision : Sender F32 Statistics → List (UtilityInfo F32) → Bool
    unfolding consistent_from
    can_make_decision s infos =
        if ltb (length infos) (2 * num_interval_groups_in_probing s)
        then false
        else consistent_from infos (num_interval_groups_in_probing s) 0 false

    -- The loop that calculates the utilities of the intervals.
    unfoldable pub utilities :
        List (MonitorInterval F32)
        → Delta
        → UtilityManager F32 Statistics
        → Result (List (UtilityInfo F32) × UtilityManager F32 Statistics)
    utilities [] t m = ok ([], m)
    utilities (i ∷ l) t m = do
      (value, m') ← calculate_utility u i t m
      (infos, m'') ← utilities l t m'
      ok (record { sending_rate = i.sending_rate; utility = value } ∷ infos, m'')

    unfoldable pub probing_direction : List (UtilityInfo F32) → RateChangeDirection
    unfolding increase_wins
    probing_direction infos =
        let a = info_at infos 0 in
        let b = info_at infos 1 in
        if lt32 b.utility a.utility
        then (if rate_lt b.sending_rate a.sending_rate then increase else decrease)
        else (if rate_lt b.sending_rate a.sending_rate then decrease else increase)

    -- The direction and the utility of a decision.
    unfoldable pub chosen : List (UtilityInfo F32) → Sender F32 Statistics → Sender F32 Statistics
    unfolding probing_direction max_f32
    chosen infos s =
        let n = 2 * num_interval_groups_in_probing s in
        record s {
          direction = probing_direction infos;
          latest_utility =
              max_f32 fl (info_at infos (n - 2)).utility (info_at infos (n - 1)).utility;
        }

    -- One more round in STARTING, at twice the sending rate.
    unfoldable pub keep_starting : F32 → Sender F32 Statistics → Sender F32 Statistics
    unfolding scale_by
    keep_starting utility s = record (scale_by fl (of_int32 (pos 2)) s) {
      latest_utility = utility;
      rounds = s.rounds + 1;
    }

    -- One more round in DECISION_MADE.
    unfoldable pub keep_deciding : F32 → Sender F32 Statistics → Sender F32 Statistics
    unfolding scale_by decision_up decision_down
    keep_deciding utility s =
        let rounds' = s.rounds + 1 in
        let factor =
          if is_increase s.direction then decision_up fl rounds' else decision_down fl rounds' in
        record (scale_by fl factor s) { latest_utility = utility; rounds = rounds' }

    unfoldable pub decide :
        SenderMode
        → IntervalQueue F32
        → List (UtilityInfo F32)
        → Sender F32 Statistics
        → Result (Sender F32 Statistics)
    unfolding can_make_decision chosen keep_starting keep_deciding
    decide starting q infos s = do
      check (length infos == 1) utility_count
      if lt32 s.latest_utility (info_at infos 0).utility
          then ok (keep_starting (info_at infos 0).utility s)
          else enter_probing fl q s
    decide probing q infos s =
        if can_make_decision s infos
        then (do
          let n = 2 * num_interval_groups_in_probing s
          check (length infos == n) utility_count
          enter_decision_made fl (chosen infos s))
        else enter_probing fl q s
    decide decision_made q infos s = do
      check (length infos == 1) utility_count
      if lt32 s.latest_utility (info_at infos 0).utility
          then ok (keep_deciding (info_at infos 0).utility s)
          else enter_probing fl q s

    -- `PccSender::OnUtilityAvailable`.
    unfoldable pub pcc_on_utility_available :
        IntervalQueue F32
        → List (MonitorInterval F32)
        → QuicTime
        → Sender F32 Statistics
        → Result (Sender F32 Statistics)
    unfolding utilities decide
    pcc_on_utility_available q useful event_time s = do
      (infos, m) ← utilities useful (event_time -ℤ s.conn_start_time) s.utility_manager
      decide s.mode q infos (record s { utility_manager = m })
