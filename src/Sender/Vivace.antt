-- ===== src/Sender/Vivace.antt =====
-- `PccVivaceSender` (pcc_vivace_sender.cpp): the decision by majority, and rate changes that follow
-- the gradient of the utility.
use pcc_uspace.Base.{
  ℕ, Bool, false, not, ◌+◌, ◌-◌, ◌*◌, ◌/◌, ◌&&◌, ◌||◌, List, ltb, leb, ◌==◌, if◌then◌else◌, zero,
  suc, length, min, max,
}
use pcc_uspace.Base.Int.{pos, ◌-ℤ◌}
use pcc_uspace.Base.Result.{
  Result, ok, ◌>>=◌, ◌>>◌, check, utility_count, probing_mode, starting_rate_change,
  zero_rate_change,
}
use pcc_uspace.Floats.{Floats}
use pcc_uspace.Quic.Time.{QuicTime}
use pcc_uspace.Quic.Bandwidth.{QuicBandwidth, of_bits, rate_add, rate_sub, rate_lt, scale_rate}
use pcc_uspace.IntervalQueue.Defs.{MonitorInterval, IntervalQueue}
use pcc_uspace.Utility.{UtilityFunction, is_scavenger}
use pcc_uspace.Sender.State.{
  Sender, SenderMode, UtilityInfo, starting, probing, decision_made, increase, decrease,
  is_increase, is_probing, is_starting, is_decision_made, num_interval_groups_in_probing,
  min_sending_rate, min_rate_change,
}
use pcc_uspace.Sender.Rates.{
  scale_by, probe_up, probe_down, min_f32, max_f32, effective_tag, enter_probing,
}
use pcc_uspace.Sender.Pcc.{info_at, increase_wins, utilities}

module _ (fl : Floats) where
  open fl use {F32, of_int32, literal32, add32, sub32, mul32, div32, lt32, pow32, truncate32}

  -- The loop that counts the pairs in which the higher rate wins, from round `i`.
  unfoldable pub count_increase : List (UtilityInfo F32) → ℕ → ℕ → ℕ
  unfolding increase_wins
  count_increase infos zero i = 0
  count_increase infos (suc rest) i =
      let later = count_increase infos rest (i + 1) in
      if increase_wins fl infos i then later + 1 else later

  -- Of a pair, the interval with the better utility.
  unfoldable pub better_of : UtilityInfo F32 → UtilityInfo F32 → UtilityInfo F32
  better_of a b = if lt32 b.utility a.utility then a else b

  -- The loop that stores the latest utility: the last pair that agrees with the direction.
  unfoldable pub latest_from :
      List (UtilityInfo F32) → Bool → ℕ → ℕ → UtilityInfo F32 → UtilityInfo F32
  unfolding increase_wins better_of
  latest_from infos up zero i latest = latest
  latest_from infos up (suc rest) i latest = latest_from infos up rest (i + 1) (
      if (if increase_wins fl infos i then up else not up)
      then better_of (info_at fl infos (2 * i)) (info_at fl infos (2 * i + 1))
      else latest)

  -- The loop of `ComputeRateChange` that adds up utility differences.
  unfoldable pub sum_delta_utility : List (UtilityInfo F32) → Bool → ℕ → ℕ → F32 → F32
  unfolding increase_wins min_f32 max_f32
  sum_delta_utility infos up zero i sum = sum
  sum_delta_utility infos up (suc rest) i sum =
      let a = (info_at fl infos (2 * i)).utility in
      let b = (info_at fl infos (2 * i + 1)).utility in
      sum_delta_utility infos up rest (i + 1) (
        if (if increase_wins fl infos i then not up else up)
        then sum
        else sub32 (add32 sum (max_f32 fl a b)) (min_f32 fl a b))

  unfoldable pub rate_difference : QuicBandwidth → QuicBandwidth → QuicBandwidth
  unfolding rate_sub
  rate_difference a b = rate_sub (max a b) (min a b)

  module _ (u : UtilityFunction F32) where
    open u use {Statistics}

    unfoldable pub vivace_can_make_decision : Sender F32 Statistics → List (UtilityInfo F32) → Bool
    unfolding count_increase
    vivace_can_make_decision s infos =
        let groups = num_interval_groups_in_probing s in
        let up = count_increase infos groups 0 in
        let down = groups - up in
        if ltb (length infos) (2 * groups)
        then false
        else if not (is_scavenger s.utility_manager.effective_utility_tag)
        then ltb (groups / 2) up || down == groups
        else ltb (groups / 2) down || up == groups

    unfoldable pub set_rate_change_direction :
        List (UtilityInfo F32) → Sender F32 Statistics → Sender F32 Statistics
    unfolding count_increase latest_from
    set_rate_change_direction infos s =
        let groups = num_interval_groups_in_probing s in
        let up = count_increase infos groups 0 in
        let direction' = if ltb (groups - up) up then increase else decrease in
        record s {
          direction = direction';
          latest_utility_info =
              latest_from infos (is_increase direction') groups 0 s.latest_utility_info;
        }

    -- The difference of the sending rates and that of the utilities.
    unfoldable pub deltas : List (UtilityInfo F32) → Sender F32 Statistics → QuicBandwidth × F32
    unfolding rate_difference sum_delta_utility min_f32 max_f32
    deltas infos s =
        let first = info_at fl infos 0 in
        let groups = num_interval_groups_in_probing s in
        if is_probing s.mode
        then (
          rate_difference first.sending_rate (info_at fl infos 1).sending_rate,
          div32 (sum_delta_utility infos (is_increase s.direction) groups 0 (literal32 0 0))
              (of_int32 (pos groups)),
        )
        else (
          rate_difference first.sending_rate s.latest_utility_info.sending_rate,
          sub32 (max_f32 fl first.utility s.latest_utility_info.utility)
              (min_f32 fl first.utility s.latest_utility_info.utility),
        )

    -- The rate change that the gradient asks for, amplified in DECISION_MADE.
    unfoldable pub wanted_rate_change : Sender F32 Statistics → QuicBandwidth × F32 → QuicBandwidth
    wanted_rate_change s (delta_rate, delta_utility) =
        let megabit = of_int32 (pos (1024 * 1024)) in
        let gradient = div32 (mul32 megabit delta_utility) (of_int32 (pos delta_rate)) in
        let change = of_bits (truncate32 (mul32 (mul32 gradient megabit) (literal32 1 0))) in
        if is_decision_made s.mode
        then scale_rate fl change (pow32 (of_int32 (pos ((s.rounds + 1) / 2))) (literal32 12 1))
        else change

    -- The largest change that the current step allowance permits.
    unfoldable pub max_allowed_rate_change : Sender F32 Statistics → ℕ → QuicBandwidth
    max_allowed_rate_change s allowance =
        scale_rate fl s.sending_rate
          (add32 (literal32 5 2) (mul32 (literal32 5 2) (of_int32 (pos allowance))))

    -- The new allowance, from the wanted change and the limit.
    unfoldable pub next_allowance : QuicBandwidth → QuicBandwidth → ℕ → ℕ
    next_allowance wanted limit allowance =
        if ltb limit wanted then allowance + 1 else allowance - 1

    unfoldable pub compute_rate_change :
        List (UtilityInfo F32)
        → Sender F32 Statistics
        → Result (QuicBandwidth × Sender F32 Statistics)
    unfolding deltas wanted_rate_change max_allowed_rate_change next_allowance
    compute_rate_change infos s = do
      check (not (is_starting s.mode)) starting_rate_change
      let d = deltas infos s
      check (not (d.0 == 0)) zero_rate_change
      let wanted = wanted_rate_change s d
      let allowance =
          if is_decision_made s.mode then s.incremental_rate_change_step_allowance else 0
      let limit = max_allowed_rate_change s allowance
      ok (
        max (min wanted limit) min_rate_change,
        record s { incremental_rate_change_step_allowance = next_allowance wanted limit allowance },
      )

    -- `PccVivaceSender::EnterProbing`, from DECISION_MADE.
    unfoldable pub vivace_enter_probing :
        List (UtilityInfo F32) → Sender F32 Statistics → Result (Sender F32 Statistics)
    unfolding compute_rate_change effective_tag rate_sub
    vivace_enter_probing infos s = do
      check (is_decision_made s.mode) probing_mode
      (change, s') ← compute_rate_change infos (record s { rounds = 1 })
      let rate =
          if is_increase s.direction
          then rate_sub s.sending_rate change
          else rate_add s.sending_rate change
      let rate' = max rate min_sending_rate
      ok (record s' {
        sending_rate = rate';
        incremental_rate_change_step_allowance =
            if rate_lt rate min_sending_rate then 0 else s'.incremental_rate_change_step_allowance;
        mode = probing;
        utility_manager = effective_tag fl s.utility_manager rate';
      })

    -- The sender with its sending rate changed in its direction.
    unfoldable pub apply_change : QuicBandwidth → Sender F32 Statistics → Sender F32 Statistics
    unfolding rate_sub
    apply_change change s =
        let rate =
          if is_increase s.direction
          then rate_add s.sending_rate change
          else rate_sub s.sending_rate change in
        if rate_lt rate min_sending_rate
        then record s {
          sending_rate = min_sending_rate;
          mode = probing;
          rounds = 1;
          incremental_rate_change_step_allowance = 0;
        }
        else record s { sending_rate = rate; mode = decision_made }

    -- The sending rate and the rounds with which the rate change is computed.
    unfoldable pub before_change : Sender F32 Statistics → Sender F32 Statistics
    unfolding scale_by probe_up probe_down
    before_change s =
        if is_probing s.mode
        then record (scale_by fl (if is_increase s.direction then probe_up fl else probe_down fl)
            s) { rounds = 1 }
        else record s { rounds = s.rounds + 1 }

    unfoldable pub vivace_enter_decision_made :
        List (UtilityInfo F32) → Sender F32 Statistics → Result (Sender F32 Statistics)
    unfolding compute_rate_change apply_change before_change
    vivace_enter_decision_made infos s = do
      (change, s') ← compute_rate_change infos (before_change s)
      ok (apply_change change s')

    -- Does the last change of the rate still pay in the sender's direction?
    unfoldable pub keeps_direction : UtilityInfo F32 → Sender F32 Statistics → Bool
    keeps_direction info s =
        let last = s.latest_utility_info in
        let up = is_increase s.direction in
        let better = lt32 last.utility info.utility in
        let worse = lt32 info.utility last.utility in
        let higher = rate_lt last.sending_rate info.sending_rate in
        let lower = rate_lt info.sending_rate last.sending_rate in
        (up && better && higher)
        || (up && worse && lower)
        || (not up && better && lower)
        || (not up && worse && higher)

    -- At the smallest sending rate a round of probing that moved starts over.
    unfoldable pub maybe_restart : Sender F32 Statistics → Sender F32 Statistics
    maybe_restart s =
        if (ltb 1 s.rounds || is_decision_made s.mode) && leb s.sending_rate min_sending_rate
        then record s {
          sending_rate = min_sending_rate;
          incremental_rate_change_step_allowance = 0;
          rounds = 1;
          mode = starting;
        }
        else s

    -- One more round in STARTING, at twice the sending rate.
    unfoldable pub vivace_keep_starting :
        UtilityInfo F32 → Sender F32 Statistics → Sender F32 Statistics
    unfolding scale_by
    vivace_keep_starting info s = record (scale_by fl (of_int32 (pos 2)) s) {
      latest_utility_info = info;
      rounds = s.rounds + 1;
    }

    unfoldable pub vivace_decide :
        SenderMode
        → IntervalQueue F32
        → List (UtilityInfo F32)
        → Sender F32 Statistics
        → Result (Sender F32 Statistics)
    unfolding vivace_can_make_decision set_rate_change_direction vivace_enter_probing
        vivace_enter_decision_made keeps_direction maybe_restart vivace_keep_starting
    vivace_decide starting q infos s = do
      check (length infos == 1) utility_count
      if lt32 s.latest_utility_info.utility (info_at fl infos 0).utility
          then ok (vivace_keep_starting (info_at fl infos 0) s)
          else enter_probing fl q s
    vivace_decide probing q infos s = do
      s' ←
          if vivace_can_make_decision s infos
          then (do
            check (length infos == 2 * num_interval_groups_in_probing s) utility_count
            vivace_enter_decision_made infos (set_rate_change_direction infos s))
          else enter_probing fl q s
      ok (maybe_restart s')
    vivace_decide decision_made q infos s = do
      check (length infos == 1) utility_count
      if keeps_direction (info_at fl infos 0) s
          then (do
            s' ← vivace_enter_decision_made infos s
            ok (record s' { latest_utility_info = info_at fl infos 0 }))
          else vivace_enter_probing infos s

    -- `PccVivaceSender::OnUtilityAvailable`.
    unfoldable pub vivace_on_utility_available :
        IntervalQueue F32
        → List (MonitorInterval F32)
        → QuicTime
        → Sender F32 Statistics
        → Result (Sender F32 Statistics)
    unfolding utilities vivace_decide
    vivace_on_utility_available q useful event_time s = do
      (infos, m) ← utilities fl u useful (event_time -ℤ s.conn_start_time) s.utility_manager
      vivace_decide s.mode q infos (record s { utility_manager = m })
