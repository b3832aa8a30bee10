-- ===== src/Sender/Rates.antt =====
-- The changes of the sending rate that both classes make: probing rates, the way back to the
-- central rate, and the entry into PROBING (pcc_sender.cpp).
use pcc_uspace.Base.{ℕ, Bool, false, not, ◌+◌, ◌*◌, ◌%◌, ◌==◌, if◌then◌else◌}
use pcc_uspace.Base.Int.{pos}
use pcc_uspace.Base.Result.{Result, ok, ◌>>=◌, ◌>>◌, check, decision_mode}
use pcc_uspace.Floats.{Floats}
use pcc_uspace.Quic.Bandwidth.{QuicBandwidth, scale_rate}
use pcc_uspace.IntervalQueue.Defs.{IntervalQueue, current}
use pcc_uspace.Utility.{
  UtilityManager, hybrid, scavenger, is_hybrid, get_utility_parameter, set_effective_utility_tag,
}
use pcc_uspace.Sender.State.{
  Sender, SenderMode, RateChangeDirection, starting, probing, decision_made, increase, decrease,
  is_increase, is_probing, num_interval_groups_in_probing,
}

-- The direction of the next probing interval; `random` is the value of `rand()`.
unfoldable pub next_direction : ℕ → ℕ → RateChangeDirection → RateChangeDirection
next_direction random num_useful d =
    if num_useful % 2 == 0
    then (if random % 2 == 1 then increase else decrease)
    else (if is_increase d then decrease else increase)

module _ (fl : Floats) where
  open fl use {
    F32, of_int32, widen, narrow, literal32, literal64, add32, sub32, mul32, div32, lt32, div64,
  }

  -- 1 + kProbingStepSize and 1 - kProbingStepSize.
  unfoldable pub probe_up : F32
  probe_up = add32 (of_int32 (pos 1)) (literal32 5 2)

  unfoldable pub probe_down : F32
  probe_down = sub32 (of_int32 (pos 1)) (literal32 5 2)

  -- 1.0 / x, in `double`.
  unfoldable pub inverse : F32 → F32
  inverse x = narrow (div64 (literal64 1 0) (widen x))

  unfoldable pub min_f32 : F32 → F32 → F32
  min_f32 a b = if lt32 b a then b else a

  unfoldable pub max_f32 : F32 → F32 → F32
  max_f32 a b = if lt32 a b then b else a

  -- min(rounds_ * kDecisionMadeStepSize, kMaxDecisionMadeStepSize).
  unfoldable pub decision_step : ℕ → F32
  unfolding min_f32
  decision_step rounds = min_f32 (mul32 (of_int32 (pos rounds)) (literal32 2 2)) (literal32 10 2)

  unfoldable pub decision_up : ℕ → F32
  unfolding decision_step
  decision_up rounds = add32 (of_int32 (pos 1)) (decision_step rounds)

  unfoldable pub decision_down : ℕ → F32
  unfolding decision_step
  decision_down rounds = sub32 (of_int32 (pos 1)) (decision_step rounds)

  module _ {S : Type 0} where
    unfoldable pub scale_by : F32 → Sender F32 S → Sender F32 S
    scale_by factor s = record s { sending_rate = scale_rate fl s.sending_rate factor }

    unfoldable pub restore_in :
        SenderMode → IntervalQueue F32 → Sender F32 S → Result (Sender F32 S)
    unfolding scale_by probe_up probe_down decision_up decision_down inverse
    restore_in starting q s = ok s
    restore_in probing q s = do
      c ← current q
      ok (
          if c.is_useful
          then scale_by (inverse (if is_increase s.direction then probe_up else probe_down)) s
          else s)
    restore_in decision_made q s = ok (
        scale_by
          (inverse
            (if is_increase s.direction then decision_up s.rounds else decision_down s.rounds))
          s)

    unfoldable pub restore_central_sending_rate :
        IntervalQueue F32 → Sender F32 S → Result (Sender F32 S)
    unfolding restore_in
    restore_central_sending_rate q s = restore_in s.mode q s

    -- The hybrid utility acts as a scavenger above a sending rate.
    unfoldable pub effective_tag : UtilityManager F32 S → QuicBandwidth → UtilityManager F32 S
    unfolding get_utility_parameter set_effective_utility_tag probe_up
    effective_tag m rate =
        if is_hybrid m.utility_tag
        then (let higher =
              div32 (of_int32 (pos (scale_rate fl rate probe_up))) (of_int32 (pos (1024 * 1024))) in
            let switching = get_utility_parameter (literal32 0 0) m 0 in
            set_effective_utility_tag (if lt32 switching higher then scavenger else hybrid) m)
        else m

    -- The end of `EnterProbing`, in the mode that the sender had.
    unfoldable pub begin_probing : SenderMode → Sender F32 S → Sender F32 S
    unfolding effective_tag
    begin_probing m s = if is_probing m then record s { rounds = s.rounds + 1 } else record s {
      mode = probing;
      rounds = 1;
      utility_manager = effective_tag s.utility_manager s.sending_rate;
    }

    unfoldable pub enter_probing_from :
        SenderMode → IntervalQueue F32 → Sender F32 S → Result (Sender F32 S)
    unfolding scale_by restore_in begin_probing
    enter_probing_from starting q s =
        ok (begin_probing starting (scale_by (narrow (literal64 5 1)) s))
    enter_probing_from probing q s = do s' ← restore_in probing q s; ok (begin_probing probing s')
    enter_probing_from decision_made q s = do
      s' ← restore_in decision_made q s
      ok (begin_probing decision_made s')

    -- `PccSender::EnterProbing`.
    unfoldable pub enter_probing : IntervalQueue F32 → Sender F32 S → Result (Sender F32 S)
    unfolding enter_probing_from
    enter_probing q s = enter_probing_from s.mode q s

    -- `PccSender::EnterDecisionMade`.
    unfoldable pub enter_decision_made : Sender F32 S → Result (Sender F32 S)
    unfolding scale_by probe_up probe_down
    enter_decision_made s = do
      check (is_probing s.mode) decision_mode
      let s' =
          if is_increase s.direction
          then scale_by (add32 (of_int32 (pos 1)) (literal32 2 2)) (scale_by probe_up s)
          else scale_by (sub32 (of_int32 (pos 1)) (literal32 2 2)) (scale_by probe_down s)
      ok (record s' { mode = decision_made; rounds = 1 })

    unfoldable pub probe : ℕ → ℕ → Sender F32 S → Sender F32 S
    unfolding scale_by next_direction probe_up probe_down
    probe random num_useful s =
        let d = next_direction random num_useful s.direction in
        scale_by (if is_increase d then probe_up else probe_down) (record s { direction = d })

    -- The part of `MaybeSetSendingRate` behind its first `return`.
    unfoldable pub set_probing_rate : ℕ → IntervalQueue F32 → Sender F32 S → Result (Sender F32 S)
    unfolding probe restore_central_sending_rate
    set_probing_rate random q s = if q.num_useful_intervals == 0 then ok (probe random 0 s) else do
      s' ← restore_central_sending_rate q s
      ok (
          if q.num_useful_intervals == 2 * num_interval_groups_in_probing s
          then s'
          else probe random q.num_useful_intervals s')

    -- Is the round of probing complete, with a non-useful interval at the back?
    unfoldable pub round_complete : IntervalQueue F32 → Sender F32 S → Result Bool
    round_complete q s =
        if q.num_useful_intervals == 2 * num_interval_groups_in_probing s
        then (do c ← current q; ok (not c.is_useful))
        else ok false

    unfoldable pub maybe_set_sending_rate :
        ℕ → IntervalQueue F32 → Sender F32 S → Result (Sender F32 S)
    unfolding round_complete set_probing_rate
    maybe_set_sending_rate random q s = if not (is_probing s.mode) then ok s else do
      complete ← round_complete q s
      if complete then ok s else set_probing_rate random q s
