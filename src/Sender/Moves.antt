-- ===== src/Sender/Moves.antt =====
-- The moves between the three modes, and the entry into PROBING and DECISION_MADE (pcc_sender.cpp).
use pcc_uspace.Base.{Bool, true, false, ◌≡◌, refl, ◌∙◌, arith}
use pcc_uspace.Base.Result.{ok, Fault, Returns, >>=-Returns}
use pcc_uspace.Floats.{Floats}
use pcc_uspace.IntervalQueue.Defs.{IntervalQueue, current, is_empty}
use pcc_uspace.IntervalQueue.Updates.{last_of-Returns}
use pcc_uspace.Quic.Bandwidth.{QuicBandwidth}
use pcc_uspace.Utility.{UtilityManager, settings as settings_of}
use pcc_uspace.Sender.State.{Sender, SenderMode, starting, probing, decision_made, Variant, pcc}
use pcc_uspace.Sender.Rates.{
  effective_tag, scale_by, restore_in, enter_probing_from, begin_probing, enter_probing,
  enter_decision_made,
}

-- The moves between modes. Only the Vivace class goes from PROBING back to STARTING.
abbrev pub allowed : Variant → SenderMode → SenderMode → Bool
allowed v starting decision_made = false
allowed v decision_made starting = false
allowed pcc probing starting = false
allowed _ _ _ = true

module _ {F S : Type 0} where
  -- The class of an object, the smoothed RTT, which only `UpdateRtt` changes, and the utility
  -- manager's tag and parameters, which only its setters change.
  pub record Keeps (s s' : Sender F S) : Type 0 where
    pub variant : s'.variant ≡ s.variant
    pub avg_rtt : s'.avg_rtt ≡ s.avg_rtt
    pub settings : settings_of s'.utility_manager ≡ settings_of s.utility_manager

  -- A move to the mode `m`.
  abbrev pub MovesTo : SenderMode → Sender F S → Sender F S → Type 0
  MovesTo m s s' = Keeps s s' × (s'.mode ≡ m)

-- Only the effective tag differs.
pub effective_tag-settings :
    (fl : Floats) {S : Type 0} (m : UtilityManager fl.F32 S) (rate : QuicBandwidth)
    → settings_of (effective_tag fl m rate) ≡ settings_of m
unfolding effective_tag
effective_tag-settings fl m rate = ground arith

module _ (fl : Floats) {S : Type 0} (E : Fault → Type 0) where
  open fl use {F32}

  pub restore_in-Returns :
      (m : SenderMode) (q : IntervalQueue F32) (s : Sender F32 S)
      → (m ≡ probing → is_empty q.monitor_intervals ≡ false)
      → Returns E (restore_in fl m q s) (MovesTo s.mode s)
  unfolding restore_in scale_by current
  restore_in-Returns starting q s h =
      (record { variant = refl; avg_rtt = refl; settings = refl }, refl)
  restore_in-Returns probing q s h =
      >>=-Returns E (current q) _ (λ i. Unit {0}) _ (last_of-Returns E q.monitor_intervals (h refl))
        λ i t. ground arith
  restore_in-Returns decision_made q s h =
      (record { variant = refl; avg_rtt = refl; settings = refl }, refl)

  begin_probing-MovesTo :
      (m : SenderMode) (s s' : Sender F32 S)
      → Keeps s s'
      → s'.mode ≡ m
      → MovesTo probing s (begin_probing fl m s')
  unfolding begin_probing
  begin_probing-MovesTo starting s s' k e = ground arith
  begin_probing-MovesTo probing s s' k e = ground arith
  begin_probing-MovesTo decision_made s s' k e = ground arith

  enter_probing_from-Returns :
      (m : SenderMode) (q : IntervalQueue F32) (s : Sender F32 S)
      → s.mode ≡ m
      → (m ≡ probing → is_empty q.monitor_intervals ≡ false)
      → Returns E (enter_probing_from fl m q s) (MovesTo probing s)
  unfolding enter_probing_from scale_by restore_in
  enter_probing_from-Returns starting q s e h =
      begin_probing-MovesTo starting s (scale_by fl (fl.narrow (fl.literal64 5 1)) s)
        (record { variant = refl; avg_rtt = refl; settings = refl }) e
  enter_probing_from-Returns probing q s e h =
      >>=-Returns E (restore_in fl probing q s) _ (MovesTo s.mode s) _
        (restore_in-Returns probing q s h) λ s' k. begin_probing-MovesTo probing s s' k.0 (k.1 ∙ e)
  enter_probing_from-Returns decision_made q s e h =
      >>=-Returns E (restore_in fl decision_made q s) (λ s'. ok (begin_probing fl decision_made s'))
        (MovesTo s.mode s) (MovesTo probing s) (restore_in-Returns decision_made q s h)
        λ s' k. begin_probing-MovesTo decision_made s s' k.0 (k.1 ∙ e)

  -- Entering PROBING reads the back of the queue only from PROBING.
  pub enter_probing-Returns :
      (q : IntervalQueue F32) (s : Sender F32 S)
      → (s.mode ≡ probing → is_empty q.monitor_intervals ≡ false)
      → Returns E (enter_probing fl q s) (MovesTo probing s)
  unfolding enter_probing
  enter_probing-Returns q s h = enter_probing_from-Returns s.mode q s refl h

  pub enter_decision_made-Returns :
      (s : Sender F32 S)
      → s.mode ≡ probing
      → Returns E (enter_decision_made fl s) (MovesTo decision_made s)
  unfolding enter_decision_made scale_by
  enter_decision_made-Returns s e = rw e (ground arith)
