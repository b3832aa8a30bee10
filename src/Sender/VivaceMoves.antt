-- ===== src/Sender/VivaceMoves.antt =====
-- `PccVivaceSender::OnUtilityAvailable`: its checks and its moves between modes
-- (pcc_vivace_sender.cpp).
use pcc_uspace.Base.{
  true, false, not, ◌*◌, ◌≡◌, refl, ◌∙◌, List, length, ◌==◌, ==_iff, All, arith, if◌then◌else◌,
}
use pcc_uspace.Base.Int.{◌-ℤ◌}
use pcc_uspace.Base.Result.{
  zero_rate_change, utility_count, ok, ◌>>◌, check, Returns, >>=-Returns, Returns-mono,
  check-Returns, if-Returns, check-may,
}
use pcc_uspace.Floats.{Floats}
use pcc_uspace.Quic.Time.{QuicTime}
use pcc_uspace.Quic.Bandwidth.{QuicBandwidth}
use pcc_uspace.IntervalQueue.Defs.{MonitorInterval, IntervalQueue, is_empty}
use pcc_uspace.IntervalQueue.Counts.{Timed, ready}
use pcc_uspace.Utility.{UtilityFunction, settings, Provided}
use pcc_uspace.Sender.State.{
  Sender, SenderMode, starting, probing, decision_made, Variant, vivace, UtilityInfo,
  num_interval_groups_in_probing, is_starting,
}
use pcc_uspace.Sender.Rates.{scale_by, enter_probing}
use pcc_uspace.Sender.Pcc.{info_at, utilities}
use pcc_uspace.Sender.Vivace.{
  vivace_can_make_decision, compute_rate_change, vivace_enter_probing, vivace_enter_decision_made,
  apply_change, before_change, set_rate_change_direction, maybe_restart, vivace_keep_starting,
  keeps_direction, deltas, vivace_decide, vivace_on_utility_available,
}
use pcc_uspace.Sender.Moves.{effective_tag-settings, allowed, Keeps, MovesTo, enter_probing-Returns}
use pcc_uspace.Sender.Decisions.{
  RatesEqual, Counted, utilities-Counted, Fits, Moved, entered, to_same,
}

module _ (fl : Floats) (u : UtilityFunction fl.F32) where
  open fl use {F32}
  open u use {Statistics}

  -- A change within the modes behind STARTING.
  abbrev Behind : Sender F32 Statistics → Sender F32 Statistics → Type 0
  Behind s s' = Keeps s s' × (is_starting s'.mode ≡ false)

  compute_rate_change-Returns :
      (infos : List (UtilityInfo F32)) (s : Sender F32 Statistics)
      → is_starting s.mode ≡ false
      → Returns RatesEqual (compute_rate_change fl u infos s) (λ r. MovesTo s.mode s r.1)
  unfolding compute_rate_change
  compute_rate_change-Returns infos s e =
      check-Returns RatesEqual _ _ _ (λ r. MovesTo s.mode s r.1) (rw e)
        (check-may RatesEqual (not ((deltas fl u infos s).0 == 0)) zero_rate_change _
          (λ r. MovesTo s.mode s r.1) tt
          (λ h. (record { variant = refl; avg_rtt = refl; settings = refl }, refl)))

  vivace_enter_probing-Returns :
      (infos : List (UtilityInfo F32)) (s : Sender F32 Statistics)
      → s.mode ≡ decision_made
      → Returns RatesEqual (vivace_enter_probing fl u infos s) (MovesTo probing s)
  unfolding vivace_enter_probing
  vivace_enter_probing-Returns infos s e =
      check-Returns RatesEqual _ _ _ (MovesTo probing s) (rw e) (
        >>=-Returns RatesEqual (compute_rate_change fl u infos (record s { rounds = 1 })) _
          (λ r. MovesTo s.mode (record s { rounds = 1 }) r.1) _
          (compute_rate_change-Returns infos (record s { rounds = 1 }) (rw e))
          λ r k. (
            record {
              variant = k.0.variant;
              avg_rtt = k.0.avg_rtt;
              settings = effective_tag-settings fl s.utility_manager _;
            },
            refl,
          ))

  apply_change-Behind :
      (change : QuicBandwidth) (s s' : Sender F32 Statistics)
      → Keeps s s'
      → Behind s (apply_change fl u change s')
  unfolding apply_change
  apply_change-Behind change s s' k = ground arith

  before_change-MovesTo : (s : Sender F32 Statistics) → MovesTo s.mode s (before_change fl u s)
  unfolding before_change scale_by
  before_change-MovesTo s = ground arith

  vivace_enter_decision_made-Returns :
      (infos : List (UtilityInfo F32)) (s : Sender F32 Statistics)
      → is_starting s.mode ≡ false
      → Returns RatesEqual (vivace_enter_decision_made fl u infos s) (Behind s)
  unfolding vivace_enter_decision_made
  vivace_enter_decision_made-Returns infos s e =
      let b = before_change-MovesTo s in
      >>=-Returns RatesEqual (compute_rate_change fl u infos (before_change fl u s)) _
        (λ r. MovesTo (before_change fl u s).mode (before_change fl u s) r.1) _
        (compute_rate_change-Returns infos (before_change fl u s) (rw b.1 e))
        λ r k. apply_change-Behind r.0 s r.1 (record {
          variant = k.0.variant ∙ b.0.variant;
          avg_rtt = k.0.avg_rtt ∙ b.0.avg_rtt;
          settings = k.0.settings ∙ b.0.settings;
        })

  vivace_enough :
      (s : Sender F32 Statistics) (infos : List (UtilityInfo F32))
      → vivace_can_make_decision fl u s infos ≡ true
      → Fits fl u probing (num_interval_groups_in_probing s) (length infos)
      → length infos ≡ 2 * num_interval_groups_in_probing s
  unfolding vivace_can_make_decision
  vivace_enough s infos h f = ground arith

  maybe_restart-Moved :
      (s s' : Sender F32 Statistics)
      → s.variant ≡ vivace
      → s.mode ≡ probing
      → Keeps s s'
      → Moved fl u s (maybe_restart fl u s')
  unfolding maybe_restart
  maybe_restart-Moved s s' v e k = ground arith

  from_decision :
      (v : Variant) (m n : SenderMode)
      → m ≡ decision_made
      → is_starting n ≡ false
      → allowed v m n ≡ true
  from_decision v m n e h = ground arith

  set_direction-Keeps :
      (infos : List (UtilityInfo F32)) (s : Sender F32 Statistics)
      → MovesTo s.mode s (set_rate_change_direction fl u infos s)
  unfolding set_rate_change_direction
  set_direction-Keeps infos s = (record { variant = refl; avg_rtt = refl; settings = refl }, refl)

  probing_outcome :
      (q : IntervalQueue F32) (infos : List (UtilityInfo F32)) (s : Sender F32 Statistics)
      → s.mode ≡ probing
      → is_empty q.monitor_intervals ≡ false
      → Fits fl u probing (num_interval_groups_in_probing s) (length infos)
      → Returns RatesEqual
          (if vivace_can_make_decision fl u s infos
            then (do
              check (length infos == 2 * num_interval_groups_in_probing s) utility_count
              vivace_enter_decision_made fl u infos (set_rate_change_direction fl u infos s))
            else enter_probing fl q s)
          (Keeps s)
  probing_outcome q infos s e ne f =
      let s' = set_rate_change_direction fl u infos s in
      let d = set_direction-Keeps infos s in
      if-Returns RatesEqual (vivace_can_make_decision fl u s infos) _ (enter_probing fl q s)
        (Keeps s)
        (λ h.
          check-Returns RatesEqual _ _ _ (Keeps s)
            ((==_iff (length infos) (2 * num_interval_groups_in_probing s)).1
              (vivace_enough s infos h f))
            (Returns-mono RatesEqual (vivace_enter_decision_made fl u infos s') (Behind s')
              (Keeps s)
              (λ t k. record {
                variant = k.0.variant ∙ d.0.variant;
                avg_rtt = k.0.avg_rtt ∙ d.0.avg_rtt;
                settings = k.0.settings ∙ d.0.settings;
              })
              (vivace_enter_decision_made-Returns infos s' (rw (d.1, e)))))
        (λ h.
          Returns-mono RatesEqual (enter_probing fl q s) (MovesTo probing s) (Keeps s) (λ t k. k.0)
            (enter_probing-Returns fl RatesEqual q s (λ _. ne)))

  vivace_decide-Moved :
      (m : SenderMode) (q : IntervalQueue F32) (infos : List (UtilityInfo F32))
      (s : Sender F32 Statistics)
      → s.variant ≡ vivace
      → s.mode ≡ m
      → is_empty q.monitor_intervals ≡ false
      → Fits fl u m (num_interval_groups_in_probing s) (length infos)
      → Returns RatesEqual (vivace_decide fl u m q infos s) (Moved fl u s)
  unfolding vivace_decide vivace_keep_starting
  vivace_decide-Moved starting q infos s v e ne f =
      check-Returns RatesEqual _ _ _ (Moved fl u s) ((==_iff (length infos) 1).1 f) (
        if-Returns RatesEqual (fl.lt32 s.latest_utility_info.utility (info_at fl infos 0).utility)
          (ok (vivace_keep_starting fl u (info_at fl infos 0) s)) (enter_probing fl q s)
          (Moved fl u s)
          (λ h.
            (record { variant = refl; avg_rtt = refl; settings = refl }, to_same s.variant s.mode))
          (λ h. entered fl u q s ne))
  vivace_decide-Moved probing q infos s v e ne f =
      >>=-Returns RatesEqual _ _ (Keeps s) (Moved fl u s) (probing_outcome q infos s e ne f)
        λ s' k. maybe_restart-Moved s s' v e k
  vivace_decide-Moved decision_made q infos s v e ne f =
      check-Returns RatesEqual _ _ _ (Moved fl u s) ((==_iff (length infos) 1).1 f) (
        if-Returns RatesEqual (keeps_direction fl u (info_at fl infos 0) s) _
          (vivace_enter_probing fl u infos s) (Moved fl u s)
          (λ h.
            >>=-Returns RatesEqual (vivace_enter_decision_made fl u infos s) _ (Behind s)
              (Moved fl u s) (vivace_enter_decision_made-Returns infos s (rw e))
              λ s' k. (
                record { variant = k.0.variant; avg_rtt = k.0.avg_rtt; settings = k.0.settings },
                from_decision s.variant s.mode s'.mode e k.1,
              ))
          (λ h.
            Returns-mono RatesEqual (vivace_enter_probing fl u infos s) (MovesTo probing s)
              (Moved fl u s) (λ s' k. (k.0, from_decision s.variant s.mode s'.mode e (rw k.1)))
              (vivace_enter_probing-Returns infos s e)))

  pub vivace_on_utility_available-Moved :
      (q : IntervalQueue F32) (l : List (MonitorInterval F32)) (t : QuicTime)
      (s : Sender F32 Statistics)
      → s.variant ≡ vivace
      → Provided u (settings s.utility_manager)
      → is_empty q.monitor_intervals ≡ false
      → All (λ i. (ready i ≡ true) × Timed i) l
      → Fits fl u s.mode (num_interval_groups_in_probing s) (length l)
      → Returns RatesEqual (vivace_on_utility_available fl u q l t s) (Moved fl u s)
  unfolding vivace_on_utility_available num_interval_groups_in_probing
  vivace_on_utility_available-Moved q l t s v p ne h f =
      >>=-Returns RatesEqual (utilities fl u l (t -ℤ s.conn_start_time) s.utility_manager) _
        (Counted fl u RatesEqual (length l) s.utility_manager) _
        (utilities-Counted fl u RatesEqual l (t -ℤ s.conn_start_time) s.utility_manager p h)
        λ r c.
          Returns-mono RatesEqual
            (vivace_decide fl u s.mode q r.0 (record s { utility_manager = r.1 }))
            (Moved fl u (record s { utility_manager = r.1 })) (Moved fl u s)
            (λ s' k. (
              record {
                variant = k.0.variant;
                avg_rtt = k.0.avg_rtt;
                settings = k.0.settings ∙ c.2;
              },
              k.1,
            ))
            (vivace_decide-Moved s.mode q r.0 (record s { utility_manager = r.1 }) v refl ne
              (rw (c.0, c.1) f))
