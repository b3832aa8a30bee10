-- ===== src/Sender/Decisions.antt =====
-- `PccSender::OnUtilityAvailable`: its checks and its moves between modes (pcc_sender.cpp).
use mathlib.Core.Path.{subst}
use pcc_uspace.Base.{
  ℕ, true, false, not, sym, ◌*◌, ◌≤◌, ◌<◌, ◌≡◌, refl, ap, suc, ◌∙◌, List, [], ◌∷◌, length, ==_iff,
  All, arith,
}
use pcc_uspace.Base.Int.{◌-ℤ◌}
use pcc_uspace.Base.Result.{
  Fault, zero_rate_change, single_sent_time, Returns_any, ok, Returns, >>=-Returns, Returns-mono,
  check-Returns, if-Returns,
}
use pcc_uspace.Floats.{Floats}
use pcc_uspace.Quic.Time.{QuicTime, Delta}
use pcc_uspace.IntervalQueue.Defs.{MonitorInterval, IntervalQueue, is_empty, has_invalid_utility}
use pcc_uspace.IntervalQueue.Counts.{Timed, ready}
use pcc_uspace.Utility.{UtilityManager, UtilityFunction, calculate_utility, settings, Provided}
use pcc_uspace.Sender.State.{
  Sender, SenderMode, starting, probing, decision_made, Variant, UtilityInfo,
  num_interval_groups_in_probing,
}
use pcc_uspace.Sender.Rates.{scale_by, enter_probing}
use pcc_uspace.Sender.Pcc.{
  utilities, can_make_decision, decide, pcc_on_utility_available, info_at, chosen, keep_starting,
  keep_deciding,
}
use pcc_uspace.Sender.Moves.{
  allowed, Keeps, MovesTo, enter_probing-Returns, enter_decision_made-Returns,
}

-- The one check that the code can fail: two compared sending rates are equal.
abbrev pub RatesEqual : Fault → Type 0
RatesEqual zero_rate_change = Unit {0}
RatesEqual _ = ⊥

pub to_probing : (v : Variant) (m n : SenderMode) → n ≡ probing → allowed v m n ≡ true
to_probing v m n e = ground arith

pub to_same : (v : Variant) (m : SenderMode) → allowed v m m ≡ true
to_same v m = ground arith

from_probing :
    (v : Variant) (m n : SenderMode) → m ≡ probing → n ≡ decision_made → allowed v m n ≡ true
from_probing v m n e f = ground arith

module _ (fl : Floats) (u : UtilityFunction fl.F32) where
  open fl use {F32}
  open u use {Statistics}

  -- What the calculation of a utility leaves of the manager.
  abbrev SameTags : UtilityManager F32 Statistics → F32 × UtilityManager F32 Statistics → Type 0
  SameTags m (value, m') =
      (m'.effective_utility_tag ≡ m.effective_utility_tag) × (settings m' ≡ settings m)

  module _ (E : Fault → Type 0) where
    calculate_utility-Returns :
        (i : MonitorInterval F32) (t : Delta) (m : UtilityManager F32 Statistics)
        → Provided u (settings m)
        → (ready i ≡ true) × Timed i
        → Returns E (calculate_utility u i t m) (SameTags m)
    unfolding calculate_utility
    calculate_utility-Returns i t m p h =
        check-Returns E (not (has_invalid_utility i)) single_sent_time _ _ (ground (arith, h)) (
          >>=-Returns E (u.evaluate m.utility_tag m.utility_parameters i t m.statistics) _
            (λ r. Unit {0}) _
            (Returns_any E (u.evaluate m.utility_tag m.utility_parameters i t m.statistics) _
              (u.answers m.utility_tag m.utility_parameters i t m.statistics p))
            (λ r x. (refl, refl)))

    -- What the loop over the intervals gives: a utility for each, under the same tag.
    abbrev pub Counted :
        ℕ
        → UtilityManager F32 Statistics
        → List (UtilityInfo F32) × UtilityManager F32 Statistics
        → Type 0
    Counted n m (infos, m') =
        (length infos ≡ n)
        × (m'.effective_utility_tag ≡ m.effective_utility_tag)
        × (settings m' ≡ settings m)

    pub utilities-Counted :
        (l : List (MonitorInterval F32)) (t : Delta) (m : UtilityManager F32 Statistics)
        → Provided u (settings m)
        → All (λ i. (ready i ≡ true) × Timed i) l
        → Returns E (utilities fl u l t m) (Counted (length l) m)
    unfolding utilities
    utilities-Counted [] t m p h = (refl, refl, refl)
    utilities-Counted (i ∷ l) t m p h =
        >>=-Returns E (calculate_utility u i t m) _ (SameTags m) _
          (calculate_utility-Returns i t m p h.0)
          λ r x.
            >>=-Returns E (utilities fl u l t r.1) _ (Counted (length l) r.1) _
              (utilities-Counted l t r.1 (subst (Provided u) (sym x.1) p) h.1)
              λ r' e. (ap suc e.0, e.1 ∙ x.0, e.2 ∙ x.1)

  -- How many utilities a sender expects in its mode.
  abbrev pub Fits : SenderMode → ℕ → ℕ → Type 0
  Fits probing groups n = (0 < n) × (n ≤ 2 * groups)
  Fits _ groups n = n ≡ 1

  -- A move that is allowed, of the same object.
  abbrev pub Moved : Sender F32 Statistics → Sender F32 Statistics → Type 0
  Moved s s' = Keeps s s' × (allowed s.variant s.mode s'.mode ≡ true)

  pub entered :
      (q : IntervalQueue F32) (s : Sender F32 Statistics)
      → is_empty q.monitor_intervals ≡ false
      → Returns RatesEqual (enter_probing fl q s) (Moved s)
  entered q s ne =
      Returns-mono RatesEqual (enter_probing fl q s) (MovesTo probing s) (Moved s)
        (λ s' k. (k.0, to_probing s.variant s.mode s'.mode k.1))
        (enter_probing-Returns fl RatesEqual q s (λ _. ne))

  -- A decision is made only from a full set of utilities.
  enough :
      (s : Sender F32 Statistics) (infos : List (UtilityInfo F32))
      → can_make_decision fl u s infos ≡ true
      → Fits probing (num_interval_groups_in_probing s) (length infos)
      → length infos ≡ 2 * num_interval_groups_in_probing s
  unfolding can_make_decision
  enough s infos h f = ground arith

  decide-Moved :
      (m : SenderMode) (q : IntervalQueue F32) (infos : List (UtilityInfo F32))
      (s : Sender F32 Statistics)
      → s.mode ≡ m
      → is_empty q.monitor_intervals ≡ false
      → Fits m (num_interval_groups_in_probing s) (length infos)
      → Returns RatesEqual (decide fl u m q infos s) (Moved s)
  unfolding decide scale_by keep_starting keep_deciding chosen
  decide-Moved starting q infos s e ne f =
      check-Returns RatesEqual _ _ _ (Moved s) ((==_iff (length infos) 1).1 f) (
        if-Returns RatesEqual (fl.lt32 s.latest_utility (info_at fl infos 0).utility)
          (ok (keep_starting fl u (info_at fl infos 0).utility s)) (enter_probing fl q s) (Moved s)
          (λ h.
            (record { variant = refl; avg_rtt = refl; settings = refl }, to_same s.variant s.mode))
          (λ h. entered q s ne))
  decide-Moved probing q infos s e ne f =
      if-Returns RatesEqual (can_make_decision fl u s infos) _ (enter_probing fl q s) (Moved s)
        (λ h.
          check-Returns RatesEqual _ _ _ (Moved s)
            ((==_iff (length infos) (2 * num_interval_groups_in_probing s)).1 (enough s infos h f))
            (Returns-mono RatesEqual _ (MovesTo decision_made (chosen fl u infos s)) (Moved s)
              (λ s' k. (
                record { variant = k.0.variant; avg_rtt = k.0.avg_rtt; settings = k.0.settings },
                from_probing s.variant s.mode s'.mode e k.1,
              ))
              (enter_decision_made-Returns fl RatesEqual (chosen fl u infos s) e)))
        (λ h. entered q s ne)
  decide-Moved decision_made q infos s e ne f =
      check-Returns RatesEqual _ _ _ (Moved s) ((==_iff (length infos) 1).1 f) (
        if-Returns RatesEqual (fl.lt32 s.latest_utility (info_at fl infos 0).utility)
          (ok (keep_deciding fl u (info_at fl infos 0).utility s)) (enter_probing fl q s) (Moved s)
          (λ h.
            (record { variant = refl; avg_rtt = refl; settings = refl }, to_same s.variant s.mode))
          (λ h. entered q s ne))

  pub pcc_on_utility_available-Moved :
      (q : IntervalQueue F32) (l : List (MonitorInterval F32)) (t : QuicTime)
      (s : Sender F32 Statistics)
      → Provided u (settings s.utility_manager)
      → is_empty q.monitor_intervals ≡ false
      → All (λ i. (ready i ≡ true) × Timed i) l
      → Fits s.mode (num_interval_groups_in_probing s) (length l)
      → Returns RatesEqual (pcc_on_utility_available fl u q l t s) (Moved s)
  unfolding pcc_on_utility_available num_interval_groups_in_probing
  pcc_on_utility_available-Moved q l t s p ne h f =
      >>=-Returns RatesEqual (utilities fl u l (t -ℤ s.conn_start_time) s.utility_manager) _
        (Counted RatesEqual (length l) s.utility_manager) _
        (utilities-Counted RatesEqual l (t -ℤ s.conn_start_time) s.utility_manager p h)
        λ r c.
          Returns-mono RatesEqual (decide fl u s.mode q r.0 (record s { utility_manager = r.1 }))
            (Moved (record s { utility_manager = r.1 })) (Moved s)
            (λ s' k. (
              record {
                variant = k.0.variant;
                avg_rtt = k.0.avg_rtt;
                settings = k.0.settings ∙ c.2;
              },
              k.1,
            ))
            (decide-Moved s.mode q r.0 (record s { utility_manager = r.1 }) refl ne
              (rw (c.0, c.1) f))
