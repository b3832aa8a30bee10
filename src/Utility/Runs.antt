-- ===== src/Utility/Runs.antt =====
-- pcc/pcc_utility_manager.cpp: the manager under consecutive calls of `CalculateUtility`.
use pcc_uspace.Base.{
  ℕ, ◌≡◌, refl, ◌+◌, min, Bool, not, List, [], ◌∷◌, ltb, leb, length, count_if, if◌then◌else◌,
  arith, inl, inr, ◌⊎◌, if-both, ◌∙◌, ap, sym, zero, suc,
}
use mathlib.Core.Path.{subst}
use pcc_uspace.Base.Int.{pos}
use pcc_uspace.Base.Result.{
  Result, ok, ◌>>=◌, Returns, >>=-Returns, Returns-mono, check-may, single_sent_time,
  utility_parameter, Fault,
}
use pcc_uspace.Floats.{Floats}
use pcc_uspace.IntervalQueue.Defs.{MonitorInterval, has_invalid_utility}
use pcc_uspace.Utility.{
  UtilityTag, allegro, vivace, proportional, scavenger, hybrid_allegro, hybrid_vivace, rate_limiter,
  hybrid, test, other, UtilityManager, new_utility_manager,
}
use pcc_uspace.Utility.Stats.{IntervalStats, ManagerStats, rtt_history_len, new_stats}
use pcc_uspace.Utility.Tolerance.{
  push_histories, judge_gradient, judge_trending_deviation, process_rtt_trend, prepare_statistics,
}
use pcc_uspace.Utility.Formulas.{utility_allegro, settle_ratio, utility_hybrid_allegro}
use pcc_uspace.Utility.Evaluate.{select_utility, calculate_checked, parameter_at}
use pcc_uspace.Utility.Histories.{
  judged, SameHistories, length-push_history, judged-SameHistories, gradient-SameHistories,
  deviation_history, deviation-IsBelowReset, IsBelowReset,
}

-- The intervals that add to the histories.
abbrev pub adds_history : {F : Type 0} → MonitorInterval F → Bool
adds_history i = leb 2 i.num_reliable_rtt

-- Both histories have a length.
pub record HasLength {F : Type 0} (n : ℕ) (m : ManagerStats F) : Type 0 where
  pub rtt_length : length m.mi_avg_rtt_history ≡ n
  pub dev_length : length m.mi_rtt_dev_history ≡ n

-- The faults of `CalculateUtility`.
abbrev pub UtilityFault : Fault → Type 0
UtilityFault e = (e ≡ single_sent_time) ⊎ (e ≡ utility_parameter)

module _ (fl : Floats) where
  open fl use {F32, of_int32}

  -- Consecutive calls, without their values.
  unfoldable pub calculate_all :
      List (MonitorInterval F32)
      → UtilityManager F32 (ManagerStats F32)
      → Result (UtilityManager F32 (ManagerStats F32))
  unfolding calculate_checked
  calculate_all [] m = ok m
  calculate_all (i ∷ l) m = do (value, n) ← calculate_checked fl i m; calculate_all l n

  prepare-HasLength :
      (tag : UtilityTag) (i : MonitorInterval F32) (m : ManagerStats F32) (n : ℕ)
      → HasLength (min rtt_history_len n) m
      → HasLength
          (min rtt_history_len (if adds_history i then n + 1 else n))
          (prepare_statistics fl tag i m)
  unfolding prepare_statistics process_rtt_trend push_histories
  prepare-HasLength tag i m n h =
      let j = judged fl i m in
      let pushed = push_histories fl j in
      let same = judged-SameHistories fl i m in
      let trend = gradient-SameHistories fl tag pushed in
      let kept = deviation_history fl (judge_gradient fl tag pushed) in
      record {
        rtt_length = ground (
          arith,
          h.rtt_length,
          ap length same.same_rtt,
          ap length kept.0,
          ap length trend.same_rtt,
          length-push_history j.interval_stats.avg_rtt j.mi_avg_rtt_history,
        );
        dev_length = ground (
          arith,
          h.dev_length,
          ap length same.same_dev,
          ap length kept.1,
          ap length trend.same_dev,
          length-push_history j.interval_stats.rtt_dev j.mi_rtt_dev_history,
        );
      }

  -- A branch that reads a parameter fails with `utility_parameter`, or goes on.
  parameter_at-Returns :
      {A : Type 0} (l : List F32) (k : ℕ) (f : F32 → Result A) (P : A → Type 0)
      → ((x : F32) → Returns UtilityFault (f x) P)
      → Returns UtilityFault (parameter_at l k >>= f) P
  unfolding parameter_at
  parameter_at-Returns [] k f P h = inr refl
  parameter_at-Returns (x ∷ l) zero f P h = h x
  parameter_at-Returns (x ∷ l) (suc k) f P h = parameter_at-Returns l k f P h

  settle-SameHistories :
      (i : MonitorInterval F32) (m : ManagerStats F32) → SameHistories (settle_ratio fl i m) m
  unfolding settle_ratio
  settle-SameHistories i m = record {
    same_rtt = ground arith;
    same_dev = ground arith;
    same_ratio = ground arith;
  }

  reflexive : (m : ManagerStats F32) → SameHistories m m
  reflexive m = record { same_rtt = refl; same_dev = refl; same_ratio = refl }

  select-SameHistories :
      (tag : UtilityTag) (l : List F32) (i : MonitorInterval F32) (m : ManagerStats F32)
      → Returns UtilityFault (select_utility fl tag l i m) (λ r. SameHistories r.1 m)
  unfolding select_utility utility_allegro utility_hybrid_allegro
  select-SameHistories allegro l i m = settle-SameHistories i m
  select-SameHistories vivace l i m = reflexive m
  select-SameHistories proportional l i m =
      parameter_at-Returns l 0 _ _ (λ x. parameter_at-Returns l 1 _ _ (λ y. reflexive m))
  select-SameHistories scavenger l i m = parameter_at-Returns l 0 _ _ (λ x. reflexive m)
  select-SameHistories hybrid_allegro l i m =
      parameter_at-Returns l 0 _ _ (λ x. settle-SameHistories i m)
  select-SameHistories hybrid_vivace l i m = parameter_at-Returns l 0 _ _ (λ x. reflexive m)
  select-SameHistories rate_limiter l i m = parameter_at-Returns l 0 _ _ (λ x. reflexive m)
  select-SameHistories hybrid l i m = parameter_at-Returns l 0 _ _ (λ x. reflexive m)
  select-SameHistories test l i m =
      parameter_at-Returns l 0 _ _ (λ x. parameter_at-Returns l 1 _ _ (λ y. reflexive m))
  select-SameHistories other l i m = settle-SameHistories i m

  -- What `PrepareStatistics` preserves and depends on the histories alone is kept by the calls.
  module _ (P : ℕ → ManagerStats F32 → Type 0)
      (prepare : (tag : UtilityTag) (i : MonitorInterval F32) (m : ManagerStats F32) (n : ℕ)
        → P n m
        → P (if adds_history i then n + 1 else n) (prepare_statistics fl tag i m))
      (same : (m k : ManagerStats F32) (n : ℕ) → SameHistories k m → P n m → P n k) where
    calculate_checked-Returns :
        (i : MonitorInterval F32) (m : UtilityManager F32 (ManagerStats F32)) (n : ℕ)
        → P n m.statistics
        → Returns UtilityFault
            (calculate_checked fl i m)
            (λ r. P (if adds_history i then n + 1 else n) r.1.statistics)
    unfolding calculate_checked
    calculate_checked-Returns i m n h =
        let prepared = prepare_statistics fl m.utility_tag i m.statistics in
        let chosen = select_utility fl m.utility_tag m.utility_parameters i prepared in
        check-may UtilityFault (not (has_invalid_utility i)) single_sent_time _ _ (inl refl)
          (λ valid.
            >>=-Returns UtilityFault chosen _ (λ r. SameHistories r.1 prepared) _
              (select-SameHistories m.utility_tag m.utility_parameters i prepared)
              (λ r kept. same prepared r.1 _ kept (prepare m.utility_tag i m.statistics n h)))

    count_step :
        (i : MonitorInterval F32) (l : List (MonitorInterval F32)) (n : ℕ)
        → (if adds_history i then n + 1 else n) + count_if adds_history l
          ≡ n + count_if adds_history (i ∷ l)
    count_step i l n = ground arith

    calculate_all-Returns :
        (l : List (MonitorInterval F32)) (m : UtilityManager F32 (ManagerStats F32)) (n : ℕ)
        → P n m.statistics
        → Returns UtilityFault
            (calculate_all l m)
            (λ r. P (n + count_if adds_history l) r.statistics)
    unfolding calculate_all
    calculate_all-Returns [] m n h = subst (λ k. P k m.statistics) (omega arith) h
    calculate_all-Returns (i ∷ l) m n h =
        >>=-Returns UtilityFault (calculate_checked fl i m) _
          (λ r. P (if adds_history i then n + 1 else n) r.1.statistics) _
          (calculate_checked-Returns i m n h)
          (λ r k.
            Returns-mono UtilityFault (calculate_all l r.1) _ _
              (λ a. subst (λ c. P c a.statistics) (count_step i l n))
              (calculate_all-Returns l r.1 (if adds_history i then n + 1 else n) k))

  plus_none : (n : ℕ) → 0 + n ≡ n
  plus_none n = omega arith

  -- A new manager with a tag and its parameters.
  unfoldable pub configured :
      IntervalStats F32 → UtilityTag → List F32 → UtilityManager F32 (ManagerStats F32)
  unfolding new_utility_manager new_stats
  configured unset tag l = record (new_utility_manager (new_stats fl unset)) {
    utility_tag = tag;
    effective_utility_tag = tag;
    utility_parameters = l;
  }

  -- Consecutive calls of a new manager, under any tag and parameters, fail at most on an interval
  -- with one sent time or on a missing parameter, and else leave both histories with as many
  -- entries as there were intervals with two reliable samples, but no more than six.
  pub calculate_all-HasLength :
      (unset : IntervalStats F32) (tag : UtilityTag) (parameters : List F32)
      (l : List (MonitorInterval F32))
      → Returns UtilityFault
          (calculate_all l (configured unset tag parameters))
          (λ r. HasLength (min rtt_history_len (count_if adds_history l)) r.statistics)
  unfolding configured new_utility_manager new_stats
  calculate_all-HasLength unset tag parameters l =
      subst
        (λ c.
          Returns UtilityFault (calculate_all l (configured unset tag parameters))
            (λ r. HasLength (min rtt_history_len c) r.statistics))
        (plus_none (count_if adds_history l))
        (calculate_all-Returns (λ n m. HasLength (min rtt_history_len n) m) prepare-HasLength
          (λ m k n kept h. record {
            rtt_length = ap length kept.same_rtt ∙ h.rtt_length;
            dev_length = ap length kept.same_dev ∙ h.dev_length;
          })
          l (configured unset tag parameters) 0 (record { rtt_length = refl; dev_length = refl }))

  trend-IsBelowReset :
      (tag : UtilityTag) (i : MonitorInterval F32) (m : ManagerStats F32)
      → IsBelowReset fl (of_int32 (pos 0))
      → IsBelowReset fl m.ratio_fluctuated_mi
      → IsBelowReset fl (process_rtt_trend fl tag i m).ratio_fluctuated_mi
  unfolding process_rtt_trend push_histories
  trend-IsBelowReset tag i m z h =
      let pushed = push_histories fl m in
      let trend = gradient-SameHistories fl tag pushed in
      if-both (ltb i.num_reliable_rtt 2) m
        (judge_trending_deviation fl (judge_gradient fl tag pushed))
        (λ n. IsBelowReset fl n.ratio_fluctuated_mi) h
        (deviation-IsBelowReset fl (judge_gradient fl tag pushed) z
          (subst (IsBelowReset fl) (sym trend.same_ratio) h))

  prepare-IsBelowReset :
      (tag : UtilityTag) (i : MonitorInterval F32) (m : ManagerStats F32)
      → IsBelowReset fl (of_int32 (pos 0))
      → IsBelowReset fl m.ratio_fluctuated_mi
      → IsBelowReset fl (prepare_statistics fl tag i m).ratio_fluctuated_mi
  unfolding prepare_statistics
  prepare-IsBelowReset tag i m z h =
      trend-IsBelowReset tag i (judged fl i m) z
        (subst (IsBelowReset fl) (sym (judged-SameHistories fl i m).same_ratio) h)

  -- If 0 is not above the reset ratio, then consecutive calls of a new manager fail at most on an
  -- interval with one sent time or on a missing parameter, and else leave a share of fluctuating
  -- intervals that is not above the reset ratio.
  pub calculate_all-IsBelowReset :
      (unset : IntervalStats F32) (tag : UtilityTag) (parameters : List F32)
      (l : List (MonitorInterval F32))
      → IsBelowReset fl (of_int32 (pos 0))
      → Returns UtilityFault
          (calculate_all l (configured unset tag parameters))
          (λ r. IsBelowReset fl r.statistics.ratio_fluctuated_mi)
  unfolding configured new_utility_manager new_stats
  calculate_all-IsBelowReset unset tag parameters l z =
      calculate_all-Returns (λ n m. IsBelowReset fl m.ratio_fluctuated_mi)
        (λ t i m n h. prepare-IsBelowReset t i m z h)
        (λ m k n kept h. subst (IsBelowReset fl) (sym kept.same_ratio) h) l
        (configured unset tag parameters) 0 z
