-- ===== src/Utility/Refinement.antt =====
-- pcc/pcc_utility_manager.cpp: when `CalculateUtility` fails on a missing parameter, and the manager as
-- the utility function that the sender takes.
use pcc_uspace.Base.{ℕ, ◌≡◌, refl, ◌≤◌, ◌<◌, false, List, [], ◌∷◌, zero, suc, length, get_or, arith}
use pcc_uspace.Base.Result.{ok, err, utility_parameter, Returns, NoFault}
use pcc_uspace.Floats.{Floats}
use pcc_uspace.Quic.Time.{Delta}
use pcc_uspace.IntervalQueue.Defs.{MonitorInterval, has_invalid_utility}
use pcc_uspace.Utility.{
  UtilityTag, allegro, vivace, proportional, scavenger, hybrid_allegro, hybrid_vivace, rate_limiter,
  hybrid, test, other, UtilityManager, UtilityFunction, calculate_utility,
}
use pcc_uspace.Utility.Stats.{IntervalStats, ManagerStats, new_stats}
use pcc_uspace.Utility.Tolerance.{prepare_statistics}
use pcc_uspace.Utility.Evaluate.{parameter_at, parameters_read, select_utility, calculate_checked}

-- A parameter that was set is read, whatever stands for one that was not.
parameter_at-get_or :
    {F : Type 0} (l : List F) (k : ℕ) (d : F) → k < length l → parameter_at l k ≡ ok (get_or l k d)
unfolding parameter_at
parameter_at-get_or [] k d h = absurd (omega arith)
parameter_at-get_or (x ∷ l) zero d h = refl
parameter_at-get_or (x ∷ l) (suc k) d h = parameter_at-get_or l k d (omega arith)

parameter_at-missing :
    {F : Type 0} (l : List F) (k : ℕ) → length l ≤ k → parameter_at l k ≡ err utility_parameter
unfolding parameter_at
parameter_at-missing [] k h = refl
parameter_at-missing (x ∷ l) zero h = absurd (omega arith)
parameter_at-missing (x ∷ l) (suc k) h = parameter_at-missing l k (omega arith)

pub allegro_reads_none : parameters_read allegro ≡ 0
unfolding parameters_read
allegro_reads_none = refl

module _ (fl : Floats) where
  open fl use {F32, literal32}

  -- With the parameters that its formula reads, a tag has a utility.
  pub select_utility-Returns :
      (tag : UtilityTag) (l : List F32) (i : MonitorInterval F32) (m : ManagerStats F32)
      → parameters_read tag ≤ length l
      → Returns NoFault (select_utility fl tag l i m) (λ r. Unit {0})
  unfolding select_utility parameters_read
  select_utility-Returns allegro l i m h = tt
  select_utility-Returns vivace l i m h = tt
  select_utility-Returns proportional l i m h =
      rw
        (
          Returns,
          parameter_at-get_or l 0 (literal32 0 0) (omega (arith, h)),
          parameter_at-get_or l 1 (literal32 0 0) (omega (arith, h)),
        )
        tt
  select_utility-Returns scavenger l i m h =
      rw (Returns, parameter_at-get_or l 0 (literal32 0 0) (omega (arith, h))) tt
  select_utility-Returns hybrid_allegro l i m h =
      rw (Returns, parameter_at-get_or l 0 (literal32 0 0) (omega (arith, h))) tt
  select_utility-Returns hybrid_vivace l i m h =
      rw (Returns, parameter_at-get_or l 0 (literal32 0 0) (omega (arith, h))) tt
  select_utility-Returns rate_limiter l i m h =
      rw (Returns, parameter_at-get_or l 0 (literal32 0 0) (omega (arith, h))) tt
  select_utility-Returns hybrid l i m h =
      rw (Returns, parameter_at-get_or l 0 (literal32 0 0) (omega (arith, h))) tt
  select_utility-Returns test l i m h =
      rw
        (
          Returns,
          parameter_at-get_or l 0 (literal32 0 0) (omega (arith, h)),
          parameter_at-get_or l 1 (literal32 0 0) (omega (arith, h)),
        )
        tt
  select_utility-Returns other l i m h = tt

  select_utility-missing :
      (tag : UtilityTag) (l : List F32) (i : MonitorInterval F32) (m : ManagerStats F32)
      → length l < parameters_read tag
      → select_utility fl tag l i m ≡ err utility_parameter
  unfolding select_utility parameters_read parameter_at
  select_utility-missing allegro l i m h = absurd (omega arith)
  select_utility-missing vivace l i m h = absurd (omega arith)
  select_utility-missing proportional [] i m h = refl
  select_utility-missing proportional (x ∷ l) i m h = rw (parameter_at-missing l 0 (omega arith))
  select_utility-missing scavenger l i m h = rw (parameter_at-missing l 0 (omega arith))
  select_utility-missing hybrid_allegro l i m h = rw (parameter_at-missing l 0 (omega arith))
  select_utility-missing hybrid_vivace l i m h = rw (parameter_at-missing l 0 (omega arith))
  select_utility-missing rate_limiter l i m h = rw (parameter_at-missing l 0 (omega arith))
  select_utility-missing hybrid l i m h = rw (parameter_at-missing l 0 (omega arith))
  select_utility-missing test [] i m h = refl
  select_utility-missing test (x ∷ l) i m h = rw (parameter_at-missing l 0 (omega arith))
  select_utility-missing other l i m h = absurd (omega arith)

  -- The manager's statistics and formulas, as the sender takes them; `unset` holds what the members
  -- without an initial value start as.
  abbrev pub pcc_utility : IntervalStats F32 → UtilityFunction F32
  pcc_utility unset = record {
    Statistics = ManagerStats F32;
    initial = new_stats fl unset;
    parameters_read = parameters_read;
    evaluate = λ tag l i event_time m. select_utility fl tag l i (prepare_statistics fl tag i m);
    allegro_reads_none = allegro_reads_none;
    answers = λ tag l i t m. select_utility-Returns tag l i (prepare_statistics fl tag i m);
  }

  -- On an interval whose first and last packet differ in their sent times, `calculate_checked`
  -- fails with `utility_parameter` if fewer parameters are set than the tag's formula reads.
  pub calculate_checked-missing :
      (i : MonitorInterval F32) (m : UtilityManager F32 (ManagerStats F32))
      → has_invalid_utility i ≡ false
      → length m.utility_parameters < parameters_read m.utility_tag
      → calculate_checked fl i m ≡ err utility_parameter
  unfolding calculate_checked
  calculate_checked-missing i m v h = rw (
    v,
    select_utility-missing m.utility_tag m.utility_parameters i
        (prepare_statistics fl m.utility_tag i m.statistics) h,
  )

  -- The call that the sender makes is the manager's `calculate_checked`, so it fails as well.
  pub calculate_utility-missing :
      (unset : IntervalStats F32) (i : MonitorInterval F32) (t : Delta)
      (m : UtilityManager F32 (ManagerStats F32))
      → has_invalid_utility i ≡ false
      → length m.utility_parameters < parameters_read m.utility_tag
      → calculate_utility (pcc_utility unset) i t m ≡ err utility_parameter
  unfolding calculate_utility calculate_checked
  calculate_utility-missing unset i t m v h = calculate_checked-missing i m v h
