-- ===== src/Utility.antt =====
-- pcc/pcc_utility_manager.{h,cpp}: which utility function the sender uses, its parameters, and the
-- check that opens `CalculateUtility`. The statistics of the manager and the value that its
-- formulas give are the record `UtilityFunction`, which the sender takes as a parameter.
pub mod Stats
pub mod Metrics
pub mod Trends
pub mod Tolerance
pub mod Formulas
pub mod Evaluate
pub mod Settings
pub mod Judgement
pub mod Runs
pub mod Histories
pub mod Refinement
use pcc_uspace.Base.{
  ℕ, ◌≡◌, ◌≤◌, length, Bool, true, false, not, List, [], ◌∷◌, ◌++◌, get_or, if◌then◌else◌,
}
use pcc_uspace.Base.Result.{Result, ok, ◌>>=◌, ◌>>◌, check, single_sent_time, Returns, NoFault}
use pcc_uspace.Quic.Time.{Delta}
use pcc_uspace.IntervalQueue.Defs.{MonitorInterval, has_invalid_utility}

-- The strings that the code compares `utility_tag_` with; `other` is any other string.
pub data UtilityTag : Type 0 where
  allegro vivace proportional scavenger hybrid_allegro hybrid_vivace : UtilityTag
  rate_limiter hybrid test other : UtilityTag

abbrev pub is_scavenger : UtilityTag → Bool
is_scavenger scavenger = true
is_scavenger _ = false

abbrev pub is_hybrid : UtilityTag → Bool
is_hybrid hybrid = true
is_hybrid _ = false

-- The tags whose functions take parameters.
abbrev pub takes_parameters : UtilityTag → Bool
takes_parameters allegro = false
takes_parameters vivace = false
takes_parameters other = false
takes_parameters _ = true

-- The statistics of the manager, and the utility of an interval under a tag and its parameters, of
-- which a tag's formula reads the first few; it fails at most where one of them is missing.
pub record UtilityFunction (F : Type 0) : Type 1 where
  pub Statistics : Type 0
  pub initial : Statistics
  pub parameters_read : UtilityTag → ℕ
  pub evaluate :
      UtilityTag → List F → MonitorInterval F → Delta → Statistics → Result (F × Statistics)
  pub allegro_reads_none : parameters_read allegro ≡ 0
  pub answers :
      (tag : UtilityTag) (l : List F) (i : MonitorInterval F) (t : Delta) (s : Statistics)
      → parameters_read tag ≤ length l
      → Returns NoFault (evaluate tag l i t s) (λ r. Unit {0})

pub record UtilityManager (F S : Type 0) : Type 0 where
  pub utility_tag : UtilityTag
  pub effective_utility_tag : UtilityTag
  pub utility_parameters : List F
  pub statistics : S

module _ {F S : Type 0} where
  unfoldable pub new_utility_manager : S → UtilityManager F S
  new_utility_manager s = record {
    utility_tag = allegro;
    effective_utility_tag = allegro;
    utility_parameters = [];
    statistics = s;
  }

  unfoldable pub set_utility_tag : UtilityTag → UtilityManager F S → UtilityManager F S
  set_utility_tag tag m = record m { utility_tag = tag; effective_utility_tag = tag }

  unfoldable pub set_effective_utility_tag : UtilityTag → UtilityManager F S → UtilityManager F S
  set_effective_utility_tag tag m = record m { effective_utility_tag = tag }

  -- The first argument is the `float` 0, the value of a parameter that was not set.
  unfoldable pub get_utility_parameter : F → UtilityManager F S → ℕ → F
  get_utility_parameter zero_value m index = get_or m.utility_parameters index zero_value

  unfoldable pub set_utility_parameter : F → UtilityManager F S → UtilityManager F S
  set_utility_parameter value m =
      if takes_parameters m.utility_tag
      then record m { utility_parameters = m.utility_parameters ++ (value ∷ []) }
      else m

-- The tag and the parameters, which only the setters change.
abbrev pub settings : {F S : Type 0} → UtilityManager F S → UtilityTag × List F
settings m = (m.utility_tag, m.utility_parameters)

module _ {F : Type 0} (u : UtilityFunction F) where
  open u use {Statistics, parameters_read, evaluate}

  -- As many parameters are set as the tag's formula reads.
  abbrev pub Provided : UtilityTag × List F → Type 0
  Provided (tag, l) = parameters_read tag ≤ length l

  unfoldable pub calculate_utility :
      MonitorInterval F
      → Delta
      → UtilityManager F Statistics
      → Result (F × UtilityManager F Statistics)
  calculate_utility i event_time m = do
    check (not (has_invalid_utility i)) single_sent_time
    (value, s) ← evaluate m.utility_tag m.utility_parameters i event_time m.statistics
    ok (value, record m { statistics = s })
