-- ===== src/Sender/Floor.antt =====
-- The least change and the least sending rate of pcc/pcc_vivace_sender.cpp.
use pcc_uspace.Base.{false, not, ◌≤◌, ◌≡◌, ap, List, arith, ◌==◌}
use pcc_uspace.Base.Result.{
  Returns, check-Returns, check-may, starting_rate_change, zero_rate_change,
}
use pcc_uspace.Floats.{Floats}
use pcc_uspace.Utility.{UtilityFunction}
use pcc_uspace.Sender.State.{Sender, UtilityInfo, is_starting, min_rate_change}
use pcc_uspace.Sender.Decisions.{RatesEqual}
use pcc_uspace.Sender.Vivace.{deltas, compute_rate_change}

module _ (fl : Floats) (u : UtilityFunction fl.F32) where
  open fl use {F32}
  open u use {Statistics}

  pub compute_rate_change-Returns :
      (infos : List (UtilityInfo F32)) (s : Sender F32 Statistics)
      → is_starting s.mode ≡ false
      → Returns RatesEqual (compute_rate_change fl u infos s) (λ r. min_rate_change ≤ r.0)
  unfolding compute_rate_change
  compute_rate_change-Returns infos s h =
      check-Returns RatesEqual (not (is_starting s.mode)) starting_rate_change _ _ (ap not h) (
        check-may RatesEqual (not ((deltas fl u infos s).0 == 0)) zero_rate_change _ _ tt
          λ e. omega arith)
