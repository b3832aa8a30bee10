-- ===== src/Sender/Choices.antt =====
-- What `CanMakeDecision` and `CanSend` of pcc_sender.cpp decide, by counts.
use pcc_uspace.Base.{
  ℕ, Bool, true, false, not, ◌+◌, ◌-◌, ◌*◌, ◌≤◌, ◌<◌, ◌≡◌, refl, List, [], ◌∷◌, length, leb, ltb,
  ◌==◌, ◌&&◌, ◌||◌, count_if, arith, if◌then◌else◌, zero, suc,
}
use pcc_uspace.Floats.{Floats}
use pcc_uspace.Quic.Bandwidth.{u64}
use pcc_uspace.IntervalQueue.Defs.{MonitorInterval, size}
use pcc_uspace.IntervalQueue.Counts.{useful_count, IsCounted}
use pcc_uspace.Utility.{UtilityFunction}
use pcc_uspace.Sender.State.{Sender, UtilityInfo, num_interval_groups_in_probing}
use pcc_uspace.Sender.Pcc.{consistent_from, can_make_decision}
use pcc_uspace.Sender.Vivace.{count_increase}
use pcc_uspace.Sender.Events.{Connection, can_send}

module _ (fl : Floats) where
  open fl use {F32}

  count_increase-bound :
      (infos : List (UtilityInfo F32)) (rest i : ℕ) → count_increase fl infos rest i ≤ rest
  unfolding count_increase
  count_increase-bound infos zero i = omega arith
  count_increase-bound infos (suc rest) i = ground (arith, count_increase-bound infos rest (i + 1))

  -- Behind the first pair, every pair has to agree with it.
  consistent_from-count_increase :
      (infos : List (UtilityInfo F32)) (rest i : ℕ) (first : Bool)
      → 0 < i
      → consistent_from fl infos rest i first ≡ (
          if first
          then count_increase fl infos rest i == rest
          else count_increase fl infos rest i == 0)
  unfolding consistent_from count_increase
  consistent_from-count_increase infos zero i true p = refl
  consistent_from-count_increase infos zero i false p = refl
  consistent_from-count_increase infos (suc rest) i first p = ground (
    arith,
    consistent_from-count_increase infos rest (i + 1) first (omega arith),
    count_increase-bound infos rest (i + 1),
  )

  pairs_agree :
      (infos : List (UtilityInfo F32)) (r : ℕ)
      → consistent_from fl infos (suc r) 0 false
        ≡ (count_increase fl infos (suc r) 0 == 0 || count_increase fl infos (suc r) 0 == suc r)
  unfolding consistent_from count_increase
  pairs_agree infos r = ground (
    arith,
    consistent_from-count_increase infos r 1 true (omega arith),
    consistent_from-count_increase infos r 1 false (omega arith),
    count_increase-bound infos r 1,
  )

  guarded :
      (infos : List (UtilityInfo F32)) (n r : ℕ)
      → n ≡ suc r
      → (if ltb (length infos) (2 * n) then false else consistent_from fl infos n 0 false) ≡ (
          leb (2 * n) (length infos)
          && (count_increase fl infos n 0 == 0 || count_increase fl infos n 0 == n))
  guarded infos n r e = rw e (ground (arith, pairs_agree infos r))

  module _ (u : UtilityFunction F32) where
    open u use {Statistics}

    -- `PccSender` can make a decision exactly where there are at least two utilities for each
    -- interval group and `increase_wins` holds of none of the groups' pairs or of all of them.
    pub can_make_decision-count_increase :
        (s : Sender F32 Statistics) (infos : List (UtilityInfo F32))
        → let n = num_interval_groups_in_probing s in
          can_make_decision fl u s infos ≡ (
            leb (2 * n) (length infos)
            && (count_increase fl infos n 0 == 0 || count_increase fl infos n 0 == n))
    unfolding can_make_decision num_interval_groups_in_probing
    can_make_decision-count_increase s infos =
        guarded infos (num_interval_groups_in_probing s) (num_interval_groups_in_probing s - 1)
          (ground arith)

    -- On a queue whose counter is right and whose size is below 2 ^ 64, a packet can be sent
    -- exactly if at most four intervals of the queue are not useful.
    pub can_send-count_if :
        (c : Connection fl u)
        → IsCounted c.0
        → length c.0.monitor_intervals < u64
        → can_send fl u c ≡ leb (count_if (λ i. not i.is_useful) c.0.monitor_intervals) 4
    unfolding can_send size
    can_send-count_if (q, s) k h = ground (arith, k.counted, counts_of q.monitor_intervals)
      where
        counts_of :
            (l : List (MonitorInterval F32))
            → useful_count l + count_if (λ i. not i.is_useful) l ≡ length l
        counts_of [] = refl
        counts_of (i ∷ l) = ground (arith, counts_of l)
