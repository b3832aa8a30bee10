-- ===== src/Tests/Rates.antt =====
-- The rate changes of pcc/pcc_vivace_sender.cpp on a sender in DECISION_MADE near the least sending
-- rate, whose last interval was worse.
use pcc_uspace.Base.{true, leb, ◌*◌, length, ◌&&◌, ◌||◌, ◌==◌, ◌≡◌, refl, List, [], ◌∷◌}
use pcc_uspace.Base.Int.{ℤ, pos}
use pcc_uspace.Sender.State.{
  num_interval_groups_in_probing, Sender, UtilityInfo, new_sender, vivace, decision_made,
}
use pcc_uspace.Sender.Pcc.{can_make_decision}
use pcc_uspace.Sender.Choices.{can_make_decision-count_increase}
use pcc_uspace.Sender.Vivace.{count_increase}
use pcc_uspace.Tests.Fixed.{fixed, share}

unfoldable pub slow : Sender ℤ (Unit {0})
unfolding new_sender
slow = record (new_sender vivace (pos 0) tt 10 100) {
  mode = decision_made;
  sending_rate = 600000;
  latest_utility_info = record { sending_rate = 550000; utility = pos 900 };
}

abbrev last_infos : List (UtilityInfo ℤ)
last_infos = record { sending_rate = 600000; utility = pos 800 } ∷ []

-- Three pairs of probing intervals, in each of which the higher rate has the better utility.
abbrev pairs : List (UtilityInfo ℤ)
pairs =
    record { sending_rate = 630000; utility = pos 900 }
    ∷ record { sending_rate = 570000; utility = pos 700 }
    ∷ record { sending_rate = 570000; utility = pos 700 }
    ∷ record { sending_rate = 630000; utility = pos 800 }
    ∷ record { sending_rate = 630000; utility = pos 900 }
    ∷ record { sending_rate = 570000; utility = pos 800 }
    ∷ []

decided : can_make_decision fixed share slow pairs ≡ true
unfolding slow can_make_decision num_interval_groups_in_probing
decided = refl

can_make_decision-count_increase_example :
    let n = num_interval_groups_in_probing slow in
    can_make_decision fixed share slow pairs ≡ (
      leb (2 * n) (length pairs)
      && (count_increase fixed pairs n 0 == 0 || count_increase fixed pairs n 0 == n))
can_make_decision-count_increase_example = can_make_decision-count_increase fixed share slow pairs
