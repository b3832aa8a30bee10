-- ===== src/Windows/Runs.antt =====
-- core/window.cpp, `CACKWindow`: any sequence of calls, on the ring and on the list of entries.
use pcc_uspace.Base.{
  ℕ, ◌+◌, ◌-◌, leb, if-both, Option, none, some, ◌≡◌, refl, ap, ◌∙◌, List, [], ◌∷◌, arith,
}
use mathlib.Core.Path.{ap₂}
use pcc_uspace.Base.Int.{ℤ}
use pcc_uspace.Windows.Ack.{
  AckWindow, write_head, forget_oldest, store, find_straight, find_wrapped, reset, take_straight,
  take_wrapped, answer, acknowledge,
}
use pcc_uspace.Windows.Entries.{AckEntry, IsValid, entries}
use pcc_uspace.Windows.Store.{stored, store-stored, store-IsValid}
use pcc_uspace.Windows.Acknowledge.{
  acknowledged, seen, acknowledge-acknowledged, acknowledge-IsValid,
}

-- A call with its time: `store` of two numbers, or `acknowledge` of one with the old value of `ack`.
pub data Call : Type 0 where
  store_call : ℕ → ℤ → ℤ → Call
  acknowledge_call : ℕ → ℤ → ℤ → Call

-- The answers of the calls on a window, and the window behind them.
unfoldable pub run_calls : List Call → AckWindow → List (ℤ × ℤ) × AckWindow
unfolding store acknowledge
run_calls [] w = ([], w)
run_calls (store_call now seq ack ∷ l) w = run_calls l (store now seq ack w)
run_calls (acknowledge_call now seq ack ∷ l) w =
    let (rtt, value, v) = acknowledge now seq ack w in
    let (answers, u) = run_calls l v in ((rtt, value) ∷ answers, u)

-- The same on a list of entries; a window of a size holds one entry less.
unfoldable pub run_entries : ℕ → List Call → List AckEntry → List (ℤ × ℤ) × List AckEntry
unfolding stored
run_entries size [] l = ([], l)
run_entries size (store_call now seq ack ∷ c) l =
    run_entries size c (stored size (record { seq_no = seq; ack_no = ack; time_stamp = now }) l)
run_entries size (acknowledge_call now seq ack ∷ c) l =
    let (rtt, value, k) = acknowledged now seq ack l in
    let (answers, u) = run_entries size c k in ((rtt, value) ∷ answers, u)

-- A window that agrees with a list, in its answers and its entries, and is valid.
pub record Refines (r : List (ℤ × ℤ) × AckWindow) (a : List (ℤ × ℤ) × List AckEntry) : Type 0 where
  pub same_answers : r.0 ≡ a.0
  pub same_entries : entries r.1 ≡ a.1
  pub still_valid : IsValid r.1

store_size : (now : ℕ) (seq ack : ℤ) (w : AckWindow) → (store now seq ack w).size ≡ w.size
unfolding store write_head forget_oldest
store_size now seq ack w = ground arith

answer_size :
    (now : ℕ) (ack : ℤ) (o : Option ℕ) (take : ℕ → AckWindow → AckWindow) (w : AckWindow)
    → ((i : ℕ) → (take i w).size ≡ w.size)
    → (answer now ack o take w).2.size ≡ w.size
unfolding answer
answer_size now ack none take w h = refl
answer_size now ack (some i) take w h = h i

acknowledge_size :
    (now : ℕ) (seq ack : ℤ) (w : AckWindow) → (acknowledge now seq ack w).2.size ≡ w.size
unfolding acknowledge take_straight take_wrapped reset
acknowledge_size now seq ack w =
    if-both (leb w.tail w.head)
      (answer now ack (find_straight seq w (w.head - w.tail) w.tail) take_straight w)
      (answer now ack (find_wrapped seq w (w.head + w.size - w.tail) w.tail) take_wrapped w)
      (λ r. r.2.size ≡ w.size)
      (answer_size now ack (find_straight seq w (w.head - w.tail) w.tail) take_straight w
        (λ i. ground arith))
      (answer_size now ack (find_wrapped seq w (w.head + w.size - w.tail) w.tail) take_wrapped w
        (λ i. ground arith))

-- The lists that the ring stands for at each step.
follow :
    (c : List Call) (w : AckWindow) (size : ℕ) (l : List AckEntry)
    → IsValid w
    → w.size ≡ size
    → entries w ≡ l
    → Refines (run_calls c w) (run_entries size c l)
unfolding run_calls run_entries seen
follow [] w size l valid s e = record { same_answers = refl; same_entries = e; still_valid = valid }
follow (store_call now seq ack ∷ c) w size l valid s e =
    follow c (store now seq ack w) size _ (store-IsValid now seq ack w valid)
      (store_size now seq ack w ∙ s)
      (store-stored now seq ack w valid
        ∙ ap₂ (λ n k. stored n (record { seq_no = seq; ack_no = ack; time_stamp = now }) k) s e)
follow (acknowledge_call now seq ack ∷ c) w size l valid s e =
    let once = acknowledge-acknowledged now seq ack w valid ∙ ap (acknowledged now seq ack) e in
    let rest =
      follow c (acknowledge now seq ack w).2 size (acknowledged now seq ack l).2
        (acknowledge-IsValid now seq ack w valid) (acknowledge_size now seq ack w ∙ s)
        (ap (λ r. r.2) once) in
    record {
      same_answers = ap₂ ◌∷◌ (ap (λ r. (r.0, r.1)) once) rest.same_answers;
      same_entries = rest.same_entries;
      still_valid = rest.still_valid;
    }

-- From a valid window, any sequence of calls gives the answers that the same calls give on the
-- list of entries, leaves the entries that they leave there, and leaves a valid window.
pub run_calls-Refines :
    (c : List Call) (w : AckWindow)
    → IsValid w
    → Refines (run_calls c w) (run_entries w.size c (entries w))
run_calls-Refines c w valid = follow c w w.size (entries w) valid refl refl
