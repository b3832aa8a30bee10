-- ===== src/Core/LastAck.antt =====
-- core/core.cpp, `ProcessAck`, for the last packet of a tracker: `GetMinSeqNo` reads through a null
-- pointer.
use pcc_uspace.Base.{
  ℕ, true, ◌-◌, ◌≡◌, refl, ◌∙◌, List, [], ◌∷◌, Option, none, some, arith, length, ◌==◌, Bool-cases,
  inl, inr,
}
use pcc_uspace.Base.Result.{Result, ok, err, Returns, >>=-Returns, Returns_any, Returns-and}
use pcc_uspace.Tracker.Maps.{contains}
use pcc_uspace.Tracker.Record.{PacketState, PacketRecord}
use pcc_uspace.Tracker.Defs.{PacketTracker, on_ack, delete_packet_record, get_min_seq_no}
use pcc_uspace.Tracker.Reads.{get_packet_id, get_packet_rtt, get_last_msg_no}
use pcc_uspace.Tracker.Minimum.{IsLeast}
use pcc_uspace.Tracker.Life.{IsTracked, AnyFault, on_ack-IsTracked, delete_packet_record-IsTracked}
use pcc_uspace.Tracker.Counting.{on_ack-count, delete-count}
use pcc_uspace.Floats.{Floats}
use pcc_uspace.Core.Controller.{Controller}
use pcc_uspace.Core.Sending.{Cudt, Clocks}
use pcc_uspace.Core.Acks.{smooth, retire, process_ack}

pub some_result : {A : Type 0} (m : Result A) → Returns AnyFault m (λ a. Unit {0})
some_result (ok a) = tt
some_result (err e) = tt

delete-IsTracked :
    (n : ℕ) (t : PacketTracker)
    → IsTracked t
    → Returns AnyFault (delete_packet_record n t) (λ r. IsTracked r.1)
unfolding delete_packet_record
delete-IsTracked n t d = elim (Bool-cases (contains n t.packet_record_map)) [
  | inl c ↦
      Returns_any AnyFault (delete_packet_record n t) _ (delete_packet_record-IsTracked n t c d)
  | inr c ↦ rw (Returns, c) tt
]

-- An empty tracker has no least number.
IsLeast-empty : (o : Option ℕ) (m : List (ℕ × PacketRecord)) → length m ≡ 0 → IsLeast o m → o ≡ none
unfolding contains
IsLeast-empty none m e h = refl
IsLeast-empty (some k) [] e h = cc h.0
IsLeast-empty (some k) (x ∷ m) e h = absurd (omega (arith, e))

module _ (fl : Floats) (c : Controller) where
  open c use {State}

  retire-last :
      (k : Clocks) (n : ℕ) (old : PacketState) (id rtt_us size : ℕ) (s : Cudt fl State)
      → IsTracked s.tracker
      → s.tracker.cur_num_packets ≡ 1
      → Returns AnyFault (retire fl c k n old id rtt_us size s) (λ s'. ⊥)
  unfolding retire get_min_seq_no
  retire-last k n old id rtt_us size s d one =
      >>=-Returns AnyFault (delete_packet_record n s.tracker) _
        (λ r. IsTracked r.1 × (r.1.cur_num_packets ≡ s.tracker.cur_num_packets - 1)) _
        (Returns-and AnyFault (delete_packet_record n s.tracker) _ _
          (delete-IsTracked n s.tracker d) (delete-count n s.tracker))
        λ (signal, t) (d', num).
          let empty : length t.packet_record_map ≡ 0 = omega (arith, d'.counted, num, one) in
          let e = IsLeast-empty t.cur_min_seq t.packet_record_map empty d'.least in
          rw (Returns, e) tt

  -- On a tracker with the invariant and one packet, `ProcessAck` under the last message number of
  -- any packet never returns.
  pub process_ack-last :
      (k : Clocks) (n : ℕ) (s : Cudt fl State)
      → IsTracked s.tracker
      → s.tracker.cur_num_packets ≡ 1
      → Returns AnyFault (process_ack fl c k n (get_last_msg_no n s.tracker) s) (λ s'. ⊥)
  unfolding process_ack smooth
  process_ack-last k n s d one =
      let msg = get_last_msg_no n s.tracker in
      let same : (msg == msg) ≡ true = ground arith in
      >>=-Returns AnyFault (get_packet_id n msg s.tracker) _ (λ id. Unit {0}) _
        (some_result (get_packet_id n msg s.tracker))
        λ id x.
          >>=-Returns AnyFault (on_ack n msg k.monotonic s.tracker) _
            (λ t. IsTracked t × (t.cur_num_packets ≡ s.tracker.cur_num_packets)) _
            (Returns-and AnyFault (on_ack n msg k.monotonic s.tracker) _ _
              (on_ack-IsTracked n msg k.monotonic s.tracker d)
              (on_ack-count n msg k.monotonic s.tracker))
            λ t (d', num).
              >>=-Returns AnyFault (get_packet_rtt n msg t) _ (λ rtt. Unit {0}) _
                (some_result (get_packet_rtt n msg t))
                λ rtt y. rw same (retire-last k n _ id rtt _ _ d' (num ∙ one))
