-- ===== src/Tracker/Life.antt =====
-- The invariant of a `PacketTracker` of core/packet_tracker.h and its operations.
use pcc_uspace.Base.{
  ℕ, Bool, true, false, not, ◌+◌, ◌-◌, ◌<◌, ◌≡◌, sym, ap, ◌∙◌, List, Option, none, some, ◌==◌,
  arith, length, Option-cases, ◌%◌, inl, inr,
}
use pcc_uspace.Base.Result.{
  Fault, Result, ok, err, Returns, NoFault, >>=-Returns, check-may, check-Returns, already_recorded,
  not_recorded,
}
use pcc_uspace.Quic.Bandwidth.{u64}
use pcc_uspace.Tracker.Maps.{
  find, contains, erase, update, Distinct, Keys, length-update, update-Keys, update-Distinct,
  erase-Distinct, erase-Keys, length-erase,
}
use pcc_uspace.Tracker.Record.{
  PacketState, queued, sent, acked, lost, is_queued, Timespec, Packet, PacketRecord, new_record,
  update_record, get_message_record,
}
use pcc_uspace.Tracker.Defs.{
  PacketTracker, seq_end, enqueue_packet, take_from_queue, send_recorded, settle, on_ack, on_loss,
  delete_packet_record, top, next_min,
}
use pcc_uspace.Tracker.Minimum.{IsLeast, enqueue-IsLeast, update-IsLeast, next_min-IsLeast}
use pcc_uspace.Tracker.Queues.{Sorted, push_seq-Sorted, pop-Sorted}

-- No sequence number is recorded twice, each is an `int32_t`, the packets are counted, the least
-- number is right, and both queues are sorted.
pub record IsTracked (t : PacketTracker) : Type 0 where
  pub distinct : Distinct t.packet_record_map
  pub range : Keys (λ k. k < seq_end) t.packet_record_map
  pub counted : t.cur_num_packets ≡ length t.packet_record_map
  pub least : IsLeast t.cur_min_seq t.packet_record_map
  pub send_sorted : Sorted t.send_queue
  pub retransmit_sorted : Sorted t.retransmittable_queue

-- Any fault.
abbrev pub AnyFault : Fault → Type 0
AnyFault e = Unit

pub anything : {A : Type 0} (m : Result A) → Returns AnyFault m (λ a. Unit {0})
anything (ok a) = tt
anything (err e) = tt

-- From a tracker with the invariant, a packet whose number is an `int32_t` that is not recorded is
-- enqueued without a fault, and the invariant holds behind it.
pub enqueue_packet-IsTracked :
    (p : Packet) (t : PacketTracker)
    → p.seq_no < seq_end
    → contains p.seq_no t.packet_record_map ≡ false
    → IsTracked t
    → Returns NoFault (enqueue_packet p t) IsTracked
unfolding enqueue_packet
enqueue_packet-IsTracked p t r e k =
    check-Returns NoFault (not (contains p.seq_no t.packet_record_map)) already_recorded _ IsTracked
      (ap not e)
      (record {
        distinct = (e, k.distinct);
        range = (r, k.range);
        counted = omega (arith, k.counted);
        least =
            enqueue-IsLeast t.cur_min_seq p.seq_no (new_record p queued) t.packet_record_map
              k.least;
        send_sorted = push_seq-Sorted p.seq_no t.send_queue k.send_sorted;
        retransmit_sorted = k.retransmit_sorted;
      })

-- The record of a packet that was sent takes a new state, its messages and its times.
update-IsTracked :
    (n : ℕ) (r : PacketRecord) (id : ℕ) (q : List Timespec) (m : List (Timespec × ℕ))
    (t : PacketTracker)
    → IsTracked t
    → IsTracked (record t {
      prev_packet_id = id;
      packet_record_map = update n r t.packet_record_map;
      sent_queue = q;
      sent_time_map = m;
    })
update-IsTracked n r id q m t k = record {
  distinct = update-Distinct n r t.packet_record_map k.distinct;
  range = update-Keys (λ k. k < seq_end) n r t.packet_record_map k.range;
  counted = k.counted ∙ sym (length-update n r t.packet_record_map);
  least =
      update-IsLeast t.cur_min_seq n r t.packet_record_map k.least
        (length-update n r t.packet_record_map);
  send_sorted = k.send_sorted;
  retransmit_sorted = k.retransmit_sorted;
}

take_from_queue-IsTracked :
    (b : Bool) (n : ℕ) (t : PacketTracker)
    → IsTracked t
    → Returns AnyFault (take_from_queue b n t) IsTracked
unfolding take_from_queue
take_from_queue-IsTracked true n t k =
    >>=-Returns AnyFault (top t.send_queue) _ (λ i. Unit {0}) IsTracked
      (anything (top t.send_queue))
      λ i x. check-may AnyFault (n == i) _ _ IsTracked tt λ e. record {
        distinct = k.distinct;
        range = k.range;
        counted = k.counted;
        least = k.least;
        send_sorted = pop-Sorted t.send_queue k.send_sorted;
        retransmit_sorted = k.retransmit_sorted;
      }
take_from_queue-IsTracked false n t k =
    >>=-Returns AnyFault (top t.retransmittable_queue) _ (λ i. Unit {0}) IsTracked
      (anything (top t.retransmittable_queue))
      λ i x. check-may AnyFault (n == i) _ _ IsTracked tt λ e. record {
        distinct = k.distinct;
        range = k.range;
        counted = k.counted;
        least = k.least;
        send_sorted = k.send_sorted;
        retransmit_sorted = pop-Sorted t.retransmittable_queue k.retransmit_sorted;
      }

pub send_recorded-IsTracked :
    (o : Option PacketRecord) (p : Packet) (now : Timespec) (t : PacketTracker)
    → IsTracked t
    → Returns AnyFault (send_recorded o p now t) IsTracked
unfolding send_recorded
send_recorded-IsTracked none p now t k = tt
send_recorded-IsTracked (some r) p now t k =
    >>=-Returns AnyFault (take_from_queue (is_queued r.packet_state) p.seq_no t) _ IsTracked _
      (take_from_queue-IsTracked (is_queued r.packet_state) p.seq_no t k)
      λ t' k'.
        >>=-Returns AnyFault (update_record sent p.msg_no ((t'.prev_packet_id + 1) % u64) now r) _
          (λ r'. Unit {0}) _
          (anything (update_record sent p.msg_no ((t'.prev_packet_id + 1) % u64) now r))
          λ r' x.
            >>=-Returns AnyFault (get_message_record p.msg_no r') _ (λ m. Unit {0}) _
              (anything (get_message_record p.msg_no r'))
              λ m y. update-IsTracked p.seq_no r' _ _ _ t' k'

settle-IsTracked :
    (st : PacketState) (r : PacketRecord) (n msg : ℕ) (now : Timespec) (t : PacketTracker)
    → IsTracked t
    → Returns AnyFault (settle st r n msg now t) IsTracked
unfolding settle
settle-IsTracked st r n msg now t k =
    >>=-Returns AnyFault (get_message_record msg r) _ (λ m. Unit {0}) _
      (anything (get_message_record msg r))
      λ m y.
        >>=-Returns AnyFault (update_record st msg 0 now r) _ (λ r'. Unit {0}) _
          (anything (update_record st msg 0 now r)) λ r' x. update-IsTracked n r' _ _ _ t k

pub on_ack-IsTracked :
    (n msg : ℕ) (now : Timespec) (t : PacketTracker)
    → IsTracked t
    → Returns AnyFault (on_ack n msg now t) IsTracked
unfolding on_ack
on_ack-IsTracked n msg now t k = elim (Option-cases (find n t.packet_record_map)) [
  | inl e ↦ rw (Returns, e) k
  | inr (r, e) ↦ rw (Returns, e) (settle-IsTracked acked r n msg now t k)
]

pub on_loss-IsTracked :
    (n msg : ℕ) (now : Timespec) (t : PacketTracker)
    → IsTracked t
    → Returns AnyFault (on_loss n msg now t) IsTracked
unfolding on_loss
on_loss-IsTracked n msg now t k = elim (Option-cases (find n t.packet_record_map)) [
  | inl e ↦ rw (Returns, e) k
  | inr (r, e) ↦
      rw (Returns, e)
        (>>=-Returns AnyFault (settle lost r n msg now t) _ IsTracked IsTracked
          (settle-IsTracked lost r n msg now t k)
          λ t' k'. record {
            distinct = k'.distinct;
            range = k'.range;
            counted = k'.counted;
            least = k'.least;
            send_sorted = k'.send_sorted;
            retransmit_sorted = push_seq-Sorted n t'.retransmittable_queue k'.retransmit_sorted;
          })
]

-- From a tracker with the invariant, a recorded packet is deleted without a fault, and the
-- invariant holds behind it.
pub delete_packet_record-IsTracked :
    (n : ℕ) (t : PacketTracker)
    → contains n t.packet_record_map ≡ true
    → IsTracked t
    → Returns NoFault (delete_packet_record n t) (λ r. IsTracked r.1)
unfolding delete_packet_record
delete_packet_record-IsTracked n t e k =
    check-Returns NoFault (contains n t.packet_record_map) not_recorded _ _ e (
      >>=-Returns NoFault
        (next_min t.cur_min_seq n (t.cur_num_packets - 1) (erase n t.packet_record_map)) _
        (λ o. IsLeast o (erase n t.packet_record_map)) _
        (rw k.counted
          (next_min-IsLeast t.cur_min_seq n t.packet_record_map k.distinct k.range e k.least))
        λ o l. record {
          distinct = erase-Distinct n t.packet_record_map k.distinct;
          range = erase-Keys (λ k. k < seq_end) n t.packet_record_map k.range;
          counted = omega (arith, k.counted, length-erase n t.packet_record_map e);
          least = l;
          send_sorted = k.send_sorted;
          retransmit_sorted = k.retransmit_sorted;
        })
