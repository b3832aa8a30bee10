-- ===== src/Tracker/Runs.antt =====
-- The runs of a `PacketTracker` of core/packet_tracker.h: the trackers that its operations reach
-- from a new one.
use pcc_uspace.Base.{
  ℕ, Bool, true, ◌≤◌, ◌<◌, ◌≡◌, refl, Option, none, some, arith, Bool-cases, inl, inr,
}
use pcc_uspace.Base.Result.{Returns-ok, Result, ok, err, Returns, NoFault, null_min_seq}
use pcc_uspace.Tracker.Maps.{contains, Keys, length-erase}
use pcc_uspace.Tracker.Record.{Timespec, Packet}
use pcc_uspace.Tracker.Defs.{
  PacketTracker, new_tracker, seq_end, enqueue_packet, on_sent, on_ack, on_loss,
  delete_packet_record, get_min_seq_no,
}
use pcc_uspace.Tracker.Reads.{
  has_sendable_packets, get_lowest_sendable_seq_no, has_retransmittable_packets,
  get_lowest_retransmittable_seq_no, purge_sendable, purge_retransmittable,
}
use pcc_uspace.Tracker.Minimum.{IsLeast}
use pcc_uspace.Tracker.Queues.{drop_unrecorded-IsLowest, In, drop_unrecorded-Sorted}
use pcc_uspace.Tracker.Life.{
  IsTracked, AnyFault, enqueue_packet-IsTracked, send_recorded-IsTracked, on_ack-IsTracked,
  on_loss-IsTracked, delete_packet_record-IsTracked,
}

-- The trackers that a run of the operations reaches from a new one. The operations that fail stop
-- the program; those that only read are left out.
pub data Reached : PacketTracker → Type 0 where
  started : Reached new_tracker
  enqueued :
      (p : Packet) (t t' : PacketTracker)
      → Reached t
      → p.seq_no < seq_end
      → enqueue_packet p t ≡ ok t'
      → Reached t'
  transmitted :
      (p : Packet) (now : Timespec) (t t' : PacketTracker)
      → Reached t
      → on_sent p now t ≡ ok t'
      → Reached t'
  acknowledged :
      (n msg : ℕ) (now : Timespec) (t t' : PacketTracker)
      → Reached t
      → on_ack n msg now t ≡ ok t'
      → Reached t'
  missed :
      (n msg : ℕ) (now : Timespec) (t t' : PacketTracker)
      → Reached t
      → on_loss n msg now t ≡ ok t'
      → Reached t'
  deleted :
      (n : ℕ) (signal : Bool) (t t' : PacketTracker)
      → Reached t
      → delete_packet_record n t ≡ ok (signal, t')
      → Reached t'
  send_purged : (t : PacketTracker) → Reached t → Reached (purge_sendable t)
  retransmit_purged : (t : PacketTracker) → Reached t → Reached (purge_retransmittable t)

enqueue_packet-result :
    (p : Packet) (t t' : PacketTracker)
    → p.seq_no < seq_end
    → enqueue_packet p t ≡ ok t'
    → IsTracked t
    → IsTracked t'
unfolding enqueue_packet
enqueue_packet-result p t t' r e k = elim (Bool-cases (contains p.seq_no t.packet_record_map)) [
  | inl c ↦ Returns-ok AnyFault (enqueue_packet p t) IsTracked t' e (rw (Returns, c) tt)
  | inr c ↦
      Returns-ok NoFault (enqueue_packet p t) IsTracked t' e (enqueue_packet-IsTracked p t r c k)
]

delete_packet_record-result :
    (n : ℕ) (b : Bool) (t t' : PacketTracker)
    → delete_packet_record n t ≡ ok (b, t')
    → IsTracked t
    → IsTracked t'
unfolding delete_packet_record
delete_packet_record-result n b t t' e k = elim (Bool-cases (contains n t.packet_record_map)) [
  | inl c ↦
      Returns-ok NoFault (delete_packet_record n t) (λ r. IsTracked r.1) (b, t') e
        (delete_packet_record-IsTracked n t c k)
  | inr c ↦
      Returns-ok AnyFault (delete_packet_record n t) (λ r. IsTracked r.1) (b, t') e
        (rw (Returns, c) tt)
]

-- Every tracker that a run reaches satisfies the invariant: no sequence number is recorded twice,
-- each is an `int32_t`, the packets are counted, the least number is right, and both queues are
-- sorted.
pub Reached-IsTracked : (t : PacketTracker) → Reached t → IsTracked t
unfolding new_tracker on_sent purge_sendable purge_retransmittable
Reached-IsTracked t started = record {
  distinct = tt;
  range = tt;
  counted = refl;
  least = refl;
  send_sorted = tt;
  retransmit_sorted = tt;
}
Reached-IsTracked t' (enqueued p t _ h r e) =
    enqueue_packet-result p t t' r e (Reached-IsTracked t h)
Reached-IsTracked t' (transmitted p now t _ h e) =
    Returns-ok AnyFault (on_sent p now t) IsTracked t' e
      (send_recorded-IsTracked _ p now t (Reached-IsTracked t h))
Reached-IsTracked t' (acknowledged n msg now t _ h e) =
    Returns-ok AnyFault (on_ack n msg now t) IsTracked t' e
      (on_ack-IsTracked n msg now t (Reached-IsTracked t h))
Reached-IsTracked t' (missed n msg now t _ h e) =
    Returns-ok AnyFault (on_loss n msg now t) IsTracked t' e
      (on_loss-IsTracked n msg now t (Reached-IsTracked t h))
Reached-IsTracked t' (deleted n b t _ h e) =
    delete_packet_record-result n b t t' e (Reached-IsTracked t h)
Reached-IsTracked t' (send_purged t h) =
    let k = Reached-IsTracked t h in
    record {
      distinct = k.distinct;
      range = k.range;
      counted = k.counted;
      least = k.least;
      send_sorted = drop_unrecorded-Sorted t.packet_record_map t.send_queue k.send_sorted;
      retransmit_sorted = k.retransmit_sorted;
    }
Reached-IsTracked t' (retransmit_purged t h) =
    let k = Reached-IsTracked t h in
    record {
      distinct = k.distinct;
      range = k.range;
      counted = k.counted;
      least = k.least;
      send_sorted = k.send_sorted;
      retransmit_sorted =
          drop_unrecorded-Sorted t.packet_record_map t.retransmittable_queue k.retransmit_sorted;
    }

-- In a tracker that a run reaches and that records a packet, this packet is deleted without a
-- fault, so that the search for the next least number ends, and the invariant holds behind it; and
-- `get_min_seq_no` gives a recorded number below which none is recorded.
pub Reached-get_min_seq_no :
    (t : PacketTracker) (n : ℕ)
    → Reached t
    → contains n t.packet_record_map ≡ true
    → Returns NoFault (delete_packet_record n t) (λ r. IsTracked r.1)
      × Returns NoFault
          (get_min_seq_no t)
          (λ k. (contains k t.packet_record_map ≡ true) × Keys (λ j. k ≤ j) t.packet_record_map)
unfolding get_min_seq_no
Reached-get_min_seq_no t n h c =
    let k = Reached-IsTracked t h in
    (delete_packet_record-IsTracked n t c k, least_of t.cur_min_seq k.least)
  where
    least_of :
        (o : Option ℕ)
        → IsLeast o t.packet_record_map
        → Returns NoFault
            (elim o as (λ x. Result ℕ) [ none ↦ err null_min_seq | some n ↦ ok n ])
            (λ k. (contains k t.packet_record_map ≡ true) × Keys (λ j. k ≤ j) t.packet_record_map)
    least_of none e = absurd (omega (arith, e, length-erase n t.packet_record_map c))
    least_of (some k) l = l

-- In a tracker that a run reaches, if some recorded packet stands in the send queue, then
-- `get_lowest_sendable_seq_no` gives a recorded number no higher than that packet's,
-- `has_sendable_packets` says true, and the tracker that is left is reached, too.
pub Reached-get_lowest_sendable :
    (t : PacketTracker) (n : ℕ)
    → Reached t
    → In n t.send_queue
    → contains n t.packet_record_map ≡ true
    → ((has_sendable_packets t).0 ≡ true)
      × (contains (get_lowest_sendable_seq_no t).0 t.packet_record_map ≡ true)
      × ((get_lowest_sendable_seq_no t).0 ≤ n)
      × Reached (get_lowest_sendable_seq_no t).1
unfolding has_sendable_packets get_lowest_sendable_seq_no purge_sendable
Reached-get_lowest_sendable t n h i c =
    let l =
      drop_unrecorded-IsLowest t.packet_record_map t.send_queue n
        (Reached-IsTracked t h).send_sorted i c in
    (l.0, l.1, l.2, send_purged t h)

-- In a tracker that a run reaches, if some recorded packet stands in the queue of lost ones, then
-- `get_lowest_retransmittable_seq_no` gives a recorded number no higher than that packet's,
-- `has_retransmittable_packets` says true, and the tracker that is left is reached, too.
pub Reached-get_lowest_retransmittable :
    (t : PacketTracker) (n : ℕ)
    → Reached t
    → In n t.retransmittable_queue
    → contains n t.packet_record_map ≡ true
    → ((has_retransmittable_packets t).0 ≡ true)
      × (contains (get_lowest_retransmittable_seq_no t).0 t.packet_record_map ≡ true)
      × ((get_lowest_retransmittable_seq_no t).0 ≤ n)
      × Reached (get_lowest_retransmittable_seq_no t).1
unfolding has_retransmittable_packets get_lowest_retransmittable_seq_no purge_retransmittable
Reached-get_lowest_retransmittable t n h i c =
    let l =
      drop_unrecorded-IsLowest t.packet_record_map t.retransmittable_queue n
        (Reached-IsTracked t h).retransmit_sorted i c in
    (l.0, l.1, l.2, retransmit_purged t h)
