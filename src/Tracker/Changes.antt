-- ===== src/Tracker/Changes.antt =====
-- core/packet_tracker.h: sending, acknowledgement, loss and removal keep the queued packets ready.
use mathlib.Core.Path.{subst}
use pcc_uspace.Base.{
  ℕ, Bool, true, false, ◌-◌, ◌≡◌, inl, inr, refl, sym, ◌∙◌, List, [], ◌∷◌, Option, none, some, ◌==◌,
  arith, All, Option-cases,
}
use pcc_uspace.Base.Result.{
  ok, Returns, NoFault, >>=-Returns, check-Returns, Returns-and, not_recorded,
}
use pcc_uspace.Tracker.Maps.{find, contains, erase, update, update-contains, erase-Distinct}
use pcc_uspace.Tracker.Record.{
  PacketState, sent, acked, lost, is_queued, Timespec, Packet, PacketRecord, update_record,
  get_message_record, find_message,
}
use pcc_uspace.Tracker.Defs.{
  PacketTracker, pop, top, delete_packet_record, next_min, take_from_queue, send_recorded, settle,
  on_ack, on_loss,
}
use pcc_uspace.Tracker.Minimum.{IsLeast, next_min-IsLeast}
use pcc_uspace.Tracker.Life.{IsTracked, delete_packet_record-IsTracked}
use pcc_uspace.Tracker.Queues.{push_seq-All}
use pcc_uspace.Tracker.Ready.{
  IsReady, IsFreshAt, IsSentAt, NotFresh, Fits, Unique, Records-find, Records-erase, find-contains,
  contains-find, find-update, find-erase,
}
use pcc_uspace.Tracker.Messages.{
  UnknownMessage, NonEmpty, IsSent, find_message-Returns, update_record-IsSent,
  update_record-settled, Fits-NonEmpty,
}
use pcc_uspace.Tracker.Steps.{fresh-other, SameBut, fresh-moved, sent-moved, update-IsReady}

-- What `on_sent` leaves of the two queues.
abbrev pub Took : Bool → ℕ → PacketTracker → PacketTracker → Type 0
Took true n t t' =
    (t.send_queue ≡ n ∷ t'.send_queue) × (t'.retransmittable_queue ≡ t.retransmittable_queue)
Took false n t t' =
    (t.retransmittable_queue ≡ n ∷ t'.retransmittable_queue) × (t'.send_queue ≡ t.send_queue)

-- The top of the queue that the state names is the packet.
abbrev pub OnTop : Bool → ℕ → PacketTracker → Type 0
OnTop true n t = top t.send_queue ≡ ok n
OnTop false n t = top t.retransmittable_queue ≡ ok n

-- The rest of a queue.
top-pop : (n : ℕ) (l : List ℕ) → top l ≡ ok n → l ≡ n ∷ pop l
unfolding top pop
top-pop n [] e = cc
top-pop n (k ∷ l) e = ground (arith, e)

All-tail : (P : ℕ → Type 0) (n : ℕ) (l k : List ℕ) → l ≡ n ∷ k → All P l → P n × All P k
All-tail P n l k e h = subst (All P) e h

-- The packet is recorded with a message of the number.
abbrev pub HasMessage : ℕ → ℕ → PacketTracker → Type 0
HasMessage n msg t = (r : PacketRecord) × (find n t.packet_record_map ≡ some r) × IsSent msg r

abbrev taken : Bool → PacketTracker → PacketTracker
taken true t = record t { send_queue = pop t.send_queue }
taken false t = record t { retransmittable_queue = pop t.retransmittable_queue }

take_from_queue-taken :
    (b : Bool) (n : ℕ) (t : PacketTracker) → OnTop b n t → take_from_queue b n t ≡ ok (taken b t)
unfolding take_from_queue
take_from_queue-taken true n t o = let e : (n == n) ≡ true = ground arith in rw (o, e) refl
take_from_queue-taken false n t o = let e : (n == n) ≡ true = ground arith in rw (o, e) refl

taken-IsReady :
    (b : Bool) (n : ℕ) (r r' : PacketRecord) (id : ℕ) (times : List Timespec)
    (map : List (Timespec × ℕ)) (t : PacketTracker)
    → find n t.packet_record_map ≡ some r
    → is_queued r.packet_state ≡ b
    → is_queued r'.packet_state ≡ false
    → OnTop b n t
    → IsReady t
    → let t' = record (taken b t) {
      prev_packet_id = id;
      packet_record_map = update n r' (taken b t).packet_record_map;
      sent_queue = times;
      sent_time_map = map;
    } in
      IsReady t' × Took b n t t' × (find n t'.packet_record_map ≡ some r')
taken-IsReady true n r r' id times map t f q s o k =
    let e = top-pop n t.send_queue o in
    let u : Unique (n ∷ pop t.send_queue) = subst Unique e k.unique in
    let h = All-tail (IsFreshAt t.packet_record_map) n t.send_queue _ e k.fresh in
    (
      update-IsReady n r' (pop t.send_queue) t.retransmittable_queue id times map t
          (find-contains n r t.packet_record_map f) s k.distinct k.fits u.0 h.1 u.1 k.sent,
      (e, refl),
      ground
          (arith, find-update n n r' t.packet_record_map (find-contains n r t.packet_record_map f)),
    )
taken-IsReady false n r r' id times map t f q s o k =
    let e = top-pop n t.retransmittable_queue o in
    let h = All-tail (IsSentAt t.packet_record_map) n t.retransmittable_queue _ e k.sent in
    let d = fresh-other t.packet_record_map n t.send_queue (subst NotFresh (sym f) q) k.fresh in
    (
      update-IsReady n r' t.send_queue (pop t.retransmittable_queue) id times map t
          (find-contains n r t.packet_record_map f) s k.distinct k.fits d k.fresh k.unique h.1,
      (e, refl),
      ground
          (arith, find-update n n r' t.packet_record_map (find-contains n r t.packet_record_map f)),
    )

-- A recorded packet that stands on top of its queue is sent with no fault, and all is ready behind.
pub send_recorded-IsReady :
    (r : PacketRecord) (p : Packet) (now : Timespec) (t : PacketTracker)
    → find p.seq_no t.packet_record_map ≡ some r
    → OnTop (is_queued r.packet_state) p.seq_no t
    → IsReady t
    → Returns NoFault (send_recorded (some r) p now t) (λ t'.
      IsReady t' × Took (is_queued r.packet_state) p.seq_no t t' × HasMessage p.seq_no p.msg_no t')
unfolding send_recorded
send_recorded-IsReady r p now t f o k =
    rw (take_from_queue-taken (is_queued r.packet_state) p.seq_no t o) (
      >>=-Returns NoFault (update_record sent p.msg_no _ now r) _ (IsSent p.msg_no) _
        (update_record-IsSent p.msg_no _ now r)
        λ r' s.
          >>=-Returns NoFault (get_message_record p.msg_no r') _ (λ g. Unit {0}) _ s.1
            λ g z.
              let (h, took, here) =
                taken-IsReady (is_queued r.packet_state) p.seq_no r r' _ _ _ t f refl s.0 o k in
              (h, took, (r', here, s)))

-- An acknowledgement or a loss of a message that was sent.
settle-IsReady :
    (st : PacketState) (r : PacketRecord) (n msg : ℕ) (now : Timespec) (t : PacketTracker)
    → is_queued st ≡ false
    → find n t.packet_record_map ≡ some r
    → IsReady t
    → Returns UnknownMessage (settle st r n msg now t) (λ t'.
      IsReady t' × IsSentAt t'.packet_record_map n × (contains n t'.packet_record_map ≡ true))
unfolding settle get_message_record
settle-IsReady st r n msg now t s f k =
    >>=-Returns UnknownMessage (find_message msg r.msg_records) _ (λ g. NonEmpty r.msg_records) _
      (find_message-Returns msg r.msg_records)
      λ g h.
        let q = Fits-NonEmpty r (Records-find Fits n r t.packet_record_map k.fits f) h in
        >>=-Returns UnknownMessage (update_record st msg 0 now r) _
          (λ r'. is_queued r'.packet_state ≡ false) _ (update_record-settled st msg now r s q h)
          λ r' z.
            let m = t.packet_record_map in
            let c = find-contains n r m f in
            let here : find n (update n r' m) ≡ some r' = ground (arith, find-update n n r' m c) in
            let d = fresh-other m n t.send_queue (subst NotFresh (sym f) q) k.fresh in
            (
              update-IsReady n r' t.send_queue t.retransmittable_queue _ _ _ t c z k.distinct k.fits
                  d k.fresh k.unique k.sent,
              subst NotFresh (sym here) z,
              update-contains n n r' m ∙ c,
            )

-- An acknowledgement fails at most on a message that was not sent.
pub on_ack-IsReady :
    (n msg : ℕ) (now : Timespec) (t : PacketTracker)
    → contains n t.packet_record_map ≡ true
    → IsReady t
    → Returns UnknownMessage (on_ack n msg now t) (λ t'.
      IsReady t' × IsSentAt t'.packet_record_map n × (contains n t'.packet_record_map ≡ true))
unfolding on_ack
on_ack-IsReady n msg now t c k = elim (Option-cases (find n t.packet_record_map)) [
  | inl e ↦ absurd (contains-find n t.packet_record_map c e)
  | inr (r, e) ↦ rw (Returns, e) (settle-IsReady acked r n msg now t refl e k)
]

-- A loss, which queues the packet again.
pub on_loss-IsReady :
    (n msg : ℕ) (now : Timespec) (t : PacketTracker)
    → IsReady t
    → Returns UnknownMessage (on_loss n msg now t) IsReady
unfolding on_loss
on_loss-IsReady n msg now t k = elim (Option-cases (find n t.packet_record_map)) [
  | inl e ↦ rw (Returns, e) k
  | inr (r, e) ↦
      rw (Returns, e)
        (>>=-Returns UnknownMessage (settle lost r n msg now t) _
          (λ t'.
            IsReady t' × IsSentAt t'.packet_record_map n × (contains n t'.packet_record_map ≡ true))
          IsReady (settle-IsReady lost r n msg now t refl e k)
          λ t' (h, s, c). record {
            distinct = h.distinct;
            fits = h.fits;
            fresh = h.fresh;
            unique = h.unique;
            sent = push_seq-All (IsSentAt t'.packet_record_map) n t'.retransmittable_queue s h.sent;
          })
]

-- The record of a packet that was sent is removed.
pub erase-IsReady :
    (n num : ℕ) (least : Option ℕ) (t : PacketTracker)
    → IsSentAt t.packet_record_map n
    → IsReady t
    → IsReady (record t {
      packet_record_map = erase n t.packet_record_map;
      cur_num_packets = num;
      cur_min_seq = least;
    })
erase-IsReady n num least t s k =
    let m = t.packet_record_map in
    let same : SameBut n m (erase n m) = λ j ne. ground (arith, find-erase n j m k.distinct) in
    let gone : find n (erase n m) ≡ none = ground (arith, find-erase n n m k.distinct) in
    record {
      distinct = erase-Distinct n m k.distinct;
      fits = Records-erase Fits n m k.fits;
      fresh =
          fresh-moved n m (erase n m) same t.send_queue (fresh-other m n t.send_queue s k.fresh)
            k.fresh;
      unique = k.unique;
      sent =
          sent-moved n m (erase n m) same (subst NotFresh (sym gone) tt) t.retransmittable_queue
            k.sent;
    }

pub delete_packet_record-IsReady :
    (n : ℕ) (t : PacketTracker)
    → contains n t.packet_record_map ≡ true
    → IsSentAt t.packet_record_map n
    → IsTracked t
    → IsReady t
    → Returns NoFault (delete_packet_record n t) (λ r. IsTracked r.1 × IsReady r.1)
unfolding delete_packet_record
delete_packet_record-IsReady n t c s d k =
    Returns-and NoFault (delete_packet_record n t) (λ r. IsTracked r.1) (λ r. IsReady r.1)
      (delete_packet_record-IsTracked n t c d)
      (check-Returns NoFault (contains n t.packet_record_map) not_recorded _ _ c (
        >>=-Returns NoFault
          (next_min t.cur_min_seq n (t.cur_num_packets - 1) (erase n t.packet_record_map)) _
          (λ o. IsLeast o (erase n t.packet_record_map)) _
          (rw d.counted
            (next_min-IsLeast t.cur_min_seq n t.packet_record_map d.distinct d.range c d.least))
          λ o l. erase-IsReady n (t.cur_num_packets - 1) o t s k))
