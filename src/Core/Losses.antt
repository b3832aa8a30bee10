-- ===== src/Core/Losses.antt =====
-- core/core.cpp, `add_to_loss_record` and the first loop of `checkTimers`: what they leave of the
-- tracker, and how they fail.
use pcc_uspace.Base.{
  ℕ, zero, suc, Bool, true, false, ◌+◌, ◌-◌, ◌≡◌, refl, List, [], ◌∷◌, ltb, Option-cases, ◌⊎◌, inl,
  inr,
}
use pcc_uspace.Base.Result.{
  ok, Fault, ◌>>=◌, no_message_record, Returns, >>=-Returns, if-Returns, Returns-with,
  Returns-faults,
}
use pcc_uspace.Quic.{AckedPacket, LostPacket}
use pcc_uspace.Quic.Time.{QuicTime, Delta}
use pcc_uspace.Tracker.Maps.{find}
use pcc_uspace.Tracker.Record.{Timespec, elapsed_us, find_message, get_message_record}
use pcc_uspace.Tracker.Defs.{PacketTracker, on_loss}
use pcc_uspace.Tracker.Reads.{
  get_packet_id, get_sent_time, get_last_msg_no, get_oldest_sent_seq_no, has_sent_packets,
}
use pcc_uspace.Tracker.Life.{IsTracked, AnyFault, on_loss-IsTracked}
use pcc_uspace.Tracker.Ready.{IsReady}
use pcc_uspace.Tracker.Messages.{UnknownMessage, NonEmpty, find_message-Returns}
use pcc_uspace.Tracker.Changes.{on_loss-IsReady}
use pcc_uspace.Floats.{Floats}
use pcc_uspace.Core.Controller.{Controller}
use pcc_uspace.Core.Sending.{Cudt, Clocks}
use pcc_uspace.Core.Acks.{
  loss_threshold, mark_losses, add_to_loss_record, expire_oldest, detect_losses,
}
use pcc_uspace.Core.Choice.{IsLive}
use pcc_uspace.Core.Hearing.{unknown-in, get_packet_id-Unknown}

get_sent_time-Unknown :
    (n msg : ℕ) (t : PacketTracker)
    → Returns UnknownMessage (get_sent_time n msg t) (λ time. Unit {0})
unfolding get_sent_time get_message_record
get_sent_time-Unknown n msg t = elim (Option-cases (find n t.packet_record_map)) [
  | inl e ↦ rw (Returns, e) tt
  | inr (r, e) ↦
      rw (Returns, e)
        (>>=-Returns UnknownMessage (find_message msg r.msg_records) _ (λ m. NonEmpty r.msg_records)
          _ (find_message-Returns msg r.msg_records) (λ m x. tt))
]

pub sent_cases :
    (l : List Timespec) → (l ≡ []) ⊎ ((x : Timespec) × (k : List Timespec) × (l ≡ x ∷ k))
sent_cases [] = inl refl
sent_cases (x ∷ l) = inr (x, l, refl)

-- The queue of sent times plays no part in the invariants.
get_oldest-IsLive :
    (t : PacketTracker)
    → IsLive t
    → has_sent_packets t ≡ true
    → (E : Fault → Type 0) → Returns E (get_oldest_sent_seq_no t) (λ r. IsLive r.1)
unfolding get_oldest_sent_seq_no
get_oldest-IsLive t (d, k) h E = elim (sent_cases t.sent_queue) [
  | inl e ↦ let clash : false ≡ true = rw e at h in cc
  | inr (x, l, e) ↦
      rw (Returns, e)
        (
          record {
            distinct = d.distinct;
            range = d.range;
            counted = d.counted;
            least = d.least;
            send_sorted = d.send_sorted;
            retransmit_sorted = d.retransmit_sorted;
          },
          record {
            distinct = k.distinct;
            fits = k.fits;
            fresh = k.fresh;
            unique = k.unique;
            sent = k.sent;
          },
        )
]

module _ (fl : Floats) (c : Controller) (E : Fault → Type 0) (unknown : E no_message_record)
    (event_fine : (updated : Bool) (rtt : Delta) (t : QuicTime) (acked : List AckedPacket)
        (lost : List LostPacket) (s : c.State)
      → Returns E (c.on_congestion_event updated rtt t acked lost s) (λ s'. Unit {0})) where
  open c use {State}

  mark_losses-IsLive :
      (n loss : ℕ) (k : Clocks) (s : Cudt fl State)
      → IsLive s.tracker
      → Returns E (mark_losses fl c n loss k s) (λ x. IsLive x.1.tracker)
  unfolding mark_losses
  mark_losses-IsLive zero loss k s l = l
  mark_losses-IsLive (suc n) loss k s (d, h) =
      let msg = get_last_msg_no loss s.tracker in
      >>=-Returns E (get_packet_id loss msg s.tracker) _ (λ id. Unit {0}) _
        (Returns-faults UnknownMessage E (get_packet_id loss msg s.tracker) _ (unknown-in E unknown)
          (get_packet_id-Unknown loss msg s.tracker))
        λ id x.
          >>=-Returns E (on_loss loss msg k.monotonic s.tracker) _ IsLive _
            (Returns-with AnyFault E (on_loss loss msg k.monotonic s.tracker) IsTracked IsReady
              (on_loss-IsTracked loss msg k.monotonic s.tracker d)
              (Returns-faults UnknownMessage E (on_loss loss msg k.monotonic s.tracker) IsReady
                (unknown-in E unknown) (on_loss-IsReady loss msg k.monotonic s.tracker h)))
            λ t l.
              >>=-Returns E (mark_losses fl c n (loss + 1) k _) _ (λ x. IsLive x.1.tracker) _
                (mark_losses-IsLive n (loss + 1) k _ l) (λ (packets, s') l'. l')

  pub add_to_loss_record-IsLive :
      (loss1 loss2 : ℕ) (k : Clocks) (s : Cudt fl State)
      → IsLive s.tracker
      → Returns E (add_to_loss_record fl c loss1 loss2 k s) (λ s'. IsLive s'.tracker)
  unfolding add_to_loss_record
  add_to_loss_record-IsLive loss1 loss2 k s l =
      >>=-Returns E (mark_losses fl c (loss2 + 1 - loss1) loss1 k s) _ (λ x. IsLive x.1.tracker) _
        (mark_losses-IsLive (loss2 + 1 - loss1) loss1 k s l)
        λ (packets, s') l'.
          >>=-Returns E (c.on_congestion_event false _ _ _ packets s'.sender) _ (λ z. Unit {0}) _
            (event_fine false _ _ _ packets s'.sender) (λ z x. l')

  expire_oldest-IsLive :
      (k : Clocks) (s : Cudt fl State)
      → has_sent_packets s.tracker ≡ true
      → IsLive s.tracker
      → Returns E (expire_oldest fl c k s) (λ x. IsLive x.1.tracker)
  unfolding expire_oldest
  expire_oldest-IsLive k s some_sent l =
      >>=-Returns E (get_oldest_sent_seq_no s.tracker) _ (λ r. IsLive r.1) _
        (get_oldest-IsLive s.tracker l some_sent E)
        λ (n, t) l'.
          if-Returns E (has_sent_packets t) _ _ _
            (λ e.
              >>=-Returns E (get_sent_time n (get_last_msg_no n t) t) _ (λ z. Unit {0}) _
                (Returns-faults UnknownMessage E (get_sent_time n (get_last_msg_no n t) t) _
                  (unknown-in E unknown) (get_sent_time-Unknown n (get_last_msg_no n t) t))
                λ sent x.
                  let s' = record s { tracker = t } in
                  if-Returns E (ltb (loss_threshold fl c s) (elapsed_us sent k.monotonic))
                    (add_to_loss_record fl c n n k s' >>= λ s''. ok (true, s'')) (ok (false, s'))
                    (λ x. IsLive x.1.tracker)
                    (λ late.
                      >>=-Returns E (add_to_loss_record fl c n n k s') _ (λ s''. IsLive s''.tracker)
                        (λ x. IsLive x.1.tracker) (add_to_loss_record-IsLive n n k s' l')
                        (λ s'' l''. l''))
                    (λ early. l'))
            (λ e. l')

  pub detect_losses-IsLive :
      (n : ℕ) (k : Clocks) (s : Cudt fl State)
      → IsLive s.tracker
      → Returns E (detect_losses fl c n k s) (λ s'. IsLive s'.tracker)
  unfolding detect_losses
  detect_losses-IsLive zero k s l = l
  detect_losses-IsLive (suc n) k s l =
      if-Returns E (has_sent_packets s.tracker) _ _ _
        (λ e.
          >>=-Returns E (expire_oldest fl c k s) _ (λ x. IsLive x.1.tracker) _
            (expire_oldest-IsLive k s e l)
            λ (more, s') l'.
              if-Returns E more _ _ _ (λ m. detect_losses-IsLive n k s' l') (λ m. l'))
        (λ e. l)
