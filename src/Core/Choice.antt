-- ===== src/Core/Choice.antt =====
-- core/core.cpp, `packData`: the packet that it chooses stands on top of its queue and is recorded.
use mathlib.Core.Path.{subst}
use pcc_uspace.Base.{
  ℕ, true, false, ◌≡◌, refl, sym, ap, List, [], ◌∷◌, Option, none, some, arith, All, Bool-cases,
  Option-cases, inl, inr, if◌then◌else◌,
}
use pcc_uspace.Base.Int.{pos, ◌+ℤ◌}
use pcc_uspace.Base.Result.{ok}
use pcc_uspace.Tracker.Maps.{find}
use pcc_uspace.Tracker.Record.{PacketRecord, is_queued, packet_size}
use pcc_uspace.Tracker.Defs.{PacketTracker, top}
use pcc_uspace.Tracker.Queues.{drop_unrecorded-Sorted}
use pcc_uspace.Tracker.Reads.{
  has_top, top_or_zero, drop_unrecorded, purge_sendable, purge_retransmittable,
  has_sendable_packets, get_lowest_sendable_seq_no, has_retransmittable_packets,
  get_lowest_retransmittable_seq_no, get_packet_size,
}
use pcc_uspace.Tracker.Life.{IsTracked}
use pcc_uspace.Tracker.Ready.{IsReady, IsFreshAt, IsSentAt, NotFresh, contains-find}
use pcc_uspace.Tracker.Purging.{
  drop_unrecorded-All, drop_unrecorded-Unique, drop_unrecorded_twice, top-drop_unrecorded,
}
use pcc_uspace.Tracker.Changes.{OnTop}
use pcc_uspace.Floats.{Floats}
use pcc_uspace.Core.Controller.{Controller}
use pcc_uspace.Core.Sending.{Cudt, choose_packet}

top-All : (P : ℕ → Type 0) (n : ℕ) (l : List ℕ) → top l ≡ ok n → All P l → P n
unfolding top
top-All P n [] o h = cc
top-All P n (k ∷ l) o h = let e : k ≡ n = ground (arith, o) in subst P e h.0

-- Both invariants of the tracker.
abbrev pub IsLive : PacketTracker → Type 0
IsLive t = IsTracked t × IsReady t

purge_retransmittable-IsLive : (t : PacketTracker) → IsLive t → IsLive (purge_retransmittable t)
unfolding purge_retransmittable
purge_retransmittable-IsLive t (d, k) =
    let m = t.packet_record_map in
    let l = t.retransmittable_queue in
    (
      record {
        distinct = d.distinct;
        range = d.range;
        counted = d.counted;
        least = d.least;
        send_sorted = d.send_sorted;
        retransmit_sorted = drop_unrecorded-Sorted m l d.retransmit_sorted;
      },
      record {
        distinct = k.distinct;
        fits = k.fits;
        fresh = k.fresh;
        unique = k.unique;
        sent = drop_unrecorded-All m (IsSentAt m) l k.sent;
      },
    )

purge_sendable-IsLive : (t : PacketTracker) → IsLive t → IsLive (purge_sendable t)
unfolding purge_sendable
purge_sendable-IsLive t (d, k) =
    let m = t.packet_record_map in
    let l = t.send_queue in
    (
      record {
        distinct = d.distinct;
        range = d.range;
        counted = d.counted;
        least = d.least;
        send_sorted = drop_unrecorded-Sorted m l d.send_sorted;
        retransmit_sorted = d.retransmit_sorted;
      },
      record {
        distinct = k.distinct;
        fits = k.fits;
        fresh = drop_unrecorded-All m (IsFreshAt m) l k.fresh;
        unique = drop_unrecorded-Unique m l k.unique;
        sent = k.sent;
      },
    )

-- The numbers in the queues, as the two purges leave them.
lost-choice :
    (t : PacketTracker)
    → IsLive t
    → has_top (purge_retransmittable t).retransmittable_queue ≡ true
    → let t1 = purge_retransmittable t in
      let n = top_or_zero t1.retransmittable_queue in
      (r : PacketRecord) × (find n t1.packet_record_map ≡ some r)
      × (is_queued r.packet_state ≡ false)
      × (top t1.retransmittable_queue ≡ ok n)
unfolding purge_retransmittable
lost-choice t k h =
    let m = t.packet_record_map in
    let (o, c) = top-drop_unrecorded m t.retransmittable_queue h in
    let n = top_or_zero (drop_unrecorded m t.retransmittable_queue) in
    elim (Option-cases (find n m)) [
      | inl e ↦ absurd (contains-find n m c e)
      | inr (r, e) ↦ (
        r,
        e,
        subst NotFresh e (
            top-All (IsSentAt m) n (drop_unrecorded m t.retransmittable_queue) o
              (drop_unrecorded-All m (IsSentAt m) t.retransmittable_queue k.1.sent)),
        o,
      )
    ]

new-choice :
    (t : PacketTracker)
    → IsLive t
    → has_top (purge_sendable t).send_queue ≡ true
    → let t1 = purge_sendable t in
      let n = top_or_zero t1.send_queue in
      (r : PacketRecord) × (find n t1.packet_record_map ≡ some r)
      × (is_queued r.packet_state ≡ true)
      × (top t1.send_queue ≡ ok n)
unfolding purge_sendable
new-choice t k h =
    let m = t.packet_record_map in
    let (o, c) = top-drop_unrecorded m t.send_queue h in
    let (r, f, (q, e)) =
      top-All (IsFreshAt m) (top_or_zero (drop_unrecorded m t.send_queue))
        (drop_unrecorded m t.send_queue) o
        (drop_unrecorded-All m (IsFreshAt m) t.send_queue k.1.fresh) in
    (r, f, q, o)

get_packet_size-find :
    (n : ℕ) (r : PacketRecord) (t : PacketTracker)
    → find n t.packet_record_map ≡ some r
    → get_packet_size n t ≡ packet_size r
unfolding get_packet_size
get_packet_size-find n r t e = rw (e, get_packet_size) refl

-- What `choose_packet` gives: none, or a recorded packet on top of its queue, whose bytes are in
-- flight from now on if it was never sent.
abbrev pub Chosen : {fl : Floats} {S : Type 0} → Cudt fl S → Option ℕ × Cudt fl S → Type 0
Chosen s (none, s') =
    IsLive s'.tracker
    × (s'.tracker.packet_record_map ≡ s.tracker.packet_record_map)
    × (s'.bytes_in_flight ≡ s.bytes_in_flight)
Chosen s (some n, s') =
    IsLive s'.tracker
    × (s'.tracker.packet_record_map ≡ s.tracker.packet_record_map)
    × ((r : PacketRecord) × (find n s.tracker.packet_record_map ≡ some r)
        × OnTop (is_queued r.packet_state) n s'.tracker
        × (s'.bytes_in_flight ≡ (
            if is_queued r.packet_state
            then s.bytes_in_flight +ℤ pos (packet_size r)
            else s.bytes_in_flight)))

module _ (fl : Floats) (c : Controller) where
  open c use {State}

  pub choose_packet-Chosen :
      (s : Cudt fl State) → IsLive s.tracker → Chosen s (choose_packet fl c s)
  unfolding choose_packet has_retransmittable_packets get_lowest_retransmittable_seq_no
      has_sendable_packets get_lowest_sendable_seq_no purge_retransmittable purge_sendable
  choose_packet-Chosen s k =
      let t1 = purge_retransmittable s.tracker in
      let k1 = purge_retransmittable-IsLive s.tracker k in
      let t3 = purge_sendable t1 in
      let k3 = purge_sendable-IsLive t1 k1 in
      elim (Bool-cases (has_top t1.retransmittable_queue)) [
        | inl some_lost ↦ rw some_lost (
            rw (drop_unrecorded_twice s.tracker.packet_record_map s.tracker.retransmittable_queue) (
              let (r, e, q, o) = lost-choice s.tracker k some_lost in
              (
                k1,
                refl,
                (
                  r,
                  e,
                  subst (λ b. OnTop b (top_or_zero t1.retransmittable_queue) t1) (sym q) o,
                  rw q refl,
                ),
              )))
        | inr no_lost ↦ elim (Bool-cases (has_top t3.send_queue)) [
          | inl some_new ↦
              rw (no_lost, some_new)
                (rw (drop_unrecorded_twice s.tracker.packet_record_map s.tracker.send_queue) (
                  let (r, e, q, o) = new-choice t1 k1 some_new in
                  (
                    k3,
                    refl,
                    (
                      r,
                      e,
                      subst (λ b. OnTop b (top_or_zero t3.send_queue) t3) (sym q) o,
                      rw q (ap (λ z. s.bytes_in_flight +ℤ pos z) (get_packet_size-find _ r t3 e)),
                    ),
                  )))
          | inr no_new ↦ rw (no_lost, no_new) (k3, refl, refl)
        ]
      ]
