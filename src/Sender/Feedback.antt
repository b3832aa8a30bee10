-- ===== src/Sender/Feedback.antt =====
-- `PccSender::OnCongestionEvent`, whole, on connections with the sender's invariant: the RTT part,
-- the early way into PROBING, and the queue's part.
use mathlib.Core.Path.{subst}
use pcc_uspace.Base.{Bool, true, false, ◌≡◌, ap, sym, ◌∙◌, inl, inr, List, arith, Bool-cases}
use pcc_uspace.Base.Int.{neg_part}
use pcc_uspace.Base.Result.{ok, ◌>>=◌, Returns, >>=-Returns, Returns-mono, if-Returns}
use pcc_uspace.Floats.{Floats}
use pcc_uspace.Quic.{AckedPacket, LostPacket}
use pcc_uspace.Quic.Time.{QuicTime, Delta, is_zero}
use pcc_uspace.IntervalQueue.Defs.{IntervalQueue, on_rtt_inflation_in_starting}
use pcc_uspace.IntervalQueue.Event.{CongestionEvent, on_congestion_event}
use pcc_uspace.IntervalQueue.Updates.{on_rtt_inflation-IsCounted}
use pcc_uspace.IntervalQueue.Delivery.{Accepts, Concluded, on_congestion_event-Concluded}
use pcc_uspace.Utility.{UtilityFunction, settings, Provided}
use pcc_uspace.Sender.State.{Sender, probing, is_starting, num_interval_groups_in_probing}
use pcc_uspace.Sender.Rates.{enter_probing}
use pcc_uspace.Sender.Moves.{allowed, MovesTo, enter_probing-Returns}
use pcc_uspace.Sender.Decisions.{RatesEqual, Moved, to_same, to_probing}
use pcc_uspace.Sender.Events.{
  Connection, on_utility_available, max_num_useful, take_rtt, first_rtt, inflated_in_starting,
  receive_feedback,
}
use pcc_uspace.Sender.Soundness.{RoundsWell, IsSound, on_utility_available-Moved}
use pcc_uspace.Sender.Refresh.{
  Refreshed, SameState, first_rtt-Refreshed, take_rtt-Refreshed, inflated_in_starting-Returns,
}

module _ (fl : Floats) (u : UtilityFunction fl.F32) where
  open fl use {F32}
  open u use {Statistics}

  -- What an event does to a connection: the invariant holds and the move is allowed.
  abbrev pub Advanced : Connection fl u → Connection fl u → Type 0
  Advanced c c' = IsSound fl u c' × (allowed c.1.variant c.1.mode c'.1.mode ≡ true)

  -- A queue and a sender whose RTT estimates were refreshed still make up a sound connection.
  Refreshed-IsSound :
      (q : IntervalQueue F32) (s s1 s2 : Sender F32 Statistics)
      → IsSound fl u (q, s)
      → Refreshed fl u s s1
      → SameState fl u s1 s2
      → IsSound fl u (q, s2)
  unfolding max_num_useful num_interval_groups_in_probing
  Refreshed-IsSound q s s1 s2 c r k = record {
    queue = c.queue;
    bound = rw (k.mode ∙ r.mode, k.manager ∙ r.manager) c.bound;
    nonneg = rw k.avg_rtt r.nonneg;
    provided = subst (λ m. Provided u (settings m)) (sym (k.manager ∙ r.manager)) c.provided;
    known = λ z.
        let (za, zl) = r.known (ap is_zero (sym k.avg_rtt) ∙ z) in
        (
          ap is_starting (k.mode ∙ r.mode) ∙ (c.known za).0,
          (c.known za).1,
          ap is_zero k.latest_rtt ∙ zl,
        );
  }

  -- The early way into PROBING.
  abandon-Advanced :
      (q : IntervalQueue F32) (s : Sender F32 Statistics)
      → IsSound fl u (q, s)
      → is_zero s.avg_rtt ≡ false
      → is_starting s.mode ≡ true
      → Returns RatesEqual
          (do let q' = on_rtt_inflation_in_starting q; s' ← enter_probing fl q' s; ok (q', s'))
          (Advanced (q, s))
  unfolding on_rtt_inflation_in_starting
  abandon-Advanced q s c z m =
      let q' = on_rtt_inflation_in_starting q in
      >>=-Returns RatesEqual (enter_probing fl q' s) _ (MovesTo probing s) _
        (enter_probing-Returns fl RatesEqual q' s (λ e. absurd (ground arith)))
        λ s' k. (
          record {
            queue = on_rtt_inflation-IsCounted q;
            bound = omega arith;
            nonneg = rw k.0.avg_rtt c.nonneg;
            provided = subst (Provided u) (sym k.0.settings) c.provided;
            known = λ e. absurd (ground (arith, ap is_zero k.0.avg_rtt));
          },
          to_probing s.variant s.mode s'.mode k.1,
        )

  -- The queue's part of the event.
  module _ (q : IntervalQueue F32) (s : Sender F32 Statistics) (e : CongestionEvent)
      (c : IsSound fl u (q, s)) where
    abbrev Delivered : Sender F32 Statistics → Type 0
    Delivered s' = Moved fl u s s' × (is_zero s.avg_rtt ≡ false)

    sender-Accepts : Accepts fl (on_utility_available fl u) RatesEqual Delivered e q s
    sender-Accepts q' useful n d =
        Returns-mono RatesEqual (on_utility_available fl u q' useful e.event_time s) (Moved fl u s)
          Delivered (λ s' k. (k, rtt_known))
          (on_utility_available-Moved fl u q' useful e.event_time s c.provided
            (omega (arith, n, c.bound)) d)
      where
        rtt_known : is_zero s.avg_rtt ≡ false
        rtt_known = elim (Bool-cases (is_zero s.avg_rtt)) [
          | inl z ↦ absurd (omega (arith, n, (c.known z).1, d.counted, d.some_useful))
          | inr z ↦ z
        ]

    Concluded-Advanced :
        (c' : Connection fl u)
        → Concluded fl (on_utility_available fl u) RatesEqual Delivered e q s c'
        → Advanced (q, s) c'
    Concluded-Advanced (q', s') (k, inl (same, n)) = rw same (
      record {
        queue = k;
        bound = omega (arith, n, c.bound);
        nonneg = c.nonneg;
        provided = c.provided;
        known = λ z. ((c.known z).0, omega (arith, n, (c.known z).1), (c.known z).2);
      },
      to_same s.variant s.mode,
    )
    Concluded-Advanced (q', s') (k, inr ((m, z), n)) = (
      record {
        queue = k;
        bound = omega (arith, n);
        nonneg = rw m.0.avg_rtt c.nonneg;
        provided = subst (Provided u) (sym m.0.settings) c.provided;
        known = λ e. absurd (ground (arith, ap is_zero m.0.avg_rtt));
      },
      m.1,
    )

    deliver-Advanced :
        Returns RatesEqual
          (on_congestion_event fl (on_utility_available fl u) e q s)
          (Advanced (q, s))
    deliver-Advanced =
        Returns-mono RatesEqual (on_congestion_event fl (on_utility_available fl u) e q s)
          (Concluded fl (on_utility_available fl u) RatesEqual Delivered e q s) (Advanced (q, s))
          Concluded-Advanced
          (on_congestion_event-Concluded fl (on_utility_available fl u) RatesEqual Delivered e q s
            c.queue sender-Accepts)

  advance_trans :
      (q : IntervalQueue F32) (s s1 s2 : Sender F32 Statistics) (c' : Connection fl u)
      → Refreshed fl u s s1
      → SameState fl u s1 s2
      → Advanced (q, s2) c'
      → Advanced (q, s) c'
  advance_trans q s s1 s2 c' r k a = (a.0, rw (← (k.variant ∙ r.variant), ← (k.mode ∙ r.mode)) a.1)

  -- If rounding is as `RoundsWell` says and the RTT of the event is not negative, then feedback to
  -- a sound connection, whose tag has its parameters, fails no check but the one on two equal
  -- sending rates, leaves a sound connection, and moves between modes as `allowed` lists.
  pub receive_feedback-Advanced :
      RoundsWell fl
      → (updated : Bool) (rtt : Delta) (t : QuicTime) (acked : List AckedPacket)
        (lost : List LostPacket) (c : Connection fl u)
      → neg_part rtt ≡ 0
      → IsSound fl u c
      → Returns RatesEqual (receive_feedback fl u updated rtt t acked lost c) (Advanced c)
  unfolding receive_feedback
  receive_feedback-Advanced w updated rtt t acked lost (q, s) h c =
      let s1 = first_rtt fl u (take_rtt fl u updated rtt t s).1 in
      let r =
        first_rtt-Refreshed fl u s (take_rtt fl u updated rtt t s).1
          (take_rtt-Refreshed fl u w updated rtt t (q, s) h c) in
      >>=-Returns RatesEqual (inflated_in_starting fl u (q, s1)) _
        (λ x.
          SameState fl u s1 x.1
          × (x.0 ≡ true → (is_zero s1.avg_rtt ≡ false) × (is_starting s1.mode ≡ true)))
        _ (inflated_in_starting-Returns fl u q s1 (λ z. (r.known z).1))
        λ x k.
          Returns-mono RatesEqual _ (Advanced (q, x.1)) (Advanced (q, s))
            (λ c' a. advance_trans q s s1 x.1 c' r k.0 a)
            (if-Returns RatesEqual x.0 _ _ (Advanced (q, x.1))
              (λ e.
                abandon-Advanced q x.1 (Refreshed-IsSound q s s1 x.1 c r k.0)
                  (ap is_zero k.0.avg_rtt ∙ (k.1 e).0) (ap is_starting k.0.mode ∙ (k.1 e).1))
              (λ e.
                deliver-Advanced q x.1
                  (record {
                    acked_packets = acked;
                    lost_packets = lost;
                    avg_rtt = x.1.avg_rtt;
                    latest_rtt = x.1.latest_rtt;
                    min_rtt = x.1.min_rtt;
                    event_time = t;
                    ack_interval = (take_rtt fl u updated rtt t s).0;
                  })
                  (Refreshed-IsSound q s s1 x.1 c r k.0)))
