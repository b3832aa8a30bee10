-- ===== src/Sender/Sending.antt =====
-- `PccSender::OnPacketSent`, whole, on connections with the sender's invariant.
use mathlib.Core.Path.{subst}
use pcc_uspace.Base.{
  ◌||◌, ℕ, Bool, true, false, not, ◌<◌, ◌≡◌, refl, ap, sym, ◌∙◌, [], ◌∷◌, ◌==◌, All, arith,
  if◌then◌else◌,
}
use pcc_uspace.Base.Result.{Returns-and, Fault, Result, ok, ◌>>=◌, Returns, >>=-Returns, if-Returns}
use pcc_uspace.Floats.{Floats}
use pcc_uspace.Base.Int.{◌-ℤ◌}
use pcc_uspace.Quic.Time.{time_lt, QuicTime, Delta, is_zero, is_initialized, scale_delta}
use pcc_uspace.Quic.Bandwidth.{QuicBandwidth, u64}
use pcc_uspace.IntervalQueue.Defs.{
  MonitorInterval, IntervalQueue, is_empty, empty, current, extend_current_interval, on_packet_sent,
  enqueue_new_monitor_interval, new_interval,
}
use pcc_uspace.IntervalQueue.Counts.{IsCounted}
use pcc_uspace.IntervalQueue.Updates.{
  last_of-Returns, All-append, All-update_back, Unsettled, enqueue-IsCounted,
  on_packet_sent-IsCounted, extend-Returns,
}
use pcc_uspace.Utility.{UtilityFunction, settings, Provided}
use pcc_uspace.Sender.State.{Sender, SenderMode, is_starting, num_interval_groups_in_probing}
use pcc_uspace.Sender.Rates.{maybe_set_sending_rate}
use pcc_uspace.Sender.Events.{
  Connection, max_num_useful, create_useful_interval, is_reliable_interval, create_behind,
  create_new_interval, open_interval, start_clock, send_packet,
}
use pcc_uspace.Sender.Soundness.{IsSound}
use pcc_uspace.Sender.Steering.{
  SameControl, maybe_set_sending_rate-SameControl, create_useful_interval-Returns,
}

module _ (fl : Floats) (u : UtilityFunction fl.F32) (E : Fault → Type 0) where
  open fl use {F32}
  open u use {Statistics}

  -- A sound connection whose intervals can each take one more packet, in the mode `m`.
  record CanTake (bytes : ℕ) (m : SenderMode) (c : Connection fl u) : Type 0 where
    sound : IsSound fl u c
    room : All (Unsettled bytes) c.0.monitor_intervals
    same_mode : c.1.mode ≡ m

  extend-CanTake :
      (bytes : ℕ) (m : SenderMode) (d : Delta) (q : IntervalQueue F32) (s : Sender F32 Statistics)
      → is_empty q.monitor_intervals ≡ false
      → CanTake bytes m (q, s)
      → Returns {A = Bool × Connection fl u} E
          (do q' ← extend_current_interval q; ok (false, (q', record s { monitor_duration = d })))
          (λ r. CanTake bytes m r.1)
  unfolding max_num_useful num_interval_groups_in_probing extend_current_interval
  extend-CanTake bytes m d q s e k =
      >>=-Returns E (extend_current_interval q) _
        (λ q'.
          (IsCounted q' × (q'.num_useful_intervals ≡ q.num_useful_intervals))
          × All (Unsettled bytes) q'.monitor_intervals)
        _ (extended q e k)
        λ q' x. record {
          sound = record {
            queue = x.0.0;
            bound = rw x.0.1 k.sound.bound;
            nonneg = k.sound.nonneg;
            provided = k.sound.provided;
            known = λ z. ((k.sound.known z).0, x.0.1 ∙ (k.sound.known z).1, (k.sound.known z).2);
          };
          room = x.1;
          same_mode = k.same_mode;
        }
    where
      extended :
          (q : IntervalQueue F32)
          → is_empty q.monitor_intervals ≡ false
          → CanTake bytes m (q, s)
          → Returns E (extend_current_interval q) (λ q'.
            (IsCounted q' × (q'.num_useful_intervals ≡ q.num_useful_intervals))
            × All (Unsettled bytes) q'.monitor_intervals)
      extended q e k =
          Returns-and E (extend_current_interval q) _ _ (extend-Returns E q e k.sound.queue) (
            rw e (
              All-update_back (λ i. record i { is_monitor_duration_extended = true })
                (Unsettled bytes) (Unsettled bytes) (λ i h. h) (λ i h. h) q.monitor_intervals
                k.room))

  keep_or-CanTake :
      (bytes : ℕ) (m : SenderMode) (c : Connection fl u) (b r : Bool)
      (n : Result (Bool × Connection fl u))
      → CanTake bytes m c
      → Returns E n (λ x. CanTake bytes m x.1)
      → Returns E (if b then ok (r, c) else n) (λ x. CanTake bytes m x.1)
  keep_or-CanTake bytes m c true r n k h = k
  keep_or-CanTake bytes m c false r n k h = h

  create_behind-CanTake :
      (bytes : ℕ) (m : SenderMode) (i : MonitorInterval F32) (t : QuicTime) (c : Connection fl u)
      → is_empty c.0.monitor_intervals ≡ false
      → CanTake bytes m c
      → Returns E (create_behind fl u i t c) (λ r. CanTake bytes m r.1)
  unfolding create_behind
  create_behind-CanTake bytes m i t (q, s) e k =
      let d = scale_delta fl s.monitor_duration (fl.literal64 2 0) in
      let extend : Result (Bool × Connection fl u) = (do
        q' ← extend_current_interval q
        ok (false, (q', record s { monitor_duration = d }))) in
      let last : Result (Bool × Connection fl u) =
        if i.is_monitor_duration_extended then ok (true, (q, s)) else extend in
      let reliable : Result (Bool × Connection fl u) =
        if is_reliable_interval fl u i then ok (true, (q, s)) else last in
      let early =
        not i.has_enough_reliable_rtt
        || time_lt (t -ℤ i.first_packet_sent_time) s.monitor_duration in
      keep_or-CanTake bytes m (q, s) (not i.is_useful) false
        (if early then ok (false, (q, s)) else reliable) k
        (keep_or-CanTake bytes m (q, s) early false reliable k
          (keep_or-CanTake bytes m (q, s) (is_reliable_interval fl u i) true last k
            (keep_or-CanTake bytes m (q, s) i.is_monitor_duration_extended true extend k
              (extend-CanTake bytes m d q s e k))))

  create_new_interval-CanTake :
      (bytes : ℕ) (m : SenderMode) (t : QuicTime) (c : Connection fl u)
      → CanTake bytes m c
      → Returns E (create_new_interval fl u t c) (λ r. CanTake bytes m r.1)
  unfolding create_new_interval empty current
  create_new_interval-CanTake bytes m t (q, s) k =
      if-Returns E (empty q) (ok (true, (q, s))) _ _ (λ h. k)
        λ ne.
          if-Returns E (is_zero s.latest_rtt) (ok (false, (q, s))) _ _ (λ h. k)
            λ h.
              if-Returns E (q.num_useful_intervals == 0) (ok (true, (q, s))) _ _ (λ h. k)
                λ h.
                  >>=-Returns E (current q) _ (λ i. Unit {0}) _
                    (last_of-Returns E q.monitor_intervals ne)
                    λ i t'. create_behind-CanTake bytes m i t (q, s) ne k

  -- The interval that is added is useful only where there is room for it.
  opened-CanTake :
      (bytes : ℕ) (m : SenderMode) (rate : QuicBandwidth) (useful : Bool) (ratio : F32)
      (rtt : Delta) (q : IntervalQueue F32) (s s' : Sender F32 Statistics)
      → bytes < u64
      → SameControl fl u E s s'
      → CanTake bytes m (q, s)
      → (useful ≡ true
          → (is_zero s'.avg_rtt ≡ false) × (q.num_useful_intervals < max_num_useful fl u s'))
      → CanTake bytes m (enqueue_new_monitor_interval rate useful ratio rtt q, s')
  unfolding enqueue_new_monitor_interval max_num_useful num_interval_groups_in_probing new_interval
  opened-CanTake bytes m rate true ratio rtt q s s' h r k b = record {
    sound = record {
      queue = enqueue-IsCounted rate true ratio rtt q k.sound.queue;
      bound = ground (arith, (b refl).1);
      nonneg = rw r.avg_rtt k.sound.nonneg;
      provided = subst (λ m. Provided u (settings m)) (sym r.manager) k.sound.provided;
      known = λ z. absurd (ground (arith, (b refl).0));
    };
    room =
        All-append (Unsettled bytes) q.monitor_intervals (new_interval rate true ratio rtt ∷ [])
          k.room ((omega arith, omega arith), tt);
    same_mode = r.mode ∙ k.same_mode;
  }
  opened-CanTake bytes m rate false ratio rtt q s s' h r k b = record {
    sound = record {
      queue = enqueue-IsCounted rate false ratio rtt q k.sound.queue;
      bound = rw (r.mode, r.manager) k.sound.bound;
      nonneg = rw r.avg_rtt k.sound.nonneg;
      provided = subst (λ m. Provided u (settings m)) (sym r.manager) k.sound.provided;
      known = λ z.
          let y = k.sound.known (ap is_zero (sym r.avg_rtt) ∙ z) in
          (ap is_starting r.mode ∙ y.0, y.1, ap is_zero r.latest_rtt ∙ y.2);
    };
    room =
        All-append (Unsettled bytes) q.monitor_intervals (new_interval rate false ratio rtt ∷ [])
          k.room ((omega arith, omega arith), tt);
    same_mode = r.mode ∙ k.same_mode;
  }

  open_interval-CanTake :
      (bytes : ℕ) (m : SenderMode) (random : ℕ) (c : Connection fl u)
      → bytes < u64
      → CanTake bytes m c
      → Returns E (open_interval fl u random c) (CanTake bytes m)
  unfolding open_interval
  open_interval-CanTake bytes m random (q, s) h k =
      >>=-Returns E (maybe_set_sending_rate fl random q s) _ (SameControl fl u E s) _
        (maybe_set_sending_rate-SameControl fl u E random q s k.sound.queue)
        λ s' r.
          let s'' = record s' { monitor_duration = scale_delta fl s'.min_rtt (fl.literal64 1 0) } in
          >>=-Returns E (create_useful_interval fl u q s'') _
            (λ b.
              b ≡ true
              → (is_zero s'.avg_rtt ≡ false) × (q.num_useful_intervals < max_num_useful fl u s''))
            _
            (create_useful_interval-Returns fl u E q s''
              (λ z. ap is_starting r.mode ∙ (k.sound.known (ap is_zero (sym r.avg_rtt) ∙ z)).0))
            λ b x. opened-CanTake bytes m _ b _ s'.avg_rtt q s s'' h (ground (arith, r)) k x

  started :
      (t : QuicTime) (q : IntervalQueue F32) (s : Sender F32 Statistics) (bytes : ℕ)
      → IsSound fl u (q, s)
      → All (Unsettled bytes) q.monitor_intervals
      → CanTake bytes s.mode (q, start_clock fl u t s)
  unfolding start_clock max_num_useful num_interval_groups_in_probing
  started t q s bytes c r = kept (is_initialized s.conn_start_time)
    where
      kept :
          (b : Bool)
          → CanTake bytes s.mode
              (q, if b then s else record s { conn_start_time = t; latest_sent_timestamp = t })
      kept true = record { sound = c; room = r; same_mode = refl }
      kept false = record {
        sound = record {
          queue = c.queue;
          bound = c.bound;
          nonneg = c.nonneg;
          provided = c.provided;
          known = c.known;
        };
        room = r;
        same_mode = refl;
      }

  sent-CanTake :
      (t : QuicTime) (number bytes : ℕ) (gap : Delta) (c : Connection fl u) (m : SenderMode)
      → 0 < bytes
      → CanTake bytes m c
      → IsSound fl u
          (on_packet_sent t number bytes gap c.0, record c.1 { latest_sent_timestamp = t })
        × (c.1.mode ≡ m)
  unfolding on_packet_sent max_num_useful num_interval_groups_in_probing
  sent-CanTake t number bytes gap (q, s) m pos k = (
    record {
      queue = on_packet_sent-IsCounted t number bytes gap q pos k.room k.sound.queue;
      bound = k.sound.bound;
      nonneg = k.sound.nonneg;
      provided = k.sound.provided;
      known = k.sound.known;
    },
    k.same_mode,
  )

  -- A sound connection takes a packet without a failed check, stays sound and keeps its mode, if
  -- the packet has some bytes, fewer than 2 ^ 64, and each interval has no more bytes acknowledged
  -- or lost than sent and counts the packet's bytes without wrapping.
  pub send_packet-IsSound :
      (random : ℕ) (t : QuicTime) (number bytes : ℕ) (c : Connection fl u)
      → 0 < bytes
      → bytes < u64
      → IsSound fl u c
      → All (Unsettled bytes) c.0.monitor_intervals
      → Returns E
          (send_packet fl u random t number bytes c)
          (λ c'. IsSound fl u c' × (c'.1.mode ≡ c.1.mode))
  unfolding send_packet
  send_packet-IsSound random t number bytes (q, s) pos h c r =
      >>=-Returns E (create_new_interval fl u t (q, start_clock fl u t s)) _
        (λ x. CanTake bytes s.mode x.1) _
        (create_new_interval-CanTake bytes s.mode t (q, start_clock fl u t s)
          (started t q s bytes c r))
        λ x k.
          >>=-Returns E (if x.0 then open_interval fl u random x.1 else ok x.1) _
            (CanTake bytes s.mode) _
            (if-Returns E x.0 (open_interval fl u random x.1) (ok x.1) _
              (λ e. open_interval-CanTake bytes s.mode random x.1 h k) (λ e. k))
            λ c' k'. sent-CanTake t number bytes _ c' s.mode pos k'
