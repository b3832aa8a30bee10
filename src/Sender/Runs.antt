-- ===== src/Sender/Runs.antt =====
-- The runs of a sender: the connections that `OnPacketSent` and `OnCongestionEvent` reach from the
-- constructors (pcc_sender.cpp).
use pcc_uspace.Base.{ℕ, Bool, ◌<◌, ◌≡◌, refl, List, All, arith}
use pcc_uspace.Base.Int.{neg_part}
use pcc_uspace.Base.Result.{Returns-ok, ok, Returns, NoFault}
use pcc_uspace.Floats.{Floats}
use pcc_uspace.Quic.{AckedPacket, LostPacket}
use pcc_uspace.Quic.Time.{QuicTime, Delta}
use pcc_uspace.Quic.Bandwidth.{u64}
use pcc_uspace.IntervalQueue.Defs.{new_queue}
use pcc_uspace.IntervalQueue.Updates.{Unsettled}
use pcc_uspace.Utility.{UtilityFunction, new_utility_manager}
use pcc_uspace.Sender.State.{Variant, new_sender}
use pcc_uspace.Sender.Decisions.{RatesEqual}
use pcc_uspace.Sender.Events.{Connection, send_packet, receive_feedback}
use pcc_uspace.Sender.Soundness.{RoundsWell, IsSound}
use pcc_uspace.Sender.Sending.{send_packet-IsSound}
use pcc_uspace.Sender.Feedback.{Advanced, receive_feedback-Advanced}

module _ (fl : Floats) (u : UtilityFunction fl.F32) where
  open fl use {F32}
  open u use {Statistics}

  -- The connection of a new sender; `minus_one` and `zero_value` are the `float` -1.0 and 0.0.
  unfoldable pub new_connection : Variant → F32 → F32 → Statistics → ℕ → ℕ → Connection fl u
  unfolding new_queue new_sender
  new_connection v minus_one zero_value statistics initial_window max_window =
      (new_queue minus_one, new_sender v zero_value statistics initial_window max_window)

  -- A packet is sent if it has some bytes and no interval has more bytes acknowledged or lost than
  -- sent; feedback comes with an RTT that is not negative.
  pub data Run : Connection fl u → Type 0 where
    opened :
        (v : Variant) (minus_one zero_value : F32) (statistics : Statistics)
        (initial_window max_window : ℕ)
        → Run (new_connection v minus_one zero_value statistics initial_window max_window)
    packet :
        (random : ℕ) (t : QuicTime) (number bytes : ℕ) (c c' : Connection fl u)
        → Run c
        → 0 < bytes
        → bytes < u64
        → All (Unsettled bytes) c.0.monitor_intervals
        → send_packet fl u random t number bytes c ≡ ok c'
        → Run c'
    feedback :
        (updated : Bool) (rtt : Delta) (t : QuicTime) (acked : List AckedPacket)
        (lost : List LostPacket) (c c' : Connection fl u)
        → Run c
        → neg_part rtt ≡ 0
        → receive_feedback fl u updated rtt t acked lost c ≡ ok c'
        → Run c'

  -- The constructors make a sound connection.
  pub new_connection-IsSound :
      (v : Variant) (minus_one zero_value : F32) (statistics : Statistics)
      (initial_window max_window : ℕ)
      → IsSound fl u (new_connection v minus_one zero_value statistics initial_window max_window)
  unfolding new_connection new_queue new_sender new_utility_manager
  new_connection-IsSound v m z st i w = record {
    queue = record { counted = refl; timed = tt };
    bound = omega arith;
    nonneg = refl;
    provided = rw u.allegro_reads_none (omega arith);
    known = λ e. (refl, refl, refl);
  }

  -- If rounding is as `RoundsWell` says, then every connection that a run reaches is sound, and
  -- feedback to it whose RTT is not negative fails no check but the one on two equal sending rates
  -- and leaves a sound connection behind an allowed move.
  pub Run-IsSound :
      RoundsWell fl
      → (c : Connection fl u) → Run c
      → (updated : Bool) (rtt : Delta) (t : QuicTime) (acked : List AckedPacket)
        (lost : List LostPacket)
      → neg_part rtt ≡ 0
      → IsSound fl u c
        × Returns RatesEqual (receive_feedback fl u updated rtt t acked lost c) (Advanced fl u c)
  Run-IsSound w c r updated rtt t acked lost h =
      (sound c r, receive_feedback-Advanced fl u w updated rtt t acked lost c h (sound c r))
    where
      sound : (c : Connection fl u) → Run c → IsSound fl u c
      sound c' (opened v m z st i n) = new_connection-IsSound v m z st i n
      sound c' (packet random t number bytes c _ r p q h e) =
          (Returns-ok NoFault (send_packet fl u random t number bytes c)
            (λ c'. IsSound fl u c' × (c'.1.mode ≡ c.1.mode)) c' e
            (send_packet-IsSound fl u NoFault random t number bytes c p q (sound c r) h)).0
      sound c' (feedback updated rtt t acked lost c _ r h e) =
          (Returns-ok RatesEqual (receive_feedback fl u updated rtt t acked lost c)
            (Advanced fl u c) c' e
            (receive_feedback-Advanced fl u w updated rtt t acked lost c h (sound c r))).0
