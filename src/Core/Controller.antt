-- ===== src/Core/Controller.antt =====
-- core/core.h: what `CUDT` calls of its congestion controller `pcc_sender`, and `PccSender` as such.
use pcc_uspace.Base.{ℕ, Bool, List}
use pcc_uspace.Base.Int.{ℤ}
use pcc_uspace.Base.Result.{Result}
use pcc_uspace.Floats.{Floats}
use pcc_uspace.Quic.{AckedPacket, LostPacket}
use pcc_uspace.Quic.Time.{QuicTime, Delta}
use pcc_uspace.Quic.Bandwidth.{QuicBandwidth}
use pcc_uspace.Utility.{UtilityFunction}
use pcc_uspace.Sender.Events.{Connection, can_send, pacing_rate, send_packet, receive_feedback}

-- `can_send` takes the bytes in flight; `on_packet_sent` the value of `rand()`, the time, the packet
-- id and the bytes; `on_congestion_event` whether there is an RTT, the RTT, the time and the packets.
pub record Controller : Type 1 where
  pub State : Type 0
  pub can_send : ℤ → State → Bool
  pub on_packet_sent : ℕ → QuicTime → ℕ → ℕ → State → Result State
  pub on_congestion_event :
      Bool → Delta → QuicTime → List AckedPacket → List LostPacket → State → Result State
  pub pacing_rate : State → Result QuicBandwidth

-- PCC's sender does not look at the bytes in flight.
unfoldable pub pcc_controller : (fl : Floats) → UtilityFunction fl.F32 → Controller
pcc_controller fl u = record {
  State = Connection fl u;
  can_send = λ bytes c. can_send fl u c;
  on_packet_sent = send_packet fl u;
  on_congestion_event = receive_feedback fl u;
  pacing_rate = pacing_rate fl u;
}
