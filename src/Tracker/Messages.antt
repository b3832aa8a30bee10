-- ===== src/Tracker/Messages.antt =====
-- core/packet_tracker.h: what sending, acknowledgement and loss make of a packet's record.
use mathlib.Core.Path.{subst}
use pcc_uspace.Base.{
  ℕ, true, false, ◌≡◌, inl, inr, refl, List, [], ◌∷◌, ◌++◌, ◌==◌, arith, Bool-cases, if-both,
}
use pcc_uspace.Base.Result.{
  ok, Fault, no_message_record, Returns, NoFault, Returns_any, >>=-Returns, Returns-mono,
}
use pcc_uspace.Tracker.Record.{
  PacketState, queued, sent, acked, lost, is_queued, Timespec, PacketRecord, MessageRecord,
  find_message, last_message, set_rtt, update_messages, update_record, get_message_record,
}
use pcc_uspace.Tracker.Ready.{Fits}

abbrev pub NonEmpty : List MessageRecord → Type 0
NonEmpty [] = ⊥
NonEmpty (m ∷ l) = Unit

-- The one fault of a message number that is not recorded.
abbrev pub UnknownMessage : Fault → Type 0
UnknownMessage no_message_record = Unit
UnknownMessage _ = ⊥

pub find_message-Returns :
    (n : ℕ) (l : List MessageRecord) → Returns UnknownMessage (find_message n l) (λ m. NonEmpty l)
unfolding find_message
find_message-Returns n [] = tt
find_message-Returns n (m ∷ l) = elim (Bool-cases (m.msg_no == n)) [
  | inl t ↦ rw (Returns, t) tt
  | inr f ↦
      rw (Returns, f)
        (Returns-mono UnknownMessage (find_message n l) _ _ (λ a h. tt) (find_message-Returns n l))
]

set_rtt-Returns :
    (n : ℕ) (now : Timespec) (l : List MessageRecord)
    → Returns UnknownMessage (set_rtt n now l) NonEmpty
unfolding set_rtt
set_rtt-Returns n now [] = tt
set_rtt-Returns n now (m ∷ l) = elim (Bool-cases (m.msg_no == n)) [
  | inl t ↦ rw (Returns, t) tt
  | inr f ↦
      rw (Returns, f)
        (>>=-Returns UnknownMessage (set_rtt n now l) _ NonEmpty NonEmpty (set_rtt-Returns n now l)
          (λ l' h. tt))
]

pub last_message-Returns :
    (l : List MessageRecord) → NonEmpty l → Returns NoFault (last_message l) (λ m. Unit {0})
unfolding last_message
last_message-Returns [] h = absurd h
last_message-Returns (m ∷ []) h = tt
last_message-Returns (m ∷ k ∷ l) h = last_message-Returns (k ∷ l) tt

last_message-append :
    (l : List MessageRecord) (m : MessageRecord) → last_message (l ++ m ∷ []) ≡ ok m
unfolding last_message
last_message-append [] m = refl
last_message-append (k ∷ []) m = refl
last_message-append (k ∷ j ∷ l) m = last_message-append (j ∷ l) m

find_message-append :
    (l : List MessageRecord) (m : MessageRecord)
    → Returns NoFault (find_message m.msg_no (l ++ m ∷ [])) (λ k. Unit {0})
unfolding find_message
find_message-append [] m =
    let e : (m.msg_no == m.msg_no) ≡ true = ground arith in rw (Returns, e) tt
find_message-append (k ∷ l) m = elim (Bool-cases (k.msg_no == m.msg_no)) [
  | inl t ↦ rw (Returns, t) tt
  | inr f ↦ rw (Returns, f) (find_message-append l m)
]

-- A packet that is sent is recorded as such, with its message.
abbrev pub IsSent : ℕ → PacketRecord → Type 0
IsSent msg r =
    (is_queued r.packet_state ≡ false) × Returns NoFault (get_message_record msg r) (λ m. Unit {0})

pub update_record-IsSent :
    (msg id : ℕ) (now : Timespec) (r : PacketRecord)
    → Returns NoFault (update_record sent msg id now r) (IsSent msg)
unfolding update_record update_messages get_message_record
update_record-IsSent msg id now r =
    let m : MessageRecord = record { rtt_us = 0; msg_no = msg; packet_id = id; sent_time = now } in
    let e : (msg == msg) ≡ true = ground arith in
    rw (Returns, last_message-append r.msg_records m, e) (refl, find_message-append r.msg_records m)

-- A record with messages, whose packet is acknowledged or lost, is not queued.
update_messages-NonEmpty :
    (st : PacketState) (msg : ℕ) (now : Timespec) (l : List MessageRecord)
    → is_queued st ≡ false
    → NonEmpty l
    → Returns UnknownMessage (update_messages st msg 0 now l) NonEmpty
unfolding update_messages
update_messages-NonEmpty acked msg now l s h = set_rtt-Returns msg now l
update_messages-NonEmpty lost msg now l s h = h
update_messages-NonEmpty sent msg now (m ∷ l) s h = tt
update_messages-NonEmpty sent msg now [] s h = tt
update_messages-NonEmpty queued msg now l s h = cc
update_messages-NonEmpty PacketState.none_state msg now l s h = h

pub update_record-settled :
    (st : PacketState) (msg : ℕ) (now : Timespec) (r : PacketRecord)
    → is_queued st ≡ false
    → is_queued r.packet_state ≡ false
    → NonEmpty r.msg_records
    → Returns UnknownMessage
        (update_record st msg 0 now r)
        (λ r'. is_queued r'.packet_state ≡ false)
unfolding update_record
update_record-settled st msg now r s q h =
    >>=-Returns UnknownMessage (update_messages st msg 0 now r.msg_records) _ NonEmpty _
      (update_messages-NonEmpty st msg now r.msg_records s h)
      λ l k.
        >>=-Returns UnknownMessage (last_message l) _ (λ m. Unit {0}) _
          (Returns_any UnknownMessage (last_message l) _ (last_message-Returns l k))
          λ m x. if-both (msg == m.msg_no) st r.packet_state (λ t. is_queued t ≡ false) s q

-- What fits and has messages is not queued.
pub Fits-NonEmpty :
    (r : PacketRecord) → Fits r → NonEmpty r.msg_records → is_queued r.packet_state ≡ false
Fits-NonEmpty r (inl s) h = s
Fits-NonEmpty r (inr (q, e)) h = absurd (subst NonEmpty e h)
