-- ===== src/Tracker/Times.antt =====
-- core/packet_tracker.h: the map from sent times to packets, and the oldest of the packets sent.
use mathlib.Core.Path.{subst}
use pcc_uspace.Base.{
  ℕ, true, ◌+◌, ◌≡◌, refl, sym, ap, ◌∙◌, List, [], ◌∷◌, some, arith, length, All, ◌==◌, Bool-cases,
  Option-cases, ◌⊎◌, inl, inr,
}
use pcc_uspace.Base.Result.{ok, Returns, >>=-Returns}
use pcc_uspace.Tracker.Maps.{find, update}
use pcc_uspace.Tracker.Record.{
  Timespec, timespec_eq, PacketRecord, MessageRecord, lost, find_message, last_message,
  most_recent_msg_no, get_message_record, update_messages, update_record,
}
use pcc_uspace.Tracker.Defs.{PacketTracker, find_sent, erase_sent, settle, on_loss}
use pcc_uspace.Tracker.Reads.{get_last_msg_no, oldest_sent, get_oldest_sent_seq_no}
use pcc_uspace.Tracker.Life.{AnyFault, anything}
use pcc_uspace.Tracker.Ready.{find-update, find-contains}

-- An entry of the map stands for the last message of a recorded packet.
abbrev pub TimedAt : List (ℕ × PacketRecord) → Timespec × ℕ → Type 0
TimedAt m (x, n) =
    (r : PacketRecord) × (find n m ≡ some r)
    × ((g : MessageRecord) × (find_message (most_recent_msg_no r.msg_records) r.msg_records ≡ ok g)
        × (g.sent_time ≡ x))

abbrev pub IsTimed : PacketTracker → Type 0
IsTimed t = All (TimedAt t.packet_record_map) t.sent_time_map

pub get_last_msg_no-find :
    (n : ℕ) (r : PacketRecord) (t : PacketTracker)
    → find n t.packet_record_map ≡ some r
    → get_last_msg_no n t ≡ most_recent_msg_no r.msg_records
unfolding get_last_msg_no
get_last_msg_no-find n r t f = rw (f, get_last_msg_no) refl

timespec_eq_self : (x : Timespec) → timespec_eq x x ≡ true
timespec_eq_self x = ground arith

-- The entry that is found is one that erasing removes.
pub find_sent-erase_sent :
    (P : Timespec × ℕ → Type 0) (x : Timespec) (n : ℕ) (l : List (Timespec × ℕ))
    → All P l
    → find_sent x l ≡ some n
    → (y : Timespec) × P (y, n) × (length (erase_sent y l) + 1 ≡ length l)
unfolding find_sent erase_sent
find_sent-erase_sent P x n [] h e = cc
find_sent-erase_sent P x n ((z, k) ∷ l) h e = elim (Bool-cases (timespec_eq x z)) [
  | inl t ↦
      let same : k ≡ n = ground (arith, e, t) in
      (z, subst (λ j. P (z, j)) same h.0, rw (timespec_eq_self z) (omega arith))
  | inr f ↦
      let (y, p, s) = find_sent-erase_sent P x n l h.1 (ground (arith, e, f)) in
      (
        y,
        p,
        elim (Bool-cases (timespec_eq y z)) [
          | inl t ↦ rw t (omega arith)
          | inr f' ↦ rw f' (omega (arith, s))
        ],
      )
]

erase_sent-All :
    (P : Timespec × ℕ → Type 0) (y : Timespec) (l : List (Timespec × ℕ))
    → All P l
    → All P (erase_sent y l)
unfolding erase_sent
erase_sent-All P y [] h = tt
erase_sent-All P y ((z, k) ∷ l) h = elim (Bool-cases (timespec_eq y z)) [
  | inl t ↦ rw t h.1
  | inr f ↦ rw f (h.0, erase_sent-All P y l h.1)
]

-- A record that keeps its messages keeps the times.
update-TimedAt :
    (n : ℕ) (r r' : PacketRecord) (m : List (ℕ × PacketRecord)) (x : Timespec) (j : ℕ)
    → find n m ≡ some r
    → r'.msg_records ≡ r.msg_records
    → TimedAt m (x, j)
    → TimedAt (update n r' m) (x, j)
update-TimedAt n r r' m x j f same (q, e, rest) =
    let u = find-update n j r' m (find-contains n r m f) in
    elim (Bool-cases (n == j)) [
      | inl t ↦
          let at : some q ≡ some r = sym e ∙ ap (λ k. find k m) (ground (arith, t)) ∙ f in
          let old : q.msg_records ≡ r.msg_records = ground (arith, at) in
          (
            r',
            ground (arith, u, t),
            subst
                (λ l.
                  (g : MessageRecord) × (find_message (most_recent_msg_no l) l ≡ ok g)
                  × (g.sent_time ≡ x))
                (old ∙ sym same) rest,
          )
      | inr o ↦ (q, ground (arith, u, o, e), rest)
    ]

update-All :
    (n : ℕ) (r r' : PacketRecord) (m : List (ℕ × PacketRecord)) (l : List (Timespec × ℕ))
    → find n m ≡ some r
    → r'.msg_records ≡ r.msg_records
    → All (TimedAt m) l
    → All (TimedAt (update n r' m)) l
update-All n r r' m [] f same h = tt
update-All n r r' m ((x, j) ∷ l) f same h =
    (update-TimedAt n r r' m x j f same h.0, update-All n r r' m l f same h.1)

update_record-lost :
    (msg : ℕ) (now : Timespec) (r : PacketRecord)
    → Returns AnyFault (update_record lost msg 0 now r) (λ r'. r'.msg_records ≡ r.msg_records)
unfolding update_record update_messages
update_record-lost msg now r =
    >>=-Returns AnyFault (last_message r.msg_records) _ (λ m. Unit {0}) _
      (anything (last_message r.msg_records)) (λ m x. refl)

-- What the loss of a message with the time `y` leaves.
abbrev pub Dropped : Timespec → PacketTracker → PacketTracker → Type 0
Dropped y t t' =
    IsTimed t' × (t'.sent_time_map ≡ erase_sent y t.sent_time_map) × (t'.sent_queue ≡ t.sent_queue)

on_loss-Dropped :
    (n msg : ℕ) (now : Timespec) (r : PacketRecord) (g : MessageRecord) (t : PacketTracker)
    → IsTimed t
    → find n t.packet_record_map ≡ some r
    → find_message msg r.msg_records ≡ ok g
    → Returns AnyFault (on_loss n msg now t) (Dropped g.sent_time t)
unfolding on_loss settle get_message_record
on_loss-Dropped n msg now r g t h f e =
    rw (Returns, f)
      (>>=-Returns AnyFault (settle lost r n msg now t) _ (Dropped g.sent_time t)
        (Dropped g.sent_time t)
        (rw e (
          >>=-Returns AnyFault (update_record lost msg 0 now r) _
            (λ r'. r'.msg_records ≡ r.msg_records) _ (update_record-lost msg now r)
            (λ r' same. (
              erase_sent-All _ g.sent_time t.sent_time_map
                  (update-All n r r' t.packet_record_map t.sent_time_map f same h),
              refl,
              refl,
            ))))
        (λ t' k. k))

-- A packet's last message is lost: its entry goes.
pub on_loss-IsTimed :
    (n : ℕ) (now : Timespec) (y : Timespec) (t : PacketTracker)
    → IsTimed t
    → TimedAt t.packet_record_map (y, n)
    → Returns AnyFault (on_loss n (get_last_msg_no n t) now t) (Dropped y t)
on_loss-IsTimed n now y t h (r, f, (g, e, at)) =
    subst (λ z. Returns AnyFault (on_loss n (get_last_msg_no n t) now t) (Dropped z t)) at
      (on_loss-Dropped n (get_last_msg_no n t) now r g t h f
        (ap (λ z. find_message z r.msg_records) (get_last_msg_no-find n r t f) ∙ e))

-- What the search for the oldest packet gives: the queue is empty, or its first time is that of the
-- packet.
pub oldest_sent-found :
    (m : List (Timespec × ℕ)) (l : List Timespec)
    → ((oldest_sent m l).1 ≡ [])
      ⊎ ((y : Timespec) × (k : List Timespec) × ((oldest_sent m l).1 ≡ y ∷ k)
          × (find_sent y m ≡ some (oldest_sent m l).0))
unfolding oldest_sent
oldest_sent-found m [] = inl refl
oldest_sent-found m (x ∷ l) = elim (Option-cases (find_sent x m)) [
  | inl e ↦ rw (e, oldest_sent) (oldest_sent-found m l)
  | inr (n, e) ↦ rw (e, oldest_sent) (inr (x, l, refl, e))
]

-- A second search gives the same.
pub get_oldest_sent_seq_no_again :
    (y : Timespec) (k : List Timespec) (n : ℕ) (t : PacketTracker)
    → t.sent_queue ≡ y ∷ k
    → find_sent y t.sent_time_map ≡ some n
    → get_oldest_sent_seq_no t ≡ ok (n, t)
unfolding get_oldest_sent_seq_no oldest_sent
get_oldest_sent_seq_no_again y k n t e f =
    subst
      (λ q.
        get_oldest_sent_seq_no (record t { sent_queue = q }) ≡ ok (n, record t { sent_queue = q }))
      (sym e) (rw (f, oldest_sent) refl)
