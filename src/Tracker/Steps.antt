-- ===== src/Tracker/Steps.antt =====
-- core/packet_tracker.h: each operation keeps the packets in the queues ready to be sent.
use mathlib.Core.Path.{subst}
use pcc_uspace.Base.{
  ℕ, true, false, not, ◌≡◌, ◌≢◌, inl, inr, refl, sym, ap, ◌∙◌, List, [], ◌∷◌, none, some, leb, ◌==◌,
  arith, All, Bool-cases,
}
use pcc_uspace.Base.Result.{Returns, NoFault, check-Returns, already_recorded}
use pcc_uspace.Tracker.Maps.{find, contains, update, Distinct, update-Distinct}
use pcc_uspace.Tracker.Record.{queued, is_queued, Timespec, Packet, PacketRecord, new_record}
use pcc_uspace.Tracker.Defs.{PacketTracker, push_seq, enqueue_packet}
use pcc_uspace.Tracker.Queues.{push_seq-All}
use pcc_uspace.Tracker.Ready.{
  IsReady, IsFreshAt, IsSentAt, NotFresh, Fits, Records, Unique, All-map, All-other, Records-update,
  find-update, find-update_other, find-none, find-cons_self, find-cons_other,
}

-- Numbers that stand for packets never sent differ from one that does not.
pub fresh-other :
    (m : List (ℕ × PacketRecord)) (n : ℕ) (l : List ℕ)
    → IsSentAt m n
    → All (IsFreshAt m) l
    → All (λ k. n ≢ k) l
fresh-other m n l s h = All-map (IsFreshAt m) (λ k. n ≢ k) l other h
  where
    other : (k : ℕ) → IsFreshAt m k → n ≢ k
    other k (r, f, (q, e)) same =
        let at : find n m ≡ some r = ap (λ j. find j m) same ∙ f in
        let s' : is_queued r.packet_state ≡ false = subst NotFresh at s in cc

push_seq-Unique : (n : ℕ) (l : List ℕ) → All (λ k. n ≢ k) l → Unique l → Unique (push_seq n l)
unfolding push_seq
push_seq-Unique n [] d u = (tt, tt)
push_seq-Unique n (k ∷ l) d u = elim (Bool-cases (leb n k)) [
  | inl t ↦ rw t (d, u)
  | inr f ↦ rw f (push_seq-All (λ j. k ≢ j) n l (λ e. d.0 (sym e)) u.0, push_seq-Unique n l d.1 u.1)
]

-- The records of other numbers than `n` are the same in two maps.
abbrev pub SameBut : ℕ → List (ℕ × PacketRecord) → List (ℕ × PacketRecord) → Type 0
SameBut n m m' = (k : ℕ) → n ≢ k → find k m' ≡ find k m

module _ (n : ℕ) (m m' : List (ℕ × PacketRecord)) (same : SameBut n m m') where
  pub fresh-moved : (l : List ℕ) → All (λ k. n ≢ k) l → All (IsFreshAt m) l → All (IsFreshAt m') l
  fresh-moved l d h =
      All-other (IsFreshAt m) (IsFreshAt m') n l (λ k ne (r, f, e). (r, same k ne ∙ f, e)) d h

  pub sent-moved : IsSentAt m' n → (l : List ℕ) → All (IsSentAt m) l → All (IsSentAt m') l
  sent-moved s l h = All-map (IsSentAt m) (IsSentAt m') l moved h
    where
      moved : (k : ℕ) → IsSentAt m k → IsSentAt m' k
      moved k h = elim (Bool-cases (n == k)) [
        | inl t ↦ let e : n ≡ k = ground (arith, t) in subst (IsSentAt m') e s
        | inr f ↦ subst NotFresh (sym (same k (ground (arith, f)))) h
      ]

-- The record of a packet that was sent changes, for another such record.
pub update-IsReady :
    (n : ℕ) (r : PacketRecord) (q l : List ℕ) (id : ℕ) (times : List Timespec)
    (map : List (Timespec × ℕ)) (t : PacketTracker)
    → contains n t.packet_record_map ≡ true
    → is_queued r.packet_state ≡ false
    → Distinct t.packet_record_map
    → Records Fits t.packet_record_map
    → All (λ k. n ≢ k) q
    → All (IsFreshAt t.packet_record_map) q
    → Unique q
    → All (IsSentAt t.packet_record_map) l
    → IsReady (record t {
      send_queue = q;
      retransmittable_queue = l;
      prev_packet_id = id;
      packet_record_map = update n r t.packet_record_map;
      sent_queue = times;
      sent_time_map = map;
    })
update-IsReady n r q l id times map t c s d f o h u v =
    let m = t.packet_record_map in
    let same : SameBut n m (update n r m) = λ k ne. find-update_other n k r m ne in
    let here : find n (update n r m) ≡ some r = ground (arith, find-update n n r m c) in
    record {
      distinct = update-Distinct n r m d;
      fits = Records-update Fits n r m (inl s) f;
      fresh = fresh-moved n m (update n r m) same q o h;
      unique = u;
      sent = sent-moved n m (update n r m) same (subst NotFresh (sym here) s) l v;
    }

-- A packet with a new number is queued, and ready.
pub enqueue_packet-IsReady :
    (p : Packet) (t : PacketTracker)
    → contains p.seq_no t.packet_record_map ≡ false
    → All (λ k. p.seq_no ≢ k) t.retransmittable_queue
    → IsReady t
    → Returns NoFault (enqueue_packet p t) IsReady
unfolding enqueue_packet new_record
enqueue_packet-IsReady p t c o k =
    let m = t.packet_record_map in
    let r = new_record p queued in
    let absent : find p.seq_no m ≡ none = find-none p.seq_no m c in
    let same : SameBut p.seq_no m ((p.seq_no, r) ∷ m) = λ k ne. find-cons_other p.seq_no k r m ne in
    let d = fresh-other m p.seq_no t.send_queue (subst NotFresh (sym absent) tt) k.fresh in
    check-Returns NoFault (not (contains p.seq_no m)) already_recorded _ IsReady (ap not c)
      (record {
        distinct = (c, k.distinct);
        fits = (inr (refl, refl), k.fits);
        fresh =
            push_seq-All (IsFreshAt ((p.seq_no, r) ∷ m)) p.seq_no t.send_queue
              (r, find-cons_self p.seq_no r m, (refl, refl))
              (fresh-moved p.seq_no m ((p.seq_no, r) ∷ m) same t.send_queue d k.fresh);
        unique = push_seq-Unique p.seq_no t.send_queue d k.unique;
        sent =
            All-other (IsSentAt m) (IsSentAt ((p.seq_no, r) ∷ m)) p.seq_no t.retransmittable_queue
              (λ j ne h. subst NotFresh (sym (same j ne)) h) o k.sent;
      })
