-- ===== src/Core/Settled.antt =====
-- core/core.cpp, the first loop of `checkTimers`: it ends, and what stands at its end.
use pcc_uspace.Base.{
  ℕ, zero, suc, Bool, true, false, ◌+◌, ◌-◌, ◌≤◌, ◌≡◌, refl, ap, ◌∙◌, List, [], ◌∷◌, some, arith,
  length, ltb, ◌⊎◌, inl, inr, if◌then◌else◌,
}
use pcc_uspace.Base.Result.{Result, ok, err, ◌>>=◌, Returns, >>=-Returns, if-Returns}
use pcc_uspace.Floats.{Floats}
use pcc_uspace.Quic.Time.{zero_time}
use pcc_uspace.Base.Int.{pos}
use pcc_uspace.Tracker.Record.{Timespec, elapsed_us}
use pcc_uspace.Tracker.Defs.{find_sent, on_loss}
use pcc_uspace.Tracker.Reads.{
  get_packet_id, get_sent_time, get_last_msg_no, has_sent_packets, oldest_sent,
  get_oldest_sent_seq_no,
}
use pcc_uspace.Tracker.Life.{AnyFault, anything}
use pcc_uspace.Tracker.Times.{
  TimedAt, IsTimed, Dropped, on_loss-IsTimed, find_sent-erase_sent, oldest_sent-found,
  get_oldest_sent_seq_no_again,
}
use pcc_uspace.Core.Controller.{Controller}
use pcc_uspace.Core.Sending.{Cudt, Clocks}
use pcc_uspace.Core.Acks.{
  loss_threshold, mark_losses, add_to_loss_record, expire_oldest, detect_losses,
}
use pcc_uspace.Core.Losses.{sent_cases}

-- A chain of calls, with what the first call gave.
>>=-Returns_known :
    {A B : Type 0} (m : Result A) (f : A → Result B) (Q : B → Type 0)
    → ((a : A) → m ≡ ok a → Returns AnyFault (f a) Q)
    → Returns AnyFault (m >>= f) Q
>>=-Returns_known (ok a) f Q h = h a refl
>>=-Returns_known (err e) f Q h = tt

module _ (fl : Floats) (c : Controller) where
  open c use {State}

  -- No sent packet waits for its loss: none is left, or the oldest one is not late.
  abbrev pub Settled : Clocks → Cudt fl State → Type 0
  Settled k s = (has_sent_packets s.tracker ≡ false) ⊎ (expire_oldest fl c k s ≡ ok (false, s))

  add_to_loss_record-Dropped :
      (n : ℕ) (y : Timespec) (k : Clocks) (s : Cudt fl State)
      → IsTimed s.tracker
      → TimedAt s.tracker.packet_record_map (y, n)
      → Returns AnyFault (add_to_loss_record fl c n n k s) (λ s'. Dropped y s.tracker s'.tracker)
  unfolding add_to_loss_record mark_losses
  add_to_loss_record-Dropped n y k s h at =
      let one : n + 1 - n ≡ 1 = omega arith in
      let msg = get_last_msg_no n s.tracker in
      rw one (
        >>=-Returns AnyFault (mark_losses fl c 1 n k s) _ (λ x. Dropped y s.tracker x.1.tracker) _
          (>>=-Returns AnyFault (get_packet_id n msg s.tracker) _ (λ id. Unit {0}) _
            (anything (get_packet_id n msg s.tracker))
            (λ id x.
              >>=-Returns AnyFault (on_loss n msg k.monotonic s.tracker) _ (Dropped y s.tracker) _
                (on_loss-IsTimed n k.monotonic y s.tracker h at) (λ t d. d)))
          (λ (packets, s') d.
            >>=-Returns AnyFault
              (c.on_congestion_event false zero_time (pos k.micros) [] packets s'.sender) _
              (λ z. Unit {0}) _
              (anything (c.on_congestion_event false zero_time (pos k.micros) [] packets s'.sender))
              (λ z x. d)))

  -- The oldest packet is not late.
  still :
      (y : Timespec) (l : List Timespec) (n : ℕ) (sent : Timespec) (k : Clocks) (s : Cudt fl State)
      → s.tracker.sent_queue ≡ y ∷ l
      → find_sent y s.tracker.sent_time_map ≡ some n
      → get_sent_time n (get_last_msg_no n s.tracker) s.tracker ≡ ok sent
      → ltb (loss_threshold fl c s) (elapsed_us sent k.monotonic) ≡ false
      → expire_oldest fl c k s ≡ ok (false, s)
  unfolding expire_oldest
  still y l n sent k s e f z early =
      let some_sent : has_sent_packets s.tracker ≡ true = rw e refl in
      rw (get_oldest_sent_seq_no_again y l n s.tracker e f, some_sent, z, early) refl

  -- What a round of the loop leaves: it ends on a settled state, or the next round ends the loop, or
  -- the map of sent times, of the given size, loses one entry.
  abbrev Round : Clocks → ℕ → Bool × Cudt fl State → Type 0
  Round k size (false, s') = IsTimed s'.tracker × Settled k s'
  Round k size (true, s') =
      IsTimed s'.tracker
      × ((has_sent_packets s'.tracker ≡ false) ⊎ (length s'.tracker.sent_time_map + 1 ≡ size))

  found-Round :
      (y : Timespec) (l : List Timespec) (n : ℕ) (k : Clocks) (s : Cudt fl State)
      → IsTimed s.tracker
      → s.tracker.sent_queue ≡ y ∷ l
      → find_sent y s.tracker.sent_time_map ≡ some n
      → let late : Result (Bool × Cudt fl State) =
          add_to_loss_record fl c n n k s >>= λ s''. ok (true, s'') in
        Returns AnyFault
          (get_sent_time n (get_last_msg_no n s.tracker) s.tracker >>= λ sent.
            (if ltb (loss_threshold fl c s) (elapsed_us sent k.monotonic)
              then late
              else ok (false, s)))
          (Round k (length s.tracker.sent_time_map))
  found-Round y l n k s h e f =
      >>=-Returns_known (get_sent_time n (get_last_msg_no n s.tracker) s.tracker) _
        (Round k (length s.tracker.sent_time_map))
        λ sent z.
          if-Returns AnyFault (ltb (loss_threshold fl c s) (elapsed_us sent k.monotonic)) _ _ _
            (λ late.
              let (x, at, less) =
                find_sent-erase_sent (TimedAt s.tracker.packet_record_map) y n
                  s.tracker.sent_time_map h f in
              >>=-Returns AnyFault (add_to_loss_record fl c n n k s) _
                (λ s'. Dropped x s.tracker s'.tracker) _ (add_to_loss_record-Dropped n x k s h at)
                (λ s' d. (d.0, inr (ap (λ m. length m + 1) d.1 ∙ less))))
            (λ early. (h, inr (still y l n sent k s e f z early)))

  expire_oldest-Round :
      (k : Clocks) (s : Cudt fl State)
      → has_sent_packets s.tracker ≡ true
      → IsTimed s.tracker
      → Returns AnyFault (expire_oldest fl c k s) (Round k (length s.tracker.sent_time_map))
  unfolding expire_oldest get_oldest_sent_seq_no
  expire_oldest-Round k s some_sent h = elim (sent_cases s.tracker.sent_queue) [
    | inl none_sent ↦ let clash : false ≡ true = rw none_sent at some_sent in cc
    | inr (x, l, e) ↦
        let found = oldest_sent s.tracker.sent_time_map (x ∷ l) in
        let t = record s.tracker { sent_queue = found.1 } in
        let s1 = record s { tracker = t } in
        rw (Returns, e)
          (elim (oldest_sent-found s.tracker.sent_time_map (x ∷ l)) [
            | inl gone ↦
                let none_left : has_sent_packets t ≡ false = rw gone refl in
                rw none_left (h, inl none_left)
            | inr (y, m, q, f) ↦
                let some_left : has_sent_packets t ≡ true = rw q refl in
                rw some_left (found-Round y m found.0 k s1 h q f)
          ])
  ]

  detect_losses-empty :
      (n : ℕ) (k : Clocks) (s : Cudt fl State)
      → has_sent_packets s.tracker ≡ false
      → Returns AnyFault (detect_losses fl c n k s) (Settled k)
  unfolding detect_losses
  detect_losses-empty zero k s e = inl e
  detect_losses-empty (suc n) k s e = rw (Returns, e) (inl e)

  after_round :
      (n : ℕ) (k : Clocks) (s s' : Cudt fl State) (more : Bool)
      → ((z : Cudt fl State)
          → IsTimed z.tracker
          → length z.tracker.sent_time_map + 1 ≤ n
          → Returns AnyFault (detect_losses fl c n k z) (Settled k))
      → length s.tracker.sent_time_map + 1 ≤ suc n
      → Round k (length s.tracker.sent_time_map) (more, s')
      → Returns AnyFault (if more then detect_losses fl c n k s' else ok s') (Settled k)
  after_round n k s s' false go p r = r.1
  after_round n k s s' true go p (h, inl empty) = detect_losses-empty n k s' empty
  after_round n k s s' true go p (h, inr less) = go s' h (omega (arith, p, less))

  -- If each entry of the map of sent times stands for the last message of a recorded packet, then
  -- with a round for each entry and one more, the search for lost packets fails, or ends where no
  -- sent packet is left or the oldest one is not late.
  pub detect_losses-Settled :
      (n : ℕ) (k : Clocks) (s : Cudt fl State)
      → IsTimed s.tracker
      → length s.tracker.sent_time_map + 1 ≤ n
      → Returns AnyFault (detect_losses fl c n k s) (Settled k)
  unfolding detect_losses
  detect_losses-Settled zero k s h p = absurd (omega (arith, p))
  detect_losses-Settled (suc n) k s h p =
      if-Returns AnyFault (has_sent_packets s.tracker) _ _ _
        (λ e.
          >>=-Returns AnyFault (expire_oldest fl c k s) _ (Round k (length s.tracker.sent_time_map))
            _ (expire_oldest-Round k s e h)
            λ (more, s') r. after_round n k s s' more (λ z h'. detect_losses-Settled n k z h') p r)
        (λ e. inl e)
