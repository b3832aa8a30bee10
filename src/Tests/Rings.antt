-- ===== src/Tests/Rings.antt =====
-- core/window.cpp: a ring of three places that takes three ACKs and answers for the last of them.
use pcc_uspace.Base.{◌≡◌, refl, List, [], ◌∷◌, arith}
use pcc_uspace.Base.Int.{ℤ, pos, ◌*ℤ◌, ◌+ℤ◌, ◌-ℤ◌}
use pcc_uspace.Windows.Runs.{
  store_call, acknowledge_call, run_calls, run_entries, Refines, run_calls-Refines,
}
use pcc_uspace.Windows.Arrivals.{
  TimeWindow, new_time_window, filled, advance_ptr, on_pkt_arrival, insert_sorted, sort, median_of,
  upper_of, lower_of, filter_sum, speed_of, get_pkt_rcv_speed,
}
use pcc_uspace.Quic.Bandwidth.{to_u64}
use pcc_uspace.Base.Result.{err, division_by_zero}
use pcc_uspace.Windows.Int32.{wrap_int32}
use pcc_uspace.Base.{List, ◌<◌, ◌^◌}
use pcc_uspace.Base.Int.{ℤ}
use pcc_uspace.Windows.Speed.{Forward, total, IsSpeed, get_pkt_rcv_speed-IsSpeed}
use pcc_uspace.Base.Result.{ok, Returns, NoFault}
use pcc_uspace.Quic.Time.{div_ℤ}
use pcc_uspace.Tests.Fixed.{fixed, quotient, scaled, ceiled}
use pcc_uspace.Windows.Int32.{elapsed, to_int32}
use pcc_uspace.Windows.Ack.{
  AckWindow, new_ack_window, write_head, store, find_wrapped, find_straight, reset, take_wrapped,
  take_straight, answer, acknowledge,
}
use pcc_uspace.Windows.Entries.{IsValid, entry_at, entries_from, entries}
use pcc_uspace.Windows.Store.{stored, store-stored, store-IsValid}
use pcc_uspace.Windows.Acknowledge.{acknowledged, seen, acknowledge-acknowledged}

abbrev blank : List ℤ
blank = pos 0 ∷ pos 0 ∷ pos 0 ∷ []

unfoldable ring : AckWindow
unfolding new_ack_window
ring = new_ack_window blank blank (0 ∷ 0 ∷ 0 ∷ []) 3

ring-IsValid : IsValid ring
unfolding ring new_ack_window
ring-IsValid = record {
  some_size = omega arith;
  head_inside = omega arith;
  tail_inside = omega arith;
  seq_length = refl;
  ack_length = refl;
  time_length = refl;
}

-- The ring is full, and its head has wrapped.
unfoldable full_ring : AckWindow
unfolding ring store
full_ring = store 300 (pos 7) (pos 70) (store 200 (pos 6) (pos 60) ring)

full_ring-IsValid : IsValid full_ring
unfolding full_ring
full_ring-IsValid =
    store-IsValid 300 (pos 7) (pos 70) (store 200 (pos 6) (pos 60) ring)
      (store-IsValid 200 (pos 6) (pos 60) ring ring-IsValid)

store-stored_example :
    entries (store 400 (pos 8) (pos 80) full_ring)
    ≡ stored full_ring.size
        (record { seq_no = pos 8; ack_no = pos 80; time_stamp = 400 })
        (entries full_ring)
store-stored_example = store-stored 400 (pos 8) (pos 80) full_ring full_ring-IsValid

acknowledge-acknowledged_example :
    seen (acknowledge 450 (pos 7) (pos 0) full_ring)
    ≡ acknowledged 450 (pos 7) (pos 0) (entries full_ring)
acknowledge-acknowledged_example =
    acknowledge-acknowledged 450 (pos 7) (pos 0) full_ring full_ring-IsValid

-- 150 after its ACK was stored, number 7 is acknowledged, and nothing is left.
answered : seen (acknowledge 450 (pos 7) (pos 0) full_ring) ≡ (pos 150, pos 70, [])
unfolding acknowledge answer seen entries entries_from entry_at full_ring store write_head ring
    new_ack_window find_straight find_wrapped take_straight take_wrapped reset elapsed to_int32
answered = refl

run_calls-Refines_example :
    Refines
      (run_calls (store_call 200 (pos 6) (pos 60) ∷ acknowledge_call 250 (pos 6) (pos 0) ∷ []) ring)
      (run_entries ring.size
        (store_call 200 (pos 6) (pos 60) ∷ acknowledge_call 250 (pos 6) (pos 0) ∷ [])
        (entries ring))
run_calls-Refines_example =
    run_calls-Refines (store_call 200 (pos 6) (pos 60) ∷ acknowledge_call 250 (pos 6) (pos 0) ∷ [])
      ring ring-IsValid

-- A packet arrives 500 after the last one.
unfoldable arrivals : TimeWindow
unfolding new_time_window on_pkt_arrival
arrivals = on_pkt_arrival 1500 (new_time_window 1000 4 4)

arrivals-Forward : Forward arrivals.pkt_window × (total arrivals.pkt_window < 2 ^ 31)
unfolding arrivals on_pkt_arrival new_time_window filled elapsed to_int32
arrivals-Forward = omega arith

get_pkt_rcv_speed-IsSpeed_example :
    Returns NoFault (get_pkt_rcv_speed fixed arrivals) (IsSpeed fixed)
get_pkt_rcv_speed-IsSpeed_example =
    get_pkt_rcv_speed-IsSpeed fixed arrivals arrivals-Forward.0 arrivals-Forward.1

-- The new entry is filtered out, and the others lie a second apart.
one_per_second : get_pkt_rcv_speed fixed arrivals ≡ ok (pos 1)
unfolding get_pkt_rcv_speed speed_of filter_sum median_of sort insert_sorted upper_of lower_of
    arrivals on_pkt_arrival new_time_window filled advance_ptr elapsed to_int32 div_ℤ ◌*ℤ◌ ◌+ℤ◌ ◌-ℤ◌
    quotient scaled ceiled wrap_int32 to_u64
one_per_second = refl

-- Gaps of minutes: sixteen entries pass the filter, and their sum wraps to -2.
abbrev slow_gaps : List ℤ
slow_gaps =
    let a = pos 134217728 in
    let b = pos 441001106 in a ∷ a ∷ a ∷ a ∷ a ∷ a ∷ a ∷ a ∷ a ∷ b ∷ b ∷ b ∷ b ∷ b ∷ b ∷ b ∷ []

slow_arrivals :
    get_pkt_rcv_speed fixed (record (new_time_window 0 16 64) { pkt_window = slow_gaps })
    ≡ err division_by_zero
unfolding get_pkt_rcv_speed speed_of filter_sum median_of sort insert_sorted upper_of lower_of
    new_time_window filled wrap_int32 to_u64 to_int32 div_ℤ ◌*ℤ◌ ◌+ℤ◌ ◌-ℤ◌
slow_arrivals = refl
