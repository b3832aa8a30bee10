-- ===== src/Windows/Arrivals.antt =====
-- core/window.{h,cpp}, `CPktTimeWindow`: two rings of times between packets, and the rates that are
-- estimated from them. The entries are `int`s of microseconds; the shift by 3, the sums and the
-- results wrap as an `int` does. `nth_element` leaves at an index what the sorted array has there.
use pcc_uspace.Base.{
  ℕ, zero, suc, ◌+◌, ◌-◌, ◌/◌, ◌&&◌, not, List, [], ◌∷◌, ltb, ◌==◌, if◌then◌else◌, get_or, set,
  take,
}
use pcc_uspace.Base.Int.{ℤ, pos, negsuc, ◌+ℤ◌, ◌-ℤ◌, ◌*ℤ◌, ltb_ℤ, eqb_ℤ}
use pcc_uspace.Base.Result.{Result, ok, ◌>>◌, check, division_by_zero}
use pcc_uspace.Floats.{Floats}
use pcc_uspace.Quic.Time.{div_ℤ}
use pcc_uspace.Windows.Int32.{elapsed, wrap_int32}

pub record TimeWindow : Type 0 where
  pub aw_size : ℕ
  pub pkt_window : List ℤ
  pub pkt_window_ptr : ℕ
  pub pw_size : ℕ
  pub probe_window : List ℤ
  pub probe_window_ptr : ℕ
  pub last_sent_time : ℤ
  pub min_pkt_snd_int : ℤ
  pub last_arr_time : ℕ
  pub curr_arr_time : ℕ
  pub probe_time : ℕ

-- An array of a size with one value everywhere.
unfoldable pub filled : ℤ → ℕ → List ℤ
filled x zero = []
filled x (suc n) = x ∷ filled x n

unfoldable pub new_time_window : ℕ → ℕ → ℕ → TimeWindow
unfolding filled
new_time_window now asize psize = record {
  aw_size = asize;
  pkt_window = filled (pos 1000000) asize;
  pkt_window_ptr = 0;
  pw_size = psize;
  probe_window = filled (pos 1000) psize;
  probe_window_ptr = 0;
  last_sent_time = pos 0;
  min_pkt_snd_int = pos 1000000;
  last_arr_time = now;
  curr_arr_time = 0;
  probe_time = 0;
}

unfoldable pub get_min_pkt_snd_int : TimeWindow → ℤ
get_min_pkt_snd_int w = w.min_pkt_snd_int

unfoldable pub on_pkt_sent : ℤ → TimeWindow → TimeWindow
unfolding ◌-ℤ◌ wrap_int32
on_pkt_sent currtime w =
    let interval = wrap_int32 (currtime -ℤ w.last_sent_time) in
    record w {
      min_pkt_snd_int =
          if ltb_ℤ interval w.min_pkt_snd_int && ltb_ℤ (pos 0) interval
          then interval
          else w.min_pkt_snd_int;
      last_sent_time = currtime;
    }

-- The index behind an index, or 0 at the end.
unfoldable pub advance_ptr : ℕ → ℕ → ℕ
advance_ptr ptr size = if ptr + 1 == size then 0 else ptr + 1

unfoldable pub on_pkt_arrival : ℕ → TimeWindow → TimeWindow
unfolding elapsed advance_ptr
on_pkt_arrival now w = record w {
  curr_arr_time = now;
  pkt_window = set w.pkt_window w.pkt_window_ptr (elapsed now w.last_arr_time);
  pkt_window_ptr = advance_ptr w.pkt_window_ptr w.aw_size;
  last_arr_time = now;
}

unfoldable pub probe1_arrival : ℕ → TimeWindow → TimeWindow
probe1_arrival now w = record w { probe_time = now }

unfoldable pub probe2_arrival : ℕ → TimeWindow → TimeWindow
unfolding elapsed advance_ptr
probe2_arrival now w = record w {
  curr_arr_time = now;
  probe_window = set w.probe_window w.probe_window_ptr (elapsed now w.probe_time);
  probe_window_ptr = advance_ptr w.probe_window_ptr w.pw_size;
}

-- A sorted list with one element more, and a list in order.
unfoldable pub insert_sorted : ℤ → List ℤ → List ℤ
insert_sorted x [] = x ∷ []
insert_sorted x (y ∷ l) = let rest = insert_sorted x l in if ltb_ℤ y x then y ∷ rest else x ∷ y ∷ l

unfoldable pub sort : List ℤ → List ℤ
unfolding insert_sorted
sort [] = []
sort (x ∷ l) = insert_sorted x (sort l)

-- The median of all entries of the array but the last.
unfoldable pub median_of : ℕ → List ℤ → ℤ
unfolding sort
median_of size l = get_or (sort (take (size - 1) l)) (size / 2) (pos 0)

-- `median << 3` and `median >> 3`, which rounds down.
unfoldable pub upper_of : ℤ → ℤ
unfolding ◌*ℤ◌ wrap_int32
upper_of median = wrap_int32 (median *ℤ pos 8)

unfoldable pub lower_of : ℤ → ℤ
lower_of (pos n) = pos (n / 8)
lower_of (negsuc n) = negsuc (n / 8)

-- The loop of the median filter: how many entries lie between the limits, and their sum.
unfoldable pub filter_sum : ℤ → List ℤ → ℕ → ℤ → ℕ × ℤ
unfolding upper_of lower_of ◌+ℤ◌ wrap_int32
filter_sum median [] count sum = (count, sum)
filter_sum median (x ∷ l) count sum =
    let inside = ltb_ℤ x (upper_of median) && ltb_ℤ (lower_of median) x in
    filter_sum median l (if inside then count + 1 else count)
      (if inside then wrap_int32 (sum +ℤ x) else sum)

module _ (fl : Floats) where
  open fl use {of_int64, literal64, div64, ceil64}

  unfoldable pub speed_of : ℕ → ℕ → ℤ → Result ℤ
  unfolding div_ℤ wrap_int32
  speed_of size count sum =
      if ltb (size / 2) count
      then check (not (eqb_ℤ (div_ℤ sum count) (pos 0))) division_by_zero
        >> ok (wrap_int32 (ceil64 (div64 (literal64 1000000 0) (of_int64 (div_ℤ sum count)))))
      else ok (pos 0)

  unfoldable pub get_pkt_rcv_speed : TimeWindow → Result ℤ
  unfolding median_of filter_sum speed_of
  get_pkt_rcv_speed w =
      let (count, sum) = filter_sum (median_of w.aw_size w.pkt_window) w.pkt_window 0 (pos 0) in
      speed_of w.aw_size count sum

  unfoldable pub get_bandwidth : TimeWindow → ℤ
  unfolding median_of filter_sum wrap_int32
  get_bandwidth w =
      let median = median_of w.pw_size w.probe_window in
      let (count, sum) = filter_sum median w.probe_window 1 median in
      wrap_int32
        (ceil64 (div64 (literal64 1000000 0) (div64 (of_int64 sum) (of_int64 (pos count)))))
