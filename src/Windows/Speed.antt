-- ===== src/Windows/Speed.antt =====
-- core/window.cpp, `CPktTimeWindow`: what the median filter lets through, and the estimated speed.
use mathlib.Core.Path.{subst}
use native.Mathlib.Nat.{le-div_iff_mul-le}
use pcc_uspace.Base.{
  ℕ, zero, suc, sym, ◌-◌, ◌^◌, All, take, get_or, Bool-cases, ◌+◌, ◌/◌, ◌<◌, ◌≤◌, ◌≡◌, ◌⊎◌, inl,
  inr, refl, Bool, true, false, not, ◌&&◌, List, [], ◌∷◌, ltb, arith, if◌then◌else◌,
}
use pcc_uspace.Base.Int.{ℤ, pos_part, eq_of_parts, pos, negsuc, ◌+ℤ◌, ◌≤ℤ◌, ltb_ℤ, eqb_ℤ, +ℤ_parts}
use pcc_uspace.Base.Result.{ok, Returns, NoFault, check-Returns, if-Returns, division_by_zero}
use pcc_uspace.Floats.{Floats}
use pcc_uspace.Quic.Time.{div_ℤ}
use pcc_uspace.Quic.Bandwidth.{to_u64}
use pcc_uspace.Windows.Int32.{to_int32, wrap_int32}
use pcc_uspace.Windows.Arrivals.{
  insert_sorted, sort, TimeWindow, upper_of, lower_of, filter_sum, median_of, speed_of,
  get_pkt_rcv_speed,
}

-- No gap is negative.
abbrev pub Forward : List ℤ → Type 0
Forward l = All (λ x. pos 0 ≤ℤ x) l

-- The microseconds of all gaps.
abbrev pub total : List ℤ → ℕ
total [] = 0
total (x ∷ l) = pos_part x + total l

insert_sorted-Forward : (x : ℤ) (l : List ℤ) → pos 0 ≤ℤ x → Forward l → Forward (insert_sorted x l)
unfolding insert_sorted
insert_sorted-Forward x [] p h = (p, tt)
insert_sorted-Forward x (y ∷ l) p h = elim (Bool-cases (ltb_ℤ y x)) [
  | inl t ↦ rw t (h.0, insert_sorted-Forward x l p h.1)
  | inr f ↦ rw f (p, h)
]

sort-Forward : (l : List ℤ) → Forward l → Forward (sort l)
unfolding sort
sort-Forward [] h = tt
sort-Forward (x ∷ l) h = insert_sorted-Forward x (sort l) h.0 (sort-Forward l h.1)

take-Forward : (n : ℕ) (l : List ℤ) → Forward l → Forward (take n l)
take-Forward zero l h = tt
take-Forward (suc n) [] h = tt
take-Forward (suc n) (x ∷ l) h = (h.0, take-Forward n l h.1)

get_or-Forward : (l : List ℤ) (i : ℕ) → Forward l → pos 0 ≤ℤ get_or l i (pos 0)
get_or-Forward [] i h = omega arith
get_or-Forward (x ∷ l) zero h = h.0
get_or-Forward (x ∷ l) (suc i) h = get_or-Forward l i h.1

median_of-nonneg : (size : ℕ) (l : List ℤ) → Forward l → pos 0 ≤ℤ median_of size l
unfolding median_of
median_of-nonneg size l h =
    get_or-Forward (sort (take (size - 1) l)) (size / 2)
      (sort-Forward (take (size - 1) l) (take-Forward (size - 1) l h))

-- Above an eighth of a median that is not negative there are only positive entries.
filtered_pos :
    (median : ℤ) (k : ℕ)
    → pos 0 ≤ℤ median
    → ltb_ℤ (pos k) (upper_of median) && ltb_ℤ (lower_of median) (pos k) ≡ true
    → 1 ≤ k
unfolding lower_of
filtered_pos (pos m) k n h = ground (arith, h)
filtered_pos (negsuc m) k n h = absurd (omega (arith, n))

wrap_int32_small : (n : ℕ) → n < 2 ^ 31 → wrap_int32 (pos n) ≡ pos n
unfolding wrap_int32 to_u64 to_int32
wrap_int32_small n h = ground (arith, h)

sum_small : (s k : ℕ) → s + k < 2 ^ 31 → wrap_int32 (pos s +ℤ pos k) ≡ pos (s + k)
sum_small s k h =
    let e : pos s +ℤ pos k ≡ pos (s + k) =
      eq_of_parts _ _ (omega (arith, +ℤ_parts (pos s) (pos k))) in
    rw e (wrap_int32_small (s + k) h)

-- One round, for an entry that is let through or not.
sum_chosen :
    (b : Bool) (s k : ℕ)
    → s + k < 2 ^ 31
    → (if b then wrap_int32 (pos s +ℤ pos k) else pos s) ≡ pos (if b then s + k else s)
sum_chosen true s k h = sum_small s k h
sum_chosen false s k h = refl

counted :
    (b : Bool) (count s k : ℕ)
    → count ≤ s
    → (b ≡ true → 1 ≤ k)
    → (if b then count + 1 else count) ≤ (if b then s + k else s)
counted true count s k h p = omega (arith, h, p refl)
counted false count s k h p = h

room :
    (b : Bool) (s k rest : ℕ) → s + (k + rest) < 2 ^ 31 → (if b then s + k else s) + rest < 2 ^ 31
room true s k rest h = omega (arith, h)
room false s k rest h = omega (arith, h)

-- As long as the sum fits an `int`, it stays at least the number of entries.
filter_sum_le :
    (median : ℤ) (l : List ℤ) (count s : ℕ)
    → pos 0 ≤ℤ median
    → Forward l
    → count ≤ s
    → s + total l < 2 ^ 31
    → pos (filter_sum median l count (pos s)).0 ≤ℤ (filter_sum median l count (pos s)).1
unfolding filter_sum
filter_sum_le median [] count s n f h fits = omega (arith, h)
filter_sum_le median (negsuc k ∷ l) count s n f h fits = absurd (omega (arith, f.0))
filter_sum_le median (pos k ∷ l) count s n f h fits =
    let inside = ltb_ℤ (pos k) (upper_of median) && ltb_ℤ (lower_of median) (pos k) in
    let count' = if inside then count + 1 else count in
    subst (λ z. pos (filter_sum median l count' z).0 ≤ℤ (filter_sum median l count' z).1)
      (sym (sum_chosen inside s k (omega (arith, fits))))
      (filter_sum_le median l count' (if inside then s + k else s) n f.1
        (counted inside count s k h (filtered_pos median k n)) (room inside s k (total l) fits))

whole : (count s : ℕ) → 0 < count → count ≤ s → 1 ≤ s / count
whole count s c h = (le-div_iff_mul-le {k = count} {x = 1} {y = s} c).1 (omega (arith, h))

-- The quotient that the code divides by is positive.
quotient_pos : (count : ℕ) (sum : ℤ) → 0 < count → pos count ≤ℤ sum → pos 1 ≤ℤ div_ℤ sum count
unfolding div_ℤ
quotient_pos count (pos s) c h = omega (arith, whole count s c (omega (arith, h)))
quotient_pos count (negsuc s) c h = ground arith

module _ (fl : Floats) where
  open fl use {of_int64, literal64, div64, ceil64}

  -- The speed is 0, or a million divided by a positive number.
  unfoldable pub IsSpeed : ℤ → Type 0
  IsSpeed r =
      (r ≡ pos 0)
      ⊎ ((d : ℤ) × (pos 1 ≤ℤ d)
          × (r ≡ wrap_int32 (ceil64 (div64 (literal64 1000000 0) (of_int64 d)))))

  speed_of-IsSpeed :
      (size count : ℕ) (sum : ℤ)
      → pos count ≤ℤ sum
      → Returns NoFault (speed_of fl size count sum) IsSpeed
  unfolding speed_of IsSpeed
  speed_of-IsSpeed size count sum h =
      if-Returns NoFault (ltb (size / 2) count) _ (ok (pos 0)) IsSpeed
        (λ enough.
          check-Returns NoFault (not (eqb_ℤ (div_ℤ sum count) (pos 0))) division_by_zero
            (ok (wrap_int32 (ceil64 (div64 (literal64 1000000 0) (of_int64 (div_ℤ sum count))))))
            IsSpeed (ground (arith, quotient_pos count sum (ground arith) h))
            (inr (div_ℤ sum count, quotient_pos count sum (ground arith) h, refl)))
        (λ few. inl refl)

  -- On a window whose gaps are not negative and add up to less than 2 ^ 31 microseconds,
  -- `get_pkt_rcv_speed` does not divide by zero: it gives 0, or a million divided by a positive
  -- number and rounded up, as an `int`.
  pub get_pkt_rcv_speed-IsSpeed :
      (w : TimeWindow)
      → Forward w.pkt_window
      → total w.pkt_window < 2 ^ 31
      → Returns NoFault (get_pkt_rcv_speed fl w) IsSpeed
  unfolding get_pkt_rcv_speed
  get_pkt_rcv_speed-IsSpeed w f fits =
      let median = median_of w.aw_size w.pkt_window in
      speed_of-IsSpeed w.aw_size _ _ (
        filter_sum_le median w.pkt_window 0 0 (median_of-nonneg w.aw_size w.pkt_window f) f
          (omega arith) (omega (arith, fits)))
