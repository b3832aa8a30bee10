-- ===== src/SndList/Rising.antt =====
-- core/queue.cpp, the loop of `insert_`: the new entry rises to its place.
use mathlib.Core.Logic.{◌≢◌}
use pcc_uspace.Base.{
  ℕ, zero, suc, ◌≤◌, ◌<◌, ◌≡◌, none, some, arith, ltb, ◌==◌, Bool-cases, inl, inr, refl, ap,
}
use pcc_uspace.Base.Places.{is_some}
use pcc_uspace.SndList.Heap.{SndList, key, parent, lift, rise}
use pcc_uspace.SndList.Order.{IsHeap}

-- The schedule while `u` stands at `q`, unknown to its node and perhaps too early for the place.
pub record IsRising (u : ℕ) (l : SndList) (q : ℕ) : Type 0 where
  pub within : q < l.count
  pub held : l.heap q ≡ u
  pub absent : l.loc u ≡ none
  pub placed : (i : ℕ) → i < l.count → i ≢ q → l.loc (l.heap i) ≡ some i
  pub inside : (v i : ℕ) → l.loc v ≡ some i → i < l.count
  pub found : (v i : ℕ) → l.loc v ≡ some i → l.heap i ≡ v
  pub edges : (c : ℕ) → 0 < c → c < l.count → c ≢ q → key l (parent c) ≤ key l c
  pub bridged : (c : ℕ) → 0 < c → c < l.count → parent c ≡ q → 0 < q → key l (parent q) ≤ key l c

module _ (u : ℕ) (l : SndList) (q : ℕ) (r : IsRising u l q) (pos : 0 < q) where
  apart : (i : ℕ) → i < l.count → i ≢ parent q → i ≢ q → l.heap i ≢ l.heap (parent q)
  apart i h n m e = ground (arith, r.placed i h m, r.placed (parent q), r.within, ap l.loc e)

  lift-placed :
      (i : ℕ)
      → i < l.count
      → i ≢ parent q
      → (lift (parent q) q l).loc ((lift (parent q) q l).heap i) ≡ some i
  unfolding lift
  lift-placed i h n =
      ground (arith, apart i h n, r.placed i h, r.placed (parent q), r.within, r.held)

  lift-IsRising : key l q < key l (parent q) → IsRising u (lift (parent q) q l) (parent q)
  unfolding lift
  lift-IsRising below = record {
    within = omega (arith, r.within);
    held = ground (arith, r.held);
    absent = ground (arith, r.placed (parent q), r.within, r.absent);
    placed = lift-placed;
    inside = λ v i h. ground (arith, r.inside v i, r.placed (parent q), r.within);
    found = λ v i h. ground (arith, r.found v i, r.placed (parent q), r.within, r.held, r.absent);
    edges = λ c p n m. ground (arith, r.edges c, r.bridged c, r.edges q);
    bridged = λ c p n m z. ground (arith, r.edges c, r.edges (parent q));
  }

-- What the loop leaves, with the place where `u` stands.
pub record IsRaised (u : ℕ) (l : SndList) (l' : SndList) (q : ℕ) : Type 0 where
  pub rising : IsRising u l' q
  pub ordered : IsHeap l'
  pub same_time : l'.time ≡ l.time
  pub same_count : l'.count ≡ l.count
  pub same_length : l'.array_length ≡ l.array_length
  pub same_nodes : (v : ℕ) → is_some (l'.loc v) ≡ is_some (l.loc v)

IsRaised-lift :
    (u : ℕ) (l : SndList) (q : ℕ) (l' : SndList) (q' : ℕ)
    → IsRising u l q
    → 0 < q
    → IsRaised u (lift (parent q) q l) l' q'
    → IsRaised u l l' q'
unfolding lift
IsRaised-lift u l q l' q' r pos h = record {
  rising = h.rising;
  ordered = h.ordered;
  same_time = h.same_time;
  same_count = h.same_count;
  same_length = h.same_length;
  same_nodes = λ v. ground (arith, h.same_nodes v, r.placed (parent q), r.within);
}

-- Where the loop stops.
stay-IsRaised :
    (u : ℕ) (l : SndList) (q : ℕ)
    → IsRising u l q
    → (0 < q → key l (parent q) ≤ key l q)
    → IsRaised u l l q
stay-IsRaised u l q r h = record {
  rising = r;
  ordered = λ c p n. ground (arith, r.edges c, h);
  same_time = refl;
  same_count = refl;
  same_length = refl;
  same_nodes = λ v. refl;
}

pub rise-IsRaised :
    (k q u : ℕ) (l : SndList) → q ≤ k → IsRising u l q → IsRaised u l (rise k q l).0 (rise k q l).1
unfolding rise
rise-IsRaised zero q u l f r = stay-IsRaised u l q r (λ p. absurd (omega arith))
rise-IsRaised (suc k) q u l f r = elim (Bool-cases (q == 0)) [
  | inl e ↦ rw e (stay-IsRaised u l q r (λ p. absurd (ground arith)))
  | inr e ↦ elim (Bool-cases (ltb (key l q) (key l (parent q)))) [
    | inl less ↦
        rw (e, less)
          (IsRaised-lift u l q _ _ r (ground arith) (
            rise-IsRaised k (parent q) u (lift (parent q) q l) (ground arith)
              (lift-IsRising u l q r (ground arith) (ground arith))))
    | inr more ↦ rw (e, more) (stay-IsRaised u l q r (λ p. ground arith))
  ]
]
