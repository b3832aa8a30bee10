-- ===== src/SndList/Sinking.antt =====
-- core/queue.cpp, the loop of `remove_`: the entry that filled the free place sinks to its own.
use pcc_uspace.Base.{
  ℕ, zero, suc, ◌+◌, ◌*◌, ◌≤◌, ◌<◌, ◌≡◌, ◌≢◌, ◌⊎◌, some, arith, ltb, Bool-cases, inl, inr, refl, ap,
  ◌∙◌,
}
use pcc_uspace.Base.Places.{is_some}
use pcc_uspace.SndList.Heap.{SndList, key, parent, exchange, smaller_child, sink}
use pcc_uspace.SndList.Order.{IsHeap}

-- The places of the nodes while `u`, which is no longer in the heap, still names an old place.
pub record IsPlaced (u : ℕ) (l : SndList) : Type 0 where
  pub placed : (i : ℕ) → i < l.count → l.loc (l.heap i) ≡ some i
  pub gone : (i : ℕ) → i < l.count → l.heap i ≢ u
  pub inside : (v i : ℕ) → v ≢ u → l.loc v ≡ some i → i < l.count
  pub found : (v i : ℕ) → v ≢ u → l.loc v ≡ some i → l.heap i ≡ v

-- The order, but that the entry at `q` may be too late for its place.
pub record IsSinking (l : SndList) (q : ℕ) : Type 0 where
  pub edges : (c : ℕ) → 0 < c → c < l.count → parent c ≢ q → key l (parent c) ≤ key l c
  pub bridged : (c : ℕ) → 0 < c → c < l.count → parent c ≡ q → 0 < q → key l (parent q) ≤ key l c

-- `m` is the earlier child of `q`.
record IsSmallerChild (l : SndList) (q m : ℕ) : Type 0 where
  inside : m < l.count
  child : parent m ≡ q
  below : q < m
  least : (c : ℕ) → 0 < c → c < l.count → parent c ≡ q → key l m ≤ key l c

smaller_child-IsSmallerChild :
    (q : ℕ) (l : SndList) → q * 2 + 1 < l.count → IsSmallerChild l q (smaller_child q l)
unfolding smaller_child
smaller_child-IsSmallerChild q l h = record {
  inside = ground arith;
  child = ground arith;
  below = ground arith;
  least = λ c p n e.
      let side : (c ≡ q * 2 + 1) ⊎ (c ≡ q * 2 + 1 + 1) = ground arith in ground (arith, side);
}

module _ (u : ℕ) (l : SndList) (p q : ℕ) (x : IsPlaced u l) (hp : p < l.count) (hq : q < l.count)
    (ne : p ≢ q) where
  distinct : (i j : ℕ) → i < l.count → j < l.count → i ≢ j → l.heap i ≢ l.heap j
  distinct i j hi hj n e = ground (arith, x.placed i, x.placed j, ap l.loc e)

  exchange-placed : (i : ℕ) → i < l.count → (exchange p q l).loc ((exchange p q l).heap i) ≡ some i
  unfolding exchange
  exchange-placed i h =
      ground (arith, distinct p q hp hq, distinct i p h hp, distinct i q h hq, x.placed i)

  exchange-IsPlaced : IsPlaced u (exchange p q l)
  unfolding exchange
  exchange-IsPlaced = record {
    placed = exchange-placed;
    gone = λ i h. ground (arith, x.gone i, x.gone p, x.gone q, hp, hq);
    inside = λ v i n e. ground (arith, x.inside v i, hp, hq);
    found = λ v i n e. ground (arith, x.found v i, x.placed p, x.placed q, hp, hq);
  }

  exchange-nodes : (v : ℕ) → is_some ((exchange p q l).loc v) ≡ is_some (l.loc v)
  unfolding exchange
  exchange-nodes v = ground (arith, x.placed p, x.placed q, hp, hq)

module _ (l : SndList) (q m : ℕ) (s : IsSmallerChild l q m) where
  exchange-IsSinking : IsSinking l q → key l m < key l q → IsSinking (exchange m q l) m
  unfolding exchange
  exchange-IsSinking v late = record {
    edges = λ c p n e.
        ground (arith, v.edges c, v.bridged m, s.least c, s.child, s.inside, s.below, v.bridged c);
    bridged = λ c p n e z. ground (arith, v.edges c, s.child, s.inside, s.below);
  }

exchange_count : (l : SndList) (p q : ℕ) → (exchange p q l).count ≡ l.count
unfolding exchange
exchange_count l p q = refl

-- What the loop leaves alone, in any order of the heap.
pub record IsSunk (u : ℕ) (l l' : SndList) : Type 0 where
  pub places : IsPlaced u l'
  pub same_time : l'.time ≡ l.time
  pub same_count : l'.count ≡ l.count
  pub same_length : l'.array_length ≡ l.array_length
  pub same_nodes : (v : ℕ) → is_some (l'.loc v) ≡ is_some (l.loc v)

IsSunk-self : (u : ℕ) (l : SndList) → IsPlaced u l → IsSunk u l l
IsSunk-self u l x = record {
  places = x;
  same_time = refl;
  same_count = refl;
  same_length = refl;
  same_nodes = λ v. refl;
}

IsSunk-exchange :
    (u p q : ℕ) (l l' : SndList)
    → IsPlaced u l
    → p < l.count
    → q < l.count
    → p ≢ q
    → IsSunk u (exchange p q l) l'
    → IsSunk u l l'
unfolding exchange
IsSunk-exchange u p q l l' x hp hq ne s = record {
  places = s.places;
  same_time = s.same_time;
  same_count = s.same_count;
  same_length = s.same_length;
  same_nodes = λ v. s.same_nodes v ∙ exchange-nodes u l p q x hp hq ne v;
}

pub sink-IsSunk : (k q u : ℕ) (l : SndList) → IsPlaced u l → IsSunk u l (sink k q l)
unfolding sink
sink-IsSunk zero q u l x = IsSunk-self u l x
sink-IsSunk (suc k) q u l x = elim (Bool-cases (ltb (q * 2 + 1) l.count)) [
  | inr leaf ↦ rw leaf (IsSunk-self u l x)
  | inl h ↦
      let m = smaller_child q l in
      let s = smaller_child-IsSmallerChild q l (ground arith) in
      elim (Bool-cases (ltb (key l m) (key l q))) [
        | inr good ↦ rw (h, good) (IsSunk-self u l x)
        | inl late ↦
            let hq : q < l.count = ground arith in
            let ne : m ≢ q = λ e. absurd (omega (arith, s.below, e)) in
            rw (h, late)
              (IsSunk-exchange u m q l _ x s.inside hq ne
                (sink-IsSunk k m u (exchange m q l) (exchange-IsPlaced u l m q x s.inside hq ne)))
      ]
]

-- With a round for each place below `q`, the order is restored.
pub sink-IsHeap : (k q : ℕ) (l : SndList) → l.count ≤ k + q → IsSinking l q → IsHeap (sink k q l)
unfolding sink
sink-IsHeap zero q l f v = λ c p n. ground (arith, v.edges c)
sink-IsHeap (suc k) q l f v = elim (Bool-cases (ltb (q * 2 + 1) l.count)) [
  | inr leaf ↦ rw leaf (λ c p n. ground (arith, v.edges c))
  | inl h ↦
      let m = smaller_child q l in
      let s = smaller_child-IsSmallerChild q l (ground arith) in
      elim (Bool-cases (ltb (key l m) (key l q))) [
        | inr good ↦ rw (h, good) (λ c p n. ground (arith, v.edges c, s.least c))
        | inl late ↦
            rw (h, late)
              (sink-IsHeap k m (exchange m q l) (omega (arith, s.below, exchange_count l m q))
                (exchange-IsSinking l q m s v (ground arith)))
      ]
]
