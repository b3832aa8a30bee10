-- ===== src/SndList/Removing.antt =====
-- core/queue.cpp, `CSndUList::remove_`: a node is taken out of a schedule.
use pcc_uspace.Base.{
  ℕ, zero, suc, ◌+◌, ◌-◌, ◌≤◌, ◌<◌, ◌≡◌, ◌≢◌, ◌⊎◌, ◌↔◌, inl, inr, none, some, arith, refl, ap,
}
use native.Mathlib.Decide.{dec_lt}
use pcc_uspace.Base.Places.{is_some}
use pcc_uspace.SndList.Heap.{
  SndList, key, parent, smaller_child, exchange, fill, sink, forget, wake_single, remove_node,
}
use pcc_uspace.SndList.Order.{IsHeap, IsIndexed}
use pcc_uspace.SndList.Sinking.{IsPlaced, IsSinking, sink-IsSunk, sink-IsHeap}

-- The schedule `l'` is `l` without `u`.
pub record IsRemoved (u : ℕ) (l l' : SndList) : Type 0 where
  pub absent : l'.loc u ≡ none
  pub same_nodes : (v : ℕ) → v ≢ u → is_some (l'.loc v) ≡ is_some (l.loc v)
  pub same_time : l'.time ≡ l.time
  pub less : l'.count + 1 ≡ l.count
  pub same_length : l'.array_length ≡ l.array_length

smaller_child_above : (q : ℕ) (l : SndList) → q < smaller_child q l
unfolding smaller_child
smaller_child_above q l = ground arith

exchange_above : (q p : ℕ) (l : SndList) (i : ℕ) → i < q → i < p → key (exchange p q l) i ≡ key l i
unfolding exchange
exchange_above q p l i h k = ground arith

exchange_here : (q p : ℕ) (l : SndList) → key (exchange p q l) q ≡ key l p
unfolding exchange
exchange_here q p l = ground arith

module _ (u h : ℕ) (l : SndList) (at : l.loc u ≡ some h) (x : IsIndexed l) where
  fill-IsPlaced : IsPlaced u (fill h l)
  unfolding fill
  fill-IsPlaced = record {
    placed = λ i p.
        ground (arith, x.placed i, x.placed (l.count - 1), ap l.loc (x.found u h at), x.inside u h);
    gone = λ i p e.
        ground (arith, x.placed i, x.placed (l.count - 1), x.inside u h at, at, ap l.loc e);
    inside = λ v i n e. ground (arith, x.inside v i, x.found v i, x.inside u h at, x.found u h at);
    found = λ v i n e. ground (arith, x.inside v i, x.found v i, x.inside u h at, x.found u h at);
  }

  fill-nodes : (v : ℕ) → v ≢ u → is_some ((fill h l).loc v) ≡ is_some (l.loc v)
  unfolding fill
  fill-nodes v n = ground (arith, x.placed (l.count - 1), x.inside u h at)

  fill-IsSinking :
      IsHeap l → (0 < h → key l (parent h) ≤ key l (l.count - 1)) → IsSinking (fill h l) h
  unfolding fill
  fill-IsSinking o f = record {
    edges = λ c p n e. ground (arith, o c, f, x.inside u h at);
    bridged = λ c p n e z. ground (arith, o c, o h, x.inside u h at);
  }

-- The places are right behind a removal, wherever the node stood.
pub remove_node-IsIndexed :
    (u h : ℕ) (l : SndList)
    → l.loc u ≡ some h
    → IsIndexed l
    → IsIndexed (remove_node u l) × IsRemoved u l (remove_node u l)
unfolding remove_node forget wake_single fill
remove_node-IsIndexed u h l at x =
    let s = sink-IsSunk l.count h u (fill h l) (fill-IsPlaced u h l at x) in
    let y = s.places in
    rw (at, remove_node)
      (
        record {
          placed = λ i p. ground (arith, y.placed i, y.gone i);
          inside = λ v i e. ground (arith, y.inside v i);
          found = λ v i e. ground (arith, y.found v i);
        },
        record {
          absent = ground arith;
          same_nodes = λ v n. ground (arith, s.same_nodes v, fill-nodes u h l at x v n);
          same_time = s.same_time;
          less = omega (arith, s.same_count, x.inside u h at);
          same_length = s.same_length;
        },
      )

-- The loop leaves the places above its own alone, and puts no later entry there.
sink_above : (k q : ℕ) (l : SndList) (i : ℕ) → i < q → key (sink k q l) i ≡ key l i
unfolding sink
sink_above zero q l i h = refl
sink_above (suc k) q l i h =
    let p = smaller_child q l in
    let rest = sink_above k p (exchange p q l) i (omega (arith, smaller_child_above q l)) in
    ground (arith, rest, exchange_above q p l i, smaller_child_above q l)

sink_here : (k q : ℕ) (l : SndList) → key (sink k q l) q ≤ key l q
unfolding sink
sink_here zero q l = omega arith
sink_here (suc k) q l =
    let p = smaller_child q l in
    ground (arith, sink_above k p (exchange p q l) q, exchange_here q p l, smaller_child_above q l)

module _ (u h : ℕ) (l : SndList) (at : l.loc u ≡ some h) (x : IsIndexed l) where
  remove_node-IsHeap :
      IsHeap l → (h ≡ 0) ⊎ (key l (parent h) ≤ key l (l.count - 1)) → IsHeap (remove_node u l)
  unfolding remove_node forget wake_single fill
  remove_node-IsHeap o f =
      rw (at, remove_node)
        (sink-IsHeap l.count h (fill h l) (omega arith)
          (fill-IsSinking u h l at x o (λ p. ground (arith, f))))

  remove_node-late :
      IsHeap l → 0 < h → key l (l.count - 1) < key l (parent h) → ¬ (IsHeap (remove_node u l))
  unfolding remove_node forget wake_single fill
  remove_node-late o p late bad =
      let l' = sink l.count h (fill h l) in
      let edge : (h < l'.count → key l' (parent h) ≤ key l' h) = rw (at, remove_node) at bad h p in
      let s = sink-IsSunk l.count h u (fill h l) (fill-IsPlaced u h l at x) in
      ground (
        arith,
        edge,
        o h,
        x.inside u h at,
        s.same_count,
        sink_here l.count h (fill h l),
        sink_above l.count h (fill h l) (parent h),
      )

  -- In a schedule in order, whose nodes know their places, the order survives the removal of the
  -- node at place `h` exactly if that is the first place or the last entry is not earlier than the
  -- one above the place.
  pub remove_node-IsHeap_iff :
      IsHeap l → IsHeap (remove_node u l) ↔ ((h ≡ 0) ⊎ (key l (parent h) ≤ key l (l.count - 1)))
  remove_node-IsHeap_iff o = (
    λ kept. elim (dec_lt (key l (l.count - 1)) (key l (parent h))) [
      | no fine ↦ inr (omega arith)
      | yes late ↦ elim (dec_lt 0 h) [
        | yes p ↦ absurd (remove_node-late o p late kept)
        | no z ↦ inl (omega arith)
      ]
    ],
    remove_node-IsHeap o,
  )
