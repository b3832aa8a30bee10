-- ===== src/SndBuffer/Circle.antt =====
-- core/buffer.cpp, `CSndBuffer`: the circle of blocks, and the short way of `ackData` and `readData`
-- through the buffers against a walk along the blocks.
use pcc_uspace.Base.{
  ℕ, zero, suc, ◌+◌, ◌-◌, ◌*◌, ◌/◌, ◌%◌, ◌<◌, ◌≡◌, refl, sym, ap, ◌∙◌, arith, ◌==◌, inl, inr,
  Bool-cases, if◌then◌else◌,
}
use native.Mathlib.Nat.{div-add-mod, mod-lt}
use pcc_uspace.SndBuffer.Blocks.{SndBuffer, advance, seek, ack_data, new_snd_buffer}

-- Along the circle, from the start of the first buffer, stand the blocks `at i` and the buffers
-- `holder j`; each buffer knows where its blocks start.
pub record IsCircle (b : SndBuffer) : Type 0 where
  pub at : ℕ → ℕ
  pub holder : ℕ → ℕ
  pub sized : 0 < b.unit_size
  pub linked : (i : ℕ) → b.next (at i) ≡ at (suc i)
  pub chained : (j : ℕ) → b.buffer_next (holder j) ≡ holder (suc j)
  pub starts : (j : ℕ) → b.first_block (holder j) ≡ at (b.unit_size * j)
  pub first_holder : b.first_buffer ≡ holder 0
  pub inside : b.first_offset < b.unit_size
  pub first_at : b.first ≡ at b.first_offset

-- A walk along places that `f` links.
advance-linked :
    (f at : ℕ → ℕ) (n i : ℕ) → ((k : ℕ) → f (at k) ≡ at (suc k)) → advance f n (at i) ≡ at (i + n)
unfolding advance
advance-linked f at zero i h = ap at (omega arith)
advance-linked f at (suc n) i h =
    ap (advance f n) (h i) ∙ advance-linked f at n (suc i) h ∙ ap at (omega arith)

module _ (b : SndBuffer) (c : IsCircle b) (o : ℕ) where
  far_start :
      b.first_block (advance b.buffer_next ((b.first_offset + o) / b.unit_size) b.first_buffer)
      ≡ c.at (b.unit_size * ((b.first_offset + o) / b.unit_size))
  far_start =
      ap (λ k. b.first_block (advance b.buffer_next ((b.first_offset + o) / b.unit_size) k))
        c.first_holder
      ∙ ap b.first_block (advance-linked b.buffer_next c.holder _ 0 c.chained)
      ∙ c.starts _
      ∙ ap (λ k. c.at (b.unit_size * k)) (omega arith)

  split :
      b.unit_size * ((b.first_offset + o) / b.unit_size) + (b.first_offset + o) % b.unit_size
      ≡ b.first_offset + o
  split = div-add-mod _ _

  seek-at : seek b o ≡ c.at (b.first_offset + o)
  unfolding seek
  seek-at = elim (Bool-cases ((b.first_offset + o) / b.unit_size == 0)) [
    | inl near ↦ rw (near, c.first_at) (advance-linked b.next c.at o b.first_offset c.linked)
    | inr far ↦
        rw (far, far_start)
          (advance-linked b.next c.at ((b.first_offset + o) % b.unit_size) _ c.linked
            ∙ ap c.at split)
  ]

  -- The short way leads to the block that a walk of `o` steps leads to.
  pub seek-advance : seek b o ≡ advance b.next o b.first
  seek-advance =
      seek-at
      ∙ sym
          (ap (advance b.next o) c.first_at ∙ advance-linked b.next c.at o b.first_offset c.linked)

  -- The circle that starts at the buffer of the new first block.
  ack_data-IsCircle : IsCircle (ack_data o b)
  unfolding ack_data
  ack_data-IsCircle =
      let m = (b.first_offset + o) / b.unit_size in
      record {
        at = λ i. c.at (b.unit_size * m + i);
        holder = λ j. c.holder (m + j);
        sized = c.sized;
        linked = λ i. c.linked (b.unit_size * m + i) ∙ ap c.at (omega arith);
        chained = λ j. c.chained (m + j) ∙ ap c.holder (omega arith);
        starts = λ j. c.starts (m + j) ∙ ap c.at (grind arith);
        first_holder =
            ap (advance b.buffer_next m) c.first_holder
            ∙ advance-linked b.buffer_next c.holder m 0 c.chained
            ∙ ap c.holder (omega arith);
        inside = mod-lt _ c.sized;
        first_at = seek-at ∙ ap c.at (sym split);
      }

-- The constructor's circle goes round one buffer.
around : ℕ → ℕ → ℕ
around n zero = 0
around n (suc i) = if around n i + 1 == n then 0 else around n i + 1

around_inside : (n base i : ℕ) → around n base ≡ 0 → i < n → around n (base + i) ≡ i
unfolding around
around_inside n base zero h p = ap (around n) (omega arith) ∙ h
around_inside n base (suc i) h p =
    let e : base + suc i ≡ suc (base + i) = omega arith in
    rw (e, around_inside n base i h (omega arith)) (ground arith)

around_start : (n j : ℕ) → 0 < n → around n (n * j) ≡ 0
unfolding around
around_start n zero p = let e : n * 0 ≡ 0 = omega arith in ap (around n) e
around_start n (suc j) p =
    let e : n * suc j ≡ suc (n * j + (n - 1)) = grind arith in
    rw (e, around_inside n (n * j) (n - 1) (around_start n j p) (omega arith)) (ground arith)

pub new_snd_buffer-IsCircle : (size mss : ℕ) → 0 < size → IsCircle (new_snd_buffer size mss)
unfolding new_snd_buffer around
new_snd_buffer-IsCircle size mss p = record {
  at = around size;
  holder = λ j. 0;
  sized = p;
  linked = λ i. refl;
  chained = λ j. refl;
  starts = λ j. sym (around_start size j p);
  first_holder = refl;
  inside = p;
  first_at = refl;
}

-- On a circle of blocks, `ackData` moves the first block as many steps along the circle as packets
-- are acknowledged, and leaves a circle.
pub ack_data-advance :
    (b : SndBuffer) (o : ℕ)
    → IsCircle b
    → ((ack_data o b).first ≡ advance b.next o b.first) × IsCircle (ack_data o b)
unfolding ack_data
ack_data-advance b o c = (seek-advance b c o, ack_data-IsCircle b c o)
