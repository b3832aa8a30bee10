-- ===== src/SndBuffer/Growth.antt =====
-- core/buffer.cpp, `CSndBuffer`: how data come in, and how the circle grows. Allocation succeeds.
use pcc_uspace.Base.{
  ℕ, zero, suc, ◌+◌, ◌-◌, ◌/◌, ◌%◌, ◌&&◌, Bool, true, false, List, length, take, drop, ltb, leb,
  ◌==◌, if◌then◌else◌,
}
use Prim.Native.Nat.{bit_or}
use pcc_uspace.Base.Int.{ℤ, pos, ◌+ℤ◌, ltb_ℤ}
use pcc_uspace.Base.Places.{update}
use pcc_uspace.SndBuffer.Blocks.{Block, empty_block, SndBuffer}

-- The loops of `increase` that look for the predecessor of `goal`; `fuel` bounds the circle.
unfoldable pub before : ℕ → (ℕ → ℕ) → ℕ → ℕ → ℕ
before zero f goal i = i
before (suc fuel) f goal i = let rest = before fuel f goal (f i) in if f i == goal then i else rest

-- `increase`: a buffer of `unit_size` blocks, which are numbered on from the first block of the
-- data, goes in front of that block. The new blocks and the new buffer take the next numbers.
unfoldable pub increase : SndBuffer → SndBuffer
unfolding before
increase b =
    let n = b.unit_size in
    let k = b.buffer_no b.first in
    let ender = before b.size b.buffer_next b.first_buffer b.buffer_ender in
    let prev =
      before b.size b.next b.first
        (if k == 0 then b.first_block ender else b.first_block b.first_buffer) in
    let new = b.size / n in
    let start = b.size in
    let zeroth = if k == 0 then start else start + (n - k) in
    record b {
      block = λ i. if leb start i && ltb i (start + n) then empty_block else b.block i;
      buffer_no =
          λ i. if leb start i && ltb i (start + n) then (k + (i - start)) % n else b.buffer_no i;
      next = λ i.
          if i == prev
          then start
          else if leb start i && ltb i (start + n)
          then (if i + 1 == start + n then b.first else i + 1)
          else b.next i;
      buffer_next = update (update b.buffer_next new (b.buffer_next ender)) ender new;
      first_block =
          if k == 0
          then update b.first_block new zeroth
          else update (update b.first_block new (b.first_block b.first_buffer)) b.first_buffer
              zeroth;
      buffer_ender = new;
      size = b.size + n;
    }

-- The loop `while (size + m_iCount >= m_iSize) increase()`; each round adds a block at least.
unfoldable pub grow : ℕ → ℕ → SndBuffer → SndBuffer
unfolding increase ◌+ℤ◌
grow zero wanted b = b
grow (suc fuel) wanted b =
    let rest = grow fuel wanted (increase b) in
    if ltb_ℤ (pos wanted +ℤ b.count) (pos b.size) then b else rest

-- The number of a packet's message, with the bits for order, the first and the last packet.
unfoldable pub msg_word : ℕ → Bool → Bool → Bool → ℕ
msg_word n order is_first is_last =
    let word = bit_or n (if order then 0x20000000 else 0) in
    let word' = if is_first then bit_or word 0x80000000 else word in
    if is_last then bit_or word' 0x40000000 else word'

unfoldable pub put_block : Block → SndBuffer → SndBuffer
put_block k b = record b {
  block = update b.block b.last k;
  last = b.next b.last;
  next_msg_no = b.next_msg_no + 1;
}

-- The loop of `addBuffer` over the rounds that are left.
unfoldable pub put_blocks : ℕ → Bool → List ℕ → ℕ → ℤ → Bool → SndBuffer → SndBuffer
unfolding put_block msg_word
put_blocks zero is_first bytes now ttl order b = b
put_blocks (suc n) is_first bytes now ttl order b =
    put_blocks n false (drop b.mss bytes) now ttl order (
      put_block
        (record {
          payload = take b.mss bytes;
          msg_no = msg_word b.next_msg_no order is_first (n == 0);
          origin_time = now;
          ttl = ttl;
        })
        b)

abbrev pub blocks_for : ℕ → ℕ → ℕ
blocks_for len mss = if len % mss == 0 then len / mss else len / mss + 1

unfoldable pub add_buffer : List ℕ → ℕ → ℤ → Bool → SndBuffer → SndBuffer
unfolding grow put_blocks ◌+ℤ◌
add_buffer bytes now ttl order b =
    let wanted = blocks_for (length bytes) b.mss in
    let b' = put_blocks wanted true bytes now ttl order (grow (wanted + b.size) wanted b) in
    record b' { count = b'.count +ℤ pos wanted }
