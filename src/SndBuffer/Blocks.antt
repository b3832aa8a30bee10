-- ===== src/SndBuffer/Blocks.antt =====
-- core/buffer.{h,cpp}, `CSndBuffer`: a circle of blocks, linked by `next`, and a circle of the
-- buffers that hold them. Blocks and buffers are numbered in the order of their allocation. Each
-- buffer has `unit_size` blocks and knows the one with the number 0 (`first_block`), and
-- `first_offset` (`FirstBlock`) is the number of the first block of the data. A block's bytes and
-- other members are one record. The lock is held throughout each call.
use pcc_uspace.Base.{
  ℕ, zero, suc, ◌+◌, ◌-◌, ◌/◌, ◌%◌, Bool, true, false, Option, none, some, List, [], ltb, ◌==◌,
  if◌then◌else◌,
}
use Prim.Native.Nat.{bit_and}
use pcc_uspace.Base.Int.{ℤ, pos, negsuc, ◌-ℤ◌}

pub record Block : Type 0 where
  pub payload : List ℕ
  pub msg_no : ℕ
  pub origin_time : ℕ
  pub ttl : ℤ

-- A new block, whose members the code does not set before `addBuffer` does.
abbrev pub empty_block : Block
empty_block = record { payload = []; msg_no = 0; origin_time = 0; ttl = negsuc 0 }

pub record SndBuffer : Type 0 where
  pub block : ℕ → Block
  pub buffer_no : ℕ → ℕ
  pub next : ℕ → ℕ
  pub buffer_next : ℕ → ℕ
  pub first_block : ℕ → ℕ
  pub unit_size : ℕ
  pub first : ℕ
  pub current : ℕ
  pub last : ℕ
  pub first_buffer : ℕ
  pub buffer_ender : ℕ
  pub first_offset : ℕ
  pub next_msg_no : ℕ
  pub size : ℕ
  pub mss : ℕ
  pub count : ℤ

-- The constructor: one buffer, whose blocks form the circle.
unfoldable pub new_snd_buffer : ℕ → ℕ → SndBuffer
new_snd_buffer size mss = record {
  block = λ i. empty_block;
  buffer_no = λ i. i;
  next = λ i. if i + 1 == size then 0 else i + 1;
  buffer_next = λ i. 0;
  first_block = λ i. 0;
  unit_size = size;
  first = 0;
  current = 0;
  last = 0;
  first_buffer = 0;
  buffer_ender = 0;
  first_offset = 0;
  next_msg_no = 1;
  size = size;
  mss = mss;
  count = pos 0;
}

-- `n` steps along a circle.
unfoldable pub advance : (ℕ → ℕ) → ℕ → ℕ → ℕ
advance f zero i = i
advance f (suc n) i = advance f n (f i)

-- The block that `ackData` and the second `readData` reach behind `offset` others: through the
-- buffers where the offset leaves the first one.
unfoldable pub seek : SndBuffer → ℕ → ℕ
unfolding advance
seek b offset =
    let movement = (b.first_offset + offset) / b.unit_size in
    if movement == 0
    then advance b.next offset b.first
    else advance b.next ((b.first_offset + offset) % b.unit_size)
        (b.first_block (advance b.buffer_next movement b.first_buffer))

unfoldable pub ack_data : ℕ → SndBuffer → SndBuffer
unfolding seek advance ◌-ℤ◌
ack_data offset b = record b {
  first_buffer = advance b.buffer_next ((b.first_offset + offset) / b.unit_size) b.first_buffer;
  first_offset = (b.first_offset + offset) % b.unit_size;
  first = seek b offset;
  count = b.count -ℤ pos offset;
}

-- What a read gives: the bytes, the message number, and for an expired message its length.
pub data Reading : Type 0 where
  nothing : Reading
  bytes : List ℕ → ℕ → Reading
  expired : ℕ → ℕ → Reading

-- The first `readData`.
unfoldable pub read_data : SndBuffer → Reading × SndBuffer
read_data b = if b.current == b.last then (nothing, b) else (
  bytes (b.block b.current).payload (b.block b.current).msg_no,
  record b { current = b.next b.current },
)

abbrev pub message_of : Block → ℕ
message_of k = bit_and k.msg_no 0x1FFFFFFF

-- The loop of the second `readData` over the blocks of an expired message, with the flag `move` and
-- the current block; `fuel` bounds the blocks of the circle. A message that fills the circle would
-- be walked for ever.
unfoldable pub skip_message : ℕ → SndBuffer → ℕ → ℕ → Bool → ℕ → Option (ℕ × SndBuffer)
skip_message zero b msgno p move len = none
skip_message (suc fuel) b msgno p move len =
    let move' = if p == b.current then true else move in
    let p' = b.next p in
    let b' = if move' then record b { current = p' } else b in
    let rest = skip_message fuel b' msgno p' move' (len + 1) in
    if message_of (b.block p) == msgno then rest else some (len, b)

abbrev pub expired_at : ℕ → Block → Bool
expired_at now k = elim k.ttl [
  | pos ttl ↦ ltb ttl ((now - k.origin_time) / 1000)
  | negsuc n ↦ false
]

unfoldable pub skip_from : ℕ → SndBuffer → ℕ → Option (Reading × SndBuffer)
unfolding skip_message
skip_from fuel b p =
    let msgno = message_of (b.block p) in
    elim (skip_message fuel b msgno (b.next p) false 1) [
      | none ↦ none
      | some (len, b') ↦ some (expired msgno len, b')
    ]

-- The second `readData`, for a retransmission `offset` blocks behind the first; the clock does not
-- run backwards.
unfoldable pub read_data_at : ℕ → ℕ → ℕ → SndBuffer → Option (Reading × SndBuffer)
unfolding seek skip_from
read_data_at fuel now offset b =
    let p = seek b offset in
    let dropped = skip_from fuel b p in
    if expired_at now (b.block p)
    then dropped
    else some (bytes (b.block p).payload (b.block p).msg_no, b)
