-- ===== src/SeqNo.antt =====
-- core/common.h, `CSeqNo`, `CAckNo` and `CMsgNo`: numbers that wrap to 0 behind a largest one. The
-- classes have the same bodies over other constants, so those are written once, over the
-- threshold `th` and the largest number `max_no`. A number is an `int32_t` that is not negative;
-- a difference is an integer, since no intermediate value of the bodies leaves 32 bits on two such
-- numbers but in `len` where the first is the second plus one.
pub mod Laws
use pcc_uspace.Base.{ℕ, Bool, ◌+◌, ◌-◌, leb, ltb, ◌==◌, if◌then◌else◌, zero, suc}
use pcc_uspace.Base.Int.{ℤ, pos, sub_ℕ}

-- `abs(a - b)`.
abbrev pub distance : ℕ → ℕ → ℕ
distance a b = if leb a b then b - a else a - b

unfoldable pub cmp : ℕ → ℕ → ℕ → ℤ
cmp th a b = if ltb (distance a b) th then sub_ℕ a b else sub_ℕ b a

unfoldable pub len : ℕ → ℕ → ℕ → ℕ
len max_no a b = if leb a b then b - a + 1 else b + max_no + 2 - a

unfoldable pub off : ℕ → ℕ → ℕ → ℕ → ℤ
off th max_no a b =
    if ltb (distance a b) th
    then sub_ℕ b a
    else if ltb a b
    then sub_ℕ b (a + max_no + 1)
    else sub_ℕ (b + max_no + 1) a

unfoldable pub inc : ℕ → ℕ → ℕ
inc max_no a = if a == max_no then 0 else a + 1

unfoldable pub dec : ℕ → ℕ → ℕ
dec max_no a = if a == 0 then max_no else a - 1

-- `incseq(seq, inc)`: in the second branch `seq` exceeds the largest number less `by`.
unfoldable pub inc_by : ℕ → ℕ → ℕ → ℕ
inc_by max_no a by = if leb by (max_no - a) then a + by else a + by - 1 - max_no

-- The constants of core.cpp, with `seq_no_th * 2 + 1` below the largest number.
abbrev pub seq_no_th : ℕ
seq_no_th = 1073741823

abbrev pub max_seq_no : ℕ
max_seq_no = 2147483647

abbrev pub max_ack_seq_no : ℕ
max_ack_seq_no = 2147483647

abbrev pub msg_no_th : ℕ
msg_no_th = 268435455

abbrev pub max_msg_no : ℕ
max_msg_no = 536870911

unfoldable pub seqcmp : ℕ → ℕ → ℤ
unfolding cmp
seqcmp = cmp seq_no_th

unfoldable pub seqlen : ℕ → ℕ → ℕ
unfolding len
seqlen = len max_seq_no

unfoldable pub seqoff : ℕ → ℕ → ℤ
unfolding off
seqoff = off seq_no_th max_seq_no

unfoldable pub incseq : ℕ → ℕ
unfolding inc
incseq = inc max_seq_no

unfoldable pub decseq : ℕ → ℕ
unfolding dec
decseq = dec max_seq_no

unfoldable pub incseq_by : ℕ → ℕ → ℕ
unfolding inc_by
incseq_by = inc_by max_seq_no

unfoldable pub incack : ℕ → ℕ
unfolding inc
incack = inc max_ack_seq_no

unfoldable pub msgcmp : ℕ → ℕ → ℤ
unfolding cmp
msgcmp = cmp msg_no_th

unfoldable pub msglen : ℕ → ℕ → ℕ
unfolding len
msglen = len max_msg_no

unfoldable pub msgoff : ℕ → ℕ → ℤ
unfolding off
msgoff = off msg_no_th max_msg_no

unfoldable pub incmsg : ℕ → ℕ
unfolding inc
incmsg = inc max_msg_no
