-- ===== src/SeqNo/Laws.antt =====
-- How the sequence numbers of core/common.h step, compare and measure.
use pcc_uspace.Base.{ℕ, ◌+◌, ◌≤◌, ◌<◌, ◌≡◌, arith, zero, suc}
use pcc_uspace.Base.Int.{pos, pos_part}
use pcc_uspace.SeqNo.{
  cmp, len, off, inc, dec, inc_by, max_seq_no, seq_no_th, seqcmp, seqlen, seqoff, incseq, decseq,
  incseq_by,
}

-- A sequence number is the predecessor of its successor and the successor of its predecessor.
pub incseq-decseq : (s : ℕ) → s ≤ max_seq_no → (decseq (incseq s) ≡ s) × (incseq (decseq s) ≡ s)
unfolding incseq decseq inc dec
incseq-decseq s h = (ground arith, ground arith)

-- The successor, `k` times.
abbrev pub incseq_times : ℕ → ℕ → ℕ
incseq_times s zero = s
incseq_times s (suc k) = incseq (incseq_times s k)

-- Adding a sequence number `k` to another is `k` times its successor.
pub incseq_by-incseq_times :
    (s k : ℕ) → s ≤ max_seq_no → k ≤ max_seq_no → incseq_by s k ≡ incseq_times s k
unfolding incseq_by inc_by incseq inc
incseq_by-incseq_times s zero h l = ground arith
incseq_by-incseq_times s (suc k) h l = ground (arith, incseq_by-incseq_times s k h (omega arith))

incseq_by-bound : (s k : ℕ) → s ≤ max_seq_no → k ≤ max_seq_no → incseq_by s k ≤ max_seq_no
unfolding incseq_by inc_by
incseq_by-bound s k h l = ground arith

-- For a positive `k` below the threshold, the number `k` steps behind a sequence number `s` has
-- offset `k` from `s`, makes a range of `k + 1` numbers with it, and compares as the later one,
-- also where it wrapped.
pub incseq_by-seqoff :
    (s k : ℕ)
    → s ≤ max_seq_no
    → 0 < k
    → k < seq_no_th
    → (seqoff s (incseq_by s k) ≡ pos k)
      × (seqlen s (incseq_by s k) ≡ k + 1)
      × (0 < pos_part (seqcmp (incseq_by s k) s))
unfolding incseq_by inc_by seqoff off seqlen len seqcmp cmp
incseq_by-seqoff s k h p l = (ground arith, ground arith, ground arith)

-- Where the offset from one sequence number to another is not negative, adding it to the first
-- gives the second.
pub seqoff-incseq_by :
    (a b : ℕ) → a ≤ max_seq_no → b ≤ max_seq_no → (k : ℕ) → seqoff a b ≡ pos k → incseq_by a k ≡ b
unfolding seqoff off incseq_by inc_by
seqoff-incseq_by a b h l k e = ground arith
