-- ===== src/Tests/Numbers.antt =====
-- The sequence numbers of core/common.h on concrete numbers, around the wrap.
use pcc_uspace.Base.{◌+◌, ◌≡◌, ◌<◌, refl, arith}
use pcc_uspace.Base.Int.{pos, pos_part}
use pcc_uspace.SeqNo.{
  max_seq_no, seqcmp, seqlen, seqoff, incseq_by, msgoff, msgcmp, incmsg, max_msg_no,
}
use pcc_uspace.SeqNo.Laws.{incseq_by-seqoff, seqoff-incseq_by}

msgoff_wrapped : msgoff max_msg_no 4 ≡ pos 5
unfolding msgoff
msgoff_wrapped = refl

msgcmp_wrapped : msgcmp 4 (incmsg max_msg_no) ≡ pos 4
unfolding msgcmp incmsg
msgcmp_wrapped = refl

incseq_by-seqoff_example :
    (seqoff max_seq_no (incseq_by max_seq_no 3) ≡ pos 3)
    × (seqlen max_seq_no (incseq_by max_seq_no 3) ≡ 3 + 1)
    × (0 < pos_part (seqcmp (incseq_by max_seq_no 3) max_seq_no))
incseq_by-seqoff_example = incseq_by-seqoff max_seq_no 3 (omega arith) (omega arith) (omega arith)

seqoff_wrapped : seqoff max_seq_no 2 ≡ pos 3
unfolding seqoff
seqoff_wrapped = refl

seqoff-incseq_by_example : incseq_by max_seq_no 3 ≡ 2
seqoff-incseq_by_example =
    seqoff-incseq_by max_seq_no 2 (omega arith) (omega arith) 3 seqoff_wrapped
