-- ===== src/Windows/Ack.antt =====
-- core/window.{h,cpp}, `CACKWindow`: three arrays used as one ring. Each function takes the time.
use pcc_uspace.Base.{
  ℕ, zero, suc, ◌+◌, ◌-◌, ◌%◌, Option, none, some, List, leb, ◌==◌, if◌then◌else◌, get_or, set,
}
use pcc_uspace.Base.Int.{ℤ, pos, negsuc, eqb_ℤ}
use pcc_uspace.Windows.Int32.{elapsed}

pub record AckWindow : Type 0 where
  pub ack_seq_nos : List ℤ
  pub acks : List ℤ
  pub time_stamps : List ℕ
  pub size : ℕ
  pub head : ℕ
  pub tail : ℕ

-- The constructor; the arrays are as the allocation leaves them.
unfoldable pub new_ack_window : List ℤ → List ℤ → List ℕ → ℕ → AckWindow
new_ack_window seq_nos acks time_stamps size = record {
  ack_seq_nos = set seq_nos 0 (negsuc 0);
  acks = acks;
  time_stamps = time_stamps;
  size = size;
  head = 0;
  tail = 0;
}

-- The three writes of `store`, at the head.
unfoldable pub write_head : ℕ → ℤ → ℤ → AckWindow → AckWindow
write_head now seq ack w = record w {
  ack_seq_nos = set w.ack_seq_nos w.head seq;
  acks = set w.acks w.head ack;
  time_stamps = set w.time_stamps w.head now;
  head = (w.head + 1) % w.size;
}

-- The oldest entry is overwritten.
unfoldable pub forget_oldest : AckWindow → AckWindow
forget_oldest w = record w { tail = (w.tail + 1) % w.size }

unfoldable pub store : ℕ → ℤ → ℤ → AckWindow → AckWindow
unfolding write_head forget_oldest
store now seq ack w =
    let v = write_head now seq ack w in if v.head == v.tail then forget_oldest v else v

-- The two loops of `acknowledge`, n rounds from an index on: the index of the number sought.
unfoldable pub find_straight : ℤ → AckWindow → ℕ → ℕ → Option ℕ
find_straight seq w zero i = none
find_straight seq w (suc n) i =
    let rest = find_straight seq w n (i + 1) in
    if eqb_ℤ seq (get_or w.ack_seq_nos i (pos 0)) then some i else rest

unfoldable pub find_wrapped : ℤ → AckWindow → ℕ → ℕ → Option ℕ
find_wrapped seq w zero j = none
find_wrapped seq w (suc n) j =
    let rest = find_wrapped seq w n (j + 1) in
    if eqb_ℤ seq (get_or w.ack_seq_nos (j % w.size) (pos 0)) then some (j % w.size) else rest

-- An empty window: both indices are 0, and the first number is -1.
unfoldable pub reset : AckWindow → AckWindow
reset w = record w { ack_seq_nos = set w.ack_seq_nos 0 (negsuc 0); head = 0; tail = 0 }

-- What a match at an index leaves, in each of the branches.
unfoldable pub take_straight : ℕ → AckWindow → AckWindow
unfolding reset
take_straight i w = if i + 1 == w.head then reset w else record w { tail = (i + 1) % w.size }

unfoldable pub take_wrapped : ℕ → AckWindow → AckWindow
unfolding reset
take_wrapped j w = if j == w.head then reset w else record w { tail = (j + 1) % w.size }

-- The result, the value of `ack` after the call, and the window; `take` is one of the two above.
unfoldable pub answer :
    ℕ → ℤ → Option ℕ → (ℕ → AckWindow → AckWindow) → AckWindow → ℤ × ℤ × AckWindow
unfolding elapsed
answer now ack none take w = (negsuc 0, ack, w)
answer now ack (some i) take w =
    (elapsed now (get_or w.time_stamps i 0), get_or w.acks i (pos 0), take i w)

unfoldable pub acknowledge : ℕ → ℤ → ℤ → AckWindow → ℤ × ℤ × AckWindow
unfolding find_straight find_wrapped take_straight take_wrapped answer
acknowledge now seq ack w =
    if leb w.tail w.head
    then answer now ack (find_straight seq w (w.head - w.tail) w.tail) take_straight w
    else answer now ack (find_wrapped seq w (w.head + w.size - w.tail) w.tail) take_wrapped w
