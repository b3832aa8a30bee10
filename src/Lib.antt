-- ===== src/Lib.antt =====
-- PCC-Uspace, a userspace transport with the PCC congestion controllers on top of UDT.
--
-- The program. `src/pcc` holds the congestion controller. A sender (`PccSender`, and
-- `PccVivaceSender` that overrides its decisions) is told of each packet sent and of each event of
-- acknowledged and lost packets. It divides time into monitor intervals, kept by
-- `PccMonitorIntervalQueue`; when the utilities of all useful intervals are available, the queue
-- calls the sender back, which moves between STARTING, PROBING and DECISION_MADE and changes its
-- sending rate. `src/core` holds the transport. A connection (`CUDT`) queues packets in its tracker
-- and its send buffer; `packData` asks the controller and takes the next packet from the tracker;
-- `ProcessAck` and `checkTimers` tell the tracker and the controller what arrived and what was lost.
-- The list of sockets (`CSndUList`) says which connection packs when. Besides these, the sequence
-- numbers, the windows of ACKs and of arrival times, the packets' headers and the ring of received
-- packets are modelled.
--
-- The files, with the code that they model:
--   Quic, Quic/Time, Quic/Bandwidth   src/pcc/quic_types/*.h
--   IntervalQueue/Defs, Event         src/pcc/pcc_monitor_interval_queue.{h,cpp}; `Event` is
--                                     OnCongestionEvent, the loop's body is `visit`
--   IntervalQueue/Counts, Scanning,   the counters of the queue, its loop, the other operations,
--     Updates, Delivery               and the call of the delegate
--   Utility                           src/pcc/pcc_utility_manager.{h,cpp}: tags, parameters, and the
--                                     view of the manager that the sender takes
--   Utility/Stats, Metrics, Trends,   its members and constants, the metrics of an interval, the
--     Tolerance, Formulas, Evaluate   histories, the tolerances, the utility functions, and
--                                     CalculateUtility (`calculate_checked`)
--   Utility/Refinement, Histories,    a missing parameter and the manager as the sender takes it,
--     Runs, Judgement, Settings       repeated calls, the tolerances that one call leaves, setters
--   Sender/State, Rtt, Rates, Pcc,    src/pcc/pcc_sender.{h,cpp}; `send_packet` is OnPacketSent,
--     Events                          `receive_feedback` OnCongestionEvent
--   Sender/Vivace                     src/pcc/pcc_vivace_sender.{h,cpp}
--   Sender/Moves, Decisions,          the moves between modes, the invariant `IsSound`, the RTT
--     VivaceMoves, Soundness,         part of an event, whole events, packets sent, the least
--     Refresh, Feedback, Steering,    sending rate, the decisions by counts, and the connections
--     Sending, Floor, Choices, Runs   that a run reaches
--   SeqNo, SeqNo/Laws                 CSeqNo, CAckNo, CMsgNo of src/core/common.h
--   Tracker and its children          src/core/packet_tracker.h; `Life`, `Runs` hold the invariant
--                                     `IsTracked`, `Ready`, `Messages`, `Steps`, `Changes` that of
--                                     states and messages, `IsReady`, `Times` the map of sent times,
--                                     `Purging` the queues without deleted packets, `Counting` the
--                                     number of packets and the records that are read
--   SndList/Heap, Calls               CSndUList of src/core/queue.{h,cpp}: insert_ and remove_, and
--                                     the calls
--   SndList/Order, Rising, Inserting, its heap, what insert_ and remove_ do to it, and what the calls
--     Sinking, Removing, Schedule     leave
--   SndBuffer/Blocks, Growth          CSndBuffer of src/core/buffer.{h,cpp}: reads and
--                                     acknowledgements; addBuffer and increase
--   SndBuffer/Circle                  its circles of blocks and buffers
--   Core/Controller                   what src/core/core.cpp calls of the controller, as a record that
--                                     the connection takes, and the sender of src/pcc as such a record
--   Core/Sending, Acks                src/core/core.{h,cpp}: the loop of send, packData; ProcessAck,
--                                     add_to_loss_record, the search for losses of checkTimers
--   Core/Choice, Packing, Hearing,    the packet that packData takes, packData, ProcessAck, its last
--     LastAck, Losses, Settled, Runs  packet, the losses, the end of their search, and the connections
--                                     that a run reaches
--   Windows/Int32, Ack                CACKWindow of src/core/window.{h,cpp}
--   Windows/Entries, Store,           its ring as a list of entries, and the two operations on it
--     Searches, Acknowledge, Runs
--   Windows/Arrivals, Speed           CPktTimeWindow of the same files, and its estimate of speed
--   Packets/Header, HandShake         CPacket and CHandShake of src/core/packet.{h,cpp}
--   Packets/Laws, RoundTrip           what is read from a packet or handshake that was written
--   RcvBuffer/Ring                    CRcvBuffer of src/core/buffer.{h,cpp}, but for messages
--   RcvBuffer/Stream, Rounds,         the bytes that its ring holds, and how they are read
--     Reading
--   Base, Floats                      numbers, lists, results of calls; floating-point numbers
--   Tests                             runs on concrete inputs
--
-- How the code is read. A call is a function from a state to a `Result`: an `assert`, an
-- `exit(-1)`, or a read that C++ leaves undefined (the front of an empty container) is a `Fault`,
-- one constructor for each. `uint64_t` sums of bytes wrap (`% u64`). Times are integers and rates
-- natural numbers of bits per second, far below 2 ^ 63. The sender's virtual functions are chosen
-- by the field `variant`. `rand()` and the clock are arguments. The flags of pcc_sender.cpp are the
-- constants that the file sets. The floating-point numbers are the record `Floats`, and the
-- statistics and formulas of the utility manager the record `UtilityFunction`; both are parameters
-- of the sender's definitions, and what the proofs need of rounding is `RoundsWell`, which the tests
-- prove of decimal numbers with three places. The formulas themselves are written over `Floats`, with
-- the conversions between `float` and `double` where the code has them; `exp`, `pow`, `sqrt` and
-- `abs` are the overloads for the arguments' types. `pcc_utility` makes a `UtilityFunction` of them,
-- and its file proves the record's laws. The read of a parameter that was not set is the fault
-- `utility_parameter`, in the sender's calls as well; members that no constructor sets start as an
-- argument says. The arrays of the windows are lists of their size, and a header is its four words.
-- An `int` of the windows wraps: overflow is undefined in C++, and the machine keeps the low 32
-- bits. Of the tracker, each operation holds its lock and so is one step; its maps are lists of keys
-- and values, its priority queues sorted lists.
--
-- Bounds. The loops over rings are recursions on the number of rounds that the code's bounds allow;
-- `read_loop` is given the size of the data, since each round but the last frees a place. The
-- loop that looks for the next recorded sequence number runs at most up to the largest `int32_t`,
-- where the increment would overflow (`min_seq_overflow`).
-- In the heap of sockets, insert_ is given the new entry's place, which each round more than halves,
-- and remove_ the number of entries, since each round raises the place. Growth of the send buffer
-- is given the blocks that it needs at most, its walks along a circle the circle's size, and
-- `skip_message` says so where a message does not end within its fuel. The search for lost packets
-- is given the number of its rounds; each but the last takes an entry off the map of sent times.
--
-- Not modelled: the debug output of the utility manager, the parts of pcc_sender.cpp that the build
-- leaves out (QUIC configuration, debug state, bandwidth sampler), of the send buffer `resizeMSS`
-- and the reading from files, of the connection its setup, its receiving side and the timers of ACKs
-- and of expiration, and the rest of src/core (sockets, threads, messages, loss lists, caches, MD5)
-- and src/app.
pub mod Base
pub mod Floats
pub mod Quic
pub mod IntervalQueue
pub mod SeqNo
pub mod SndList
pub mod SndBuffer
pub mod Tracker
pub mod Utility
pub mod Windows
pub mod RcvBuffer
pub mod Packets
pub mod Tests
pub mod Sender
pub mod Core
