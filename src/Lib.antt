-- ===== src/Lib.antt =====
-- Verification of monoio, a thread-per-core asynchronous runtime, and of monet, a web framework on
-- it.
--
-- The runtime spawns a future as a task (crates/monoio/src/task): a cell with a packed state word,
-- shared by the run queue (crates/monoio/src/scheduler.rs), by wakers and by a join handle. Its
-- io_uring driver (crates/monoio/src/driver/uring) keeps the operations in flight in a slab
-- (crates/monoio/src/utils/slab.rs), where the kernel and the future of an operation share an entry;
-- its other driver keeps for each source what it is ready for and who waits for it
-- (crates/monoio/src/driver/scheduled_io.rs). Timers wait on a hashed wheel
-- (crates/monoio/src/time/driver), whose slots are intrusive lists
-- (crates/monoio/src/utils/linked_list.rs), until the driver fires them. A descriptor is shared by
-- the operations on it (crates/monoio/src/driver/shared_fd.rs), which hand buffers that they own
-- (crates/monoio/src/buf) to the kernel; readers and writers with a buffer stand on these
-- (crates/monoio/src/io). monet finds the handler of a request by path and method
-- (crates/monet/src/routing).
--
-- Files:
--   Prelude: numbers, tests, lists, bit operations on words (Prelude/Bits), and words by their digits
--     (Prelude/Words).
--   Task/State: task/state.rs, each transition by the bit operations of the source, and the loops
--     `fetch_update_action` and `fetch_update` with the list of values that other threads leave
--     between attempts. Flags reads a word as a count and five flags, Spec says what a transition
--     does to these, Refine relates the two, Swaps is about the loops.
--   Task/Cell: task/core.rs, with the run queue, sent wakers and woken wakers as counters beside the
--     cell. Every access to a cell that was given back is `none`, and so is a panic.
--   Task/Harness: task/harness.rs, join.rs, waker.rs and mod.rs, one function for each; Invariant is
--     what holds of the word, the stage and the counters, Wakes, Polls and Joins preserve it;
--     Queues says where a wake takes a task at rest.
--   Task/System: the holders of references as events, each making the calls that its reference
--     allows, and what holds after any of them (Sound, Arrives, Safety).
--   Slab: utils/slab.rs, a page in Slab/Page with its list of vacant slots (Chain), and the map of
--     keys and elements that Insert and Remove change. `none` is undefined behaviour, an overflow or
--     a failed debug assertion.
--   Driver/Lifecycle: driver/uring/lifecycle.rs with its callers in uring/mod.rs and op.rs.
--   Driver/ScheduledIo: driver/ready.rs and scheduled_io.rs.
--   Time/Interval: time/interval.rs, instants as nanoseconds.
--   Time/Entry: time/driver/entry.rs, the state cell of a timer with its cached time.
--   Time/Wheel: time/driver/wheel/mod.rs, and Time/Wheel/Level: wheel/level.rs. A timer is a number,
--     the wheel holds the timers that its lists link, and a list is the sequence of its timers
--     (EntryList). LevelFor is about `level_for`, Level/Fine and Level/Next about one level; Fine is
--     what holds of the wheel, with some timers taken off it; Next, Take, Expire, Link, Process and
--     Poll follow a poll, Off, Remove and Insert the other calls.
--   Time/Driver: time/driver/mod.rs, with `TimerEntry::reset`; Fire, Served, Process and Fine are about
--     `process_at_time`, Register and Reset about the registration of timers.
--   Utils/LinkedList: utils/linked_list.rs over a heap of pointers. Segment is about chains of nodes,
--     Refine, Remove and PopBack about the sequence that the pointers carry, with the operations of
--     EntryList.
--   Driver/SharedFd: driver/shared_fd.rs, the holders of a descriptor and the kernel as events; Sound
--     is about when it is closed, Waits about a close that has to wait.
--   Io: the traits of crates/monoio/src/io as interfaces, a reader (Io/Reader) with a stream that is
--     still to be read, a buffered reader (Io/BufRead) and a writer (Io/Writer) with a sink, and a
--     count of interruptions to come. Buf is buf/io_buf.rs and slice.rs, and IoVec buf/vec_wrapper.rs;
--     Reader/Exact, Numbers, BufRead/Until and Writer/All are the extension traits, BufReader,
--     BufWriter, Prefixed and Copy the files of io/util, and Reader/Slice and Writer/Memory the readers
--     and writers in memory. RoundTrip puts a BufWriter and a BufReader together.
--   Monet/MethodRouter and Monet/Router: routing/method_router.rs and routing/router.rs. Named is about
--     the endpoints of paths, Registers about what `process_route` does with them.
--
-- Bounds: words have 64 bits; the system of a task keeps fewer than 2 ^ 56 wakers at a time, so that
-- the count, below 2 ^ 58, never overflows the word. The loop of an insertion runs over the at most
-- 26 pages from the cached one, the loop of a swap over the list of values seen, and `bit_length`
-- over 64 bits, so that no function stops early. A poll of the wheel has one unit of fuel for each
-- millisecond up to the present, since each expiration moves its clock, and the driver needs one unit
-- more than there are registered timers. A loop that reads or writes has one unit for each byte of
-- the stream or the buffer and one for each interruption, or more. Times of timers are below 2 ^ 62,
-- and a timer is less than a rotation of the last level (2 ^ 36 milliseconds) away.
--
-- Parameters: what a future does when it is polled (the calls it makes on its waker, its new state
-- and its output), the test `will_wake`, and the path tree of the `matchit` package, of which it is
-- relied on that nothing matches when it is empty and that an insertion makes only its own value
-- reachable. Hash maps are functions, and the test of two paths is a parameter, of which it is relied
-- on that it is equality. `memchr` finds the first delimiter, `from_utf8` accepts or rejects; a reader
-- or a writer from outside of the crate keeps the laws of its interface, and is interrupted finitely
-- often.
--
-- The system of a task has the feature sync, which is not among the default ones: without it a wake on
-- another thread of a task that is not yet notified panics.
--
-- Transitions of a task are taken one at a time: the handlers of two threads interleave at events,
-- not within a handler. A panic of a join waker, which the source catches, is a panic. Not modelled:
-- parking and sleeping on the clock, networking, files, vectored and cancelable reads and writes, the
-- system calls, tower layers, and the request and response types of monet.
pub mod Driver
pub mod Io
pub mod Monet
pub mod Prelude
pub mod Slab
pub mod Task
pub mod Time
pub mod Utils
