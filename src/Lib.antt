-- ===== src/Lib.antt =====
-- The message broker and its file system.
--
-- The program (p2) is a broker of messages. Clients write requests to the broker's register pipe;
-- the broker's main thread reads them (mbroker/mbroker.c, `listen_for_requests`) and puts them in a
-- bounded queue (producer-consumer/producer-consumer.c), from which worker threads take them. A
-- worker serves one session: it creates, removes or lists message boxes for a manager, appends the
-- messages of a publisher to a box, or sends the messages of a box to a subscriber. The boxes stand
-- in a table (mbroker/data.c), and their messages in files of a file system in memory, TecnicoFS
-- (fs/state.c for its tables, fs/operations.c for its calls). The clients are manager/manager.c,
-- publisher/pub.c and subscriber/sub.c. Messages are built with `requestcpy` (utils/pipeutils.c).
--
-- An earlier version of the file system (p1/fs) has hard and symbolic links, and a lock for each
-- table, inode and open file instead of one mutex.
--
-- Files:
--   Base        arrays as functions of the index, bytes and C strings, lists, Boolean tests
--   Tfs         p2/fs: State (state.h, and the accessors of state.c), Inodes, Dir, OpenFiles (state.c),
--               Init, Open, ReadWrite, Unlink (operations.c). Invariant says what a valid file system is,
--               Changes that the changes of state keep it, Returns what it is for a run to end well
--   Queue       p2/producer-consumer: the ring, whole calls (Fifo), overlapping calls (Calls, Race)
--   Wire        the messages: codes and builders, and their bytes in order (Layout)
--   Broker      p2/mbroker: reading requests (Listen), the responses (Listing, Replies), the table of
--               boxes (Boxes: Table its invariant, Steps the sequences of calls, Create and Sessions) and the
--               sessions: rounds of their loops (Sessions), and
--               the whole session of a publisher (Live, Whole)
--   Manager     p2/manager: reading the responses
--   Publisher   p2/publisher: `process_messages`, from the input to what is written (Lines)
--   Subscriber  p2/subscriber: `subscribe`, from what the broker sends to what is printed
--   Links       p1/fs: State (state.h, locks.c, and the accessors of state.c), Inodes, Dir, OpenFiles
--               (state.c), Init, Open, Names, ReadWrite, Import (operations.c). Invariant says what a valid
--               file system is, Lookup, Changes, Steps and Entry what its parts do and keep
--   Delivery    a line from the publisher's input to the subscriber's output
--
-- Correspondence. Functions and fields have the names of the source. An `int` that is -1 or a number
-- from 0 up is an `Option ℕ`. A call of the file system takes the static variables of state.c as a
-- record `Tfs`, and gives a `Run`: a result and a new state, `panic` for a failed ALWAYS_ASSERT, or
-- `fault` for undefined behaviour (an access out of bounds, a block read at another type than it was
-- written at, a pointer into tables that are not allocated). The sums of `size_t` in `tfs_write` and
-- `tfs_read` are taken modulo 2^64. The tables are functions of the index, since each access stands
-- behind a test of the index, which is kept. What `malloc` gives is a parameter.
--
-- Concurrency. The file system holds one mutex through each call, and the table of boxes one through
-- each of its calls, so a call is one step; `box_remove`, which waits for sessions to end, is the
-- steps before and after its waits. In p1 a call takes several locks; the model runs one thread,
-- with the list of the locks that it holds (`Held`), and a wait for a lock that is held is the
-- result `deadlock`. The queue releases its lock on the count between the two halves of a call, so
-- each half is a step there.
--
-- Loops over a table are recursion on the number of entries. The manager's loop over responses is
-- recursion on the number of bytes that are left, which is enough since each round reads at least
-- one. So are the publisher's loop over its input and the subscriber's over messages, with one round
-- more. The loop of p1's `tfs_open` over symbolic links has no bound in the source: it takes fuel,
-- and `looping` is the result when this runs out. The loop of
-- `tfs_copy_from_external_fs` has one round more than the source has bytes; what the file of the operating
-- system holds, and whether `fclose` succeeds, are parameters.
--
-- Not modelled: opening, closing and writing pipes, sleeping, signals and printing; the locks and
-- condition variables themselves (utils/locks.c); logging; the whole session of a subscriber, and
-- sessions that overlap; `data_kill`, which nothing calls; and several threads in p1's file system. Integers in
-- messages are taken with the lowest byte first. A `char` is signed, so that 255 and EOF are the
-- same in the publisher's loop.
pub mod Base
pub mod Tfs
pub mod Queue
pub mod Wire
pub mod Broker
pub mod Manager
pub mod Publisher
pub mod Subscriber
pub mod Delivery
pub mod Links
