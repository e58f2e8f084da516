-- ===== src/Lib.antt =====
-- fsyncer replicates a file system. The server (fsyncd/src/server, fsyncd/src/fuse_hl) sees each call
-- that changes the file system before it is made, sends it to the clients and writes it to a journal;
-- a client (fsyncd/src/client) makes the calls on its own copy; the journal (fsyncd/src/journal) can be
-- viewed and replayed, and merged into snapshots (fsyncd/src/snapshot).
--
-- Modules:
--   Base      shared names, Boolean tests, lists over native numbers, fallible results (`Outcome`), and
--             the laws of `bit_xor`
--   Common    fsyncd/src/common/mod.rs: calls, messages, paths, `xor_buf`; the bytes of integers and
--             files
--   Host      what the operating system answers, a parameter of the model, and the helpers of
--             fsyncd/src/journal/mod.rs
--   FileStore fsyncd/src/journal/filestore.rs: `recover`; Tokens the other operations, Space on the
--             loop of `store`, Stores on `store`. The fuel of that loop is a bound on its rounds: one
--             for each file is enough, and one more where the file is too large
--   Bilog     fsyncd/src/journal/bilog.rs, a child for each kind of entry; the theorems stand in
--             Bilog.Attributes, Names, Sizes, Writes and Values
--   Server    fsyncd/src/server: Connection for client.rs, what is kept of a client, `response_msg`,
--             `reader` and `wait`; Ops for mod.rs, `pre_op`, `post_op` and the frame of the operations
--             in fsyncd/src/fuse_hl/write_unix.rs; Gate its gate `CORK`, Threads its two threads
--   Replica   fsyncd/src/client/mod.rs: `read_msg` and `process_ops`
--   Wire      the stream between the two
--   Protocol  one operation with all its clients: what each is sent, in Answers what comes back, in
--             Journalled the journal's part, in Corked what the gate keeps, and in Harvested what
--             removing dead clients leaves
--   FrontEnd  `do_write` of fsyncd/src/fuse_hl/write_unix.rs; Diff on its diff writes; Requests the `do_`
--             functions: the call of each, and its system calls
--   Kernel    system calls and programs of them; Xmp for fsyncd/src/common/ops_unix.rs, Roots on paths
--             below a root, Running on two systems that are copies
--   Dispatch  fsyncd/src/client/dispatch_unix.rs; Same on the server's system calls and the client's,
--             Placed and Below on the client's root, Reporting and Codes on failures, Copies on whole
--             runs
--   Snapshot  fsyncd/src/snapshot/forward.rs: Ordered its maps, Space the free regions (Regions on
--             their addresses, Free on `allocate`, Front and Joined on `deallocate`), Encode
--             `encode_write` (Written, Defragments and ReadBack on what it has written), Merge `merge_from` (Names on
--             names), Apply the iterator (Calls and Complete on a whole run, Broken on two that fail)
--   Store     fsyncd/src/journal/store.rs: the ring of blocks; Geometry on offsets, Appends on
--             `write_inner`, Window on what a write keeps, Forward and Backward the two iterators, Reads
--             and ReadBack on reading one entry, Queue, Entries, Heads and Ledger on the ring as a queue,
--             Reversal and Reversed on the reverse iterator, Runs on runs of writes, Recovery on
--             opening, Logged, Saved, Reopened and Crashes on opening after a crash. The fuel of the loops of
--             `open` and of a block is a block of rounds, each of which moves an offset; that of
--             `read_all` and `read_back` is one more than the entries
--   Viewer    fsyncd/src/journal/viewer.rs and forward.rs: Replays on replaying a forward journal, Journals
--             from the calls through the ring to a replay, Paths on filters
--   IoLimit   iolimit/src/lib.rs: the limited writer below a client's connection; Quota on one write,
--             Throughput on many, Slow on small limits
--   Tests     the theorems at concrete inputs
--
-- How it fits together: `do_op` of Server.Ops is an operation of the front end, over `pre_op`, which
-- sends through `response_msg` and makes the journal's entry with `try_from` of Bilog, and `post_op`,
-- which waits. A client is Replica over the bytes that Wire carries. An entry goes to the ring of Store
-- as bytes; `apply` of Bilog gives the call that replays or undoes it.
--
-- State is passed explicitly: what stands behind a mutex or in a file is a record, and an operation
-- returns the next one. A panic, an error and a result are the three cases of `Outcome`. Offsets and
-- sizes that are `i64` are bit patterns below 2 ^ 64. Recursion is on lists, or on a count: that of
-- `read_msgs` bounds the messages, that of `make_space` the rounds of its loop.
--
-- Parameters: bincode and the realtime compressors, the checksum, the operating system, the clock.
-- Not modelled: the waking of the threads that wait at the gate, the part of a message that is
-- written before its write fails, start-up and the command line, sockets and rsync, the foreign
-- calls of libfuse and Dokan, the header and the compaction of a snapshot.
pub mod Base
pub mod Bilog
pub mod Common
pub mod Dispatch
pub mod FileStore
pub mod FrontEnd
pub mod Host
pub mod IoLimit
pub mod Kernel
pub mod Protocol
pub mod Replica
pub mod Server
pub mod Snapshot
pub mod Store
mod Tests
pub mod Viewer
pub mod Wire
