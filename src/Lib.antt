-- ===== src/Lib.antt =====
-- The jsockd server, which evaluates JavaScript functions for the clients of UNIX sockets: its
-- components that compute, translated from C under jsockd_server/src.
--
-- A thread reads the stream of a socket through a line buffer, and hands each line to a handler.
-- The handler looks the bytecode of a query up in a hash cache that all threads share. The
-- program is configured by its command line, with numbers in hexadecimal in it and in key files,
-- and gives the JavaScript engine a decoder and an encoder of UTF-8. The files are:
--   Prelude: the names that the others share, lists and slices of arrays with their lemmas,
--     Boolean tests, and integers.
--   LineBuf, for line_buf.c: the buffer is a list of bytes with the indices of the struct, the
--     reader and the handler are parameters. `LineBuf.Spec` is the specification, that cuts a
--     stream at the separators; `LineBuf.Scan` compares one round of the loop with it,
--     `LineBuf.Refine` a replay, `LineBuf.Reads` a read and `LineBuf.Chunks` many reads, as the
--     loop of `command_loop` in main.c makes them.
--   Utf8, for the `njs_utf8_` functions of textencodedecode.c that treat one code point: the
--     pointer into the input is the list of the bytes that are left.
--   TextDecoder, for the two passes over a stream in the same file, and `qjs_text_decoder_decode`
--     on the bytes of a buffer.
--   TextEncoder, for `encode` and `encodeInto` in the same file: the text that the engine gives
--     for a string is an argument. `TextEncoder.Fits` is about any text, `TextEncoder.Prefix`
--     about well-formed UTF-8.
--   Hex, for hex.c.
--   CmdArgs, for cmdargs.c: `CmdArgs.Options` has a function for each option, `CmdArgs` the
--     checks and the loop; an error is a value, and `strtoll` a parameter.
--   Time, for `ns_time_diff` of utils.c.
--   Writes, for `write_all` and `writev_all` of utils.c: the answers of the system are a list,
--     `errno` is a Boolean (EINTR or not), and `waiting` is the value while it has not answered
--     yet.
--   Server, for the handlers of the lines in main.c and the state of threadstate.h:
--     `Server.State` has the state, and the answers that the engine, the clock and the system
--     give while a line is handled, which are a parameter; `Server.Lines` has the handlers of the
--     three lines of a command, and `Server` the dispatch and the steps of the background
--     threads. `Server.Invariant`, `Server.FirstLines` and `Server.Dispatch` show what each
--     handler keeps, `Server.Steps` puts the steps in any order, `Server.Running` and
--     `Server.Trampoline` are about what the loop around a replay relies on, `Server.Command` and
--     `Server.Reply` are about the three lines of a command, and `Server.References` about the
--     references to the cache that they take.
--   ModuleFile, for `load_module_bytecode` of main.c with mmap_file.c and verify_bytecode.c;
--     `ModuleFile.Compile` for modcompiler.c. ed25519 (its two functions that give the point of a
--     scalar and the bytes of a point, the signature, the verification and the new pair of keys),
--     the compiler of QuickJS and the file system are parameters. `ModuleFile.Layout` has the
--     parts of a module file, `ModuleFile.Accept` what is accepted, and `ModuleFile.RoundTrip`
--     what is made of a file that was compiled.
--   CommandLoop, for `command_loop` of main.c: the reads go to LineBuf, and its lines to
--     `line_handler` of Server. `CommandLoop.Moments` has the thread and what the others do
--     before each line, `CommandLoop` the loops, over a list of rounds; `CommandLoop.Replays` is
--     about the loop around a replay for any handler, `CommandLoop.Once` about `line_handler` in
--     it; a thread whose start has failed goes on without an engine, and follows a null pointer
--     at the first line that needs one; `CommandLoop.Loop` and `CommandLoop.End` about the whole.
--   Messages, for `send_message` of messages.c: `Messages.Answer` what becomes of an answer,
--     `Messages` the loop that reads it, over the answers of the system as a list of rounds.
--     `Messages.Receive` is about the buffer, `Messages.Arrive` about an answer in pieces,
--     `Messages.Format` about the texts, and `Messages.Protocol` puts them together.
--   WaitGroup, for wait_group.c: any number of calls of `wait_group_inc` and one of
--     `wait_group_timed_wait`, each in front of an operation, and a schedule that says who goes
--     on. `WaitGroup.Shares` has what each call holds, `WaitGroup.Valid` is about the wake-ups.
--   HashCache, for hash_cache.c: the table is a list of buckets, and each atomic operation a read
--     or a write. `HashCache.Probe` finds the bucket at which a loop stops; `HashCache.Lookup` is
--     about insertions and lookups, `HashCache.Entry` about what a lookup finds, and
--     `HashCache.Release` about the reference that is given back. `HashCache.Seqlock` is one
--     bucket with any number of threads inside the calls: each stands in front of an atomic
--     operation, and a schedule says who goes on; `HashCache.Seqlock.Counts` has the shares of
--     the threads in the counters, `Valid`, `Held` and `Races` below it what they lead to. A
--     thread is outside while its call is at another bucket of the window;
--     `HashCache.Seqlock.Ends` has the loop of a call over the window, which uses the same
--     operations on whatever each of them finds.
--
-- Loops over an array or a list are structural recursion. Those whose progress is not structural
-- have fuel: the loops of TextDecoder and TextEncoder two rounds for each byte and two more,
-- since a byte is read twice at most, the loop of the parser one round for each argument, and the
-- loop around a replay one round for each byte of the buffer; running out is a value of its own,
-- `stuck`, and is proved not to happen. A number of 32 bits or of a byte has its wrap-around
-- written out. Signed indices of the C code that are never negative are natural numbers; results
-- that may be negative are integers. `ns_time_diff` has the wrap-around of `uint64_t` and
-- `int64_t` written out.
--
-- Not modelled: QuickJS and the functions that only call it, xxHash and ed25519, which are copies
-- of other projects, the system calls, and so far logging. A thread is the release build; what a
-- query does while it runs, the messages that it sends included, is an answer of the engine. A
-- failure of `init_thread_state` behind the creation of the runtime is not modelled. The table of
-- the hash cache is modelled as one thread sees it while no other is inside a call, and one
-- bucket with all interleavings of the operations of its threads, but not with the reorderings
-- that relaxed atomic operations allow.
pub mod Prelude
pub mod LineBuf
pub mod Utf8
pub mod TextDecoder
pub mod TextEncoder
pub mod Hex
pub mod CmdArgs
pub mod HashCache
pub mod Time
pub mod Writes
pub mod Server
pub mod ModuleFile
pub mod Messages
pub mod CommandLoop
pub mod WaitGroup
