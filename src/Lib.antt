-- ===== src/Lib.antt =====
-- p8 is a client library for telemetry: the threads of a program write logs and metrics into
-- buffers of 8192 bytes, a worker passes the finished buffers to a sink, and the buffers go back to
-- their pool. This library models the engine (engine/) and proves what its parts promise.
--
-- The parts, and the files that model them:
--   Budget   engine/p8_memory_budget.cpp, the cap that the pools share: try_reserve with the
--            compare-exchange loop against what other threads leave in between, and release.
--   Pool     engine/p8_buffer_pool.cpp: the free list, growth on demand, and the intrusive queue of
--            blocked acquirers with direct hand-off. Each critical section of mo_mutex is a
--            function; Pool/System has their interleavings as a step relation, Pool/Steps takes them
--            one by one, and Pool/Served has the waiters that were served and have not left yet.
--   Format   engine/p8_log.cpp, find_prefix and parse_format_string, which describe the arguments
--            of a log call once.
--   Sink     engine/p8_sink.hpp with its two implementations: Sink/Null counts bytes, Sink/File
--            sends batches to two files by scatter/gather writes.
--   Core     engine/p8_core.cpp by the state that its functions keep: Core/Service the service
--            buffers into which every descriptor is serialised, up to a reader of them,
--            Core/Attributes, Core/Modules and Core/Metrics the registries, Core/LogDescs the
--            descriptors of log call sites, Core/Drops the drop counters, Core/Buffers the way of
--            a buffer between the pool and the threads, Core/Transfer the ready queue and the
--            flush to a sink, with core_push of the writers, Core/Registry the list in which the
--            writers register, Core/Worker the loop of the worker, worker_main, and Core/Setup the
--            sizes in the configuration with the pool that they set up.
--   Writer   engine/p8_tls_writer.cpp: the chain of buffers of a record that a thread writes, its
--            rotation, the copy across buffers, and the hand-over to the worker. Writer/Trace
--            follows a chain through the answers of acquire_buffer; Writer/Thread adds the buffers
--            that a thread has finished, which both kinds of record share.
--   Log      engine/p8_log.cpp, send: Log the arguments and the attributes of a record, Log/Send
--            the whole call, with the gate, the end of a record and the rollback.
--   Mtk      engine/p8_mtk.cpp: emit and create, and the functions that are stubs.
--   Kit      the interface of the companion library kit, which the build fetches: its list and its
--            file are parameters, with the laws that the engine relies on. So are strtoull and
--            str_casecmp in Core/Setup.
--   Prelude  shared names, Boolean tests and lists.
--   Examples runs at concrete inputs, with a list and a file in memory in place of kit's.
--
-- How they interact: the pool charges each new buffer to the budget; a registry serialises each new
-- descriptor into the service buffers, which come from the pool; the log descriptors hold what the
-- format parser found, and send reads the arguments by them. A thread writes logs and samples
-- through its writer, which asks the core for buffers and counts what it has to drop. The worker
-- takes the buffers from the ready queue and from all writers, hands them to a sink and gives them
-- back to the pool.
--
-- Numbers are natural numbers; the wrap-around of size_t and of the narrower integers is written
-- out. A C string is the list of its bytes, a null pointer is none. What new, str_dup, realloc and
-- the operating system answer is an argument. Loops recurse on their lists. Where they recurse on
-- fuel, it is the number of elements left, of which every round takes at least one: the waiters for
-- stop_waiters, the entries for write_entries, the bytes for copy_fragmented, the buffers for pull
-- and roll_back, the writers for the loop over their registry.
-- A read outside a vector or through a null pointer has the result none. The arguments of a log call
-- (va_list) are a list of typed values; what fresh memory held before is an argument where the code
-- leaves bytes unwritten; size_t has 64 bits in send and in Core/Setup. The loop of the worker recurses
-- on its waits, each with the signal that ended it, the time, and the steps of other threads before
-- it.
--
-- Not modelled: the constructor and the destructor of the core, and the shared instance with its
-- count of references; start_worker and stop_worker, which start and join the thread;
-- serialize_attrs and serialize_utf8_string of the writers, which nothing calls; the rest of the
-- configuration, which calls the JSON library; the text of error messages; and memory orderings
-- weaker than the order of the critical sections.
pub mod Prelude
pub mod Kit
pub mod Core
pub mod Writer
pub mod Mtk
pub mod Log
pub mod Budget
pub mod Pool
pub mod Format
pub mod Sink
pub mod Examples
