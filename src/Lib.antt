-- ===== src/Lib.antt =====
-- A model of MemLane, a cache in shared memory with a TCP server that speaks RESP2.
--
-- The parts, from the bottom up, each with the code that it models:
--   Word, Sip        64-bit words and `siphash` of src/hashmap.rs
--   Slot             one slot of the arena, src/slot.rs (Slot.Buffers: reads after writes)
--   Ttl              expiry times, src/ttl.rs
--   Arena            the shared region, `create_arena` and `open_arena`, src/shm.rs (Arena.Layout:
--                    where its bytes lie)
--   Hashmap          the open-addressing table, src/hashmap.rs: `get`, `set`, `del`, `exists`,
--                    `flush_all`, each loop `for i in 0..SLOT_COUNT` as a recursion
--   Text             UTF-8 and decimal texts, of which the code uses `str::parse` and `to_string`
--   Client           the checks and the batch and counter methods of src/client.rs
--   CInterface       the C functions of src/lib.rs
--   Resp             parser, encoder and command extraction of src/server/resp.rs
--   Server           the dispatcher, the loop of a connection (Server.Connection) and the tasks
--                    of all connections (Server.Sessions), src/server/mod.rs
--   Metrics          the aggregator of metric events, and the task of a dashboard
--                    (Metrics.Dashboard), src/server/ws_bridge.rs
--   Prelude          lists, tests and results that all parts share
--   Tests            concrete runs
--
-- A client calls the table; the server parses the bytes of a connection with Resp, dispatches each
-- command to a client, and writes the encoded reply. The state is the arena, which each function
-- takes and returns, for the operations of one thread at a time. Server.Sessions has the tasks of all connections;
-- these dispatch at once on the shared arena, so the replies are left open there. Sessions.Fairness adds
-- schedules. Server.Telemetry carries the events of the connections through Tokio's channel to the aggregator.
-- CInterface.Handles has the calls that a program of one thread makes through its handles, alone on the region.
--
-- The proofs about the table are split by what they show: Hashmap.Invariant says when an arena is
-- valid and which abstract map it models; Probe, Write, Walk and Bury carry the lemmas on the probe
-- sequence, on a write to one slot, on the rounds of a loop and on tombstones; Claim, SetLoop,
-- SetFree and SetEnds are those of SET; Spec, Refine and Steps hold the abstract side; Alone says when no two keys collide.
-- Hashmap.Race takes DEL apart into its accesses to the shared arena, for any number of threads; Race.Single
-- compares one thread with `del`.
-- Hashmap.Crash has the arenas between the stores of SET (Crash.Apart and Crash.Isolated: what other
-- keys see of it), Hashmap.Count the counter of the header.
-- The files named Safe (and SafeRead, SafeSet) go from the table up to the server without that condition.
-- Those of the parser: Resp.Fuel has the fuel and the size of results, Extend compares a buffer with a longer
-- one, Reads and Stream have the values that a buffer holds. Server.Reading has what a read of any bytes does.
-- Server.Calls says what each command promises on the abstract map; Branches lays out the cases of the dispatcher,
-- Replies, Answers and Refine follow the commands, and Refine.Session the bytes of a read, through all layers down to the slots. Server.Untouched keeps the
-- arena valid whatever keys collide.
--
-- Bounds and fuel: the loops over the table make SLOT_COUNT = 65536 rounds, as the source. The
-- parser recurses on 3 * n + 3 units of fuel for n bytes, of which each byte takes at most three
-- (Resp.Fuel). The loop of a connection has the length of the buffer as fuel, since a command takes
-- at least 3 bytes. Machine integers are natural numbers with the wrapping written out, as in a
-- release build.
--
-- Outside the program, and so arguments: the clock (an arbitrary reading for each round), the system
-- calls of shm.rs, whether `Vec::with_capacity` succeeds, Unicode case mapping, lossy decoding and
-- the printing of floats. The metrics take `f64` as an
-- interface (Metrics.Floats) with the monotonicity of its operations as laws.
--
-- Not modelled: writers that access the arena at once, in threads of the server or in other processes. The
-- operations, commands and C calls are those of one thread that alone has access, except for Hashmap.Race, where several
-- threads delete, and Server.Sessions, where the reply of a dispatch is left open. Nor are
-- memory orderings, sockets, the channels of Tokio, the accept loop and the JSON of
-- src/server/ws_bridge.rs, the Windows stubs, the dashboard, the benchmarks and the examples.
pub mod Prelude
pub mod Word
pub mod Sip
pub mod Slot
pub mod Ttl
pub mod Text
pub mod Arena
pub mod Hashmap
pub mod Client
pub mod CInterface
pub mod Resp
pub mod Server
pub mod Metrics
pub mod Tests
