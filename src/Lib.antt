-- ===== src/Lib.antt =====
-- Etronium-Scdr: a scheduler starts processes for tenants on lords (hosts), each of which keeps one
-- stream open to it. This library models the scheduler's core and proves what it promises and where it
-- falls short. Paths are those of the repository.
--
-- The parts and their files:
--   Ring      the captured output of a process: `ringBuffer` of internal/scheduler/process_table.go,
--             and the follow loop of `StreamProcessIO` (internal/scheduler/server.go)
--   Table     `ProcessTable` and `ProcessEntry` of internal/scheduler/process_table.go: `create_entry`
--             is `Create`, `update_state` is `UpdateState`, and so on; entries are shared, so they live
--             on a heap and a pointer is an index
--   Registry  `LordRegistry` of internal/scheduler/placement.go: `pick` is `Pick`, `score_lord` is
--             `scoreLord`, `sweep_heartbeats` is `SweepHeartbeats`
--   Wal       internal/scheduler/wal.go: the log of the process table and `ReplayWAL`
--   Bpf       internal/scheduler/bpf.go: the numbers that go into the kernel's maps
--   Server    the state of `Server` (internal/scheduler/server.go) and the outboxes of the sessions
--             (internal/scheduler/connect.go)
--   Spawn     the request `Spawn` of internal/scheduler/server.go
--   Recovery  internal/scheduler/recovery.go and migrate.go: `recover` is `recoverFromLordDisconnect`,
--             `respawn` is `respawnProcessOnLord`
--   Connect   internal/scheduler/connect.go: `connect_lord` is `Connect` up to its receive loop, `handle`
--             a round of `recvLoop`, `disconnect` its clean-up
--   Requests  the other requests of internal/scheduler/server.go; `stream_process_io` is
--             `StreamProcessIO`, `write_stdin_process` is `WriteStdin`
--   Autoscale internal/scheduler/autoscale.go: `sample` is `Sample`, `decide` is `Decide`, part by part in
--             Autoscale/Rounds (Autoscale/Sampling has the former, Autoscale/Usage what it reads of a
--             lord's cgroup), `apply_decision` is `applyDecision`
--   Lord      the agent of a lord, internal/lord: the handlers of agent.go, exec.go and drain.go, the two
--             senders of a connection of agent.go (Lord/Connection), the limits of cgroup.go as numbers (Lord/Cgroup)
--             and its slices in the file system, with stats.go (Lord/Slices)
--   Config    `LoadConfig` of internal/scheduler/config.go and of internal/lord/config.go
--   System    requests, lords' streams, recoveries and the autoscaler's decisions as steps on the server,
--             in any order
--   Network   the scheduler and one of its lords, with the messages on their way: the `sendLoop` and
--             `recvLoop` of internal/scheduler/connect.go and of internal/lord/agent.go as steps
--   Start     cmd/scheduler/main.go from the file of the log to the server
--   Statistics the walks over the kernel's maps of `scheduler stats` in cmd/scheduler/main.go
--   Client    cmd/etronium/main.go: the requests of `run` and `shell`, and the input of a shell
--   Proto     the messages; Float: float64 as a parameter; Prelude: shared names and lemmas
--
-- How they interact: `Spawn` picks a lord in the registry, makes an entry in the table, which logs it,
-- and queues a spawn event in the outbox of the lord's session. When a lord is gone, `recover` finds
-- its processes in the table and `respawn` queues them on another lord; `Migrate` does so on
-- request, also on that of the autoscaler. A lord answers a spawn event with a report, sends what the
-- process prints and reports its end; `handle` takes these in.
--
-- Bounds and parameters. Every method under a mutex is one step, and the time of a call is an
-- argument. A `range` over a map goes through an association list in its order, and the theorems hold
-- of every list. Integers are unbounded but where the code increments an int32, which wraps. All loops
-- are structural; the ten attempts of a recovery are a number that counts down. What other goroutines
-- do while a recovery sleeps is a function on the server. Parameters: float64 with the laws of `<`
-- (Float), encoding/json (Wal.Codec), SHA-256 (Bpf), the ids that `NewID` makes, what `sort.Slice`
-- gives (`IsSort`, which Autoscale/Sorting shows can be had), and what the operating system answers to a
-- lord (`Os`). The waiting of a drain has one turn more than its grace period has nanoseconds, which is
-- enough for any clock that goes forward; `none` is a loop that has not ended. The outbox of a lord holds
-- 128 messages: a send to it is what it is once there is room, and in Network no handler of a lord
-- answers, and nothing of it sends, before there is.
--
-- The files of a cgroup, the kernel behind them and the library's functions on paths are the interface
-- `Files` (Lord/Slices), of which Lord/Slices/Tests has an instance. Each message on its way has a cost
-- (Network/Cost), the number of rounds that it can still cause, and that bounds the rounds of the loops.
--
-- Not modelled: two calls at a time that share a waiter or the progress of a stream; the reconnects of a
-- lord within one run of Network, several lords in it, and the end of the program of a lord, which a drain
-- brings about 100 ms later (`exiting` says that it has) and which ends a run; the waiting of `recvLoop`
-- for its heartbeats when it returns; errors of the disk under the log; the
-- generated code of gRPC; logging, printing, flags and signals of the programs; the files of
-- sched_ext that cmd/scheduler/main.go reads.
pub mod Prelude
pub mod Float
pub mod Proto
pub mod Ring
pub mod Table
pub mod Registry
pub mod Wal
pub mod Bpf
pub mod Server
pub mod Spawn
pub mod Recovery
pub mod Connect
pub mod Autoscale
pub mod Lord
pub mod Config
pub mod System
pub mod Requests
pub mod Network
pub mod Client
pub mod Start
pub mod Statistics
