-- ===== src/Lord.antt =====
-- internal/lord/agent.go, exec.go and drain.go: the agent of a lord. What the operating system answers
-- is a parameter. A send to the outbox, a channel of 128, waits for room: here it is what it is once
-- there is room, and Network lets nobody send before. Logging, SCHED_EXT and the cgroups are left out here: their errors are only logged.
pub mod Handlers
pub mod Reports
pub mod Drain
pub mod Output
pub mod Cgroup
pub mod Limits
pub mod Signals
pub mod Slices
pub mod Connection
pub mod Tests
use etronium_scdr.Prelude.{
  ℕ, zero, suc, ◌+◌, ◌*◌, String, ◌==◌, Bool, true, false, ◌&&◌, ◌||◌, not, Option, none, some,
  List, [], ◌∷◌, ◌++◌, Dict, lookup, insert, delete, ℤ, pos, negsuc, eqb_ℤ, ltb, ltb_ℤ,
  if◌then◌else◌, length, map,
}
use etronium_scdr.Proto.{
  SpawnRequest, KillRequest, WriteStdinRequest, WriteStdinAck, LordEvent, register_ack,
  heartbeat_ack, spawn, kill, lazy_death_ack, set_drain, write_stdin, file_push,
}
use etronium_scdr.Server.{second}
use etronium_scdr.Connect.{
  ProcessExit, LordCmd, heartbeat, process_started, process_io, process_exit, write_stdin_ack,
  lazy_death,
}

-- `localProcess`, with what has been written to its pipe
pub record LocalProcess : Type 0 where
  pub lord_pid : ℕ
  pub stdin : List ℕ
  pub stdin_closed : Bool

-- `signals` are the calls of `syscall.Kill`, with the pid and the signal, oldest first. A negative pid
-- is that of a process group. `exiting` says that the goroutine has been started which ends the program
-- 100 ms later.
pub record Agent : Type 0 where
  pub lord_id : String
  pub procs : Dict LocalProcess
  pub outbox : List LordCmd
  pub draining : Bool
  pub signals : List (ℤ × ℤ)
  pub exiting : Bool

abbrev pub new_agent : Agent
new_agent = record {
  lord_id = "";
  procs = [];
  outbox = [];
  draining = false;
  signals = [];
  exiting = false;
}

-- What the operating system answers: whether the pipes of a command can be made, the pid of a started
-- command, how many bytes a pipe takes and whether it fails, and whether a signal can be sent.
pub record Os : Type 0 where
  pub pipes : SpawnRequest → Bool
  pub start : SpawnRequest → Option ℕ
  pub write : ℕ → List ℕ → ℕ × Bool
  pub kill : ℤ → ℤ → Bool

pub data Failure : Type 0 where
  missing_process_id is_draining no_pipe not_started no_signal lazy_death_requested drain_complete :
      Failure

-- `a.outbox <- cmd`, where there is room
abbrev pub send : LordCmd → Agent → Agent
send cmd ag = record ag { outbox = ag.outbox ++ cmd ∷ [] }

-- `sendProcessExit`
abbrev pub send_process_exit : String → ℤ → ℤ → ℤ → ℤ → Agent → Agent
send_process_exit id code signal cpu_usec mem_peak ag =
    send
      (process_exit (record {
        process_id = id;
        exit_code = code;
        exit_signal = signal;
        cpu_usage_usec = cpu_usec;
        mem_peak_bytes = mem_peak;
      }))
      ag

-- how a process ended, as `cmd.Wait` tells it
pub data WaitStatus : Type 0 where
  success : WaitStatus
  exit_status : ℕ → WaitStatus
  signalled : ℕ → WaitStatus
  wait_error : WaitStatus

-- the exit code and the signal that are reported; `ExitCode` is -1 for a process that a signal killed
abbrev pub code_of : WaitStatus → ℤ
code_of success = pos 0
code_of (exit_status n) = pos n
code_of (signalled n) = negsuc 0
code_of wait_error = negsuc 0

abbrev pub exit_signal_of : WaitStatus → ℤ
exit_signal_of (signalled n) = pos n
exit_signal_of _ = pos 0

-- the goroutine that waits for the end of a process; the usage is what `ReadStats` gives
unfoldable pub wait_process : String → WaitStatus → ℤ → ℤ → Agent → Agent
wait_process id status cpu_usec mem_peak ag =
    let ag₁ = send_process_exit id (code_of status) (exit_signal_of status) cpu_usec mem_peak ag in
    record ag₁ { procs = delete id ag₁.procs }

-- the signal that `handleKill` sends
abbrev pub kill_signal : KillRequest → ℤ
kill_signal req =
    if req.force
    then pos 9
    else if eqb_ℤ req.signal_number (pos 0)
    then pos 15
    else req.signal_number

-- a pid as `syscall.Kill` takes it, and that of its group
abbrev pub group_of : ℕ → ℤ
group_of zero = pos 0
group_of (suc n) = negsuc n

-- a chunk that `pumpStream` sends
pub record IoChunk : Type 0 where
  pub bytes : List ℕ
  pub offset : ℕ

-- `pumpStream`: the chunks for what each `Read` returns, up to the end of the pipe
unfoldable pub pump_stream : ℕ → List (List ℕ) → List IoChunk
pump_stream offset [] = []
pump_stream offset (bytes ∷ reads) =
    let rest = pump_stream (offset + length bytes) reads in
    if ltb 0 (length bytes) then record { bytes = bytes; offset = offset } ∷ rest else rest

-- the command that carries a chunk; the scheduler reads neither its stream nor its offset
abbrev pub to_cmd : String → IoChunk → LordCmd
to_cmd id c = process_io id c.bytes

abbrev pub max_backoff : ℕ
max_backoff = 30 * second

-- the wait after a lost connection, doubled each time; `half` is 500 ms
abbrev pub next_backoff : ℕ → ℕ
next_backoff backoff = if ltb max_backoff (backoff * 2) then max_backoff else backoff * 2

-- the wait of `Run` after so many reconnects
unfoldable pub backoff_after : ℕ → ℕ
backoff_after zero = 500 * 1000000
backoff_after (suc n) = next_backoff (backoff_after n)

-- `sendHeartbeat`; the usage is what `getCurrentUsage` gives
unfoldable pub send_heartbeat : ℤ → ℤ → Agent → Agent
send_heartbeat cpu mem ag = send (heartbeat cpu mem (pos (length ag.procs))) ag

abbrev pub kill_all : ℤ → Dict LocalProcess → List (ℤ × ℤ)
kill_all signal [] = []
kill_all signal ((id, p) ∷ ps) = (pos p.lord_pid, signal) ∷ kill_all signal ps

-- a signal to every local process, to the process and not to its group
unfoldable pub signal_all : ℤ → Agent → Agent
signal_all signal ag = record ag { signals = ag.signals ++ kill_all signal ag.procs }

abbrev pub agent_outbox_size : ℕ
agent_outbox_size = 128

-- a send that does not wait for room
abbrev pub offer : LordCmd → Agent → Agent
offer cmd ag = if ltb (length ag.outbox) agent_outbox_size then send cmd ag else ag

-- the seconds of the grace period
abbrev pub grace_of : ℤ → ℤ
grace_of grace = if eqb_ℤ grace (pos 0) then pos 30 else grace

abbrev pub nanoseconds : ℤ → ℕ
nanoseconds (pos n) = n * second
nanoseconds (negsuc n) = 0
