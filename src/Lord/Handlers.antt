-- ===== src/Lord/Handlers.antt =====
-- The handlers of the events of the scheduler: internal/lord/exec.go, agent.go and drain.go.
use etronium_scdr.Prelude.{
  ℕ, zero, suc, ◌+◌, String, ◌==◌, Bool, true, false, ◌&&◌, ◌||◌, not, Option, none, some, [], ◌∷◌,
  ◌++◌, lookup, insert, ℤ, pos, negsuc, eqb, ltb, if◌then◌else◌, length, take,
}
use etronium_scdr.Proto.{
  SpawnRequest, KillRequest, WriteStdinRequest, WriteStdinAck, LordEvent, register_ack,
  heartbeat_ack, spawn, kill, lazy_death_ack, set_drain, write_stdin, file_push,
}
use etronium_scdr.Connect.{process_started, write_stdin_ack, lazy_death}
use etronium_scdr.Lord.{
  LocalProcess, Agent, Os, Failure, missing_process_id, is_draining, no_pipe, not_started,
  no_signal, lazy_death_requested, drain_complete, send, send_process_exit, kill_signal, group_of,
  signal_all, offer, grace_of, nanoseconds,
}

-- the error that a handler returns, which is only logged, and the agent after it
abbrev pub Handled : Type 0
Handled = Option Failure × Agent

-- A process that has been started, with its initial input. The pipe is closed after that input, but
-- `stdinClosed` is not set.
abbrev pub started : Os → SpawnRequest → ℕ → LocalProcess
started os req pid = record {
  lord_pid = pid;
  stdin =
      if ltb 0 (length req.stdin_initial)
      then take (os.write pid req.stdin_initial).0 req.stdin_initial
      else [];
  stdin_closed = false;
}

-- the end of `handleSpawn`
unfoldable pub register_process : Os → SpawnRequest → ℕ → Agent → Agent
register_process os req pid ag =
    send (process_started req.process_id (pos pid))
      (record ag { procs = insert req.process_id (started os req pid) ag.procs })

abbrev pub refuse : Failure → String → Agent → Handled
refuse why id ag = (some why, send_process_exit id (negsuc 0) (pos 0) (pos 0) (pos 0) ag)

-- `handleSpawn`
unfoldable pub handle_spawn : Os → SpawnRequest → Agent → Handled
unfolding register_process
handle_spawn os req ag =
    if req.process_id == ""
    then (some missing_process_id, ag)
    else if ag.draining
    then refuse is_draining req.process_id ag
    else if not (os.pipes req)
    then (some no_pipe, ag)
    else elim (os.start req) [
      | none ↦ refuse not_started req.process_id ag
      | some pid ↦ (none, register_process os req pid ag)
    ]

-- `handleKill`: the signal goes to the group of the process
unfoldable pub handle_kill : Os → KillRequest → Agent → Handled
handle_kill os req ag = elim (lookup req.process_id ag.procs) [
  | none ↦ (none, ag)
  | some p ↦ (
    (if os.kill (group_of p.lord_pid) (kill_signal req) then none else some no_signal),
    record ag { signals = ag.signals ++ (group_of p.lord_pid, kill_signal req) ∷ [] },
  )
]

abbrev pub ack_of : Agent → String → ℤ → Bool → WriteStdinAck
ack_of ag id n closed = record {
  lord_id = ag.lord_id;
  process_id = id;
  bytes_written = n;
  closed = closed;
}

-- how many bytes are written, and whether the pipe breaks; nothing is written where there is no data
abbrev pub write_pipe : Os → WriteStdinRequest → LocalProcess → ℕ × Bool
write_pipe os req p = if ltb 0 (length req.bytes) then os.write p.lord_pid req.bytes else (0, false)

-- a process after a write of so many bytes
abbrev pub written : WriteStdinRequest → ℕ × Bool → LocalProcess → LocalProcess
written req w p = record p { stdin = p.stdin ++ take w.0 req.bytes; stdin_closed = w.1 || req.eof }

-- `handleWriteStdin`
unfoldable pub handle_write_stdin : Os → WriteStdinRequest → Agent → Handled
handle_write_stdin os req ag = elim (lookup req.process_id ag.procs) [
  | none ↦ (none, send (write_stdin_ack (ack_of ag req.process_id (pos 0) true)) ag)
  | some p ↦
      if p.stdin_closed
      then (none, send (write_stdin_ack (ack_of ag req.process_id (pos 0) true)) ag)
      else (let w = write_pipe os req p in
          (
            none,
            send (write_stdin_ack (ack_of ag req.process_id (pos w.0) (w.1 || req.eof)))
                (record ag { procs = insert req.process_id (written req w p) ag.procs }),
          ))
]

-- What happens while a drain waits: the time of each look at the processes, and what other goroutines
-- have done since the look before.
pub record Waiting : Type 0 where
  pub clock : ℕ → ℕ
  pub between : ℕ → Agent → Agent

-- The waiting loop of a drain from look k on; `none` is a loop that has not ended with its fuel.
unfoldable pub drain_wait : Waiting → ℕ → ℕ → ℕ → Agent → Option Agent
drain_wait w zero k deadline ag = none
drain_wait w (suc fuel) k deadline ag =
    let ag₁ = w.between k ag in
    elim (ltb (w.clock k) deadline && not (eqb (length ag₁.procs) 0)) [
      | true ↦ drain_wait w fuel (suc k) deadline ag₁
      | false ↦ some ag₁
    ]

-- what follows the waiting, the start of the goroutine that ends the program included
unfoldable pub end_drain : ℤ → Agent → Handled
unfolding signal_all
end_drain grace ag = (
  some drain_complete,
  record (offer (lazy_death (grace_of grace)) (signal_all (pos 9) ag)) { exiting = true },
)

abbrev pub drained : ℤ → Option Agent → Option Handled
drained grace none = none
drained grace (some ag) = some (end_drain grace ag)

-- `handleSetDrain`, with a turn of the loop for each nanosecond of the grace period
unfoldable pub handle_set_drain : Waiting → ℤ → Agent → Option Handled
unfolding drain_wait end_drain signal_all
handle_set_drain w grace ag =
    if ag.draining
    then some (none, ag)
    else drained grace (
        drain_wait w (suc (nanoseconds (grace_of grace))) 0
          (w.clock 0 + nanoseconds (grace_of grace))
          (signal_all (pos 15) (record ag { draining = true })))

-- `handleEvent`
unfoldable pub handle_event : Os → Waiting → LordEvent → Agent → Option Handled
unfolding handle_spawn handle_kill handle_write_stdin handle_set_drain
handle_event os w (register_ack id) ag = some (none, ag)
handle_event os w heartbeat_ack ag = some (none, ag)
handle_event os w (spawn req) ag = some (handle_spawn os req ag)
handle_event os w (kill req) ag = some (handle_kill os req ag)
handle_event os w (lazy_death_ack grace) ag = some (some lazy_death_requested, ag)
handle_event os w (set_drain grace) ag = handle_set_drain w grace ag
handle_event os w (write_stdin req) ag = some (handle_write_stdin os req ag)
handle_event os w file_push ag = some (none, ag)
