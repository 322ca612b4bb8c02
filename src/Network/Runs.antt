-- ===== src/Network/Runs.antt =====
-- Everything that happens to the scheduler and one of its lords, in any order.
use etronium_scdr.Prelude.{ℕ, String, ◌≡◌, refl, ap, Option, some, List, [], ◌∷◌, lookup, ℤ, inl}
use etronium_scdr.Proto.{
  LordEvent, SpawnRequest, register_ack, heartbeat_ack, spawn, kill, lazy_death_ack, set_drain,
  write_stdin, file_push,
}
use etronium_scdr.Float.{Float}
use etronium_scdr.Bpf.{BpfMaps}
use etronium_scdr.Server.{Server, take_event}
use etronium_scdr.Lord.{
  LocalProcess, Agent, Os, WaitStatus, IoChunk, new_agent, send, send_heartbeat, to_cmd,
  wait_process,
}
use etronium_scdr.Lord.Handlers.{Waiting, Handled, handle_event}
use etronium_scdr.Lord.Signals.{
  IsAccurate, IsKept, IsAccurate-more, handle_event-IsAccurate, wait_process-IsAccurate,
  send-IsAccurate,
}
use etronium_scdr.Recovery.Invariant.{IsSound}
use etronium_scdr.System.{Step, Reach, new_server, received, start, Reach-IsSound}
use etronium_scdr.System
use etronium_scdr.Network.{Network, HasRoom, Deliver, pushed, dropped, served, sent, handled}

module _ (fl : Float) (lord_id_from_hostname : String → ℕ) (to_uint32 : ℤ → ℕ) (lord_id : String)
    (os : Os) (w : Waiting) where
  -- A round of a loop, a step of the scheduler that is not one, or something that another goroutine of
  -- the lord does: a process ends, prints, or a heartbeat is due.
  pub data Happen (n : Network) : Network → Type 0 where
    delivered :
        {u : Network} → Deliver lord_id_from_hostname to_uint32 lord_id os w n u → Happen n u
    acted :
        {s : Server}
        → Step fl lord_id_from_hostname to_uint32 n.server s
        → Happen n (record n { server = s })
    ended :
        (id : String) (p : LocalProcess) (status : WaitStatus) (cpu_usec mem_peak : ℤ)
        → lookup id n.agent.procs ≡ some p
        → HasRoom n.agent
        → Happen n (record n { agent = wait_process id status cpu_usec mem_peak n.agent })
    printed :
        (id : String) (c : IoChunk)
        → HasRoom n.agent
        → Happen n (record n { agent = send (to_cmd id c) n.agent })
    beat :
        (cpu mem : ℤ)
        → HasRoom n.agent
        → Happen n (record n { agent = send_heartbeat cpu mem n.agent })

  -- the commands that the lord has been asked to run, newest first, after an event or another round
  abbrev pub asked_by : LordEvent → List SpawnRequest → List SpawnRequest
  asked_by (spawn req) log = req ∷ log
  asked_by _ log = log

  abbrev pub asked_in : {n u : Network} → List SpawnRequest → Happen n u → List SpawnRequest
  asked_in log (delivered (served ev rest out waits room answer)) = asked_by ev log
  asked_in log _ = log

  -- what can be reached, with the commands of the spawn events that the lord has handled on the way
  pub data Reachable : List SpawnRequest → Network → Type 0 where
    fresh :
        (algo : String) (maps : BpfMaps)
        → Reachable []
            (record { server = new_server algo maps; agent = new_agent; down = []; up = [] })
    later :
        {log : List SpawnRequest} {n u : Network}
        → Reachable log n
        → (h : Happen n u) → Reachable (asked_in log h) u

  taken :
      (s u : Server) (o : Option LordEvent)
      → take_event lord_id s ≡ (o, u)
      → Reach fl lord_id_from_hostname to_uint32 s
      → Reach fl lord_id_from_hostname to_uint32 u
  taken s u o took r =
      let after : Reach fl lord_id_from_hostname to_uint32 (take_event lord_id s).1 =
        System.next r (System.delivered lord_id) in
      let same : (take_event lord_id s).1 ≡ u = ap (λ (x : Option LordEvent × Server). x.1) took in
      rw same at after

  Deliver-Reach :
      (n u : Network)
      → Deliver lord_id_from_hostname to_uint32 lord_id os w n u
      → Reach fl lord_id_from_hostname to_uint32 n.server
      → Reach fl lord_id_from_hostname to_uint32 u.server
  Deliver-Reach n u (pushed ev s took) r = taken n.server s (some ev) took r
  Deliver-Reach n u (dropped ev s took) r = taken n.server s (some ev) took r
  Deliver-Reach n u (served ev rest out waits room answer) r = r
  Deliver-Reach n u (sent cmd rest waits) r = r
  Deliver-Reach n u (handled now cmd rest waits) r = System.next r (received now lord_id cmd)

  Reachable-Reach :
      {log : List SpawnRequest} {n : Network}
      → Reachable log n
      → Reach fl lord_id_from_hostname to_uint32 n.server
  Reachable-Reach (fresh algo maps) = start algo maps
  Reachable-Reach (later {n} {u} r (delivered d)) = Deliver-Reach n u d (Reachable-Reach r)
  Reachable-Reach (later r (acted st)) = System.next (Reachable-Reach r) st
  Reachable-Reach (later r (ended id p status cpu mem runs room)) = Reachable-Reach r
  Reachable-Reach (later r (printed id c room)) = Reachable-Reach r
  Reachable-Reach (later r (beat cpu mem room)) = Reachable-Reach r

  -- what goes on while a drain waits keeps to any list of commands
  abbrev pub AlwaysKept : Type 0
  AlwaysKept = (log : List SpawnRequest) → IsKept os log w

  served-IsAccurate :
      (log : List SpawnRequest) (ev : LordEvent) (ag : Agent) (out : Handled)
      → AlwaysKept
      → handle_event os w ev ag ≡ some out
      → IsAccurate os log ag
      → IsAccurate os (asked_by ev log) out.1
  served-IsAccurate log (spawn req) ag out kept h v =
      handle_event-IsAccurate os (req ∷ log) w (spawn req) ag out (inl refl) (kept (req ∷ log))
        (IsAccurate-more os req log ag v) h
  served-IsAccurate log (register_ack id) ag out kept h v =
      handle_event-IsAccurate os log w (register_ack id) ag out tt (kept log) v h
  served-IsAccurate log heartbeat_ack ag out kept h v =
      handle_event-IsAccurate os log w heartbeat_ack ag out tt (kept log) v h
  served-IsAccurate log (kill req) ag out kept h v =
      handle_event-IsAccurate os log w (kill req) ag out tt (kept log) v h
  served-IsAccurate log (lazy_death_ack grace) ag out kept h v =
      handle_event-IsAccurate os log w (lazy_death_ack grace) ag out tt (kept log) v h
  served-IsAccurate log (set_drain grace) ag out kept h v =
      handle_event-IsAccurate os log w (set_drain grace) ag out tt (kept log) v h
  served-IsAccurate log (write_stdin req) ag out kept h v =
      handle_event-IsAccurate os log w (write_stdin req) ag out tt (kept log) v h
  served-IsAccurate log file_push ag out kept h v =
      handle_event-IsAccurate os log w file_push ag out tt (kept log) v h

  send_heartbeat-IsAccurate :
      (log : List SpawnRequest) (cpu mem : ℤ) (ag : Agent)
      → IsAccurate os log ag
      → IsAccurate os log (send_heartbeat cpu mem ag)
  unfolding send_heartbeat
  send_heartbeat-IsAccurate log cpu mem ag v = record { procs = v.procs; signals = v.signals }

  Happen-IsAccurate :
      (log : List SpawnRequest) (n u : Network) (h : Happen n u)
      → AlwaysKept
      → IsAccurate os log n.agent
      → IsAccurate os (asked_in log h) u.agent
  Happen-IsAccurate log n u (delivered (pushed ev s took)) kept v = v
  Happen-IsAccurate log n u (delivered (dropped ev s took)) kept v = v
  Happen-IsAccurate log n u (delivered (served ev rest out waits room answer)) kept v =
      served-IsAccurate log ev n.agent out kept answer v
  Happen-IsAccurate log n u (delivered (sent cmd rest waits)) kept v = record {
    procs = v.procs;
    signals = v.signals;
  }
  Happen-IsAccurate log n u (delivered (handled now cmd rest waits)) kept v = v
  Happen-IsAccurate log n u (acted st) kept v = v
  Happen-IsAccurate log n u (ended id p status cpu mem runs room) kept v =
      wait_process-IsAccurate os log id status cpu mem n.agent v
  Happen-IsAccurate log n u (printed id c room) kept v =
      send-IsAccurate os log n.agent (to_cmd id c) v
  Happen-IsAccurate log n u (beat cpu mem room) kept v =
      send_heartbeat-IsAccurate log cpu mem n.agent v

  Reachable-IsAccurate :
      {log : List SpawnRequest} {n : Network}
      → AlwaysKept
      → Reachable log n
      → IsAccurate os log n.agent
  Reachable-IsAccurate kept (fresh algo maps) = record { procs = tt; signals = tt }
  Reachable-IsAccurate kept (later {log} {n} {u} r h) =
      Happen-IsAccurate log n u h kept (Reachable-IsAccurate kept r)

  -- However the steps of the scheduler, the rounds of the loops on both sides and the ends, the output
  -- and the heartbeats of the lord interleave, and if what goes on while a drain waits keeps to it too:
  -- each process that the lord has is of a pid that the system gave it for a command of a spawn event
  -- that it has handled, and it has signalled only such pids or their groups; and the process table of
  -- the scheduler is valid.
  pub network_sound :
      {log : List SpawnRequest} {n : Network}
      → AlwaysKept
      → Reachable log n
      → IsAccurate os log n.agent × IsSound n.server
  network_sound kept r = (
    Reachable-IsAccurate kept r,
    Reach-IsSound fl lord_id_from_hostname to_uint32 (Reachable-Reach r),
  )
