-- ===== src/Server.antt =====
-- `Server` of internal/scheduler/server.go and `lordSession` of internal/scheduler/connect.go: the
-- state of the scheduler and its ways to push an event to a lord. Each lock makes what it guards one
-- step; a call of another goroutine in between is another step.
pub mod Sending
use etronium_scdr.Prelude.{
  ℕ, ◌*◌, ◌^◌, String, Bool, true, false, Option, none, some, List, [], ◌∷◌, ◌++◌, Dict, lookup,
  insert, delete, ℤ, ltb, if◌then◌else◌, length,
}
use etronium_scdr.Proto.{LordEvent, spawn, kill, SpawnRequest, KillRequest, WriteStdinAck}
use etronium_scdr.Table.{Table}
use etronium_scdr.Registry.{Registry}
use etronium_scdr.Bpf.{BpfMaps}

-- `outbox` is a channel of 1024; `procs` maps a local pid to a process id.
pub record Session : Type 0 where
  pub lord_id : String
  pub outbox : List LordEvent
  pub procs : List (ℤ × String)

pub record Server : Type 0 where
  pub processes : Table
  pub lords : Registry
  pub sessions : Dict Session
  pub last_recovery_at : Dict ℕ
  pub write_stdin_waiters : Dict (List WriteStdinAck)
  pub bpf : BpfMaps

-- the gRPC status codes, and the errors of the helpers
pub data Error : Type 0 where
  invalid_argument not_found unavailable internal failed_precondition context_done : Error
  no_session send_timeout max_restarts_reached no_alternative : Error

pub data Result {ℓ} (A : Type ℓ) : Type ℓ where
  ok : A → Result A
  err : Error → Result A

abbrev pub outbox_size : ℕ
outbox_size = 1024

-- nanoseconds in a second, as `time.Second`
abbrev pub second : ℕ
second = 10 ^ 9

-- a blocking send with a timeout of 5 s: it fails where the outbox is full and the session's
-- `sendLoop` takes nothing out
unfoldable pub send_event : String → LordEvent → Server → Result (Unit {0}) × Server
send_event lord_id ev s = elim (lookup lord_id s.sessions) [
  | none ↦ (err no_session, s)
  | some sess ↦
      if ltb (length sess.outbox) outbox_size
      then (
        ok tt,
        record s {
          sessions = insert lord_id (record sess { outbox = sess.outbox ++ ev ∷ [] }) s.sessions;
        },
      )
      else (err send_timeout, s)
]

-- a `select` with a `default`: where the outbox is full the event is dropped
unfoldable pub offer_event : String → LordEvent → Server → Server
unfolding send_event
offer_event lord_id ev s = (send_event lord_id ev s).1

abbrev pub send_spawn : String → SpawnRequest → Server → Result (Unit {0}) × Server
send_spawn lord_id req s = send_event lord_id (spawn req) s

abbrev pub send_kill : String → KillRequest → Server → Result (Unit {0}) × Server
send_kill lord_id req s = send_event lord_id (kill req) s

-- one round of `sendLoop`: the oldest event leaves the outbox
unfoldable pub take_event : String → Server → Option LordEvent × Server
take_event lord_id s = elim (lookup lord_id s.sessions) [
  | none ↦ (none, s)
  | some sess ↦ elim sess.outbox [
    | [] ↦ (none, s)
    | ev ∷ rest ↦
        (some ev, record s { sessions = insert lord_id (record sess { outbox = rest }) s.sessions })
  ]
]
