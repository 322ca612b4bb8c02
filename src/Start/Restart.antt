-- ===== src/Start/Restart.antt =====
-- What a restart of the scheduler keeps of its processes, and what it loses.
use etronium_scdr.Prelude.{
  ℕ, String, ◌≡◌, ◌≢◌, refl, ap, sym, eq_iff, eq_refl, true, Bool, Option, none, some, List, [],
  ◌∷◌, All, map, lookup, insert, ℤ, arith, ◌<◌, lookup-insert,
}
use etronium_scdr.Proto.{KillRequest}
use etronium_scdr.Table.{Table, Entry, Record, new_table, attach_wal, get, deref}
use etronium_scdr.Registry.{register, find_by_hostname, new_registry}
use etronium_scdr.Bpf.{BpfMaps}
use etronium_scdr.Server.{Server, Result, Session, unavailable, err}
use etronium_scdr.Requests.{KillResponse, kill_process}
use etronium_scdr.Requests.Answers.{KillOutcome, on_its_way, unreachable, kill_process-KillOutcome}
use etronium_scdr.Connect.{RegisterRequest, new_lord, rebind, connect_lord}
use etronium_scdr.Wal.{Codec, max_line, line_of, write_header}
use etronium_scdr.Wal.Replay.{Fits, apply_records, replay_wal-records}
use etronium_scdr.Wal.Recovery.{SameView}
use etronium_scdr.Wal.Durable.{Logged, apply_records-SameView}
use etronium_scdr.System.{new_server}
use etronium_scdr.Start.{start_table, start_scheduler}

-- the records with the times at which they were written
abbrev pub records : List (ℕ × Record) → List Record
records = map (λ r. r.1)

module _ (c : Codec) (now : ℕ) where
  -- the file that the runs before have left
  abbrev pub log_file : List (ℕ × Record) → Option (List c.Line)
  log_file stamped = some (c.header ∷ map (line_of c) stamped)

  start_table_eq :
      (stamped : List (ℕ × Record))
      → c.size c.header < max_line
      → All (Fits c now) stamped
      → start_table c now (log_file stamped) true (records stamped)
        ≡ attach_wal (records stamped) (apply_records now (records stamped) new_table)
  unfolding start_table write_header
  start_table_eq stamped short fits =
      ap (attach_wal (records stamped)) (replay_wal-records c now stamped new_table short fits).1

  -- A scheduler whose table has come about by `Create`, `UpdateState`, `UpdateResult` and restarts alone
  -- (and not by a re-binding or a respawn, which write a lord unlogged) is stopped and started again on
  -- the file of its log, all of whose lines fit into the buffer of the scanner. It has the processes that it had, under the same ids and tenants, with the
  -- same state, lord, pid, exit result and closed `exited` channels, and the log goes on as before.
  pub start_scheduler-SameView :
      (algo : String) (maps : BpfMaps) (stamped : List (ℕ × Record)) {t : Table}
      → Logged t
      → t.wal ≡ some (records stamped)
      → c.size c.header < max_line
      → All (Fits c now) stamped
      → SameView
          (start_scheduler c now algo maps (log_file stamped) true (records stamped)).processes
          t
        × ((start_scheduler c now algo maps (log_file stamped) true (records stamped)).processes.wal
            ≡ t.wal)
  unfolding start_scheduler attach_wal
  start_scheduler-SameView algo maps stamped {t} logged held short fits =
      let s : SameView (apply_records now (records stamped) new_table) t =
        apply_records-SameView (records stamped) now logged held in
      rw (start_table_eq stamped short fits)
        (record { heap = s.heap; by_id = s.by_id; by_tenant = s.by_tenant }, sym held)

rebind_alone :
    (now : ℕ) (algo lord_id : String) (req : RegisterRequest) (t : Table)
    → rebind lord_id req.hostname (register now (new_lord lord_id req) (new_registry algo)).by_id t
      ≡ t
unfolding rebind find_by_hostname register insert new_registry
rebind_alone now algo lord_id req t =
    ground (arith, eq_refl lord_id, eq_iff req.hostname "", eq_refl req.hostname)

unreachable_without :
    (req : KillRequest) (s : Server) (e : Entry) {out : Result KillResponse × Server}
    → KillOutcome req s e out
    → lookup e.info.ref.lord_id s.sessions ≡ none
    → out ≡ (err unavailable, s)
unreachable_without req s e (on_its_way asked q) absent = absurd (cc)
unreachable_without req s e (unreachable blocked) absent = refl

module _ (c : Codec) (lord_id_from_hostname : String → ℕ) (to_uint32 : ℤ → ℕ) (started_at : ℕ)
    (algo : String) (maps : BpfMaps) (file : Option (List c.Line)) (opens : Bool)
    (log : List Record) (now : ℕ) (lord_id : String) (req : RegisterRequest) where
  -- the scheduler that has been started on the file of a log
  abbrev pub restarted_on : Server
  restarted_on = start_scheduler c started_at algo maps file opens log

  -- the first lord has connected to it
  abbrev pub rejoined : Server
  rejoined =
      connect_lord lord_id_from_hostname to_uint32 now lord_id req
        (register now (new_lord lord_id req) (new_registry algo)).by_id restarted_on

  processes-rejoined : rejoined.processes ≡ restarted_on.processes
  unfolding connect_lord
  processes-rejoined = rebind_alone now algo lord_id req restarted_on.processes

  -- A scheduler has been started on any log, and the first lord since then connects, whatever its
  -- hostname. A process of the log that is with a lord of another id, as those of the runs before are,
  -- stays as the replay has made it, and to kill it is answered as unavailable and changes nothing.
  pub restart_orphans :
      (kill : KillRequest) (a : ℕ) (e : Entry)
      → get restarted_on.processes kill.process_id ≡ some a
      → deref restarted_on.processes a ≡ some e
      → e.info.ref.lord_id ≢ lord_id
      → e.info.ref.lord_id ≢ ""
      → (deref rejoined.processes a ≡ some e)
        × (kill_process kill rejoined ≡ (err unavailable, rejoined))
  unfolding connect_lord new_server start_scheduler
  restart_orphans kill a e known there other placed =
      let absent : lookup e.info.ref.lord_id rejoined.sessions ≡ none =
        not_inserted e.info.ref.lord_id other _ in
      (
        rw processes-rejoined there,
        unreachable_without kill rejoined e
            (kill_process-KillOutcome kill rejoined e a (rw processes-rejoined known)
              (rw processes-rejoined there) placed)
            absent,
      )
    where
      nothing : (old : String) → lookup {V = Session} old [] ≡ none
      nothing old = unfold lookup in refl

      not_inserted :
          (old : String)
          → old ≢ lord_id
          → (sess : Session) → lookup old (insert lord_id sess []) ≡ none
      not_inserted old ne sess =
          ground (arith, lookup-insert old lord_id sess [], eq_iff lord_id old, nothing old)
