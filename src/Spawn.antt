-- ===== src/Spawn.antt =====
-- `Spawn` of internal/scheduler/server.go, with `validateResources`, `buildSpawnRequest` and
-- `copyMap` (the identity on values).
pub mod Resources
pub mod Outcome
pub mod Invariant
pub mod Tests
use etronium_scdr.Prelude.{
  ℕ, ◌^◌, String, ◌==◌, Bool, true, false, ◌||◌, Option, none, some, List, [], ◌∷◌, Dict, lookup,
  insert, ℤ, pos, negsuc, eqb_ℤ, ltb_ℤ, if◌then◌else◌,
}
use etronium_scdr.Proto.{ProcessInfo, ResourceSpec, SpawnRequest, Lord, ready, stopped}
use etronium_scdr.Float.{Float}
use etronium_scdr.Table.{Table, Entry, create_entry, deref, update_state, update_result}
use etronium_scdr.Registry.{pick}
use etronium_scdr.Server.{
  Server, Session, Error, invalid_argument, unavailable, internal, Result, ok, err, send_event,
  send_spawn,
}

-- the messages of `validateResources`
pub data ResourceError : Type 0 where
  cpu_shares_range cpu_quota_range mem_limit_negative io_weight_range pids_limit_range :
      ResourceError

unfoldable pub validate_resources : Option ResourceSpec → Option ResourceError
validate_resources none = none
validate_resources (some r) =
    if ltb_ℤ r.cpu_shares (pos 0) || ltb_ℤ (pos 10000) r.cpu_shares
    then some cpu_shares_range
    else if ltb_ℤ r.cpu_quota_pct (pos 0) || ltb_ℤ (pos 100) r.cpu_quota_pct
    then some cpu_quota_range
    else if ltb_ℤ r.mem_limit_bytes (pos 0)
    then some mem_limit_negative
    else if ltb_ℤ r.io_weight (pos 0) || ltb_ℤ (pos 10000) r.io_weight
    then some io_weight_range
    else if ltb_ℤ r.pids_limit (pos 0) || ltb_ℤ (pos 1000000) r.pids_limit
    then some pids_limit_range
    else none

abbrev pub state_dump_key : String
state_dump_key = "ETRONIUM_STATE_DUMP"

unfoldable pub build_spawn_request : ProcessInfo → SpawnRequest → SpawnRequest
build_spawn_request info req = record {
  process_id = info.ref.process_id;
  tenant_id = info.tenant_id;
  exec_path = req.exec_path;
  argv = req.argv;
  env =
      if info.state_dump_path == ""
      then req.env
      else insert state_dump_key info.state_dump_path req.env;
  resources = req.resources;
  working_dir = req.working_dir;
  prefer_lord_id = "";
  stdin_initial = req.stdin_initial;
  max_restarts = info.max_restarts;
  state_dump_path_hint = info.state_dump_path;
}

-- the info of a new process
unfoldable pub new_info : ℕ → String → String → SpawnRequest → ProcessInfo
new_info now process_id lord_id req = record {
  ref = record { process_id = process_id; lord_id = lord_id; local_pid = pos 0 };
  tenant_id = req.tenant_id;
  exec_path = req.exec_path;
  argv = req.argv;
  env = req.env;
  working_dir = req.working_dir;
  state = ready;
  state_changed_at = some now;
  resources = req.resources;
  cpu_usage_usec_total = pos 0;
  mem_peak_bytes = pos 0;
  exited_at = none;
  exit_code = pos 0;
  exit_signal = pos 0;
  restart_count = pos 0;
  last_error = "";
  state_dump_path = req.state_dump_path_hint;
  max_restarts = if eqb_ℤ req.max_restarts (pos 0) then pos 10 else req.max_restarts;
}

-- the process as `entry.Snapshot()` gives it
abbrev pub snapshot : Table → ℕ → Option ProcessInfo
snapshot t a = elim (deref t a) [ none ↦ none | some e ↦ some e.info ]

-- what follows `SendSpawn` in `Spawn`
unfoldable pub after_send :
    ℕ → ℕ → Result (Unit {0}) × Server → Result (Option ProcessInfo) × Server
after_send now a (ok u, s) = (ok (snapshot s.processes a), s)
after_send now a (err e, s) = (
  err internal,
  record s {
    processes =
        update_result now (negsuc 0) (pos 0) a (update_state now stopped "" (pos 0) a s.processes);
  },
)

-- from the creation of the entry on
unfoldable pub start_on :
    ℕ → String → String → SpawnRequest → Server → Result (Option ProcessInfo) × Server
unfolding new_info build_spawn_request after_send
start_on now process_id lord_id req s =
    let info = new_info now process_id lord_id req in
    let (a, t) = create_entry info s.processes in
    after_send now a
      (send_spawn lord_id (build_spawn_request info req) (record s { processes = t }))

-- `Spawn`; `process_id` is what `NewID` returns
unfoldable pub spawn_process :
    Float → ℕ → String → SpawnRequest → Server → Result (Option ProcessInfo) × Server
unfolding start_on validate_resources
spawn_process fl now process_id req s =
    if req.tenant_id == ""
    then (err invalid_argument, s)
    else if req.exec_path == ""
    then (err invalid_argument, s)
    else (elim (validate_resources req.resources) [
      | some e ↦ (err invalid_argument, s)
      | none ↦ elim (pick fl req.prefer_lord_id s.lords) [
        | none ↦ (err unavailable, s)
        | some lord ↦ elim (lookup lord.lord_id s.sessions) [
          | none ↦ (err unavailable, s)
          | some sess ↦ start_on now process_id lord.lord_id req s
        ]
      ]
    ])
