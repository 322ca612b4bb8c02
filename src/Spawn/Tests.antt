-- ===== src/Spawn/Tests.antt =====
-- A server with two lords, and inputs on which the theorems about `Spawn` apply.
use etronium_scdr.Prelude.{String, ◌≡◌, ◌↔◌, true, none, some, [], ◌∷◌, pos}
use etronium_scdr.Proto.{ResourceSpec, SpawnRequest}
use etronium_scdr.Float.Fixed.{fixed}
use etronium_scdr.Table.{new_table}
use etronium_scdr.Registry.Tests.{lords}
use etronium_scdr.Server.{Server, Session}
use etronium_scdr.Spawn.{validate_resources, spawn_process}
use etronium_scdr.Spawn.Resources.{IsInRange, validate_resources_iff}
use etronium_scdr.Spawn.Outcome.{Outcome, spawn_process-Outcome}

abbrev pub session : String → Session
session id = record { lord_id = id; outbox = []; procs = [] }

abbrev pub server : Server
server = record {
  processes = new_table;
  lords = lords;
  sessions = ("busy", session "busy") ∷ ("idle", session "idle") ∷ [];
  last_recovery_at = [];
  write_stdin_waiters = [];
  bpf = record { pinned = true; lord_cpus = []; lord_dsq = []; task_lord = [] };
}

abbrev resources : ResourceSpec
resources = record {
  cpu_shares = pos 1024;
  cpu_quota_pct = pos 50;
  mem_limit_bytes = pos 1000000;
  io_weight = pos 100;
  pids_limit = pos 64;
}

abbrev pub request : SpawnRequest
request = record {
  process_id = "";
  tenant_id = "a";
  exec_path = "/bin/sleep";
  argv = "60" ∷ [];
  env = [];
  resources = some resources;
  working_dir = "/";
  prefer_lord_id = "";
  stdin_initial = [];
  max_restarts = pos 0;
  state_dump_path_hint = "";
}

validate_resources_iff_example : (validate_resources (some resources) ≡ none) ↔ IsInRange resources
validate_resources_iff_example = validate_resources_iff resources

spawn_process-Outcome_example :
    Outcome fixed 7 "p1" request server (spawn_process fixed 7 "p1" request server)
spawn_process-Outcome_example = spawn_process-Outcome fixed 7 "p1" request server
