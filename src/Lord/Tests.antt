-- ===== src/Lord/Tests.antt =====
-- A lord with one process, and inputs on which the theorems about the agent apply.
use etronium_scdr.Prelude.{
  ℕ, String, ◌≡◌, ◌≢◌, refl, ◌==◌, eq_iff, true, false, none, some, List, [], ◌∷◌, ◌++◌, ℤ, pos,
  negsuc, pos_part, lookup, map, arith, Dict,
}
use etronium_scdr.Lord.Connection.{Connection, Sent, opened, accept, reconnect_rejected}
use etronium_scdr.Server.{err, invalid_argument}
use etronium_scdr.Connect.{RegisterRequest, process_started}
use etronium_scdr.Proto.{SpawnRequest, ResourceSpec, WriteStdinRequest, stopped}
use etronium_scdr.Ring.{new_ring, ring_bytes, contents}
use etronium_scdr.Ring.Bounds.{new_ring-IsValid}
use etronium_scdr.Ring.Follow.{IsFilling, flat}
use etronium_scdr.Table.{Entry, deref}
use etronium_scdr.Server.{Server}
use etronium_scdr.Connect.{LordCmd}
use etronium_scdr.Connect.Tests.{id_of, entry, busy_server, p1-get, p1-deref}
use etronium_scdr.Lord.{
  LocalProcess, Agent, Os, new_agent, drain_complete, signalled, wait_process, pump_stream, to_cmd,
}
use etronium_scdr.Lord.Handlers.{Waiting, handle_set_drain}
use etronium_scdr.Lord.Reports.{Queued, scheduler_after, end_reported}
use etronium_scdr.Lord.Drain.{Drained, drain_ends}
use etronium_scdr.Lord.Output.{IsContiguous, handle_all, output_arrives}
use etronium_scdr.Lord.Limits.{HoldsLimit, limits, limits_applied}
use etronium_scdr.Spawn.{validate_resources}

-- every command starts as process 100, and a pipe takes at most two bytes
abbrev pub linux : Os
linux = record {
  pipes = λ req. true;
  start = λ req. some 100;
  write = λ pid bytes. (2, false);
  kill = λ pid signal. true;
}

abbrev pub shell : LocalProcess
shell = record { lord_pid = 100; stdin = []; stdin_closed = false }

abbrev pub agent : Agent
agent = record new_agent { lord_id = "idle"; procs = ("p1", shell) ∷ [] }

abbrev request : SpawnRequest
request = record {
  process_id = "p1";
  tenant_id = "a";
  exec_path = "/bin/sh";
  argv = [];
  env = [];
  resources = none;
  working_dir = "";
  prefer_lord_id = "";
  stdin_initial = [];
  max_restarts = pos 0;
  state_dump_path_hint = "";
}

pub p1_named : ◌≢◌ {A = String} "p1" ""
p1_named e = ground (arith, eq_iff "p1" "")

end_reported_example :
    (lookup "p1" (wait_process "p1" (signalled 9) (pos 5) (pos 6) agent).procs ≡ none)
    × (cmd : LordCmd) × Queued id_of pos_part 8 "idle" "p1" busy_server agent cmd
        (wait_process "p1" (signalled 9) (pos 5) (pos 6) agent)
    × (e' : Entry) × (deref
          (scheduler_after id_of pos_part 8 "idle" "p1" busy_server agent cmd).processes
          0
        ≡ some e')
    × (e'.info.state ≡ stopped)
    × (e'.info.exit_code ≡ negsuc 0)
    × (e'.info.exit_signal ≡ pos 9)
    × (e'.info.mem_peak_bytes ≡ pos 6)
    × (e'.exited ≡ true)
end_reported_example =
    end_reported id_of pos_part 8 "idle" "p1" busy_server agent 0 entry p1-get p1-deref
      (signalled 9) (pos 5) (pos 6) (λ e. cc)

abbrev waiting_server : Server
waiting_server = record busy_server { write_stdin_waiters = ("p1", []) ∷ [] }

abbrev pub input : WriteStdinRequest
input = record { lord_id = "idle"; process_id = "p1"; bytes = 7 ∷ 8 ∷ 9 ∷ []; eof = false }

-- a process that does not end by itself
abbrev stubborn : Waiting
stubborn = record { clock = λ k. k; between = λ k ag. ag }

drain_ends_example :
    (ag₁ ag₂ : Agent) × (handle_set_drain stubborn (pos 5) agent ≡ some (some drain_complete, ag₂))
    × Drained stubborn (pos 5) agent ag₁ ag₂
drain_ends_example = drain_ends stubborn (pos 5) agent (λ k. omega arith) refl

pub fresh-IsFilling : IsFilling entry.io_buf
unfolding new_ring
fresh-IsFilling = record { valid = new_ring-IsValid ring_bytes (omega arith); open_end = refl }

abbrev printed : List (List ℕ)
printed = (1 ∷ 2 ∷ []) ∷ [] ∷ (3 ∷ []) ∷ []

output_arrives_example :
    IsContiguous 0 (pump_stream 0 printed)
    × (e' : Entry) × (deref
          (handle_all id_of pos_part 8 "idle"
            (map (to_cmd "p1") (pump_stream 0 printed))
            busy_server).processes
          0
        ≡ some e')
    × (contents e'.io_buf ≡ contents entry.io_buf ++ flat printed)
    × (e'.info ≡ entry.info)
output_arrives_example =
    output_arrives id_of pos_part 8 "idle" "p1" 0 printed busy_server entry p1-get p1-deref
      (omega arith, (omega arith, (omega arith, tt))) fresh-IsFilling
      (unfold flat new_ring in omega arith)

abbrev modest : ResourceSpec
modest = record {
  cpu_shares = pos 200;
  cpu_quota_pct = pos 50;
  mem_limit_bytes = pos 0;
  io_weight = pos 100;
  pids_limit = pos 64;
}

abbrev delegated : Dict ℤ
delegated = ("cpu.weight", pos 100) ∷ ("memory.max", pos 4096) ∷ ("cgroup.type", pos 0) ∷ []

limits_applied_example :
    HoldsLimit (λ name. true) modest delegated "cpu.weight" (pos 200)
    × HoldsLimit (λ name. true) modest delegated "memory.max" (pos 0)
    × HoldsLimit (λ name. true) modest delegated "io.weight" (pos 100)
    × HoldsLimit (λ name. true) modest delegated "pids.max" (pos 64)
    × ((name : String)
        → (name == "cpu.weight") ≡ false
        → (name == "memory.max") ≡ false
        → (name == "io.weight") ≡ false
        → (name == "pids.max") ≡ false
        → lookup name (limits (λ name. true) modest delegated) ≡ lookup name delegated)
limits_applied_example =
    limits_applied (λ name. true) modest delegated (unfold validate_resources in refl)

abbrev registration : RegisterRequest
registration = record {
  hostname = "host";
  cpu_cores_physical = pos 4;
  mem_total_bytes_physical = pos 1000;
  advertised_cpu_shares = pos 4;
  advertised_mem_bytes = pos 1000;
}

reconnect_rejected_example :
    (c : Connection) × Sent registration (opened (process_started "p1" (pos 100) ∷ [])) c
    × (c.registered ≡ true)
    × (c.outbox ≡ [])
    × (accept id_of pos_part 9 "new" [] c.stream busy_server ≡ (err invalid_argument, busy_server))
reconnect_rejected_example =
    reconnect_rejected id_of pos_part registration 9 "new" [] (process_started "p1" (pos 100)) []
      busy_server
