-- ===== src/Network/Tests.antt =====
-- A scheduler and one of its lords, and a spawn, a kill and an end on them.
use etronium_scdr.Prelude.{
  ℕ, ◌+◌, ◌≤◌, String, ◌≡◌, ◌≢◌, refl, true, some, [], ◌∷◌, lookup, insert, pos, pos_part, arith,
  eq_iff,
}
use etronium_scdr.Proto.{KillRequest, SpawnRequest, register_ack, spawn, set_drain, stopped, ready}
use etronium_scdr.Float.Fixed.{fixed}
use etronium_scdr.Table.{Entry, deref, create_entry}
use etronium_scdr.Registry.{pick, score_lord, register, find_by_hostname, new_registry}
use etronium_scdr.Server.{Server, ok, send_event, take_event}
use etronium_scdr.Spawn.{
  build_spawn_request, spawn_process, new_info, validate_resources, after_send, start_on,
}
use etronium_scdr.Spawn.Tests.{request, server}
use etronium_scdr.Recovery.Invariant.{IsSound}
use etronium_scdr.Requests.{KillResponse, kill_process, signal_of}
use etronium_scdr.Connect.Tests.{id_of, entry, busy_server, p1-get, p1-deref}
use etronium_scdr.Lord.{new_agent, send_heartbeat}
use etronium_scdr.Lord.Handlers.{Waiting, register_process, handle_spawn, handle_event}
use etronium_scdr.Lord.Tests.{linux, shell, agent}
use etronium_scdr.Lord.Signals.{IsAccurate}
use etronium_scdr.Bpf.{BpfMaps}
use etronium_scdr.Connect.{RegisterRequest, rebind, connect_lord}
use etronium_scdr.System.{new_server, connected, spawned}
use etronium_scdr.Network.Runs.{Reachable, fresh, later, acted, delivered, beat, network_sound}
use etronium_scdr.Network.{Network, done, pushed, served}
use etronium_scdr.Network.Cost.{cost}
use etronium_scdr.Network.Settling.{IsSettled, Ran, messages_settle}
use etronium_scdr.Network.Stopping.{
  IsSignalled, ended_by, kill_can_arrive, kill_arrives, end_can_arrive, kill_stops,
}

abbrev waiting : Waiting
waiting = record { clock = λ k. k; between = λ k ag. ag }

abbrev idle_network : Network
idle_network = record { server = server; agent = new_agent; down = []; up = [] }

-- a drain has just been asked for
abbrev draining_network : Network
draining_network = record {
  server = busy_server;
  agent = agent;
  down = set_drain (pos 5) ∷ [];
  up = [];
}

messages_settle_example :
    (j : ℕ) × (v : Network) × Ran id_of pos_part "idle" linux waiting j draining_network v
    × IsSettled "idle" v
    × (0 + j ≤ cost "idle" draining_network)
messages_settle_example =
    messages_settle id_of pos_part "idle" linux waiting 0 draining_network draining_network
      (λ k ag. refl) (λ k. omega arith) done

abbrev accepted : Server
accepted = (spawn_process fixed 7 "p1" request server).1

abbrev busy_network : Network
busy_network = record { server = busy_server; agent = agent; down = []; up = [] }

abbrev request_kill : KillRequest
request_kill = record { process_id = "p1"; signal_number = pos 0; force = true }

abbrev kill_sent : Server
kill_sent = (kill_process request_kill busy_server).1

abbrev response : KillResponse
response = record { acknowledged = true; current_state = ready }

kill_accepted : kill_process request_kill busy_server ≡ (ok response, kill_sent)
unfolding kill_process send_event lookup insert create_entry
kill_accepted = refl

busy_network-IsSettled : IsSettled "idle" busy_network
unfolding lookup
busy_network-IsSettled = record {
  queue_empty = refl;
  down_empty = refl;
  outbox_empty = refl;
  up_empty = refl;
}

idle_named : ◌≢◌ {A = String} "idle" ""
idle_named e = ground (arith, eq_iff "idle" "")

kill_run :
    (m : Network) × Ran id_of pos_part "idle" linux waiting 2
      (record busy_network { server = kill_sent })
      m
kill_run =
    kill_can_arrive id_of pos_part "idle" linux waiting request_kill busy_network kill_sent 0 entry
      p1-get p1-deref response refl idle_named busy_network-IsSettled kill_accepted

-- the report of the end of the process, and the scheduler
end_run :
    (v : Network) × Ran id_of pos_part "idle" linux waiting 2
      (ended_by "p1" 9 (pos 5) (pos 6) kill_run.0)
      v
end_run =
    end_can_arrive id_of pos_part "idle" linux waiting "p1" 9 (pos 5) (pos 6) kill_run.0
      (kill_arrives id_of pos_part "idle" linux waiting request_kill busy_network kill_sent 0 entry
        p1-get p1-deref shell response kill_run.0 refl idle_named busy_network-IsSettled
        (unfold lookup in refl) kill_accepted kill_run.1).rest

kill_stops_example :
    IsSignalled request_kill shell agent kill_run.0.agent
    × (e' : Entry) × (deref end_run.0.server.processes 0 ≡ some e')
    × (e'.info.state ≡ stopped)
    × (e'.info.exit_signal ≡ signal_of request_kill)
    × (e'.exited ≡ true)
kill_stops_example =
    kill_stops id_of pos_part "idle" linux waiting request_kill busy_network kill_sent 0 entry
      p1-get p1-deref shell response 8 (pos 5) (pos 6) kill_run.0 end_run.0 refl idle_named
      busy_network-IsSettled (unfold lookup in refl) kill_accepted refl kill_run.1 end_run.1

abbrev maps : BpfMaps
maps = record { pinned = true; lord_cpus = []; lord_dsq = []; task_lord = [] }

abbrev registration : RegisterRequest
registration = record {
  hostname = "host";
  cpu_cores_physical = pos 4;
  mem_total_bytes_physical = pos 1000;
  advertised_cpu_shares = pos 4;
  advertised_mem_bytes = pos 1000;
}

abbrev connected_server : Server
connected_server = connect_lord id_of pos_part 1 "idle" registration [] (new_server "weighted" maps)

-- the lord has connected, and a client has spawned a process on it
abbrev spawned_server : Server
spawned_server = (spawn_process fixed 7 "p1" request connected_server).1

abbrev spawn_event : SpawnRequest
spawn_event = build_spawn_request (new_info 7 "p1" "idle" request) request

-- The lord has handled the answer to its registration and the spawn event, and has sent a heartbeat.
lord_run : (n : Network) × Reachable fixed id_of pos_part "idle" linux waiting (spawn_event ∷ []) n
unfolding connect_lord spawn_process pick score_lord new_info validate_resources send_event lookup
    insert start_on after_send create_entry take_event register find_by_hostname rebind handle_event
    handle_spawn register_process new_server send_heartbeat new_registry
lord_run = (
  _,
  later
      (later
        (later
          (later
            (later
              (later (later (fresh "weighted" maps) (acted (connected 1 "idle" registration [])))
                (acted (spawned 7 "p1" request refl)))
              (delivered (pushed (register_ack "idle") _ refl)))
            (delivered (pushed (spawn spawn_event) _ refl)))
          (delivered (served (register_ack "idle") _ _ refl (omega arith) refl)))
        (delivered (served (spawn spawn_event) _ _ refl (omega arith) refl)))
      (beat (pos 3) (pos 4) (omega arith)),
)

network_sound_example :
    IsAccurate linux (spawn_event ∷ []) lord_run.0.agent × IsSound lord_run.0.server
network_sound_example =
    network_sound fixed id_of pos_part "idle" linux waiting (λ log k ag v. v) lord_run.1
