-- ===== src/System/Tests.antt =====
-- A run of the scheduler: a lord connects, a process is spawned on it and starts, and the lord goes.
use etronium_scdr.Prelude.{ℕ, String, refl, true, [], pos, pos_part, lookup}
use etronium_scdr.Float.Fixed.{fixed}
use etronium_scdr.Bpf.{BpfMaps}
use etronium_scdr.Registry.{find_by_hostname}
use etronium_scdr.Server.{Server}
use etronium_scdr.Spawn.{spawn_process}
use etronium_scdr.Spawn.Tests.{request}
use etronium_scdr.Recovery.Invariant.{IsSound}
use etronium_scdr.Connect.{RegisterRequest, process_started, handle, connect_lord, disconnect}
use etronium_scdr.System.{
  new_server, Reach, start, next, spawned, connected, received, disconnected, Reach-IsSound,
}

abbrev id_of : String → ℕ
id_of hostname = 7

abbrev maps : BpfMaps
maps = record { pinned = true; lord_cpus = []; lord_dsq = []; task_lord = [] }

abbrev registration : RegisterRequest
registration = record {
  hostname = "host";
  cpu_cores_physical = pos 4;
  mem_total_bytes_physical = pos 1000;
  advertised_cpu_shares = pos 4;
  advertised_mem_bytes = pos 1000;
}

abbrev with_lord : Server
with_lord = connect_lord id_of pos_part 1 "l1" registration [] (new_server "weighted" maps)

abbrev with_process : Server
with_process = (spawn_process fixed 2 "p1" request with_lord).1

abbrev with_running : Server
with_running = handle id_of pos_part 3 "l1" (process_started "p1" (pos 77)) with_process

abbrev without_lord : Server
without_lord = disconnect "l1" with_running

without_lord-Reach : Reach fixed id_of pos_part without_lord
without_lord-Reach =
    next
      (next
        (next (next (start "weighted" maps) (connected 1 "l1" registration []))
          (spawned 2 "p1" request (unfold connect_lord new_server lookup find_by_hostname in refl)))
        (received 3 "l1" (process_started "p1" (pos 77))))
      (disconnected "l1")

Reach-IsSound_example : IsSound without_lord
Reach-IsSound_example = Reach-IsSound fixed id_of pos_part without_lord-Reach
