-- ===== src/Start/Tests.antt =====
-- A restart on the log of one process, and a lord that comes back.
use etronium_scdr.Prelude.{
  String, ◌≡◌, ◌≢◌, refl, insert, lookup, true, some, [], pos, pos_part, arith, eq_iff,
}
use etronium_scdr.Proto.{KillRequest, running}
use etronium_scdr.Table.{
  Entry, new_entry, create_entry, attach_wal, update_state, update_result, update_state_entry,
  update_result_entry, get, deref,
}
use etronium_scdr.Table.Tests.{process}
use etronium_scdr.Bpf.{BpfMaps}
use etronium_scdr.Server.{Server, err, unavailable}
use etronium_scdr.Requests.{kill_process}
use etronium_scdr.Connect.{RegisterRequest}
use etronium_scdr.Connect.Tests.{id_of}
use etronium_scdr.Wal.Recovery.{SameView}
use etronium_scdr.Wal.Tests.{codec, log, stamped, after_result, after_result-Logged}
use etronium_scdr.Wal.{write_header, replay_wal, replay_loop, replay_line, event_of}
use etronium_scdr.Start.{start_table, start_scheduler}
use etronium_scdr.Start.Restart.{
  log_file, records, rejoined, start_scheduler-SameView, restart_orphans,
}

abbrev maps : BpfMaps
maps = record { pinned = true; lord_cpus = []; lord_dsq = []; task_lord = [] }

start_scheduler-SameView_example :
    SameView
      (start_scheduler codec 9 "weighted" maps
        (log_file codec 9 stamped)
        true
        (records stamped)).processes
      after_result
    × ((start_scheduler codec 9 "weighted" maps
          (log_file codec 9 stamped)
          true
          (records stamped)).processes.wal
        ≡ after_result.wal)
start_scheduler-SameView_example =
    start_scheduler-SameView codec 9 "weighted" maps stamped after_result-Logged
      (unfold create_entry attach_wal update_state update_result in refl) (omega arith)
      (omega arith, (omega arith, (omega arith, tt)))

abbrev registration : RegisterRequest
registration = record {
  hostname = "host";
  cpu_cores_physical = pos 4;
  mem_total_bytes_physical = pos 1000;
  advertised_cpu_shares = pos 4;
  advertised_mem_bytes = pos 1000;
}

abbrev kill_p1 : KillRequest
kill_p1 = record { process_id = "p1"; signal_number = pos 15; force = true }

-- the process as the replay makes it
abbrev replayed_entry : Entry
replayed_entry =
    update_result_entry 9 (pos 3) (pos 0)
      (update_state_entry 9 running "l1" (pos 77) (new_entry (process "p1" "a" "l1")))

abbrev again : Server
again = start_scheduler codec 9 "weighted" maps (log_file codec 9 stamped) true log

again-get : get again.processes "p1" ≡ some 0
unfolding start_scheduler start_table write_header replay_wal replay_loop replay_line event_of
    create_entry attach_wal update_state update_result insert lookup
again-get = refl

again-deref : deref again.processes 0 ≡ some replayed_entry
unfolding start_scheduler start_table write_header replay_wal replay_loop replay_line event_of
    create_entry attach_wal update_state update_result insert lookup
again-deref = refl

abbrev back : Server
back =
    rejoined codec id_of pos_part 9 "weighted" maps (log_file codec 9 stamped) true log 10 "new"
      registration

l1-ne-new : ◌≢◌ {A = String} "l1" "new"
l1-ne-new e = ground (arith, eq_iff "l1" "new")

l1-ne-empty : ◌≢◌ {A = String} "l1" ""
l1-ne-empty e = ground (arith, eq_iff "l1" "")

restart_orphans_example :
    (deref back.processes 0 ≡ some replayed_entry)
    × (kill_process kill_p1 back ≡ (err unavailable, back))
restart_orphans_example =
    restart_orphans codec id_of pos_part 9 "weighted" maps (log_file codec 9 stamped) true log 10
      "new" registration kill_p1 0 replayed_entry again-get again-deref
      (λ e. l1-ne-new (unfold update_state_entry update_result_entry in e))
      (λ e. l1-ne-empty (unfold update_state_entry update_result_entry in e))
