-- ===== src/Connect.antt =====
-- internal/scheduler/connect.go: the stream of a lord. `connect_lord` is `Connect` up to its receive
-- loop, `handle` one round of `recvLoop`, `disconnect` the clean-up behind it; the recovery that it
-- starts runs in another goroutine (Recovery). The fields of `Lord` that nothing reads are left out.
pub mod Invariant
pub mod Lifecycle
pub mod Rebinding
pub mod Tests
use etronium_scdr.Prelude.{
  ℕ, String, ◌==◌, Bool, true, false, ◌&&◌, not, Option, none, some, List, [], ◌∷◌, ◌++◌, Dict,
  lookup, insert, delete, ℤ, pos, eqb_ℤ, if◌then◌else◌,
}
use etronium_scdr.Proto.{
  Lord, WriteStdinAck, LordEvent, register_ack, heartbeat_ack, lazy_death_ack, running, stopped,
  exited,
}
use etronium_scdr.Ring.{write}
use etronium_scdr.Table.{
  Table, Entry, get, update, set_info, update_state, update_result, update_lord_for_hostname,
}
use etronium_scdr.Registry.{
  LordEntry, Registry, register, update_stats, get_lord, mark_unhealthy, set_drain,
  find_by_hostname,
}
use etronium_scdr.Bpf.{BpfMaps, register_lord_bpf, assign_task_bpf}
use etronium_scdr.Server.{Session, Server, offer_event}

pub record RegisterRequest : Type 0 where
  pub hostname : String
  pub cpu_cores_physical : ℤ
  pub mem_total_bytes_physical : ℤ
  pub advertised_cpu_shares : ℤ
  pub advertised_mem_bytes : ℤ

pub record ProcessExit : Type 0 where
  pub process_id : String
  pub exit_code : ℤ
  pub exit_signal : ℤ
  pub cpu_usage_usec : ℤ
  pub mem_peak_bytes : ℤ

-- `LordCmd`: what a lord sends
pub data LordCmd : Type 0 where
  register_again : LordCmd
  heartbeat : ℤ → ℤ → ℤ → LordCmd
  process_started : String → ℤ → LordCmd
  process_io : String → List ℕ → LordCmd
  process_exit : ProcessExit → LordCmd
  write_stdin_ack : WriteStdinAck → LordCmd
  lazy_death : ℤ → LordCmd
  unknown : LordCmd

-- the entry of a process id changed, if there is one
abbrev pub at_id : String → (ℕ → Table → Table) → Table → Table
at_id id f t = elim (get t id) [ none ↦ t | some a ↦ f a t ]

-- `sess.procs[pid] = id`
abbrev pub put_proc : ℤ → String → List (ℤ × String) → List (ℤ × String)
put_proc pid id [] = (pid, id) ∷ []
put_proc pid id ((p, i) ∷ ps) = if eqb_ℤ p pid then (pid, id) ∷ ps else (p, i) ∷ put_proc pid id ps

-- the loop that deletes the first pid of a process
abbrev pub drop_proc : String → List (ℤ × String) → List (ℤ × String)
drop_proc id [] = []
drop_proc id ((p, i) ∷ ps) = if i == id then ps else (p, i) ∷ drop_proc id ps

-- a change of `procs` of a session
abbrev pub on_procs : String → (List (ℤ × String) → List (ℤ × String)) → Server → Server
on_procs lord_id f s = elim (lookup lord_id s.sessions) [
  | none ↦ s
  | some sess ↦ record s {
    sessions = insert lord_id (record sess { procs = f sess.procs }) s.sessions;
  }
]

-- `handleIo`
unfoldable pub handle_io : String → List ℕ → Server → Server
handle_io id chunk s = record s {
  processes = at_id id (update (λ e. record e { io_buf = write e.io_buf chunk })) s.processes;
}

-- the table after `handleProcessExit`
unfoldable pub finish : ℕ → ProcessExit → ℕ → Table → Table
finish now x a t = update_result now x.exit_code x.exit_signal a (
    update_state now (if eqb_ℤ x.exit_signal (pos 0) then exited else stopped) "" (pos 0) a (
      update
        (set_info (λ info. record info {
          cpu_usage_usec_total = x.cpu_usage_usec;
          mem_peak_bytes = x.mem_peak_bytes;
        }))
        a t))

-- `handleProcessExit`
unfoldable pub handle_process_exit : ℕ → String → ProcessExit → Server → Server
unfolding finish
handle_process_exit now lord_id x s = elim (get s.processes x.process_id) [
  | none ↦ s
  | some a ↦
      on_procs lord_id (drop_proc x.process_id)
        (record s { processes = finish now x a s.processes })
]

-- `deliverWriteStdinAck`: a waiter's channel holds one answer
unfoldable pub deliver_write_stdin_ack : WriteStdinAck → Server → Server
deliver_write_stdin_ack ack s = elim (lookup ack.process_id s.write_stdin_waiters) [
  | some [] ↦ record s {
    write_stdin_waiters = insert ack.process_id (ack ∷ []) s.write_stdin_waiters;
  }
  | _ ↦ s
]

-- the lord of a session, as `Connect` enters it
abbrev pub new_lord : String → RegisterRequest → Lord
new_lord lord_id req = record {
  lord_id = lord_id;
  hostname = req.hostname;
  cpu_cores_physical = req.cpu_cores_physical;
  mem_total_bytes_physical = req.mem_total_bytes_physical;
  advertised_cpu_shares = req.advertised_cpu_shares;
  advertised_mem_bytes = req.advertised_mem_bytes;
  cpu_used_pct = pos 0;
  mem_used_bytes = pos 0;
  active_processes = pos 0;
  healthy = true;
}

-- the re-binding of the processes of a lord with the same hostname. `visited` is the map in the order
-- in which this `range` visits it.
unfoldable pub rebind : String → String → Dict LordEntry → Table → Table
rebind lord_id hostname visited t =
    if hostname == ""
    then t
    else (let old = find_by_hostname hostname visited in
        if not (old == "") && not (old == lord_id)
        then (update_lord_for_hostname old lord_id t).1
        else t)

module _ (lord_id_from_hostname : String → ℕ) (to_uint32 : ℤ → ℕ) where
  -- the write to the BPF map at the end of `handleStarted`
  unfoldable pub assign_task : String → ℤ → Server → Server
  assign_task lord_id local_pid s = elim (get_lord s.lords lord_id) [
    | none ↦ s
    | some l ↦ if l.hostname == "" then s else record s {
      bpf = assign_task_bpf (to_uint32 local_pid) (lord_id_from_hostname l.hostname) s.bpf;
    }
  ]

  -- `handleStarted`
  unfoldable pub handle_started : ℕ → String → String → ℤ → Server → Server
  unfolding assign_task
  handle_started now lord_id id local_pid s = elim (get s.processes id) [
    | none ↦ s
    | some a ↦ assign_task lord_id local_pid (
        on_procs lord_id (put_proc local_pid id)
          (record s { processes = update_state now running lord_id local_pid a s.processes }))
  ]

  -- one round of `recvLoop`
  unfoldable pub handle : ℕ → String → LordCmd → Server → Server
  unfolding handle_started handle_io handle_process_exit deliver_write_stdin_ack
  handle now lord_id register_again s = s
  handle now lord_id (heartbeat cpu mem procs) s =
      offer_event lord_id heartbeat_ack
        (record s { lords = (update_stats now lord_id cpu mem procs s.lords).1 })
  handle now lord_id (process_started id local_pid) s = handle_started now lord_id id local_pid s
  handle now lord_id (process_io id chunk) s = handle_io id chunk s
  handle now lord_id (process_exit x) s = handle_process_exit now lord_id x s
  handle now lord_id (write_stdin_ack ack) s = deliver_write_stdin_ack ack s
  handle now lord_id (lazy_death grace) s =
      offer_event lord_id (lazy_death_ack grace) (record s { lords = set_drain lord_id s.lords })
  handle now lord_id unknown s = s

  -- `Connect` up to the receive loop; `lord_id` is what `NewID` returns
  unfoldable pub connect_lord : ℕ → String → RegisterRequest → Dict LordEntry → Server → Server
  unfolding rebind
  connect_lord now lord_id req visited s = record s {
    sessions =
        insert lord_id
          (record { lord_id = lord_id; outbox = register_ack lord_id ∷ []; procs = [] }) s.sessions;
    lords = register now (new_lord lord_id req) s.lords;
    bpf =
        register_lord_bpf lord_id_from_hostname req.hostname (to_uint32 req.advertised_cpu_shares)
          s.bpf;
    processes = rebind lord_id req.hostname visited s.processes;
  }

-- the end of `Connect`
unfoldable pub disconnect : String → Server → Server
disconnect lord_id s = record s {
  sessions = delete lord_id s.sessions;
  lords = mark_unhealthy lord_id s.lords;
}
