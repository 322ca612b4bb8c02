-- ===== src/Connect/Invariant.antt =====
-- What the handlers of a lord's stream keep of the process table.
use etronium_scdr.Prelude.{
  ℕ, String, ◌≡◌, refl, List, Dict, ℤ, pos, Bool-cases, Option-cases, inl, inr, lookup, ◌==◌, ◌&&◌,
  not, if◌then◌else◌, arith, eqb_ℤ,
}
use etronium_scdr.Proto.{WriteStdinAck, running, exited, stopped}
use etronium_scdr.Ring.{write}
use etronium_scdr.Table.{Table, get}
use etronium_scdr.Table.Invariant.{IsValid, Keeps, update-IsValid}
use etronium_scdr.Table.Steps.{
  update_state-IsValid, update_result-IsValid, rebind-IsValid, set_info-Keeps,
}
use etronium_scdr.Registry.{LordEntry, find_by_hostname}
use etronium_scdr.Server.{Server}
use etronium_scdr.Server.Sending.{processes-offer_event}
use etronium_scdr.Connect.{
  RegisterRequest, ProcessExit, LordCmd, register_again, heartbeat, process_started, process_io,
  process_exit, write_stdin_ack, lazy_death, unknown, at_id, on_procs, handle_io, finish,
  handle_process_exit, deliver_write_stdin_ack, assign_task, handle_started, handle, rebind,
  connect_lord,
}

io-Keeps : (chunk : List ℕ) → Keeps (λ e. record e { io_buf = write e.io_buf chunk })
io-Keeps chunk = record { id = λ e. refl; tenant = λ e. refl; shut = λ e c h. c h }

pub processes-on_procs :
    (lord_id : String) (f : List (ℤ × String) → List (ℤ × String)) (s : Server)
    → (on_procs lord_id f s).processes ≡ s.processes
processes-on_procs lord_id f s = elim (Option-cases (lookup lord_id s.sessions)) [
  | inl absent ↦ rw (absent, on_procs) refl
  | inr (sess, found) ↦ rw (found, on_procs) refl
]

finish-IsValid :
    (now : ℕ) (x : ProcessExit) (a : ℕ) {t : Table} → IsValid t → IsValid (finish now x a t)
unfolding finish
finish-IsValid now x a v = update_result-IsValid now x.exit_code x.exit_signal a (
    update_state-IsValid now (if eqb_ℤ x.exit_signal (pos 0) then exited else stopped) "" (pos 0) a
      (update-IsValid
        (set_info-Keeps
          (λ info. record info {
            cpu_usage_usec_total = x.cpu_usage_usec;
            mem_peak_bytes = x.mem_peak_bytes;
          })
          (λ i. refl) (λ i. refl) (λ i. refl))
        a v))

handle_io-IsValid :
    (id : String) (chunk : List ℕ) (s : Server)
    → IsValid s.processes
    → IsValid (handle_io id chunk s).processes
unfolding handle_io
handle_io-IsValid id chunk s v = elim (Option-cases (get s.processes id)) [
  | inl absent ↦ rw (absent, at_id) v
  | inr (a, found) ↦ rw (found, at_id) (update-IsValid (io-Keeps chunk) a v)
]

handle_process_exit-IsValid :
    (now : ℕ) (lord_id : String) (x : ProcessExit) (s : Server)
    → IsValid s.processes
    → IsValid (handle_process_exit now lord_id x s).processes
unfolding handle_process_exit
handle_process_exit-IsValid now lord_id x s v = elim (Option-cases (get s.processes x.process_id)) [
  | inl absent ↦ rw (absent, handle_process_exit) v
  | inr (a, found) ↦ rw (found, handle_process_exit, processes-on_procs) (finish-IsValid now x a v)
]

processes-deliver :
    (ack : WriteStdinAck) (s : Server) → (deliver_write_stdin_ack ack s).processes ≡ s.processes
unfolding deliver_write_stdin_ack
processes-deliver ack s = ground arith

module _ (lord_id_from_hostname : String → ℕ) (to_uint32 : ℤ → ℕ) where
  pub processes-assign_task :
      (lord_id : String) (local_pid : ℤ) (s : Server)
      → (assign_task lord_id_from_hostname to_uint32 lord_id local_pid s).processes ≡ s.processes
  unfolding assign_task
  processes-assign_task lord_id local_pid s = ground arith

  handle_started-IsValid :
      (now : ℕ) (lord_id id : String) (local_pid : ℤ) (s : Server)
      → IsValid s.processes
      → IsValid
          (handle_started lord_id_from_hostname to_uint32 now lord_id id local_pid s).processes
  unfolding handle_started
  handle_started-IsValid now lord_id id local_pid s v = elim (Option-cases (get s.processes id)) [
    | inl absent ↦ rw (absent, handle_started) v
    | inr (a, found) ↦
        rw (found, handle_started, processes-assign_task, processes-on_procs)
          (update_state-IsValid now running lord_id local_pid a v)
  ]

  -- Whatever a lord sends, its handling leaves a valid process table valid.
  pub handle-IsValid :
      (now : ℕ) (lord_id : String) (cmd : LordCmd) (s : Server)
      → IsValid s.processes
      → IsValid (handle lord_id_from_hostname to_uint32 now lord_id cmd s).processes
  unfolding handle
  handle-IsValid now lord_id register_again s v = v
  handle-IsValid now lord_id (heartbeat cpu mem procs) s v = rw processes-offer_event v
  handle-IsValid now lord_id (process_started id local_pid) s v =
      handle_started-IsValid now lord_id id local_pid s v
  handle-IsValid now lord_id (process_io id chunk) s v = handle_io-IsValid id chunk s v
  handle-IsValid now lord_id (process_exit x) s v = handle_process_exit-IsValid now lord_id x s v
  handle-IsValid now lord_id (write_stdin_ack ack) s v = rw (processes-deliver ack s) v
  handle-IsValid now lord_id (lazy_death grace) s v = rw processes-offer_event v
  handle-IsValid now lord_id unknown s v = v

  -- A lord that connects leaves a valid process table valid, whichever processes it takes over.
  pub connect_lord-IsValid :
      (now : ℕ) (lord_id : String) (req : RegisterRequest) (visited : Dict LordEntry) (s : Server)
      → IsValid s.processes
      → IsValid (connect_lord lord_id_from_hostname to_uint32 now lord_id req visited s).processes
  unfolding connect_lord rebind
  connect_lord-IsValid now lord_id req visited s v = elim (Bool-cases (req.hostname == "")) [
    | inl unnamed ↦ rw unnamed v
    | inr named ↦
        elim (Bool-cases (
          not (find_by_hostname req.hostname visited == "")
          && not (find_by_hostname req.hostname visited == lord_id))) [
            | inl hit ↦
                rw (named, hit) (rebind-IsValid (find_by_hostname req.hostname visited) lord_id v)
            | inr miss ↦ rw (named, miss) v
          ]
  ]
