-- ===== src/Connect/Lifecycle.antt =====
-- The life of a process as its lord reports it: started, printing, ended.
use etronium_scdr.Prelude.{
  ℕ, String, ◌≡◌, refl, true, some, List, ◌++◌, ℤ, pos, eqb_ℤ, if◌then◌else◌, arith,
}
use etronium_scdr.Proto.{ProcessState, running, stopped, exited}
use etronium_scdr.Ring.{write, contents}
use etronium_scdr.Ring.Bounds.{IsValid}
use etronium_scdr.Ring.Window.{last, kept, contents-write}
use etronium_scdr.Table.{Entry, get, deref, set_info, update_state_entry, update_result_entry}
use etronium_scdr.Table.Access.{deref-update, deref-update_state, deref-update_result}
use etronium_scdr.Server.{Server}
use etronium_scdr.Connect.{
  ProcessExit, process_started, process_io, process_exit, at_id, handle_io, finish,
  handle_process_exit, handle_started, handle,
}
use etronium_scdr.Connect.Invariant.{processes-on_procs, processes-assign_task}

-- the state that an exit leads to
abbrev pub end_state : ProcessExit → ProcessState
end_state x = if eqb_ℤ x.exit_signal (pos 0) then exited else stopped

-- an entry after the exit of its process
abbrev pub finished : ℕ → ProcessExit → Entry → Entry
finished now x e = update_result_entry now x.exit_code x.exit_signal (
    update_state_entry now (end_state x) "" (pos 0) (
      set_info
        (λ info. record info {
          cpu_usage_usec_total = x.cpu_usage_usec;
          mem_peak_bytes = x.mem_peak_bytes;
        })
        e))

module _ (lord_id_from_hostname : String → ℕ) (to_uint32 : ℤ → ℕ) (now : ℕ) (lord_id id : String)
    (s : Server) (a : ℕ) (e : Entry) (known : get s.processes id ≡ some a)
    (there : deref s.processes a ≡ some e) where
  deref-finish : (x : ProcessExit) → deref (finish now x a s.processes) a ≡ some (finished now x e)
  unfolding finish
  deref-finish x =
      deref-update_result now x.exit_code x.exit_signal a _
        (deref-update_state now (end_state x) "" (pos 0) a _ (deref-update _ a s.processes there))

  -- When a lord reports the exit of a process of the table, its entry ends STOPPED if a signal killed it and EXITED
  -- otherwise, with the exit code, the signal and the usage of the report, and whoever waits for it is
  -- woken.
  pub handle_exit :
      (x : ProcessExit)
      → x.process_id ≡ id
      → (e' : Entry) × (deref
            (handle lord_id_from_hostname to_uint32 now lord_id (process_exit x) s).processes
            a
          ≡ some e')
        × (e'.info.state ≡ end_state x)
        × (e'.info.exit_code ≡ x.exit_code)
        × (e'.info.exit_signal ≡ x.exit_signal)
        × (e'.info.mem_peak_bytes ≡ x.mem_peak_bytes)
        × (e'.exited ≡ true)
  unfolding handle handle_process_exit update_state_entry update_result_entry
  handle_exit x same = (
    finished now x e,
    rw (same, known, handle_process_exit, processes-on_procs) (deref-finish x),
    refl,
    refl,
    refl,
    refl,
    ground arith,
  )

  -- A report that a process of the table has started makes it RUNNING on the reporting lord whatever its state was,
  -- also if it had ended; its `exited` channel stays as it was.
  pub handle_start :
      (local_pid : ℤ)
      → (e' : Entry) × (deref
            (handle lord_id_from_hostname to_uint32 now lord_id
              (process_started id local_pid)
              s).processes
            a
          ≡ some e')
        × (e'.info.state ≡ running)
        × (e'.exited ≡ e.exited)
  unfolding handle handle_started update_state_entry
  handle_start local_pid = (
    update_state_entry now running lord_id local_pid e,
    rw (known, handle_started, processes-assign_task, processes-on_procs)
        (deref-update_state now running lord_id local_pid a s.processes there),
    refl,
    ground arith,
  )

  -- A chunk of output goes to the buffer of its process, a valid one, which keeps the last bytes of what it held
  -- and what the write stores of the chunk, and nothing else of the entry changes.
  pub handle_output :
      (chunk : List ℕ)
      → IsValid e.io_buf
      → (e' : Entry) × (deref
            (handle lord_id_from_hostname to_uint32 now lord_id (process_io id chunk) s).processes
            a
          ≡ some e')
        × (contents e'.io_buf ≡ last e.io_buf.cap (contents e.io_buf ++ kept e.io_buf chunk))
        × (e'.info ≡ e.info)
        × (e'.exited ≡ e.exited)
  unfolding handle handle_io
  handle_output chunk v = (
    record e { io_buf = write e.io_buf chunk },
    rw (known, at_id)
        (deref-update (λ x. record x { io_buf = write x.io_buf chunk }) a s.processes there),
    contents-write chunk v,
    refl,
    refl,
  )
