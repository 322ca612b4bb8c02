-- ===== src/Lord/Reports.antt =====
-- What a lord reports of its processes, and what the scheduler makes of the reports.
use etronium_scdr.Prelude.{
  ℕ, zero, suc, ◌∙◌, ◌||◌, String, ◌≡◌, ◌≢◌, refl, ◌==◌, eq_iff, Bool, true, false, none, some, [],
  ◌∷◌, ◌++◌, lookup, insert, lookup-insert, lookup-delete, ℤ, pos, negsuc, eqb_ℤ, arith,
  if◌then◌else◌, Bool-cases, Option-cases, ◌⊎◌, inl, inr, take, eq_refl,
}
use etronium_scdr.Proto.{
  ProcessState, SpawnRequest, WriteStdinRequest, WriteStdinAck, running, exited, stopped,
}
use etronium_scdr.Table.{Entry, get, deref}
use etronium_scdr.Server.{Server}
use etronium_scdr.Connect.{
  ProcessExit, LordCmd, process_started, process_exit, write_stdin_ack, handle,
  deliver_write_stdin_ack,
}
use etronium_scdr.Connect.Lifecycle.{handle_exit, handle_start}
use etronium_scdr.Lord.{
  LocalProcess, Agent, Os, send, Failure, is_draining, not_started, WaitStatus, success,
  exit_status, signalled, wait_error, code_of, exit_signal_of, wait_process,
}
use etronium_scdr.Lord.Handlers.{
  refuse, register_process, handle_spawn, write_pipe, written, ack_of, handle_write_stdin, Handled,
}

module _ (lord_id_from_hostname : String → ℕ) (to_uint32 : ℤ → ℕ) (now : ℕ) (lord_id id : String)
    (s : Server) (ag : Agent) where
  abbrev pub scheduler_after : LordCmd → Server
  scheduler_after cmd = handle lord_id_from_hostname to_uint32 now lord_id cmd s

  -- the report is the last in the outbox of the agent
  abbrev pub Queued : LordCmd → Agent → Type 0
  Queued cmd ag' = ag'.outbox ≡ ag.outbox ++ cmd ∷ []

  module _ (a : ℕ) (e : Entry) (known : get s.processes id ≡ some a)
      (there : deref s.processes a ≡ some e) where
    -- how the scheduler enters a process after the report on its spawn
    abbrev pub Entered : Entry → Type 0
    Entered e' =
        (ag.draining ≡ false) × (e'.info.state ≡ running)
        ⊎ (e'.info.state ≡ exited) × (e'.info.exit_code ≡ negsuc 0) × (e'.exited ≡ true)

    abbrev pub Reported : Handled → Type 0
    Reported out =
        (cmd : LordCmd) × Queued cmd out.1
        × (e' : Entry) × (deref (scheduler_after cmd).processes a ≡ some e')
        × Entered e'

    refuse-Reported : (why : Failure) → Reported (refuse why id ag)
    refuse-Reported why =
        let x : ProcessExit = record {
          process_id = id;
          exit_code = negsuc 0;
          exit_signal = pos 0;
          cpu_usage_usec = pos 0;
          mem_peak_bytes = pos 0;
        } in
        let (e', at, state, code, signal, peak, woken) =
          handle_exit lord_id_from_hostname to_uint32 now lord_id id s a e known there x refl in
        (process_exit x, refl, e', at, inr (state, code, woken))

    register_process-Reported :
        (os : Os) (req : SpawnRequest) (pid : ℕ)
        → req.process_id ≡ id
        → ag.draining ≡ false
        → Reported (none, register_process os req pid ag)
    unfolding register_process
    register_process-Reported os req pid same open_to =
        let (e', at, state, flag) =
          handle_start lord_id_from_hostname to_uint32 now lord_id id s a e known there (pos pid) in
        (process_started req.process_id (pos pid), refl, e', rw same at, inl (open_to, state))

    -- Whenever the pipes of a command can be made, a lord answers a spawn event with one report, the
    -- last in its outbox. Once the scheduler has handled that report, the process is RUNNING and the
    -- lord was not draining, or it is EXITED with the exit code -1 and whoever waits for it is woken.
    pub spawn-Reported :
        (os : Os) (req : SpawnRequest)
        → id ≢ ""
        → req.process_id ≡ id
        → os.pipes req ≡ true
        → Reported (handle_spawn os req ag)
    unfolding handle_spawn
    spawn-Reported os req named same pipes =
        let present : (req.process_id == "") ≡ false = present_id req.process_id same in
        elim (Bool-cases ag.draining) [
          | inl closed ↦
              let refused : handle_spawn os req ag ≡ refuse is_draining req.process_id ag =
                ground arith in
              rw (refused, same) (refuse-Reported is_draining)
          | inr open_to ↦ elim (Option-cases (os.start req)) [
            | inl failed ↦
                let refused : handle_spawn os req ag ≡ refuse not_started req.process_id ag =
                  ground arith in
                rw (refused, same) (refuse-Reported not_started)
            | inr (pid, began) ↦
                let entered : handle_spawn os req ag ≡ (none, register_process os req pid ag) =
                  ground arith in
                rw entered (register_process-Reported os req pid same open_to)
          ]
        ]
      where
        present_id : (other : String) → other ≡ id → (other == "") ≡ false
        present_id other same = ground (arith, eq_iff other "")

    -- how the scheduler enters the end of a process
    abbrev pub ended_as : WaitStatus → ProcessState
    ended_as (signalled n) = stopped
    ended_as _ = exited

    end_state-wait :
        (status : WaitStatus)
        → status ≢ signalled 0
        → (if eqb_ℤ (exit_signal_of status) (pos 0) then exited else stopped) ≡ ended_as status
    end_state-wait success ne = refl
    end_state-wait (exit_status n) ne = refl
    end_state-wait (signalled zero) ne = absurd (ne refl)
    end_state-wait (signalled (suc n)) ne = ground arith
    end_state-wait wait_error ne = refl

    -- When a process of a lord ends, the lord forgets it and reports it with one message, the last in its
    -- outbox. Once the scheduler has handled that, the process is STOPPED if a signal killed it and
    -- EXITED otherwise, with the exit code, the signal and the peak of its memory, and whoever waits
    -- for it is woken.
    pub end_reported :
        (status : WaitStatus) (cpu_usec mem_peak : ℤ)
        → status ≢ signalled 0
        → (lookup id (wait_process id status cpu_usec mem_peak ag).procs ≡ none)
          × (cmd : LordCmd) × Queued cmd (wait_process id status cpu_usec mem_peak ag)
          × (e' : Entry) × (deref (scheduler_after cmd).processes a ≡ some e')
          × (e'.info.state ≡ ended_as status)
          × (e'.info.exit_code ≡ code_of status)
          × (e'.info.exit_signal ≡ exit_signal_of status)
          × (e'.info.mem_peak_bytes ≡ mem_peak)
          × (e'.exited ≡ true)
    unfolding wait_process
    end_reported status cpu_usec mem_peak ne =
        let x : ProcessExit = record {
          process_id = id;
          exit_code = code_of status;
          exit_signal = exit_signal_of status;
          cpu_usage_usec = cpu_usec;
          mem_peak_bytes = mem_peak;
        } in
        let (e', at, state, code, signal, peak, woken) =
          handle_exit lord_id_from_hostname to_uint32 now lord_id id s a e known there x refl in
        (
          ground (arith, lookup-delete id id ag.procs, eq_refl id),
          process_exit x,
          refl,
          e',
          at,
          state ∙ end_state-wait status ne,
          code,
          signal,
          peak,
          woken,
        )

  -- the waiter of the answer has it
  abbrev pub Answered : WriteStdinRequest → Handled → ℕ → Type 0
  Answered req out n =
      (ack : WriteStdinAck) × Queued (write_stdin_ack ack) out.1
      × (lookup req.process_id (scheduler_after (write_stdin_ack ack)).write_stdin_waiters
          ≡ some (ack ∷ []))
      × (ack.bytes_written ≡ pos n)

  pub ack-Answered :
      (req : WriteStdinRequest) (n : ℕ) (closed : Bool)
      → lookup req.process_id s.write_stdin_waiters ≡ some []
      → lookup req.process_id
          (scheduler_after
            (write_stdin_ack (ack_of ag req.process_id (pos n) closed))).write_stdin_waiters
        ≡ some (ack_of ag req.process_id (pos n) closed ∷ [])
  unfolding handle deliver_write_stdin_ack
  ack-Answered req n closed waits =
      rw (waits, deliver_write_stdin_ack)
        (ground (
          arith,
          lookup-insert req.process_id req.process_id (ack_of ag req.process_id (pos n) closed ∷ [])
              s.write_stdin_waiters,
          eq_refl req.process_id,
        ))

  -- A lord answers each chunk of input for a process that it runs and whose pipe is open with one message,
  -- which the scheduler hands to the call that waits for it. The answer counts the bytes that the pipe
  -- has taken, and the input of the process has grown by just those, the first ones of the chunk.
  pub write_stdin-Answered :
      (os : Os) (req : WriteStdinRequest) (p : LocalProcess)
      → lookup req.process_id ag.procs ≡ some p
      → p.stdin_closed ≡ false
      → lookup req.process_id s.write_stdin_waiters ≡ some []
      → (n : ℕ) × (p' : LocalProcess) × Answered req (handle_write_stdin os req ag) n
        × (lookup req.process_id (handle_write_stdin os req ag).1.procs ≡ some p')
        × (p'.stdin ≡ p.stdin ++ take n req.bytes)
  unfolding handle_write_stdin
  write_stdin-Answered os req p runs open_to waits =
      let w : ℕ × Bool = write_pipe os req p in
      let p' : LocalProcess = written req w p in
      let after : Agent =
        send (write_stdin_ack (ack_of ag req.process_id (pos w.0) (w.1 || req.eof)))
          (record ag { procs = insert req.process_id p' ag.procs }) in
      let wrote : handle_write_stdin os req ag ≡ (none, after) = ground arith in
      rw wrote (
        w.0,
        p',
        (
          ack_of ag req.process_id (pos w.0) (w.1 || req.eof),
          refl,
          ack-Answered req w.0 (w.1 || req.eof) waits,
          refl,
        ),
        ground (
          arith,
          lookup-insert req.process_id req.process_id p' ag.procs,
          eq_refl req.process_id,
        ),
        refl,
      )
