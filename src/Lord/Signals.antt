-- ===== src/Lord/Signals.antt =====
-- Whom a lord signals: only what it has started.
use etronium_scdr.Prelude.{
  ℕ, zero, suc, ◌+◌, String, ◌≡◌, refl, ◌==◌, Bool, true, not, ◌&&◌, ◌⊎◌, Option, none, some, List,
  [], ◌∷◌, ◌++◌, All, In, eqb, ltb, length, Dict, lookup, insert, delete, ℤ, pos, arith, inl, inr,
  Bool-cases, Option-cases,
}
use etronium_scdr.Proto.{
  LordEvent, SpawnRequest, KillRequest, WriteStdinRequest, register_ack, heartbeat_ack, spawn, kill,
  lazy_death_ack, set_drain, write_stdin, file_push,
}
use etronium_scdr.Connect.{LordCmd}
use etronium_scdr.Lord.{
  lazy_death_requested, LocalProcess, Agent, Os, WaitStatus, group_of, kill_all, kill_signal,
  signal_all, grace_of, nanoseconds, wait_process, send,
}
use etronium_scdr.Lord.Handlers.{
  Waiting, Handled, started, register_process, handle_spawn, handle_kill, written, write_pipe,
  handle_write_stdin, drain_wait, end_drain, drained, handle_set_drain, handle_event,
}

module _ (os : Os) (log : List SpawnRequest) where
  -- a pid that the system has given for one of the commands of a list
  abbrev pub IsOwn : ℕ → Type 0
  IsOwn pid = (req : SpawnRequest) × In req log × (os.start req ≡ some pid)

  -- a call of `kill` for such a pid or its group
  abbrev pub IsAimed : ℤ × ℤ → Type 0
  IsAimed (target, signal) = (pid : ℕ) × IsOwn pid × ((target ≡ pos pid) ⊎ (target ≡ group_of pid))

  -- All processes of the agent are of pids that the system has given for a command, and all the signals
  -- that it has sent went to such pids or their groups.
  pub record IsAccurate (ag : Agent) : Type 0 where
    pub procs : All (λ (x : String × LocalProcess). IsOwn x.1.lord_pid) ag.procs
    pub signals : All IsAimed ag.signals

  abbrev AllOwn : Dict LocalProcess → Type 0
  AllOwn = All (λ (x : String × LocalProcess). IsOwn x.1.lord_pid)

  lookup-AllOwn :
      (id : String) (p : LocalProcess) (d : Dict LocalProcess)
      → AllOwn d
      → lookup id d ≡ some p
      → IsOwn p.lord_pid
  unfolding lookup
  lookup-AllOwn id p [] own h = absurd (cc)
  lookup-AllOwn id p ((j, q) ∷ d) own h = elim (Bool-cases (j == id)) [
    | inl e ↦ let same : q ≡ p = ground arith in rw (← same) own.0
    | inr ne ↦ lookup-AllOwn id p d own.1 (ground arith)
  ]

  insert-AllOwn :
      (id : String) (p : LocalProcess) (d : Dict LocalProcess)
      → AllOwn d
      → IsOwn p.lord_pid
      → AllOwn (insert id p d)
  unfolding insert
  insert-AllOwn id p [] own new = (new, tt)
  insert-AllOwn id p ((j, q) ∷ d) own new = elim (Bool-cases (j == id)) [
    | inl e ↦ rw (e, insert) (new, own.1)
    | inr ne ↦ rw (ne, insert) (own.0, insert-AllOwn id p d own.1 new)
  ]

  delete-AllOwn : (id : String) (d : Dict LocalProcess) → AllOwn d → AllOwn (delete id d)
  unfolding delete
  delete-AllOwn id [] own = tt
  delete-AllOwn id ((j, q) ∷ d) own = elim (Bool-cases (j == id)) [
    | inl e ↦ rw (e, delete) (delete-AllOwn id d own.1)
    | inr ne ↦ rw (ne, delete) (own.0, delete-AllOwn id d own.1)
  ]

  IsAimed-append : (xs ys : List (ℤ × ℤ)) → All IsAimed xs → All IsAimed ys → All IsAimed (xs ++ ys)
  IsAimed-append [] ys hx hy = hy
  IsAimed-append (x ∷ xs) ys hx hy = (hx.0, IsAimed-append xs ys hx.1 hy)

  kill_all-IsAimed :
      (signal : ℤ) (d : Dict LocalProcess) → AllOwn d → All IsAimed (kill_all signal d)
  kill_all-IsAimed signal [] own = tt
  kill_all-IsAimed signal ((id, p) ∷ d) own =
      ((p.lord_pid, own.0, inl refl), kill_all-IsAimed signal d own.1)

  signal_all-IsAccurate :
      (signal : ℤ) (ag : Agent) → IsAccurate ag → IsAccurate (signal_all signal ag)
  unfolding signal_all
  signal_all-IsAccurate signal ag v = record {
    procs = v.procs;
    signals =
        IsAimed-append ag.signals (kill_all signal ag.procs) v.signals
          (kill_all-IsAimed signal ag.procs v.procs);
  }

  pub send-IsAccurate : (ag : Agent) (cmd : LordCmd) → IsAccurate ag → IsAccurate (send cmd ag)
  send-IsAccurate ag cmd v = record { procs = v.procs; signals = v.signals }

  handle_spawn-IsAccurate :
      (req : SpawnRequest) (ag : Agent)
      → In req log
      → IsAccurate ag
      → IsAccurate (handle_spawn os req ag).1
  unfolding handle_spawn register_process
  handle_spawn-IsAccurate req ag asked v = elim (Option-cases (os.start req)) [
    | inl failed ↦
        let own : AllOwn (handle_spawn os req ag).1.procs = by_procs (ground arith) in
        record { procs = own; signals = by_signals (ground arith) }
    | inr (pid, began) ↦ elim (Bool-cases (started_now pid)) [
      | inl registered ↦
          let own : (handle_spawn os req ag).1.procs
              ≡ insert req.process_id (started os req pid) ag.procs =
            ground arith in
          record {
            procs = rw own (
                insert-AllOwn req.process_id (started os req pid) ag.procs v.procs
                  (req, asked, began));
            signals = by_signals (ground arith);
          }
      | inr refused ↦ record {
        procs = by_procs (ground arith);
        signals = by_signals (ground arith);
      }
    ]
  ]
    where
      started_now : ℕ → Bool
      started_now pid = not (req.process_id == "") && (not ag.draining && os.pipes req)

      by_procs :
          (handle_spawn os req ag).1.procs ≡ ag.procs → AllOwn (handle_spawn os req ag).1.procs
      by_procs e = rw e v.procs

      by_signals :
          (handle_spawn os req ag).1.signals ≡ ag.signals
          → All IsAimed (handle_spawn os req ag).1.signals
      by_signals e = rw e v.signals

  handle_kill-IsAccurate :
      (req : KillRequest) (ag : Agent) → IsAccurate ag → IsAccurate (handle_kill os req ag).1
  unfolding handle_kill
  handle_kill-IsAccurate req ag v = elim (Option-cases (lookup req.process_id ag.procs)) [
    | inl missing ↦ rw (missing, handle_kill) v
    | inr (p, runs) ↦
        rw (runs, handle_kill)
          (record {
            procs = v.procs;
            signals =
                IsAimed-append ag.signals ((group_of p.lord_pid, kill_signal req) ∷ []) v.signals (
                  (p.lord_pid, lookup-AllOwn req.process_id p ag.procs v.procs runs, inr refl),
                  tt,
                );
          })
  ]

  handle_write_stdin-IsAccurate :
      (req : WriteStdinRequest) (ag : Agent)
      → IsAccurate ag
      → IsAccurate (handle_write_stdin os req ag).1
  unfolding handle_write_stdin
  handle_write_stdin-IsAccurate req ag v = elim (Option-cases (lookup req.process_id ag.procs)) [
    | inl missing ↦
        rw (missing, handle_write_stdin) (record { procs = v.procs; signals = v.signals })
    | inr (p, runs) ↦ elim (Bool-cases p.stdin_closed) [
      | inl closed ↦
          rw (runs, handle_write_stdin, closed) (record { procs = v.procs; signals = v.signals })
      | inr open_to ↦
          rw (runs, handle_write_stdin, open_to)
            (record {
              procs =
                  insert-AllOwn req.process_id (written req (write_pipe os req p) p) ag.procs
                    v.procs (lookup-AllOwn req.process_id p ag.procs v.procs runs);
              signals = v.signals;
            })
    ]
  ]

  -- other goroutines keep to it while a drain waits
  abbrev pub IsKept : Waiting → Type 0
  IsKept w = (k : ℕ) (ag : Agent) → IsAccurate ag → IsAccurate (w.between k ag)

  -- a drain that still waits at its last fuel has no state to speak of
  abbrev OrNone : Option Agent → Type 0
  OrNone none = Unit
  OrNone (some ag) = IsAccurate ag

  drain_wait-IsAccurate :
      (w : Waiting) (fuel k deadline : ℕ) (ag : Agent)
      → IsKept w
      → IsAccurate ag
      → OrNone (drain_wait w fuel k deadline ag)
  unfolding drain_wait
  drain_wait-IsAccurate w zero k deadline ag kept v = tt
  drain_wait-IsAccurate w (suc fuel) k deadline ag kept v =
      elim (Bool-cases (ltb (w.clock k) deadline && not (eqb (length (w.between k ag).procs) 0))) [
        | inl again ↦
            rw (again, drain_wait)
              (drain_wait-IsAccurate w fuel (suc k) deadline (w.between k ag) kept (kept k ag v))
        | inr over ↦ rw (over, drain_wait) (kept k ag v)
      ]

  end_drain-IsAccurate :
      (grace : ℤ) (ag : Agent) → IsAccurate ag → IsAccurate (end_drain grace ag).1
  unfolding end_drain
  end_drain-IsAccurate grace ag v =
      let u : IsAccurate (signal_all (pos 9) ag) = signal_all-IsAccurate (pos 9) ag v in
      let procs_kept : (end_drain grace ag).1.procs ≡ (signal_all (pos 9) ag).procs =
        ground arith in
      let signals_kept : (end_drain grace ag).1.signals ≡ (signal_all (pos 9) ag).signals =
        ground arith in
      record { procs = rw procs_kept u.procs; signals = rw signals_kept u.signals }

  handled_as :
      (done out : Handled)
      → IsAccurate done.1
      → ◌≡◌ {A = Option Handled} (some done) (some out)
      → IsAccurate out.1
  handled_as done out u e = let same : done ≡ out = cc in rw same at u

  handle_set_drain-IsAccurate :
      (w : Waiting) (grace : ℤ) (ag : Agent) (out : Handled)
      → IsKept w
      → IsAccurate ag
      → handle_set_drain w grace ag ≡ some out
      → IsAccurate out.1
  unfolding handle_set_drain
  handle_set_drain-IsAccurate w grace ag out kept v h = elim (Bool-cases ag.draining) [
    | inl already ↦
        let result : ◌≡◌ {A = Option Handled} (some (none, ag)) (some out) = ground arith in
        handled_as (none, ag) out v result
    | inr working ↦
        let begun : Agent = signal_all (pos 15) (record ag { draining = true }) in
        let deadline : ℕ = w.clock 0 + nanoseconds (grace_of grace) in
        let fuel : ℕ = suc (nanoseconds (grace_of grace)) in
        let opened : drained grace (drain_wait w fuel 0 deadline begun) ≡ some out = ground arith in
        by_wait (drain_wait w fuel 0 deadline begun)
          (drain_wait-IsAccurate w fuel 0 deadline begun kept (
            signal_all-IsAccurate (pos 15) (record ag { draining = true })
              (record { procs = v.procs; signals = v.signals })))
          opened
  ]
    where
      by_wait : (o : Option Agent) → OrNone o → drained grace o ≡ some out → IsAccurate out.1
      by_wait none u e = absurd (cc)
      by_wait (some ag') u e =
          handled_as (end_drain grace ag') out (end_drain-IsAccurate grace ag' u) e

  -- an event that starts a command starts one of the list
  abbrev pub IsAsked : LordEvent → Type 0
  IsAsked (spawn req) = In req log
  IsAsked _ = Unit

  pub handle_event-IsAccurate :
      (w : Waiting) (ev : LordEvent) (ag : Agent) (out : Handled)
      → IsAsked ev
      → IsKept w
      → IsAccurate ag
      → handle_event os w ev ag ≡ some out
      → IsAccurate out.1
  unfolding handle_event
  handle_event-IsAccurate w (register_ack id) ag out asked kept v h = handled_as (none, ag) out v h
  handle_event-IsAccurate w heartbeat_ack ag out asked kept v h = handled_as (none, ag) out v h
  handle_event-IsAccurate w (spawn req) ag out asked kept v h =
      handled_as (handle_spawn os req ag) out (handle_spawn-IsAccurate req ag asked v) h
  handle_event-IsAccurate w (kill req) ag out asked kept v h =
      handled_as (handle_kill os req ag) out (handle_kill-IsAccurate req ag v) h
  handle_event-IsAccurate w (lazy_death_ack grace) ag out asked kept v h =
      handled_as (some lazy_death_requested, ag) out v h
  handle_event-IsAccurate w (set_drain grace) ag out asked kept v h =
      handle_set_drain-IsAccurate w grace ag out kept v h
  handle_event-IsAccurate w (write_stdin req) ag out asked kept v h =
      handled_as (handle_write_stdin os req ag) out (handle_write_stdin-IsAccurate req ag v) h
  handle_event-IsAccurate w file_push ag out asked kept v h = handled_as (none, ag) out v h

  pub wait_process-IsAccurate :
      (id : String) (status : WaitStatus) (cpu_usec mem_peak : ℤ) (ag : Agent)
      → IsAccurate ag
      → IsAccurate (wait_process id status cpu_usec mem_peak ag)
  unfolding wait_process
  wait_process-IsAccurate id status cpu_usec mem_peak ag v = record {
    procs = delete-AllOwn id ag.procs v.procs;
    signals = v.signals;
  }

-- a longer list of commands
module _ (os : Os) (req : SpawnRequest) (log : List SpawnRequest) where
  more-procs :
      (d : Dict LocalProcess)
      → All (λ (x : String × LocalProcess). IsOwn os log x.1.lord_pid) d
      → All (λ (x : String × LocalProcess). IsOwn os (req ∷ log) x.1.lord_pid) d
  more-procs [] own = tt
  more-procs ((id, p) ∷ d) own =
      let (asked, held, began) = own.0 in ((asked, inr held, began), more-procs d own.1)

  more-signals : (xs : List (ℤ × ℤ)) → All (IsAimed os log) xs → All (IsAimed os (req ∷ log)) xs
  more-signals [] aimed = tt
  more-signals ((target, signal) ∷ xs) aimed =
      let (pid, (asked, held, began), at) = aimed.0 in
      ((pid, (asked, inr held, began), at), more-signals xs aimed.1)

  pub IsAccurate-more : (ag : Agent) → IsAccurate os log ag → IsAccurate os (req ∷ log) ag
  IsAccurate-more ag v = record {
    procs = more-procs ag.procs v.procs;
    signals = more-signals ag.signals v.signals;
  }
