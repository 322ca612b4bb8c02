-- ===== src/Network/Reactions.antt =====
-- What an event costs once its lord has handled it: less than before.
use etronium_scdr.Prelude.{
  ℕ, suc, ◌+◌, ◌≤◌, ◌<◌, String, ◌≡◌, refl, ap, sym, ◌∙◌, Bool, true, not, ◌||◌, ◌&&◌, Option, none,
  some, [], ◌∷◌, ◌++◌, lookup, ℤ, ltb, length, arith, Bool-cases, Option-cases, inl, inr, zero, pos,
  eqb, negsuc,
}
use etronium_scdr.Proto.{
  LordEvent, SpawnRequest, KillRequest, WriteStdinRequest, register_ack, heartbeat_ack, spawn, kill,
  lazy_death_ack, set_drain, write_stdin, file_push,
}
use etronium_scdr.Connect.{LordCmd, process_exit, process_started, write_stdin_ack, lazy_death}
use etronium_scdr.Lord.{Agent, Os, send, lazy_death_requested, signal_all, grace_of, nanoseconds}
use etronium_scdr.Lord.Handlers.{
  Waiting, Handled, register_process, handle_spawn, handle_kill, handle_write_stdin, write_pipe,
  ack_of, drain_wait, end_drain, drained, handle_set_drain, handle_event,
}
use etronium_scdr.Network.Cost.{cmd_cost, event_cost, outbox_cost, outbox_cost-snoc}

-- what other goroutines do while a drain waits sends nothing
abbrev pub IsQuiet : Waiting → Type 0
IsQuiet w = (k : ℕ) (ag : Agent) → (w.between k ag).outbox ≡ ag.outbox

abbrev Within : ℕ → Agent → Agent → Type 0
Within n ag ag' = outbox_cost ag'.outbox ≤ outbox_cost ag.outbox + n

send-Within : (cmd : LordCmd) (ag : Agent) → Within (suc (cmd_cost cmd)) ag (send cmd ag)
send-Within cmd ag = omega (arith, outbox_cost-snoc ag.outbox cmd)

abbrev refusal : String → LordCmd
refusal id = process_exit (record {
  process_id = id;
  exit_code = negsuc 0;
  exit_signal = pos 0;
  cpu_usage_usec = pos 0;
  mem_peak_bytes = pos 0;
})

handle_spawn-Within :
    (os : Os) (req : SpawnRequest) (ag : Agent) → Within 2 ag (handle_spawn os req ag).1
unfolding handle_spawn register_process
handle_spawn-Within os req ag = elim (Option-cases (os.start req)) [
  | inl failed ↦ ground (arith, outbox_cost-snoc ag.outbox (refusal req.process_id))
  | inr (pid, began) ↦ ground (
    arith,
    outbox_cost-snoc ag.outbox (refusal req.process_id),
    outbox_cost-snoc ag.outbox (process_started req.process_id (pos pid)),
  )
]

handle_kill-Within :
    (os : Os) (req : KillRequest) (ag : Agent) → Within 0 ag (handle_kill os req ag).1
unfolding handle_kill
handle_kill-Within os req ag = ground arith

handle_write_stdin-Within :
    (os : Os) (req : WriteStdinRequest) (ag : Agent) → Within 2 ag (handle_write_stdin os req ag).1
unfolding handle_write_stdin
handle_write_stdin-Within os req ag = elim (Option-cases (lookup req.process_id ag.procs)) [
  | inl missing ↦ ground (arith, answer (pos 0) true)
  | inr (p, runs) ↦
      let (n, broken) = write_pipe os req p in
      ground (arith, answer (pos 0) true, answer (pos n) (broken || req.eof))
]
  where
    answer :
        (n : ℤ) (closed : Bool)
        → outbox_cost (ag.outbox ++ write_stdin_ack (ack_of ag req.process_id n closed) ∷ [])
          ≡ outbox_cost ag.outbox + 2
    answer n closed =
        outbox_cost-snoc ag.outbox (write_stdin_ack (ack_of ag req.process_id n closed))

drain_wait-outbox :
    (w : Waiting) (fuel k deadline : ℕ) (ag ag' : Agent)
    → IsQuiet w
    → drain_wait w fuel k deadline ag ≡ some ag'
    → ag'.outbox ≡ ag.outbox
unfolding drain_wait
drain_wait-outbox w zero k deadline ag ag' quiet h = absurd (cc)
drain_wait-outbox w (suc fuel) k deadline ag ag' quiet h =
    elim (Bool-cases (ltb (w.clock k) deadline && not (eqb (length (w.between k ag).procs) 0))) [
      | inl again ↦
          drain_wait-outbox w fuel (suc k) deadline (w.between k ag) ag' quiet
            (rw (again, drain_wait) at h)
          ∙ quiet k ag
      | inr over ↦
          let result : ◌≡◌ {A = Option Agent} (some (w.between k ag)) (some ag') =
            rw (over, drain_wait) at h in
          let same : w.between k ag ≡ ag' = cc in
          ap (λ (x : Agent). x.outbox) (sym same) ∙ quiet k ag
    ]

end_drain-Within : (grace : ℤ) (ag : Agent) → Within 4 ag (end_drain grace ag).1
unfolding end_drain signal_all
end_drain-Within grace ag = ground (arith, outbox_cost-snoc ag.outbox (lazy_death (grace_of grace)))

handle_set_drain-Within :
    (w : Waiting) (grace : ℤ) (ag : Agent) (out : Handled)
    → IsQuiet w
    → handle_set_drain w grace ag ≡ some out
    → Within 4 ag out.1
unfolding handle_set_drain signal_all
handle_set_drain-Within w grace ag out quiet h = elim (Bool-cases ag.draining) [
  | inl already ↦
      let result : ◌≡◌ {A = Option Handled} (some (none, ag)) (some out) = ground arith in
      let same : ◌≡◌ {A = Handled} (none, ag) out = cc in
      ap_le (ap (λ (x : Handled). outbox_cost x.1.outbox) (sym same))
  | inr working ↦
      let started : Agent = signal_all (pos 15) (record ag { draining = true }) in
      let deadline : ℕ = w.clock 0 + nanoseconds (grace_of grace) in
      let waited : Option Agent =
        drain_wait w (suc (nanoseconds (grace_of grace))) 0 deadline started in
      let opened : drained grace waited ≡ some out = ground arith in
      by_wait started deadline (suc (nanoseconds (grace_of grace))) refl waited refl opened
]
  where
    ap_le : outbox_cost out.1.outbox ≡ outbox_cost ag.outbox → Within 4 ag out.1
    ap_le e = omega arith

    by_wait :
        (started : Agent) (deadline fuel : ℕ)
        → started.outbox ≡ ag.outbox
        → (waited : Option Agent) → drain_wait w fuel 0 deadline started ≡ waited
        → drained grace waited ≡ some out
        → Within 4 ag out.1
    by_wait started deadline fuel start none e o = absurd (cc)
    by_wait started deadline fuel start (some ag') e o =
        let same : ag'.outbox ≡ ag.outbox =
          drain_wait-outbox w fuel 0 deadline started ag' quiet e ∙ start in
        let result : end_drain grace ag' ≡ out = cc in
        let told : outbox_cost out.1.outbox ≡ outbox_cost (end_drain grace ag').1.outbox =
          ap (λ (x : Handled). outbox_cost x.1.outbox) (sym result) in
        omega (arith, told, end_drain-Within grace ag', ap outbox_cost same)

answered_by :
    (n : ℕ) (ag : Agent) (done out : Handled)
    → Within n ag done.1
    → ◌≡◌ {A = Option Handled} (some done) (some out)
    → outbox_cost out.1.outbox < outbox_cost ag.outbox + suc n
answered_by n ag done out within h =
    let same : done ≡ out = cc in omega (arith, ap (λ (x : Handled). outbox_cost x.1.outbox) same)

-- what a lord says about an event costs less than the event
pub handle_event-outbox :
    (os : Os) (w : Waiting) (ev : LordEvent) (ag : Agent) (out : Handled)
    → IsQuiet w
    → handle_event os w ev ag ≡ some out
    → outbox_cost out.1.outbox < outbox_cost ag.outbox + event_cost ev
unfolding handle_event
handle_event-outbox os w (register_ack id) ag out quiet h =
    answered_by 0 ag (none, ag) out (omega arith) h
handle_event-outbox os w heartbeat_ack ag out quiet h =
    answered_by 0 ag (none, ag) out (omega arith) h
handle_event-outbox os w (spawn req) ag out quiet h =
    answered_by 2 ag (handle_spawn os req ag) out (handle_spawn-Within os req ag) h
handle_event-outbox os w (kill req) ag out quiet h =
    answered_by 0 ag (handle_kill os req ag) out (handle_kill-Within os req ag) h
handle_event-outbox os w (lazy_death_ack grace) ag out quiet h =
    answered_by 0 ag (some lazy_death_requested, ag) out (omega arith) h
handle_event-outbox os w (set_drain grace) ag out quiet h =
    omega (arith, handle_set_drain-Within w grace ag out quiet h)
handle_event-outbox os w (write_stdin req) ag out quiet h =
    answered_by 2 ag (handle_write_stdin os req ag) out (handle_write_stdin-Within os req ag) h
handle_event-outbox os w file_push ag out quiet h = answered_by 0 ag (none, ag) out (omega arith) h
