-- ===== src/Network/Cost.antt =====
-- How many rounds a message can still cause: each round lowers the sum over all messages on their way.
use etronium_scdr.Prelude.{
  ℕ, suc, ◌+◌, ◌≤◌, ◌<◌, String, ◌≡◌, refl, ap, ap₂, sym, ◌∙◌, Option, none, some, List, [], ◌∷◌,
  ◌++◌, lookup, insert, Dict, lookup-insert, eq_refl, ℤ, arith, Option-cases, List-cases, inl, inr,
}
use etronium_scdr.Table.{get, update_state}
use etronium_scdr.Registry.{update_stats}
use etronium_scdr.Registry
use etronium_scdr.Proto.{
  WriteStdinAck, running, LordEvent, heartbeat_ack, spawn, lazy_death_ack, set_drain, write_stdin,
}
use etronium_scdr.Server.{Session, Server, offer_event, take_event, Result}
use etronium_scdr.Server.Sending.{Push, sent, unsent, send_event-Push}
use etronium_scdr.Connect.{
  ProcessExit, LordCmd, register_again, unknown, process_started, process_io, process_exit,
  write_stdin_ack, put_proc, drop_proc, finish, heartbeat, lazy_death, on_procs, handle,
  handle_started, assign_task, handle_io, handle_process_exit, deliver_write_stdin_ack,
}
use etronium_scdr.Network.{Network, queue}

-- an event on the stream of a lord
abbrev pub event_cost : LordEvent → ℕ
event_cost (spawn req) = 3
event_cost (write_stdin req) = 3
event_cost (set_drain grace) = 5
event_cost _ = 1

-- a message on the stream to the scheduler
abbrev pub cmd_cost : LordCmd → ℕ
cmd_cost (heartbeat cpu mem procs) = 3
cmd_cost (lazy_death grace) = 3
cmd_cost _ = 1

abbrev pub down_cost : List LordEvent → ℕ
down_cost [] = 0
down_cost (ev ∷ evs) = event_cost ev + down_cost evs

abbrev pub up_cost : List LordCmd → ℕ
up_cost [] = 0
up_cost (cmd ∷ cmds) = cmd_cost cmd + up_cost cmds

-- in an outbox a message has one round more before it
abbrev pub queue_cost : List LordEvent → ℕ
queue_cost [] = 0
queue_cost (ev ∷ evs) = suc (event_cost ev) + queue_cost evs

abbrev pub outbox_cost : List LordCmd → ℕ
outbox_cost [] = 0
outbox_cost (cmd ∷ cmds) = suc (cmd_cost cmd) + outbox_cost cmds

abbrev pub cost : String → Network → ℕ
cost lord_id n =
    queue_cost (queue lord_id n.server)
    + down_cost n.down
    + outbox_cost n.agent.outbox
    + up_cost n.up

pub down_cost-snoc :
    (evs : List LordEvent) (ev : LordEvent)
    → down_cost (evs ++ ev ∷ []) ≡ down_cost evs + event_cost ev
down_cost-snoc [] ev = omega arith
down_cost-snoc (x ∷ evs) ev = omega (arith, down_cost-snoc evs ev)

pub up_cost-snoc :
    (cmds : List LordCmd) (cmd : LordCmd) → up_cost (cmds ++ cmd ∷ []) ≡ up_cost cmds + cmd_cost cmd
up_cost-snoc [] cmd = omega arith
up_cost-snoc (x ∷ cmds) cmd = omega (arith, up_cost-snoc cmds cmd)

pub queue_cost-snoc :
    (evs : List LordEvent) (ev : LordEvent)
    → queue_cost (evs ++ ev ∷ []) ≡ queue_cost evs + suc (event_cost ev)
queue_cost-snoc [] ev = omega arith
queue_cost-snoc (x ∷ evs) ev = omega (arith, queue_cost-snoc evs ev)

pub outbox_cost-snoc :
    (cmds : List LordCmd) (cmd : LordCmd)
    → outbox_cost (cmds ++ cmd ∷ []) ≡ outbox_cost cmds + suc (cmd_cost cmd)
outbox_cost-snoc [] cmd = omega arith
outbox_cost-snoc (x ∷ cmds) cmd = omega (arith, outbox_cost-snoc cmds cmd)

pub queue-found :
    (lord_id : String) (sess : Session) (s : Server)
    → lookup lord_id s.sessions ≡ some sess
    → queue lord_id s ≡ sess.outbox
queue-found lord_id sess s found = ground arith

queue-insert :
    (lord_id : String) (sess : Session) (s : Server)
    → queue lord_id (record s { sessions = insert lord_id sess s.sessions }) ≡ sess.outbox
queue-insert lord_id sess s =
    ground (arith, lookup-insert lord_id lord_id sess s.sessions, eq_refl lord_id)

queue-on_procs :
    (lord_id : String) (f : List (ℤ × String) → List (ℤ × String)) (s : Server)
    → queue lord_id (on_procs lord_id f s) ≡ queue lord_id s
queue-on_procs lord_id f s = elim (Option-cases (lookup lord_id s.sessions)) [
  | inl absent ↦ let same : on_procs lord_id f s ≡ s = ground arith in ap (queue lord_id) same
  | inr (sess, found) ↦
      let after : Session = record sess { procs = f sess.procs } in
      let opened : on_procs lord_id f s ≡ record s { sessions = insert lord_id after s.sessions } =
        ground arith in
      ap (queue lord_id) opened
      ∙ queue-insert lord_id after s
      ∙ sym (queue-found lord_id sess s found)
]

queue_cost-Push :
    (lord_id : String) (ev : LordEvent) (s : Server) {out : Result (Unit {0}) × Server}
    → Push lord_id ev s out
    → queue_cost (queue lord_id out.1) ≤ queue_cost (queue lord_id s) + suc (event_cost ev)
queue_cost-Push lord_id ev s (sent {s'} q) =
    let at_end : queue lord_id s' ≡ q.session.outbox ++ ev ∷ [] =
      ap (queue lord_id) q.after
      ∙ queue-insert lord_id (record q.session { outbox = q.session.outbox ++ ev ∷ [] }) s in
    let before : queue lord_id s ≡ q.session.outbox = queue-found lord_id q.session s q.found in
    omega (arith, ap queue_cost at_end, ap queue_cost before, queue_cost-snoc q.session.outbox ev)
queue_cost-Push lord_id ev s (unsent e why) = omega arith

-- a push puts its event at the end, or leaves the outbox as it is
pub queue_cost-offer_event :
    (lord_id : String) (ev : LordEvent) (s : Server)
    → queue_cost (queue lord_id (offer_event lord_id ev s))
      ≤ queue_cost (queue lord_id s) + suc (event_cost ev)
unfolding offer_event
queue_cost-offer_event lord_id ev s = queue_cost-Push lord_id ev s (send_event-Push lord_id ev s)

module _ (lord_id : String) (ev : LordEvent) (s u : Server)
    (took : take_event lord_id s ≡ (some ev, u)) where
  taken_from :
      (sess : Session) (e : LordEvent) (rest : List LordEvent)
      → lookup lord_id s.sessions ≡ some sess
      → sess.outbox ≡ e ∷ rest
      → queue lord_id s ≡ ev ∷ queue lord_id u
  unfolding take_event
  taken_from sess e rest found eq =
      let after : Server = record s {
        sessions = insert lord_id (record sess { outbox = rest }) s.sessions;
      } in
      let opened : take_event lord_id s ≡ (some e, after) = rw (found, take_event, eq) refl in
      let same : ◌≡◌ {A = Option LordEvent × Server} (some e, after) (some ev, u) =
        sym opened ∙ took in
      let event : e ≡ ev = cc in
      let left : queue lord_id u ≡ rest =
        sym (ap (λ (x : Option LordEvent × Server). queue lord_id x.1) same)
        ∙ queue-insert lord_id (record sess { outbox = rest }) s in
      queue-found lord_id sess s found ∙ eq ∙ ap₂ (λ x xs. x ∷ xs) event (sym left)

  pub queue-take_event : queue lord_id s ≡ ev ∷ queue lord_id u
  unfolding take_event
  queue-take_event = elim (Option-cases (lookup lord_id s.sessions)) [
    | inl absent ↦ absurd (ground arith)
    | inr (sess, found) ↦ elim (List-cases sess.outbox) [
      | inl empty ↦ absurd (ground arith)
      | inr (e, rest, eq) ↦ taken_from sess e rest found eq
    ]
  ]

module _ (lord_id_from_hostname : String → ℕ) (to_uint32 : ℤ → ℕ) (now : ℕ) (lord_id : String) where
  queue-assign_task :
      (local_pid : ℤ) (s : Server)
      → queue lord_id (assign_task lord_id_from_hostname to_uint32 lord_id local_pid s)
        ≡ queue lord_id s
  unfolding assign_task
  queue-assign_task local_pid s =
      let kept : (assign_task lord_id_from_hostname to_uint32 lord_id local_pid s).sessions
          ≡ s.sessions =
        ground arith in
      ap of_sessions kept
    where
      of_sessions : Dict Session → List LordEvent
      of_sessions d = elim (lookup lord_id d) [ none ↦ [] | some sess ↦ sess.outbox ]

  queue-handle_started :
      (id : String) (local_pid : ℤ) (s : Server)
      → queue lord_id (handle_started lord_id_from_hostname to_uint32 now lord_id id local_pid s)
        ≡ queue lord_id s
  unfolding handle_started
  queue-handle_started id local_pid s = elim (Option-cases (get s.processes id)) [
    | inl absent ↦
        let same : handle_started lord_id_from_hostname to_uint32 now lord_id id local_pid s ≡ s =
          rw (absent, handle_started) refl in
        ap (queue lord_id) same
    | inr (a, found) ↦
        let s₁ : Server = record s {
          processes = update_state now running lord_id local_pid a s.processes;
        } in
        let s₂ : Server = on_procs lord_id (put_proc local_pid id) s₁ in
        let opened : handle_started lord_id_from_hostname to_uint32 now lord_id id local_pid s
            ≡ assign_task lord_id_from_hostname to_uint32 lord_id local_pid s₂ =
          rw (found, handle_started) refl in
        ap (queue lord_id) opened
        ∙ queue-assign_task local_pid s₂
        ∙ queue-on_procs lord_id (put_proc local_pid id) s₁
  ]

  queue-handle_process_exit :
      (x : ProcessExit) (s : Server)
      → queue lord_id (handle_process_exit now lord_id x s) ≡ queue lord_id s
  unfolding handle_process_exit
  queue-handle_process_exit x s = elim (Option-cases (get s.processes x.process_id)) [
    | inl absent ↦
        let same : handle_process_exit now lord_id x s ≡ s =
          rw (absent, handle_process_exit) refl in
        ap (queue lord_id) same
    | inr (a, found) ↦
        let s₁ : Server = record s { processes = finish now x a s.processes } in
        let opened : handle_process_exit now lord_id x s
            ≡ on_procs lord_id (drop_proc x.process_id) s₁ =
          rw (found, handle_process_exit) refl in
        ap (queue lord_id) opened ∙ queue-on_procs lord_id (drop_proc x.process_id) s₁
  ]

  sessions-deliver_write_stdin_ack :
      (ack : WriteStdinAck) (s : Server) → (deliver_write_stdin_ack ack s).sessions ≡ s.sessions
  unfolding deliver_write_stdin_ack
  sessions-deliver_write_stdin_ack ack s = ground arith

  -- the scheduler's answer costs less than the message
  pub queue_cost-handle :
      (cmd : LordCmd) (s : Server)
      → queue_cost (queue lord_id (handle lord_id_from_hostname to_uint32 now lord_id cmd s))
        < queue_cost (queue lord_id s) + cmd_cost cmd
  unfolding handle handle_io
  queue_cost-handle register_again s = omega arith
  queue_cost-handle (heartbeat cpu mem procs) s = omega (
    arith,
    queue_cost-offer_event lord_id heartbeat_ack
        (record s { lords = (update_stats now lord_id cpu mem procs s.lords).1 }),
  )
  queue_cost-handle (process_started id local_pid) s =
      omega (arith, ap queue_cost (queue-handle_started id local_pid s))
  queue_cost-handle (process_io id chunk) s = omega arith
  queue_cost-handle (process_exit x) s =
      omega (arith, ap queue_cost (queue-handle_process_exit x s))
  queue_cost-handle (write_stdin_ack ack) s =
      let same : queue lord_id (deliver_write_stdin_ack ack s) ≡ queue lord_id s =
        ap (λ (d : Dict Session). elim (lookup lord_id d) [ none ↦ [] | some sess ↦ sess.outbox ])
          (sessions-deliver_write_stdin_ack ack s) in
      omega (arith, ap queue_cost same)
  queue_cost-handle (lazy_death grace) s = omega (
    arith,
    queue_cost-offer_event lord_id (lazy_death_ack grace)
        (record s { lords = Registry.set_drain lord_id s.lords }),
  )
  queue_cost-handle unknown s = omega arith
