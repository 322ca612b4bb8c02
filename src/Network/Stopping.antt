-- ===== src/Network/Stopping.antt =====
-- A kill, from the request of a client to the end of the process that the scheduler learns of.
use mathlib.Core.Path.{subst}
use etronium_scdr.Prelude.{
  ℕ, suc, String, ◌≡◌, ◌≢◌, refl, ap, sym, ◌∙◌, true, some, [], ◌∷◌, ◌++◌, lookup, ℤ, pos, arith,
}
use etronium_scdr.Proto.{LordEvent, KillRequest, kill, stopped}
use etronium_scdr.Table.{Table, Entry, get, deref}
use etronium_scdr.Server.{Session, Server, Result, ok}
use etronium_scdr.Server.Sending.{Sent}
use etronium_scdr.Requests.{KillResponse, signal_of, kill_process}
use etronium_scdr.Requests.Answers.{
  KillOutcome, on_its_way, unreachable, IsSignalOf, signal_of-IsSignalOf, kill_process-KillOutcome,
}
use etronium_scdr.Connect.{LordCmd, handle}
use etronium_scdr.Lord.{LocalProcess, Agent, Os, signalled, wait_process, group_of, kill_signal}
use etronium_scdr.Lord.Handlers.{Waiting, Handled, handle_event, handle_kill}
use etronium_scdr.Lord.Reports.{end_reported}
use etronium_scdr.Network.{Network, sent, handled, done, more, with_outbox}
use etronium_scdr.Network.Cost.{queue-found}
use etronium_scdr.Network.Rounds.{OnWay, two_rounds, message_rounds, no_rounds, last_same}
use etronium_scdr.Network.Settling.{IsSettled, Ran, has_room}
use etronium_scdr.Network.Events.{emptied, take_event-only, event_served, lookup-insert_self}

-- what the lord does with the request that the scheduler passes on
passed_on : KillRequest → KillRequest
passed_on req = record req { signal_number = signal_of req }

kill_signal-passed_on : (req : KillRequest) → kill_signal (passed_on req) ≡ signal_of req
unfolding passed_on
kill_signal-passed_on req = ground arith

module _ (req : KillRequest) (s u : Server) (e : Entry) (resp : KillResponse) where
  kill_process-Sent :
      {out : Result KillResponse × Server}
      → KillOutcome req s e out
      → out ≡ (ok resp, u)
      → Sent e.info.ref.lord_id (kill (passed_on req)) s u
  unfolding passed_on
  kill_process-Sent (on_its_way {s'} asked q) eq = let same : s' ≡ u = cc in rw (← same) q
  kill_process-Sent (unreachable blocked) eq = absurd (cc)

-- The lord has asked the system to signal the group of the process; its other processes and its outbox
-- are as they were.
pub record IsSignalled (req : KillRequest) (p : LocalProcess) (ag ag' : Agent) : Type 0 where
  pub asked : IsSignalOf req (signal_of req)
  pub signals : ag'.signals ≡ ag.signals ++ (group_of p.lord_pid, signal_of req) ∷ []
  pub procs : ag'.procs ≡ ag.procs
  pub outbox : ag'.outbox ≡ ag.outbox

-- the process has ended by a signal, as its goroutine notes it
abbrev pub ended_by : String → ℕ → ℤ → ℤ → Network → Network
ended_by id signal cpu_usec mem_peak m = record m {
  agent = wait_process id (signalled signal) cpu_usec mem_peak m.agent;
}

module _ (lord_id_from_hostname : String → ℕ) (to_uint32 : ℤ → ℕ) (lord_id : String) (os : Os)
    (w : Waiting) where
  -- a message that is alone on its way
  pub report_handled :
      (n : Network) (now : ℕ) (cmd : LordCmd)
      → n.agent.outbox ≡ cmd ∷ []
      → n.up ≡ []
      → Ran lord_id_from_hostname to_uint32 lord_id os w 2 n (record n {
        server = handle lord_id_from_hostname to_uint32 now lord_id cmd n.server;
        agent = with_outbox [] n.agent;
        up = [];
      })
  report_handled n now cmd only up =
      more (sent cmd [] only) (more (handled now cmd [] (ap (λ l. l ++ cmd ∷ []) up)) done)

  end_told :
      (id : String) (signal : ℕ) (cpu_usec mem_peak : ℤ) (ag : Agent)
      → (cmd : LordCmd) × ((wait_process id (signalled signal) cpu_usec mem_peak ag).outbox
          ≡ ag.outbox ++ cmd ∷ [])
  unfolding wait_process
  end_told id signal cpu_usec mem_peak ag = (_, refl)

  -- two rounds can follow the end of a process where nothing is on its way
  pub end_can_arrive :
      (id : String) (signal : ℕ) (cpu_usec mem_peak : ℤ) (m : Network)
      → OnWay lord_id [] [] [] [] m
      → (v : Network) × Ran lord_id_from_hostname to_uint32 lord_id os w 2
          (ended_by id signal cpu_usec mem_peak m)
          v
  end_can_arrive id signal cpu_usec mem_peak m o =
      let (cmd, told) = end_told id signal cpu_usec mem_peak m.agent in
      (
        _,
        report_handled (ended_by id signal cpu_usec mem_peak m) 0 cmd
            (told ∙ ap (λ l. l ++ cmd ∷ []) o.in_outbox) o.in_up,
      )

  handle_kill-IsSignalled :
      (req : KillRequest) (p : LocalProcess) (ag : Agent)
      → lookup req.process_id ag.procs ≡ some p
      → IsSignalled req p ag (handle_kill os (passed_on req) ag).1
  unfolding passed_on handle_kill
  handle_kill-IsSignalled req p ag runs =
      let asked : (handle_kill os (passed_on req) ag).1
          ≡ record ag { signals = ag.signals ++ (group_of p.lord_pid, signal_of req) ∷ [] } =
        rw (runs, handle_kill, kill_signal-passed_on req) refl in
      rw asked
        (record { asked = signal_of-IsSignalOf req; signals = refl; procs = refl; outbox = refl })

  module _ (req : KillRequest) (n : Network) (s : Server) (a : ℕ) (e : Entry)
      (known : get n.server.processes req.process_id ≡ some a)
      (there : deref n.server.processes a ≡ some e) where
    -- what is known once the agent has handled the kill
    pub record IsArrived (p : LocalProcess) (m : Network) : Type 0 where
      pub signal_sent : IsSignalled req p n.agent m.agent
      pub table : m.server.processes ≡ n.server.processes
      pub rest : OnWay lord_id [] [] [] [] m

    -- the session of the lord, with the kill as its only event
    record IsLone (sess : Session) : Type 0 where
      found : lookup lord_id s.sessions ≡ some sess
      only : sess.outbox ≡ kill (passed_on req) ∷ []
      same_table : s.processes ≡ n.server.processes

    kill_asked :
        (resp : KillResponse)
        → e.info.ref.lord_id ≡ lord_id
        → e.info.ref.lord_id ≢ ""
        → IsSettled lord_id n
        → kill_process req n.server ≡ (ok resp, s)
        → (sess : Session) × IsLone sess
    kill_asked resp home real settled accepted =
        let ev : LordEvent = kill (passed_on req) in
        let q : Sent lord_id ev n.server s = at_home (
          kill_process-Sent req n.server s e resp
            (kill_process-KillOutcome req n.server e a known there real) accepted) in
        let sess : Session = record q.session { outbox = q.session.outbox ++ ev ∷ [] } in
        let empty : q.session.outbox ≡ [] =
          sym (queue-found lord_id q.session n.server q.found) ∙ settled.queue_empty in
        (
          sess,
          record {
            found =
                ap (λ (x : Server). lookup lord_id x.sessions) q.after
                ∙ lookup-insert_self lord_id sess n.server.sessions;
            only = ap (λ l. l ++ ev ∷ []) empty;
            same_table = ap (λ (x : Server). x.processes) q.after;
          },
        )
      where
        at_home :
            Sent e.info.ref.lord_id (kill (passed_on req)) n.server s
            → Sent lord_id (kill (passed_on req)) n.server s
        at_home q = rw (← home) q

    -- such a run of two rounds is possible
    pub kill_can_arrive :
        (resp : KillResponse)
        → e.info.ref.lord_id ≡ lord_id
        → e.info.ref.lord_id ≢ ""
        → IsSettled lord_id n
        → kill_process req n.server ≡ (ok resp, s)
        → (m : Network) × Ran lord_id_from_hostname to_uint32 lord_id os w 2
            (record n { server = s })
            m
    unfolding handle_event
    kill_can_arrive resp home real settled accepted =
        let (sess, asked) = kill_asked resp home real settled accepted in
        (
          _,
          event_served lord_id_from_hostname to_uint32 lord_id os w (kill (passed_on req)) sess
              (record n { server = s }) (handle_kill os (passed_on req) n.agent)
              (has_room n.agent settled.outbox_empty) asked.found asked.only settled.down_empty
              refl,
        )

    pub kill_arrives :
        (p : LocalProcess) (resp : KillResponse) (m : Network)
        → e.info.ref.lord_id ≡ lord_id
        → e.info.ref.lord_id ≢ ""
        → IsSettled lord_id n
        → lookup req.process_id n.agent.procs ≡ some p
        → kill_process req n.server ≡ (ok resp, s)
        → Ran lord_id_from_hostname to_uint32 lord_id os w 2 (record n { server = s }) m
        → IsArrived p m
    unfolding handle_event
    kill_arrives p resp m home real settled runs accepted ran =
        let ev : LordEvent = kill (passed_on req) in
        let (sess, asked) = kill_asked resp home real settled accepted in
        let out : Handled = handle_kill os (passed_on req) n.agent in
        let signalled_so : IsSignalled req p n.agent out.1 =
          handle_kill-IsSignalled req p n.agent runs in
        let (v, rest, server, agent, none_more) =
          two_rounds lord_id_from_hostname to_uint32 lord_id os w ev (emptied lord_id sess s) out []
            (record n { server = s }) m
            (record {
              in_queue = queue-found lord_id sess s asked.found ∙ asked.only;
              in_down = settled.down_empty;
              in_outbox = settled.outbox_empty;
              in_up = settled.up_empty;
            })
            (take_event-only lord_id_from_hostname to_uint32 lord_id os w ev sess s asked.found
              asked.only)
            refl (signalled_so.outbox ∙ settled.outbox_empty) 0 ran in
        let over : v ≡ m =
          no_rounds lord_id_from_hostname to_uint32 lord_id os w 0 v m refl none_more in
        let at_agent : m.agent ≡ out.1 = ap (λ (x : Network). x.agent) (sym over) ∙ agent in
        record {
          signal_sent = rw at_agent signalled_so;
          table =
              ap (λ (x : Network). x.server.processes) (sym over)
              ∙ ap (λ (x : Server). x.processes) server
              ∙ asked.same_table;
          rest = subst (OnWay lord_id [] [] [] []) over rest;
        }

    -- A kill is accepted for a process that its lord runs, with nothing on its way to or from that lord.
    -- After any two rounds of the loops that follow, the group of the process has been sent the signal,
    -- SIGKILL if that is forced, else the one asked for, or SIGTERM if none is. If the process then ends
    -- by that signal, after any two rounds more the scheduler knows it as STOPPED by that signal, and
    -- whoever waits for it is woken.
    pub kill_stops :
        (p : LocalProcess) (resp : KillResponse) (signal : ℕ) (cpu_usec mem_peak : ℤ)
        (m v : Network)
        → e.info.ref.lord_id ≡ lord_id
        → e.info.ref.lord_id ≢ ""
        → IsSettled lord_id n
        → lookup req.process_id n.agent.procs ≡ some p
        → kill_process req n.server ≡ (ok resp, s)
        → signal_of req ≡ pos (suc signal)
        → Ran lord_id_from_hostname to_uint32 lord_id os w 2 (record n { server = s }) m
        → Ran lord_id_from_hostname to_uint32 lord_id os w 2
            (ended_by req.process_id (suc signal) cpu_usec mem_peak m)
            v
        → IsSignalled req p n.agent m.agent
          × (e' : Entry) × (deref v.server.processes a ≡ some e')
          × (e'.info.state ≡ stopped)
          × (e'.info.exit_signal ≡ signal_of req)
          × (e'.exited ≡ true)
    kill_stops p resp signal cpu_usec mem_peak m v home real settled runs accepted number ran ran' =
        let arrived : IsArrived p m = kill_arrives p resp m home real settled runs accepted ran in
        let known' : get m.server.processes req.process_id ≡ some a =
          ap (λ (t : Table). get t req.process_id) arrived.table ∙ known in
        let there' : deref m.server.processes a ≡ some e =
          ap (λ (t : Table). deref t a) arrived.table ∙ there in
        let (gone, cmd, told, e₀, at₀, state₀, code₀, exit_signal₀, peak₀, woken₀) =
          end_reported lord_id_from_hostname to_uint32 0 lord_id req.process_id m.server m.agent a e
            known' there' (signalled (suc signal)) cpu_usec mem_peak (λ eq. cc) in
        let (now, server) =
          message_rounds lord_id_from_hostname to_uint32 lord_id os w cmd
            (ended_by req.process_id (suc signal) cpu_usec mem_peak m) v
            (record {
              in_queue = arrived.rest.in_queue;
              in_down = arrived.rest.in_down;
              in_outbox = told ∙ ap (λ l. l ++ cmd ∷ []) arrived.rest.in_outbox;
              in_up = arrived.rest.in_up;
            })
            ran' in
        let (gone', cmd', told', e', at, state, code, exit_signal, peak, woken) =
          end_reported lord_id_from_hostname to_uint32 now lord_id req.process_id m.server m.agent a
            e known' there' (signalled (suc signal)) cpu_usec mem_peak (λ eq. cc) in
        let same : cmd' ≡ cmd = last_same m.agent.outbox cmd' cmd (sym told' ∙ told) in
        (
          arrived.signal_sent,
          e',
          ap (λ (x : Server). deref x.processes a) server
              ∙ ap
                  (λ (x : LordCmd).
                    deref (handle lord_id_from_hostname to_uint32 now lord_id x m.server).processes
                      a)
                  (sym same)
              ∙ at,
          state,
          exit_signal ∙ sym number,
          woken,
        )
