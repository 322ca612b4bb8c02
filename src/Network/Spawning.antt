-- ===== src/Network/Spawning.antt =====
-- A spawn, from the request of a client to what the scheduler knows of the process in the end.
use etronium_scdr.Prelude.{
  ℕ, String, ◌≡◌, ◌≢◌, refl, ap, sym, ◌∙◌, ◌⊎◌, eq_refl, true, false, Option, some, [], ◌∷◌, ◌++◌,
  lookup, lookup-insert, get_elem?-append_length, ℤ, length, negsuc, arith,
}
use etronium_scdr.Proto.{LordEvent, ProcessInfo, SpawnRequest, running, exited, spawn}
use etronium_scdr.Float.{Float}
use etronium_scdr.Table.{Table, Entry, create_entry, new_entry, get, deref}
use etronium_scdr.Server.{Session, Server, ok}
use etronium_scdr.Server.Sending.{Sent}
use etronium_scdr.Spawn.{spawn_process, build_spawn_request, new_info}
use etronium_scdr.Spawn.Outcome.{Started, with_entry, spawn_process-Outcome, spawn_process-Started}
use etronium_scdr.Lord.{Agent, Os}
use etronium_scdr.Lord.Handlers.{Waiting, handle_event, handle_spawn}
use etronium_scdr.Lord.Reports.{spawn-Reported}
use etronium_scdr.Network.Events.{emptied, event_answered, lookup-insert_self}
use etronium_scdr.Network.{Network}
use etronium_scdr.Network.Cost.{queue-found}
use etronium_scdr.Network.Settling.{IsSettled, Ran, has_room}

-- how the scheduler knows a process whose spawn its lord has answered
abbrev pub IsAnswered : Agent → Entry → Type 0
IsAnswered ag e =
    (ag.draining ≡ false) × (e.info.state ≡ running)
    ⊎ (e.info.state ≡ exited) × (e.info.exit_code ≡ negsuc 0) × (e.exited ≡ true)

-- a new process, as its lord and its process id tell
process_id-new_info :
    (now : ℕ) (id lord_id : String) (req : SpawnRequest)
    → (new_info now id lord_id req).ref.process_id ≡ id
unfolding new_info
process_id-new_info now id lord_id req = refl

lord_id-new_info :
    (now : ℕ) (id lord_id : String) (req : SpawnRequest)
    → (new_info now id lord_id req).ref.lord_id ≡ lord_id
unfolding new_info
lord_id-new_info now id lord_id req = refl

process_id-build_spawn_request :
    (info : ProcessInfo) (req : SpawnRequest)
    → (build_spawn_request info req).process_id ≡ info.ref.process_id
unfolding build_spawn_request
process_id-build_spawn_request info req = refl

get-create_self :
    (info : ProcessInfo) (t : Table)
    → get (create_entry info t).1 info.ref.process_id ≡ some (length t.heap)
unfolding create_entry
get-create_self info t = ground (
  arith,
  lookup-insert info.ref.process_id info.ref.process_id (length t.heap) t.by_id,
  eq_refl info.ref.process_id,
)

deref-create_self :
    (info : ProcessInfo) (t : Table)
    → deref (create_entry info t).1 (length t.heap) ≡ some (new_entry info)
unfolding create_entry
deref-create_self info t = get_elem?-append_length t.heap (new_entry info)

-- what an accepted spawn has left for the lord that it has found
record IsPlaced (id lord_id : String) (req : SpawnRequest) (s u : Server) (info : ProcessInfo)
    : Type 0 where
  named : info.ref.process_id ≡ id
  sending : Sent lord_id (spawn (build_spawn_request info req)) (with_entry info s) u

accepted-IsPlaced :
    (fl : Float) (now : ℕ) (id lord_id : String) (req : SpawnRequest) (s u : Server)
    (info : ProcessInfo)
    → spawn_process fl now id req s ≡ (ok (some info), u)
    → info.ref.lord_id ≡ lord_id
    → IsPlaced id lord_id req s u info
accepted-IsPlaced fl now id lord_id req s u info accepted placed =
    let st : Started fl now id req s u (some info) =
      spawn_process-Started fl now id req s u info (spawn_process-Outcome fl now id req s)
        accepted in
    let same : info ≡ new_info now id st.lord.lord_id req = some_injective st.answer in
    let home : st.lord.lord_id ≡ lord_id =
      sym (lord_id-new_info now id st.lord.lord_id req)
      ∙ ap (λ (x : ProcessInfo). x.ref.lord_id) (sym same)
      ∙ placed in
    record {
      named =
          ap (λ (x : ProcessInfo). x.ref.process_id) same
          ∙ process_id-new_info now id st.lord.lord_id req;
      sending = at_home st.lord.lord_id (new_info now id st.lord.lord_id req) home same st.sending;
    }
  where
    some_injective : {x y : ProcessInfo} → ◌≡◌ {A = Option ProcessInfo} (some x) (some y) → x ≡ y
    some_injective e = cc

    at_home :
        (l : String) (made : ProcessInfo)
        → l ≡ lord_id
        → info ≡ made
        → Sent l (spawn (build_spawn_request made req)) (with_entry made s) u
        → Sent lord_id (spawn (build_spawn_request info req)) (with_entry info s) u
    at_home l made home same q = rw (← home, same) q

module _ (lord_id_from_hostname : String → ℕ) (to_uint32 : ℤ → ℕ) (lord_id : String) (os : Os)
    (w : Waiting) (fl : Float) (now : ℕ) (id : String) (req : SpawnRequest) (n : Network)
    (s : Server) (info : ProcessInfo) where
  -- the session of the lord, with the spawn as its only event, and the new process in the table
  pub record IsLone (sess : Session) : Type 0 where
    pub found : lookup lord_id s.sessions ≡ some sess
    pub only : sess.outbox ≡ spawn (build_spawn_request info req) ∷ []
    pub named : info.ref.process_id ≡ id
    pub known : get (emptied lord_id sess s).processes id ≡ some (length n.server.processes.heap)
    pub there :
        deref (emptied lord_id sess s).processes (length n.server.processes.heap)
        ≡ some (new_entry info)

  spawn_asked :
      IsSettled lord_id n
      → spawn_process fl now id req n.server ≡ (ok (some info), s)
      → info.ref.lord_id ≡ lord_id
      → (sess : Session) × IsLone sess
  spawn_asked settled accepted placed =
      let pl : IsPlaced id lord_id req n.server s info =
        accepted-IsPlaced fl now id lord_id req n.server s info accepted placed in
      let ev : LordEvent = spawn (build_spawn_request info req) in
      let q : Sent lord_id ev (with_entry info n.server) s = pl.sending in
      let sess : Session = record q.session { outbox = q.session.outbox ++ ev ∷ [] } in
      let empty : q.session.outbox ≡ [] =
        sym (queue-found lord_id q.session (with_entry info n.server) q.found)
        ∙ settled.queue_empty in
      let table : (emptied lord_id sess s).processes ≡ (create_entry info n.server.processes).1 =
        ap (λ (x : Server). x.processes) q.after in
      (
        sess,
        record {
          found =
              ap (λ (x : Server). lookup lord_id x.sessions) q.after
              ∙ lookup-insert_self lord_id sess (with_entry info n.server).sessions;
          only = ap (λ l. l ++ ev ∷ []) empty;
          named = pl.named;
          known =
              ap (get (emptied lord_id sess s).processes) (sym pl.named)
              ∙ ap (λ t. get t info.ref.process_id) table
              ∙ get-create_self info n.server.processes;
          there =
              ap (λ t. deref t (length n.server.processes.heap)) table
              ∙ deref-create_self info n.server.processes;
        },
      )

  -- such a run of four rounds is possible
  pub spawn_can_arrive :
      (later : ℕ)
      → id ≢ ""
      → IsSettled lord_id n
      → spawn_process fl now id req n.server ≡ (ok (some info), s)
      → info.ref.lord_id ≡ lord_id
      → os.pipes (build_spawn_request info req) ≡ true
      → (u : Network) × Ran lord_id_from_hostname to_uint32 lord_id os w 4
          (record n { server = s })
          u
  unfolding handle_event
  spawn_can_arrive later named settled accepted placed pipes =
      let (sess, asked) = spawn_asked settled accepted placed in
      let r : SpawnRequest = build_spawn_request info req in
      let (cmd, told, e, at, answered) =
        spawn-Reported lord_id_from_hostname to_uint32 later lord_id id (emptied lord_id sess s)
          n.agent (length n.server.processes.heap) (new_entry info) asked.known asked.there os r
          named (process_id-build_spawn_request info req ∙ asked.named) pipes in
      (
        _,
        event_answered lord_id_from_hostname to_uint32 lord_id os w (spawn r) sess
            (record n { server = s }) (handle_spawn os r n.agent) later cmd
            (has_room n.agent settled.outbox_empty) asked.found asked.only settled.down_empty
            settled.up_empty refl (told ∙ ap (λ l. l ++ cmd ∷ []) settled.outbox_empty),
      )
