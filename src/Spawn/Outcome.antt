-- ===== src/Spawn/Outcome.antt =====
-- The outcomes of `Spawn`: what it leaves of the server where it fails, and what it has done where
-- it succeeds.
use etronium_scdr.Prelude.{
  ℕ, String, ◌≡◌, ◌≢◌, ap, ◌∙◌, ◌==◌, Option, none, some, lookup, length, arith, pos, negsuc,
  Bool-cases, Option-cases, eq_iff, refl, true, false, eqb_ℤ, ◌≤◌, ◌⊎◌, inl, inr,
  get_elem?-append_length,
}
use etronium_scdr.Proto.{ProcessInfo, SpawnRequest, Lord, LordEvent, spawn, stopped, ready}
use etronium_scdr.Float.{Float}
use etronium_scdr.Table.{
  Table, Entry, new_entry, create_entry, deref, update_state, update_result, update_state_entry,
  update_result_entry,
}
use etronium_scdr.Table.Access.{deref-update_state, deref-update_result}
use etronium_scdr.Registry.{pick}
use etronium_scdr.Server.{
  Server, Session, outbox_size, invalid_argument, unavailable, internal, Result, ok, err,
}
use etronium_scdr.Server.Sending.{Sent, Blocked, Push, sent, unsent, send_event-Push}
use etronium_scdr.Spawn.{
  validate_resources, build_spawn_request, new_info, after_send, start_on, spawn_process, snapshot,
}

-- the server when the entry of a new process has been made
abbrev pub with_entry : ProcessInfo → Server → Server
with_entry info s = record s { processes = (create_entry info s.processes).1 }

-- a process whose spawn event could not be sent
abbrev pub abandoned : ℕ → ProcessInfo → Server → Server
abandoned now info s = record s {
  processes = update_result now (negsuc 0) (pos 0) (length s.processes.heap) (
      update_state now stopped "" (pos 0) (length s.processes.heap)
        (create_entry info s.processes).1);
}

-- a request that `Spawn` does not reject
pub record IsAcceptable (req : SpawnRequest) : Type 0 where
  pub tenant : req.tenant_id ≢ ""
  pub command : req.exec_path ≢ ""
  pub resources : validate_resources req.resources ≡ none

-- a new process: READY, on its lord, under its id and for its tenant, with its command and a limit on its
-- restarts that is ten where none is given
pub record IsNew (id lord_id : String) (req : SpawnRequest) (info : ProcessInfo) : Type 0 where
  pub named : info.ref.process_id ≡ id
  pub home : info.ref.lord_id ≡ lord_id
  pub tenant : info.tenant_id ≡ req.tenant_id
  pub command : (info.exec_path ≡ req.exec_path) × (info.argv ≡ req.argv)
  pub state : info.state ≡ ready
  pub no_restart : info.restart_count ≡ pos 0
  pub limit :
      (req.max_restarts ≡ pos 0) × (info.max_restarts ≡ pos 10)
      ⊎ (req.max_restarts ≢ pos 0) × (info.max_restarts ≡ req.max_restarts)

-- the new process is STOPPED with exit code -1, and whoever waits for it is woken
pub record IsAbandoned (id : String) (s s' : Server) : Type 0 where
  pub entry : Entry
  pub there : deref s'.processes (length s.processes.heap) ≡ some entry
  pub named : entry.info.ref.process_id ≡ id
  pub state : entry.info.state ≡ stopped
  pub exit_code : entry.info.exit_code ≡ negsuc 0
  pub woken : entry.exited ≡ true
  pub sessions : s'.sessions ≡ s.sessions

module _ (fl : Float) (now : ℕ) (id : String) (req : SpawnRequest) (s : Server) where
  -- what has been done when `Spawn` succeeds
  pub record Started (s' : Server) (o : Option ProcessInfo) : Type 0 where
    pub lord : Lord
    pub picked : pick fl req.prefer_lord_id s.lords ≡ some lord
    pub acceptable : IsAcceptable req
    pub created : IsNew id lord.lord_id req (new_info now id lord.lord_id req)
    pub listed :
        snapshot s'.processes (length s.processes.heap) ≡ some (new_info now id lord.lord_id req)
    pub answer : o ≡ some (new_info now id lord.lord_id req)
    pub sending :
        Sent lord.lord_id
          (spawn (build_spawn_request (new_info now id lord.lord_id req) req))
          (with_entry (new_info now id lord.lord_id req) s)
          s'

  -- the outcomes of `Spawn`
  pub data Outcome : Result (Option ProcessInfo) × Server → Type 0 where
    rejected :
        ((req.tenant_id ≡ "") ⊎ ((req.exec_path ≡ "") ⊎ (validate_resources req.resources ≢ none)))
        → Outcome (err invalid_argument, s)
    unplaced :
        IsAcceptable req → pick fl req.prefer_lord_id s.lords ≡ none → Outcome (err unavailable, s)
    unconnected :
        (lord : Lord)
        → IsAcceptable req
        → pick fl req.prefer_lord_id s.lords ≡ some lord
        → lookup lord.lord_id s.sessions ≡ none
        → Outcome (err unavailable, s)
    failed :
        (lord : Lord) (sess : Session)
        → IsAcceptable req
        → pick fl req.prefer_lord_id s.lords ≡ some lord
        → lookup lord.lord_id s.sessions ≡ some sess
        → outbox_size ≤ length sess.outbox
        → IsAbandoned id s (abandoned now (new_info now id lord.lord_id req) s)
        → Outcome (err internal, abandoned now (new_info now id lord.lord_id req) s)
    started : {s' : Server} {o : Option ProcessInfo} → Started s' o → Outcome (ok o, s')

snapshot_of_deref :
    (t : Table) (a : ℕ) (e : Entry) → deref t a ≡ some e → snapshot t a ≡ some e.info
snapshot_of_deref t a e h = ground arith

deref-create :
    (info : ProcessInfo) (t : Table)
    → deref (create_entry info t).1 (length t.heap) ≡ some (new_entry info)
unfolding create_entry
deref-create info t = get_elem?-append_length t.heap (new_entry info)

max_restarts-new_info :
    (now : ℕ) (id lord_id : String) (req : SpawnRequest)
    → (req.max_restarts ≡ pos 0) × ((new_info now id lord_id req).max_restarts ≡ pos 10)
      ⊎ (req.max_restarts ≢ pos 0) × ((new_info now id lord_id req).max_restarts ≡ req.max_restarts)
unfolding new_info
max_restarts-new_info now id lord_id req = elim (Bool-cases (eqb_ℤ req.max_restarts (pos 0))) [
  | inl zero_given ↦ inl (ground arith, rw zero_given refl)
  | inr given ↦ inr (λ e. absurd (ground arith), rw given refl)
]

new_info-IsNew :
    (now : ℕ) (id lord_id : String) (req : SpawnRequest)
    → IsNew id lord_id req (new_info now id lord_id req)
unfolding new_info
new_info-IsNew now id lord_id req = record {
  named = refl;
  home = refl;
  tenant = refl;
  command = (refl, refl);
  state = refl;
  no_restart = refl;
  limit = max_restarts-new_info now id lord_id req;
}

abandoned-IsAbandoned :
    (now : ℕ) (id lord_id : String) (req : SpawnRequest) (s : Server)
    → IsAbandoned id s (abandoned now (new_info now id lord_id req) s)
unfolding update_state_entry update_result_entry new_info
abandoned-IsAbandoned now id lord_id req s = record {
  entry =
      update_result_entry now (negsuc 0) (pos 0)
        (update_state_entry now stopped "" (pos 0) (new_entry (new_info now id lord_id req)));
  there = deref-update_result now (negsuc 0) (pos 0) (length s.processes.heap) _ (
      deref-update_state now stopped "" (pos 0) (length s.processes.heap) _
        (deref-create (new_info now id lord_id req) s.processes));
  named = refl;
  state = refl;
  exit_code = refl;
  woken = ground arith;
  sessions = refl;
}

module _ (fl : Float) (now : ℕ) (id : String) (req : SpawnRequest) (s : Server) (lord : Lord)
    (sess : Session) (good : IsAcceptable req)
    (picked : pick fl req.prefer_lord_id s.lords ≡ some lord)
    (live : lookup lord.lord_id s.sessions ≡ some sess) where
  abbrev info : ProcessInfo
  info = new_info now id lord.lord_id req

  abbrev event : LordEvent
  event = spawn (build_spawn_request info req)

  answered :
      (s' : Server)
      → Sent lord.lord_id event (with_entry info s) s'
      → snapshot s'.processes (length s.processes.heap) ≡ some info
  answered s' q =
      ap (λ (x : Server). snapshot x.processes (length s.processes.heap)) q.after
      ∙ snapshot_of_deref (create_entry info s.processes).1 (length s.processes.heap)
          (new_entry info) (deref-create info s.processes)

  full : Blocked lord.lord_id s → outbox_size ≤ length sess.outbox
  full (inl absent) = absurd (cc)
  full (inr (other, found, none_left)) =
      let same : other ≡ sess = cc in omega (arith, ap (λ (x : Session). length x.outbox) same)

  after_send-Outcome :
      {out : Result (Unit {0}) × Server}
      → Push lord.lord_id event (with_entry info s) out
      → Outcome fl now id req s (after_send now (length s.processes.heap) out)
  unfolding after_send
  after_send-Outcome (sent {s'} q) = started (record {
    lord = lord;
    picked = picked;
    acceptable = good;
    created = new_info-IsNew now id lord.lord_id req;
    listed = answered s' q;
    answer = answered s' q;
    sending = q;
  })
  after_send-Outcome (unsent e why) =
      failed lord sess good picked live (full why) (abandoned-IsAbandoned now id lord.lord_id req s)

  start_on-Outcome : Outcome fl now id req s (start_on now id lord.lord_id req s)
  unfolding start_on create_entry
  start_on-Outcome = after_send-Outcome (send_event-Push lord.lord_id event (with_entry info s))

present : (x : String) → (x == "") ≡ false → x ≢ ""
present x h e = absurd (ground (arith, eq_iff x ""))

-- `Spawn` has one of five outcomes. A request without a tenant or an executable, or with a resource
-- out of range, is rejected as an invalid argument. Any other is answered as unavailable if `Pick` finds
-- no lord, or one that has no session. Nothing changes in these cases. If the outbox of that session is
-- full, the new process is left in the table STOPPED with exit code -1, and whoever waits for it is
-- woken. Otherwise the new process is in the table, READY on that lord, under the new id, for the
-- tenant, with the command and the limit on restarts of the request or one of ten, its spawn event is
-- the last in the lord's outbox, and the answer is that process.
pub spawn_process-Outcome :
    (fl : Float) (now : ℕ) (id : String) (req : SpawnRequest) (s : Server)
    → Outcome fl now id req s (spawn_process fl now id req s)
unfolding spawn_process
spawn_process-Outcome fl now id req s = elim (Bool-cases (req.tenant_id == "")) [
  | inl a ↦ rw (a, spawn_process) (rejected (inl (ground (arith, eq_iff req.tenant_id ""))))
  | inr a ↦ elim (Bool-cases (req.exec_path == "")) [
    | inl b ↦
        rw (a, spawn_process, b) (rejected (inr (inl (ground (arith, eq_iff req.exec_path "")))))
    | inr b ↦ elim (Option-cases (validate_resources req.resources)) [
      | inr (e, c) ↦ rw (a, spawn_process, b, c) (rejected (inr (inr (λ h. cc))))
      | inl c ↦
          let good : IsAcceptable req = record {
            tenant = present req.tenant_id a;
            command = present req.exec_path b;
            resources = c;
          } in
          elim (Option-cases (pick fl req.prefer_lord_id s.lords)) [
            | inl d ↦ rw (a, spawn_process, b, c, d) (unplaced good d)
            | inr (lord, d) ↦ elim (Option-cases (lookup lord.lord_id s.sessions)) [
              | inl f ↦ rw (a, spawn_process, b, c, d, f) (unconnected lord good d f)
              | inr (sess, f) ↦
                  rw (a, spawn_process, b, c, d, f)
                    (start_on-Outcome fl now id req s lord sess good d f)
            ]
          ]
    ]
  ]
]

pub spawn_process-Started :
    (fl : Float) (now : ℕ) (id : String) (req : SpawnRequest) (s u : Server) (info : ProcessInfo)
    {out : Result (Option ProcessInfo) × Server}
    → Outcome fl now id req s out
    → out ≡ (ok (some info), u)
    → Started fl now id req s u (some info)
spawn_process-Started fl now id req s u info (rejected why) e = absurd (cc)
spawn_process-Started fl now id req s u info (unplaced good none_found) e = absurd (cc)
spawn_process-Started fl now id req s u info (unconnected lord good found gone) e = absurd (cc)
spawn_process-Started fl now id req s u info (failed lord sess good found live full left) e =
    absurd (cc)
spawn_process-Started fl now id req s u info (started {s'} {o} st) e =
    let answer : o ≡ some info = cc in let server : s' ≡ u = cc in rw (← answer, ← server) st
