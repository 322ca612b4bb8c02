-- ===== src/Recovery.antt =====
-- internal/scheduler/recovery.go and migrate.go: the processes of a lord that has gone are started
-- anew on another one. The time of a call is an argument; what other goroutines do while the recovery
-- sleeps is a function on the server.
pub mod Respawn
pub mod Answered
pub mod Retry
pub mod Finish
pub mod Undone
pub mod Invariant
pub mod Moved
pub mod Tests
use etronium_scdr.Prelude.{
  ℕ, zero, suc, ◌+◌, ◌*◌, ◌-◌, String, ◌==◌, Bool, true, false, ◌&&◌, ◌||◌, Option, none, some,
  List, [], ◌∷◌, Dict, lookup, insert, ℤ, pos, negsuc, leb_ℤ, ltb, if◌then◌else◌,
}
use etronium_scdr.Proto.{
  ProcessState, ProcessInfo, ProcessRef, SpawnRequest, Lord, is_final, incr32, unspecified, ready,
  running, paused, migrating, stopped, restarting,
}
use etronium_scdr.Float.{Float}
use etronium_scdr.Table.{
  Table, Entry, get, deref, update, set_info, update_state, update_result, list_by_lord,
}
use etronium_scdr.Registry.{pick, pick_different}
use etronium_scdr.Server.{
  Server, Error, not_found, max_restarts_reached, no_alternative, Result, ok, err, send_spawn,
  second,
}
use etronium_scdr.Spawn.{build_spawn_request}

-- a change of the process table
abbrev pub on_table : (Table → Table) → Server → Server
on_table f s = record s { processes = f s.processes }

-- `LastError` is set, then the process is STOPPED with an exit code. Where the code formats a number
-- or an error into the text, the model keeps the words only.
unfoldable pub give_up : ℕ → String → ℤ → ℕ → Server → Server
give_up now message code a s =
    on_table
      (λ t. update_result now code (pos 0) a (
        update_state now stopped "" (pos 0) a
          (update (set_info (λ info. record info { last_error = message })) a t)))
      s

-- the request that `respawnProcessOnLord` builds from the info
unfoldable pub respawn_request : ProcessInfo → SpawnRequest
respawn_request info = build_spawn_request info (record {
  process_id = "";
  tenant_id = info.tenant_id;
  exec_path = info.exec_path;
  argv = info.argv;
  env = info.env;
  resources = info.resources;
  working_dir = info.working_dir;
  prefer_lord_id = "";
  stdin_initial = [];
  max_restarts = pos 0;
  state_dump_path_hint = "";
})

-- RESTARTING, on the new lord, with one restart more
unfoldable pub mark_restarting : ℕ → String → ℕ → Table → Table
mark_restarting now new_lord a t =
    update
      (set_info (λ info. record info {
        ref = record info.ref { lord_id = new_lord };
        restart_count = incr32 info.restart_count;
      }))
      a (update_state now restarting "" (pos 0) a t)

-- what follows `SendSpawn`
unfoldable pub after_respawn : ℕ → ℕ → Result (Unit {0}) × Server → Result (Unit {0}) × Server
unfolding give_up
after_respawn now a (ok u, s) = (ok u, s)
after_respawn now a (err e, s) = (err e, give_up now "respawn failed" (negsuc 1) a s)

-- the info at a pointer, as the code reads it through `entry.Info`
abbrev pub info_at : ℕ → Table → Option ProcessInfo
info_at a t = elim (deref t a) [ none ↦ none | some e ↦ some e.info ]

-- the spawn event to the new lord, for the entry as it is now
unfoldable pub send_respawn : ℕ → String → ℕ → Server → Result (Unit {0}) × Server
unfolding after_respawn respawn_request
send_respawn now new_lord a s = elim (info_at a s.processes) [
  | none ↦ (ok tt, s)
  | some info ↦ after_respawn now a (send_spawn new_lord (respawn_request info) s)
]

-- `maxR >= 0 && restartCount >= maxR`
abbrev pub exhausted : ProcessInfo → Bool
exhausted info = leb_ℤ (pos 0) info.max_restarts && leb_ℤ info.max_restarts info.restart_count

-- `respawnProcessOnLord`. The timer that it starts is `ack_timeout`.
unfoldable pub respawn : ℕ → String → ℕ → Server → Result (Unit {0}) × Server
unfolding mark_restarting send_respawn
respawn now new_lord a s = elim (info_at a s.processes) [
  | none ↦ (ok tt, s)
  | some info ↦
      if is_final info.state
      then (ok tt, s)
      else if exhausted info
      then (err max_restarts_reached, give_up now "max_restarts reached" (negsuc 3) a s)
      else send_respawn now new_lord a (on_table (mark_restarting now new_lord a) s)
]

abbrev pub is_restarting : ProcessState → Bool
is_restarting restarting = true
is_restarting _ = false

-- `entry.Info.GetState() == RESTARTING`
abbrev pub restarts : ℕ → Table → Bool
restarts a t = elim (info_at a t) [ none ↦ false | some info ↦ is_restarting info.state ]

-- what the timer of a respawn does after 30 s
unfoldable pub ack_timeout : ℕ → ℕ → Server → Server
ack_timeout now a s =
    if restarts a s.processes then give_up now "respawn ack timeout (>30s)" (negsuc 2) a s else s

-- the filter of the candidates
abbrev pub respawnable : Entry → Bool
respawnable e = elim e.info.state [
  | running ↦ true
  | ready ↦ true
  | paused ↦ true
  | migrating ↦ true
  | _ ↦ false
]

abbrev pub succeeded_one : Result (Unit {0}) → ℕ → ℕ
succeeded_one (ok u) n = suc n
succeeded_one (err e) n = n

-- one pass over the candidates: how many respawns succeeded
unfoldable pub respawn_pass : ℕ → String → List ℕ → Server → ℕ × Server
respawn_pass now target [] s = (0, s)
respawn_pass now target (a ∷ as') s =
    let (r, s₁) = respawn now target a s in
    let (n, s₂) = respawn_pass now target as' s₁ in (succeeded_one r n, s₂)

abbrev pub max_attempts : ℕ
max_attempts = 10

-- the loop after the retries: what is still RESTARTING is given up
unfoldable pub stop_one : ℕ → ℕ → Server → Server
stop_one now a s =
    if restarts a s.processes then give_up now "no lord available for respawn" (negsuc 4) a s else s

unfoldable pub stop_restarting : ℕ → List ℕ → Server → Server
stop_restarting now [] s = s
stop_restarting now (a ∷ as') s = stop_restarting now as' (stop_one now a s)

abbrev pub recovery_debounce : ℕ
recovery_debounce = 10 * second

-- a recovery of the same lord within the debounce
abbrev pub is_recent : ℕ → Option ℕ → Bool
is_recent now none = false
is_recent now (some last) = ltb now (last + recovery_debounce)

module _ (fl : Float) (between : ℕ → Server → Server) where
  -- the retry loop with so many attempts left; `between k` is what happens before attempt k
  unfoldable pub recovery_loop : ℕ → ℕ → List ℕ → Server → Server
  recovery_loop zero now candidates s = s
  recovery_loop (suc left) now candidates s =
      let s₁ = between (max_attempts - suc left) s in
      elim (pick fl "" s₁.lords) [
        | none ↦ recovery_loop left now candidates s₁
        | some lord ↦
            let (n, s₂) = respawn_pass now lord.lord_id candidates s₁ in
            elim (ltb 0 n) [ true ↦ s₂ | false ↦ recovery_loop left now candidates s₂ ]
      ]

  -- `recoverFromLordDisconnect` behind the debounce; without candidates it returns early
  unfoldable pub recover_candidates : ℕ → List ℕ → Server → Server
  unfolding recovery_loop stop_restarting
  recover_candidates now [] s = s
  recover_candidates now (a ∷ as') s =
      stop_restarting now (a ∷ as') (recovery_loop max_attempts now (a ∷ as') s)

  -- `recoverFromLordDisconnect`; a debounced call too counts for the next debounce
  unfoldable pub recover : ℕ → String → Server → Server
  unfolding recover_candidates
  recover now dead s =
      let s₁ = record s { last_recovery_at = insert dead now s.last_recovery_at } in
      if is_recent now (lookup dead s.last_recovery_at)
      then s₁
      else recover_candidates now (list_by_lord s₁.processes dead respawnable) s₁

pub record MigrateRequest : Type 0 where
  pub process_id : String
  pub target_lord_id : String
  pub auto : Bool

pub record MigrateResponse : Type 0 where
  pub acknowledged : Bool
  pub current_state : ProcessState
  pub new_lord_id : String
  pub new_local_pid : ℤ

-- the state of a process when the answer is made
abbrev pub state_at : ℕ → Table → ProcessState
state_at a t = elim (info_at a t) [ none ↦ unspecified | some info ↦ info.state ]

abbrev pub migrated : ℕ → String → Result (Unit {0}) × Server → Result MigrateResponse × Server
migrated a target (ok u, s) = (
  ok (record {
    acknowledged = true;
    current_state = state_at a s.processes;
    new_lord_id = target;
    new_local_pid = pos 0;
  }),
  s,
)
migrated a target (err e, s) = (err e, s)

-- `req.GetAuto() || targetLordID == ""`
abbrev pub asked : MigrateRequest → Bool
asked req = req.auto || req.target_lord_id == ""

-- where a process on some lord is to go
abbrev pub target_of : Float → MigrateRequest → String → Server → String
target_of fl req current s =
    if asked req then pick_different fl current s.lords else req.target_lord_id

-- `Migrate` once its target is known
unfoldable pub migrate_to :
    ℕ → Bool → String → ℕ → ProcessInfo → Server → Result MigrateResponse × Server
migrate_to now chosen target a info s =
    if chosen && target == ""
    then (err no_alternative, s)
    else if target == info.ref.lord_id
    then (
      ok (record {
        acknowledged = false;
        current_state = info.state;
        new_lord_id = target;
        new_local_pid = info.ref.local_pid;
      }),
      s,
    )
    else migrated a target (respawn now target a s)

-- `Migrate`
unfoldable pub migrate : Float → ℕ → MigrateRequest → Server → Result MigrateResponse × Server
unfolding migrate_to
migrate fl now req s = elim (get s.processes req.process_id) [
  | none ↦ (err not_found, s)
  | some a ↦ elim (info_at a s.processes) [
    | none ↦ (err not_found, s)
    | some info ↦ migrate_to now (asked req) (target_of fl req info.ref.lord_id s) a info s
  ]
]
