-- ===== src/Requests.antt =====
-- Requests of clients in internal/scheduler/server.go: here `Kill`, `GetProcess`, `ListProcesses` and
-- `ListLords`, which answer from the state of the server; Input and Streaming have the others.
pub mod Answers
pub mod Input
pub mod Conversation
pub mod Streaming
pub mod Reattach
pub mod Drains
mod Tests
use etronium_scdr.Prelude.{
  ℕ, String, ◌==◌, Bool, true, false, ◌||◌, Option, none, some, List, [], ◌∷◌, ℤ, pos, leb_ℤ, ltb_ℤ,
  eqb_ℤ, pos_part, ltb, length, take, if◌then◌else◌,
}
use etronium_scdr.Proto.{ProcessInfo, ProcessState, KillRequest, Lord}
use etronium_scdr.Table.{Table, get, list_by_tenant}
use etronium_scdr.Registry.{list_all}
use etronium_scdr.Server.{
  Server, Error, invalid_argument, not_found, unavailable, failed_precondition, Result, ok, err,
  send_kill,
}
use etronium_scdr.Spawn.{snapshot}

pub record KillResponse : Type 0 where
  pub acknowledged : Bool
  pub current_state : ProcessState

-- the signal that is sent: SIGTERM where none is given, SIGKILL where it is forced
abbrev pub signal_of : KillRequest → ℤ
signal_of req =
    if req.force
    then pos 9
    else if eqb_ℤ req.signal_number (pos 0)
    then pos 15
    else req.signal_number

-- what follows `SendKill`
abbrev pub killed : ProcessState → Result (Unit {0}) × Server → Result KillResponse × Server
killed st (ok u, s) = (ok (record { acknowledged = true; current_state = st }), s)
killed st (err e, s) = (err unavailable, s)

-- `Kill`
unfoldable pub kill_process : KillRequest → Server → Result KillResponse × Server
kill_process req s = elim (get s.processes req.process_id) [
  | none ↦ (err not_found, s)
  | some a ↦ elim (snapshot s.processes a) [
    | none ↦ (err not_found, s)
    | some info ↦
        if info.ref.lord_id == ""
        then (err failed_precondition, s)
        else killed info.state
            (send_kill info.ref.lord_id (record req { signal_number = signal_of req }) s)
  ]
]

-- `GetProcess`
unfoldable pub get_process : Server → String → Result ProcessInfo
get_process s id = elim (get s.processes id) [
  | none ↦ err not_found
  | some a ↦ elim (snapshot s.processes a) [ none ↦ err not_found | some info ↦ ok info ]
]

-- the snapshots of the listed entries
abbrev pub snapshots : Table → List ℕ → List ProcessInfo
snapshots t [] = []
snapshots t (a ∷ as') =
    let rest = snapshots t as' in elim (snapshot t a) [ none ↦ rest | some info ↦ info ∷ rest ]

abbrev pub list_limit : ℤ → ℕ
list_limit limit = if leb_ℤ limit (pos 0) || ltb_ℤ (pos 500) limit then 500 else pos_part limit

-- `out[:limit]` where there is more
abbrev pub cut : ℕ → List ProcessInfo → List ProcessInfo
cut limit out = if ltb limit (length out) then take limit out else out

-- `ListProcesses`
unfoldable pub list_processes : Server → String → Bool → ℤ → Result (List ProcessInfo)
list_processes s tenant_id only_running limit =
    if tenant_id == ""
    then err invalid_argument
    else ok (
        cut (list_limit limit)
          (snapshots s.processes (list_by_tenant s.processes tenant_id only_running)))

-- `ListLords`
unfoldable pub list_lords : Server → Bool → List Lord
list_lords s only_healthy = list_all s.lords only_healthy
