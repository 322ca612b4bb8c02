-- ===== src/Wal.antt =====
-- internal/scheduler/wal.go: the write-ahead log of the process table. A file is its list of lines,
-- `none` where it does not exist. `encoding/json` is a parameter. Errors of the disk are not modelled:
-- `append` drops them, and `UpdateState` ignores what it returns.
pub mod Names
pub mod Replay
pub mod Recovery
pub mod Durable
pub mod Tests
use etronium_scdr.Prelude.{
  ℕ, ◌+◌, ◌*◌, String, ◌≡◌, ◌≢◌, ◌==◌, Bool, true, false, ◌&&◌, Option, none, some, List, [], ◌∷◌,
  ◌++◌, map, ℤ, pos, leb, if◌then◌else◌,
}
use etronium_scdr.Proto.{
  ProcessState, ProcessInfo, unspecified, new, ready, running, paused, migrating, exited, stopped,
  restarting,
}
use etronium_scdr.Table.{
  Table, Record, create, state, result, create_entry, get, update_state, update_result, attach_wal,
}

-- the struct that `ReplayWAL` reads a line into; a key that a line lacks leaves its zero value
pub record Event : Type 0 where
  pub kind : String
  pub info : Option ProcessInfo
  pub process_id : String
  pub state_text : String
  pub lord_id : String
  pub local_pid : ℤ
  pub exit_code : ℤ
  pub exit_sig : ℤ

-- A line of the file and what the code relies on of `json.Marshal` and `json.Unmarshal`: a line reads
-- back as the event that it was made of (the time `at` is not read), and no JSON object is the header
-- `ETRONIUM_WAL_v1`.
pub record Codec : Type 1 where
  pub Line : Type 0
  pub header : Line
  pub is_header : Line → Bool
  pub size : Line → ℕ
  pub marshal : ℕ → Event → Line
  pub unmarshal : Line → Option Event
  pub unmarshal-marshal : (at : ℕ) (ev : Event) → unmarshal (marshal at ev) ≡ some ev
  pub is_header-marshal : (at : ℕ) (ev : Event) → is_header (marshal at ev) ≡ false
  pub is_header-header : is_header header ≡ true

-- `ProcessState.String()` of the generated code
unfoldable pub state_name : ProcessState → String
state_name unspecified = "PROCESS_STATE_UNSPECIFIED"
state_name new = "PROCESS_STATE_NEW"
state_name ready = "PROCESS_STATE_READY"
state_name running = "PROCESS_STATE_RUNNING"
state_name paused = "PROCESS_STATE_PAUSED"
state_name migrating = "PROCESS_STATE_MIGRATING"
state_name exited = "PROCESS_STATE_EXITED"
state_name stopped = "PROCESS_STATE_STOPPED"
state_name restarting = "PROCESS_STATE_RESTARTING"

unfoldable pub process_state_by_name : String → Option ProcessState
process_state_by_name s =
    if s == "PROCESS_STATE_UNSPECIFIED"
    then some unspecified
    else if s == "PROCESS_STATE_NEW"
    then some new
    else if s == "PROCESS_STATE_READY"
    then some ready
    else if s == "PROCESS_STATE_RUNNING"
    then some running
    else if s == "PROCESS_STATE_PAUSED"
    then some paused
    else if s == "PROCESS_STATE_MIGRATING"
    then some migrating
    else if s == "PROCESS_STATE_EXITED"
    then some exited
    else if s == "PROCESS_STATE_STOPPED"
    then some stopped
    else if s == "PROCESS_STATE_RESTARTING"
    then some restarting
    else none

abbrev blank : Event
blank = record {
  kind = "";
  info = none;
  process_id = "";
  state_text = "";
  lord_id = "";
  local_pid = pos 0;
  exit_code = pos 0;
  exit_sig = pos 0;
}

-- `AppendCreate`, `AppendState` and `AppendResult`
unfoldable pub event_of : Record → Event
unfolding state_name
event_of (create info) = record blank { kind = "create"; info = some info }
event_of (state id st lord_id local_pid) = record blank {
  kind = "state";
  process_id = id;
  state_text = state_name st;
  lord_id = lord_id;
  local_pid = local_pid;
}
event_of (result id code sig) = record blank {
  kind = "result";
  process_id = id;
  exit_code = code;
  exit_sig = sig;
}

pub record ReplayResult : Type 0 where
  pub creates : ℕ
  pub states : ℕ
  pub results : ℕ

-- what the replay carries from line to line
abbrev pub Progress : Type 0
Progress = ReplayResult × Table

replay_create : Option ProcessInfo → Progress → Progress
replay_create none (res, t) = (res, t)
replay_create (some info) (res, t) =
    (record res { creates = res.creates + 1 }, (create_entry info t).1)

pub replay_state : ℕ → Option ℕ → Option ProcessState → String → ℤ → Progress → Progress
replay_state now (some a) (some st) lord_id local_pid (res, t) =
    (record res { states = res.states + 1 }, update_state now st lord_id local_pid a t)
replay_state now _ _ lord_id local_pid (res, t) = (res, t)

pub replay_result : ℕ → Option ℕ → ℤ → ℤ → Progress → Progress
replay_result now none code sig (res, t) = (res, t)
replay_result now (some a) code sig (res, t) =
    (record res { results = res.results + 1 }, update_result now code sig a t)

unfoldable pub replay_event : ℕ → Event → Progress → Progress
unfolding replay_create replay_state replay_result process_state_by_name
replay_event now ev (res, t) =
    if ev.kind == "create"
    then replay_create ev.info (res, t)
    else if ev.kind == "state"
    then replay_state now (get t ev.process_id) (process_state_by_name ev.state_text) ev.lord_id
        ev.local_pid (res, t)
    else if ev.kind == "result"
    then replay_result now (get t ev.process_id) ev.exit_code ev.exit_sig (res, t)
    else (res, t)

-- the scanner's buffer: a longer line ends the scan with an error
abbrev pub max_line : ℕ
max_line = 16 * 1024 * 1024

module _ (c : Codec) where
  open c use {Line, header, is_header, size, marshal, unmarshal}

  -- a corrupt line is skipped
  unfoldable pub replay_line : ℕ → Line → Progress → Progress
  unfolding replay_event
  replay_line now line p = elim (unmarshal line) [ none ↦ p | some ev ↦ replay_event now ev p ]

  -- the loop of `ReplayWAL`; `first` is its variable, and the result says whether the scan failed
  unfoldable pub replay_loop : ℕ → Bool → List Line → Progress → Bool × Progress
  unfolding replay_line
  replay_loop now first [] p = (false, p)
  replay_loop now first (line ∷ lines) p =
      let rest =
        replay_loop now false lines
          (if first && is_header line then p else replay_line now line p) in
      if leb max_line (size line) then (true, p) else rest

  abbrev pub start : Table → Progress
  start t = (record { creates = 0; states = 0; results = 0 }, t)

  unfoldable pub replay_wal : ℕ → Option (List Line) → Table → Bool × Progress
  unfolding replay_loop
  replay_wal now none t = (false, start t)
  replay_wal now (some lines) t = replay_loop now true lines (start t)

  -- the line of a record that is appended at a time
  abbrev pub line_of : ℕ × Record → Line
  line_of (at, r) = marshal at (event_of r)

  -- `WriteHeader`
  unfoldable pub write_header : Option (List Line) → Option (List Line)
  write_header none = some (header ∷ [])
  write_header (some lines) = some lines
