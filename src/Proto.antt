-- ===== src/Proto.antt =====
-- The messages of proto/etronium/v1/etronium.proto (internal/gen/etronium/v1/etronium.pb.go) that the
-- scheduler and the lord exchange, with the fields that the code reads or writes. A timestamp is a
-- number, `none` where the pointer is nil. A map and a nil map, a slice and a nil slice, are one: the
-- code makes no difference. `ProcessInfo.ref` is never nil: every info is built with one.
use etronium_scdr.Prelude.{
  ℕ, ◌-◌, ◌^◌, String, Bool, true, false, Option, List, Dict, ℤ, pos, negsuc, eqb_ℤ, ◌+ℤ◌,
  if◌then◌else◌,
}

pub data ProcessState : Type 0 where
  unspecified new ready running paused migrating exited stopped restarting : ProcessState

-- `state == EXITED || state == STOPPED`
abbrev pub is_final : ProcessState → Bool
is_final exited = true
is_final stopped = true
is_final _ = false

-- the test `onlyRunning` of `ListByTenant`
abbrev pub is_running : ProcessState → Bool
is_running running = true
is_running paused = true
is_running _ = false

pub record ProcessRef : Type 0 where
  pub process_id : String
  pub lord_id : String
  pub local_pid : ℤ

pub record ResourceSpec : Type 0 where
  pub cpu_shares : ℤ
  pub cpu_quota_pct : ℤ
  pub mem_limit_bytes : ℤ
  pub io_weight : ℤ
  pub pids_limit : ℤ

pub record ProcessInfo : Type 0 where
  pub ref : ProcessRef
  pub tenant_id : String
  pub exec_path : String
  pub argv : List String
  pub env : Dict String
  pub working_dir : String
  pub state : ProcessState
  pub state_changed_at : Option ℕ
  pub resources : Option ResourceSpec
  pub cpu_usage_usec_total : ℤ
  pub mem_peak_bytes : ℤ
  pub exited_at : Option ℕ
  pub exit_code : ℤ
  pub exit_signal : ℤ
  pub restart_count : ℤ
  pub last_error : String
  pub state_dump_path : String
  pub max_restarts : ℤ

pub record SpawnRequest : Type 0 where
  pub process_id : String
  pub tenant_id : String
  pub exec_path : String
  pub argv : List String
  pub env : Dict String
  pub resources : Option ResourceSpec
  pub working_dir : String
  pub prefer_lord_id : String
  pub stdin_initial : List ℕ
  pub max_restarts : ℤ
  pub state_dump_path_hint : String

pub record KillRequest : Type 0 where
  pub process_id : String
  pub signal_number : ℤ
  pub force : Bool

pub record Lord : Type 0 where
  pub lord_id : String
  pub hostname : String
  pub cpu_cores_physical : ℤ
  pub mem_total_bytes_physical : ℤ
  pub advertised_cpu_shares : ℤ
  pub advertised_mem_bytes : ℤ
  pub cpu_used_pct : ℤ
  pub mem_used_bytes : ℤ
  pub active_processes : ℤ
  pub healthy : Bool

pub record WriteStdinRequest : Type 0 where
  pub lord_id : String
  pub process_id : String
  pub bytes : List ℕ
  pub eof : Bool

pub record WriteStdinAck : Type 0 where
  pub lord_id : String
  pub process_id : String
  pub bytes_written : ℤ
  pub closed : Bool

-- `LordEvent`: what the scheduler sends to a lord
pub data LordEvent : Type 0 where
  register_ack : String → LordEvent
  heartbeat_ack : LordEvent
  spawn : SpawnRequest → LordEvent
  kill : KillRequest → LordEvent
  lazy_death_ack : ℤ → LordEvent
  set_drain : ℤ → LordEvent
  write_stdin : WriteStdinRequest → LordEvent
  file_push : LordEvent

-- x + 1 on int32, which wraps
abbrev pub incr32 : ℤ → ℤ
incr32 x = if eqb_ℤ x (pos (2 ^ 31 - 1)) then negsuc (2 ^ 31 - 1) else x +ℤ pos 1
