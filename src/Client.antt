-- ===== src/Client.antt =====
-- cmd/etronium/main.go: what the command line client asks of the scheduler for a tenant, and what it
-- makes of its standard input. Flags that are 32 bits wide are integers here. Printing is left out.
pub mod Shell
pub mod Flags
pub mod Tests
use etronium_scdr.Prelude.{
  ℕ, zero, suc, ◌+◌, ◌-◌, ◌*◌, String, Bool, true, false, ◌||◌, Option, none, some, List, [], ◌∷◌,
  ◌++◌, ℤ, pos, negsuc, ltb, ltb_ℤ, if◌then◌else◌, length,
}
use etronium_scdr.Proto.{ResourceSpec, SpawnRequest, KillRequest, WriteStdinRequest, Lord}

pub record RunFlags : Type 0 where
  pub cpu_shares : ℤ
  pub mem_mb : ℤ
  pub prefer_lord : String
  pub max_restarts : ℤ
  pub state_dump : String

abbrev pub mebibyte : ℕ
mebibyte = 1024 * 1024

-- a number of 64 bits that does not overflow, since the flag has 32
abbrev pub mem_bytes : ℤ → ℤ
mem_bytes (pos n) = pos (n * mebibyte)
mem_bytes (negsuc n) = negsuc (suc n * mebibyte - 1)

-- the resources that `run` asks for: none where no flag is positive
abbrev pub run_resources : RunFlags → Option ResourceSpec
run_resources f =
    if ltb_ℤ (pos 0) f.cpu_shares || ltb_ℤ (pos 0) f.mem_mb
    then some (record {
      cpu_shares = f.cpu_shares;
      cpu_quota_pct = pos 0;
      mem_limit_bytes = mem_bytes f.mem_mb;
      io_weight = pos 0;
      pids_limit = pos 0;
    })
    else none

-- the request of `run`
unfoldable pub run_request : String → RunFlags → String → List String → SpawnRequest
run_request tenant f exec_path argv = record {
  process_id = "";
  tenant_id = tenant;
  exec_path = exec_path;
  argv = argv;
  env = [];
  resources = run_resources f;
  working_dir = "";
  prefer_lord_id = f.prefer_lord;
  stdin_initial = [];
  max_restarts = f.max_restarts;
  state_dump_path_hint = f.state_dump;
}

-- the request of `shell`
unfoldable pub shell_request : String → String → String → SpawnRequest
shell_request tenant shell_path prefer_lord = record {
  process_id = "";
  tenant_id = tenant;
  exec_path = shell_path;
  argv = "-i" ∷ [];
  env = [];
  resources = none;
  working_dir = "";
  prefer_lord_id = prefer_lord;
  stdin_initial = [];
  max_restarts = pos 0;
  state_dump_path_hint = "";
}

-- the requests that carry input of a shell, and its end
abbrev pub input_request : String → List ℕ → WriteStdinRequest
input_request id bytes = record { lord_id = ""; process_id = id; bytes = bytes; eof = false }

abbrev pub end_request : String → WriteStdinRequest
end_request id = record { lord_id = ""; process_id = id; bytes = []; eof = true }

-- the goroutine of `shell` that reads the standard input, on what each `Read` gives up to the end;
-- whether the calls succeed is a parameter. A failed call is the last.
unfoldable pub relay_input :
    (WriteStdinRequest → Bool) → String → List (List ℕ) → List WriteStdinRequest
relay_input succeeds id [] = end_request id ∷ []
relay_input succeeds id (bytes ∷ reads) =
    let rest = relay_input succeeds id reads in
    if ltb 0 (length bytes)
    then (if succeeds (input_request id bytes)
        then input_request id bytes ∷ rest
        else input_request id bytes ∷ [])
    else rest

-- `countHealthy`
unfoldable pub count_healthy : List Lord → ℕ
count_healthy [] = 0
count_healthy (l ∷ ls) = let rest = count_healthy ls in if l.healthy then suc rest else rest

-- `boolStr`
abbrev pub bool_str : Bool → String → String → String
bool_str b t f = if b then t else f
