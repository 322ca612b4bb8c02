-- ===== src/Config.antt =====
-- internal/scheduler/config.go and internal/lord/config.go: the configuration from the environment, and
-- `detectHardware` of internal/lord/stats.go. A text is the list of its bytes, and a variable that is
-- not set is empty. `strconv`, `fmt.Sscanf` and `time.ParseDuration` are parameters.
pub mod Addresses
use etronium_scdr.Prelude.{
  ℕ, ◌*◌, String, Bool, true, false, ◌&&◌, not, Option, none, some, List, [], ◌∷◌, ℤ, pos, eqb,
  if◌then◌else◌,
}
use etronium_scdr.Server.{second}
use etronium_scdr.Connect.{RegisterRequest}

abbrev pub Text : Type 0
Text = List ℕ

-- the variables of the environment, and how numbers and durations are read
pub record Environment : Type 0 where
  pub variable : String → Text
  pub atoi : Text → Option ℤ
  pub scan_int : Text → Option ℤ
  pub parse_int : ℕ → Text → Option ℤ
  pub duration : Text → Option ℕ
  pub to_text : String → Text
  pub to_string : Text → String

-- `getEnv`
abbrev pub or_default : Text → Text → Text
or_default def [] = def
or_default def (c ∷ cs) = c ∷ cs

abbrev pub get_env : Environment → String → Text → Text
get_env env key def = or_default def (env.variable key)

-- a configuration, what is wrong with a variable, or a panic of Go
pub data Loaded (A : Type 0) : Type 0 where
  loaded : A → Loaded A
  bad_value : String → Loaded A
  panicked : Loaded A

pub record SchedulerConfig : Type 0 where
  pub listen_addr : Text
  pub shared_token : Text
  pub heartbeat_ttl : ℕ
  pub placement_algo : Text
  pub log_level : Text
  pub bpftool_bin : Text

abbrev pub colon : ℕ
colon = 58

abbrev pub is_number : Environment → Text → Bool
is_number env t = elim (env.atoi t) [ none ↦ false | some n ↦ true ]

-- ":51061"
abbrev pub default_addr : Text
default_addr = 58 ∷ 53 ∷ 49 ∷ 48 ∷ 54 ∷ 49 ∷ []

-- the sanity check; an index into an empty text panics
abbrev pub check_addr : Environment → Text → Loaded SchedulerConfig → Loaded SchedulerConfig
check_addr env [] c = panicked
check_addr env (first ∷ rest) c =
    if not (is_number env rest) && not (eqb first colon) then bad_value "SCHEDULER_LISTEN" else c

-- the time to live: 30 s where none is set
abbrev pub read_ttl : Environment → Text → Option ℕ
read_ttl env [] = some (30 * second)
read_ttl env (c ∷ cs) = env.duration (c ∷ cs)

abbrev pub scheduler_config : Environment → ℕ → SchedulerConfig
scheduler_config env ttl = record {
  listen_addr = get_env env "SCHEDULER_LISTEN" default_addr;
  shared_token = get_env env "ETRONIUM_SHARED_TOKEN" [];
  heartbeat_ttl = ttl;
  placement_algo = get_env env "SCHEDULER_PLACEMENT" (env.to_text "trivial");
  log_level = get_env env "SCHEDULER_LOG_LEVEL" (env.to_text "info");
  bpftool_bin = get_env env "BPFTOOL_BIN" (env.to_text "bpftool");
}

-- `LoadConfig` of the scheduler
unfoldable pub load_scheduler_config : Environment → Loaded SchedulerConfig
load_scheduler_config env = elim (read_ttl env (env.variable "SCHEDULER_HEARTBEAT_TTL")) [
  | none ↦ bad_value "SCHEDULER_HEARTBEAT_TTL"
  | some ttl ↦
      check_addr env (get_env env "SCHEDULER_LISTEN" default_addr)
        (loaded (scheduler_config env ttl))
]

pub record LordConfig : Type 0 where
  pub scheduler_addr : Text
  pub hostname : Text
  pub heartbeat_sec : ℤ
  pub log_level : Text
  pub advertised_cpu_shares : ℤ
  pub advertised_mem_bytes : ℤ

-- a number of the environment, if it is set and can be read
abbrev pub read_number : (Text → Option ℤ) → ℤ → Text → Option ℤ
read_number parse def [] = some def
read_number parse def (c ∷ cs) = parse (c ∷ cs)

abbrev pub lord_config : Environment → Text → ℤ → ℤ → ℤ → LordConfig
lord_config env hostname heartbeat shares mem = record {
  scheduler_addr = get_env env "SCHEDULER_ADDR" (env.to_text "localhost:50061");
  hostname = get_env env "LORD_HOSTNAME" hostname;
  heartbeat_sec = heartbeat;
  log_level = get_env env "LORD_LOG_LEVEL" (env.to_text "info");
  advertised_cpu_shares = shares;
  advertised_mem_bytes = mem;
}

abbrev pub required : Text → Loaded LordConfig → Loaded LordConfig
required [] c = bad_value "SCHEDULER_ADDR"
required (x ∷ xs) c = c

-- `LoadConfig` of a lord
unfoldable pub load_lord_config : Environment → Text → Loaded LordConfig
load_lord_config env hostname =
    elim (read_number env.scan_int (pos 10) (env.variable "LORD_HEARTBEAT_SEC")) [
      | none ↦ bad_value "LORD_HEARTBEAT_SEC"
      | some heartbeat ↦
          elim (read_number (env.parse_int 32) (pos 0) (env.variable "LORD_ADVERTISE_CPU_SHARES")) [
            | none ↦ bad_value "LORD_ADVERTISE_CPU_SHARES"
            | some shares ↦
                elim (read_number (env.parse_int 64) (pos 0)
                  (env.variable "LORD_ADVERTISE_MEM_BYTES")) [
                    | none ↦ bad_value "LORD_ADVERTISE_MEM_BYTES"
                    | some mem ↦
                        required (get_env env "SCHEDULER_ADDR" (env.to_text "localhost:50061"))
                          (loaded (lord_config env hostname heartbeat shares mem))
                  ]
          ]
    ]

-- `detectHardware`; the cores and the memory are what the machine has
unfoldable pub detect_hardware : Environment → LordConfig → ℤ → ℤ → RegisterRequest
detect_hardware env c cores mem = record {
  hostname = env.to_string c.hostname;
  cpu_cores_physical = cores;
  mem_total_bytes_physical = mem;
  advertised_cpu_shares = c.advertised_cpu_shares;
  advertised_mem_bytes = c.advertised_mem_bytes;
}
