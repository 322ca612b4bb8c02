-- ===== src/Autoscale.antt =====
-- internal/scheduler/autoscale.go: the autoscaler of the scheduler. A time is a number, `none` where Go
-- has the zero time; durations are not negative. The kernel's files and `strconv` are
-- parameters, as is the order that `sort.Slice` leaves equal scores in; the usage that `Sample` takes as
-- two functions is read by Autoscale/Usage. The map of scores is a list of pairs, which sorting puts in another order.
pub mod Usage
pub mod Sampling
pub mod Rounds
pub mod Targets
pub mod Entries
pub mod Changes
pub mod Cooldown
pub mod Twice
pub mod Apply
pub mod Youngest
pub mod Applied
pub mod Limits
pub mod Rejects
pub mod Silent
pub mod Sorting
mod Tests
use etronium_scdr.Prelude.{
  ℕ, zero, suc, ◌+◌, ◌-◌, ◌*◌, ◌^◌, String, ◌==◌, Bool, true, false, ◌&&◌, not, Option, none, some,
  List, [], ◌∷◌, ◌++◌, Dict, lookup, insert, ℤ, pos, leb_ℤ, ltb_ℤ, ltb, eqb, if◌then◌else◌, length,
  drop, replicate,
}
use etronium_scdr.Float.{Float}
use etronium_scdr.Registry.{LordEntry}
use etronium_scdr.Server.{second}

-- a setting of the environment, if it is there and can be read
abbrev pub setting {ℓ} : {A : Type ℓ} → (String → String) → (String → Option A) → String → A → A
setting env parse key def =
    if env key == "" then def else (elim (parse (env key)) [ none ↦ def | some v ↦ v ])

pub data Action : Type 0 where
  migrate rebalance blacklist : Action

-- The reason, a text for the log, is left out.
pub record Decision : Type 0 where
  pub action : Action
  pub from_lord : String
  pub to_lord : String

-- the counters of a lord in the kernel's map
pub record Counters : Type 0 where
  pub enqueue : ℕ
  pub reject : ℕ

abbrev pub minute : ℕ
minute = 60 * second

-- `t.Before(now)` and `t.After(now)`
abbrev pub is_before : Option ℕ → ℕ → Bool
is_before none now = true
is_before (some t) now = ltb t now

abbrev pub is_after : Option ℕ → ℕ → Bool
is_after none now = false
is_after (some t) now = ltb now t

-- `!t.IsZero() && now.Sub(t) < cooldown`
abbrev pub is_cooling : ℕ → ℕ → Option ℕ → Bool
is_cooling cooldown now none = false
is_cooling cooldown now (some t) = ltb now (t + cooldown)

-- the clean-up of the rate limit
abbrev pub prune : ℕ → List ℕ → List ℕ
prune now [] = []
prune now (t ∷ ts) = let rest = prune now ts in if ltb now (t + minute) then t ∷ rest else rest

abbrev pub is_move : Action → Bool
is_move blacklist = false
is_move _ = true

-- one time for each migration that has been decided
abbrev pub stamps : ℕ → List Decision → List ℕ
stamps now [] = []
stamps now (d ∷ ds) = let rest = stamps now ds in if is_move d.action then now ∷ rest else rest

abbrev pub max_log : ℕ
max_log = 64

abbrev pub trim : List Decision → List Decision
trim l = if ltb max_log (length l) then drop (length l - max_log) l else l

module _ (fl : Float) where
  open fl use {F, of_int, lit, add, sub, mul, div, lt}

  pub record ScoreWeights : Type 0 where
    pub cpu : F
    pub mem : F
    pub task_count : F
    pub reject : F
    pub hysteresis : F

  pub record Thresholds : Type 0 where
    pub overload_cpu : F
    pub rebalance_delta : F
    pub blacklist_reject : F
    pub blacklist_duration : ℕ
    pub dead_grace : ℕ

  pub record AutoscaleConfig : Type 0 where
    pub enabled : Bool
    pub interval : ℕ
    pub cooldown : ℕ
    pub max_per_min : ℤ
    pub score : ScoreWeights
    pub thresh : Thresholds

  -- `DefaultAutoscaleConfig`
  unfoldable pub default_config :
      (env : String → String)
      → (String → Option F)
      → (String → Option ℕ)
      → (String → Option ℤ)
      → AutoscaleConfig
  default_config env float duration int = record {
    enabled = not (setting env some "ETRONIUM_AUTOSCALE" "true" == "false");
    interval = setting env duration "ETRONIUM_AUTOSCALE_INTERVAL" (30 * second);
    cooldown = setting env duration "ETRONIUM_AUTOSCALE_COOLDOWN" (60 * second);
    max_per_min = setting env int "ETRONIUM_AUTOSCALE_MAX_PER_MIN" (pos 5);
    score = record {
      cpu = setting env float "ETRONIUM_SCORE_CPU" (lit 6 1);
      mem = setting env float "ETRONIUM_SCORE_MEM" (lit 2 1);
      task_count = setting env float "ETRONIUM_SCORE_TASK" (lit 1 1);
      reject = setting env float "ETRONIUM_SCORE_REJECT" (lit 1 1);
      hysteresis = setting env float "ETRONIUM_SCORE_HYST" (lit 5 2);
    };
    thresh = record {
      overload_cpu = setting env float "ETRONIUM_THRESH_OVERLOAD_CPU" (lit 80 2);
      rebalance_delta = setting env float "ETRONIUM_THRESH_REBALANCE" (lit 30 2);
      blacklist_reject = setting env float "ETRONIUM_THRESH_BLACKLIST" (lit 5 2);
      blacklist_duration = setting env duration "ETRONIUM_BLACKLIST_DURATION" (60 * second);
      dead_grace = setting env duration "ETRONIUM_DEAD_GRACE" (60 * second);
    };
  }

  pub record LordScore : Type 0 where
    pub lord_id : String
    pub hostname : String
    pub cpu : F
    pub mem : F
    pub task_count : F
    pub reject : F
    pub combined : F
    pub blacklist_until : Option ℕ
    pub last_migration : Option ℕ

  pub record AutoscaleState : Type 0 where
    pub lords : Dict LordScore
    pub migrations : List ℕ
    pub migration_log : List Decision

  abbrev pub new_autoscale_state : AutoscaleState
  new_autoscale_state = record { lords = []; migrations = []; migration_log = [] }
