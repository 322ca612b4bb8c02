-- ===== src/Lord/Cgroup.antt =====
-- internal/lord/cgroup.go and `protoResourcesToLord` of exec.go: the limits of a process. A slice is
-- what its interface files hold, by name; a number is written in decimal and kept as a number here. The
-- kernel makes the files with the directory. That a write can fail is a parameter; logging is left out.
use etronium_scdr.Prelude.{
  ℕ, String, Bool, Option, none, some, Dict, lookup, insert, ℤ, pos, ltb, ltb_ℤ, pos_part,
  if◌then◌else◌,
}
use etronium_scdr.Proto.{ResourceSpec}

pub record Resources : Type 0 where
  pub cpu_shares : ℕ
  pub mem_limit_bytes : ℤ
  pub io_weight : ℕ
  pub pids_limit : ℕ

abbrev pub no_resources : Resources
no_resources = record { cpu_shares = 0; mem_limit_bytes = pos 0; io_weight = 0; pids_limit = 0 }

-- `max32`
abbrev pub max32 : ℤ → ℤ → ℤ
max32 a b = if ltb_ℤ b a then a else b

-- `protoResourcesToLord`; the quota of the spec is not read
unfoldable pub proto_resources_to_lord : Option ResourceSpec → Option Resources
proto_resources_to_lord none = none
proto_resources_to_lord (some r) = some (record {
  cpu_shares = pos_part (max32 r.cpu_shares (pos 0));
  mem_limit_bytes = r.mem_limit_bytes;
  io_weight = pos_part (max32 r.io_weight (pos 0));
  pids_limit = pos_part (max32 r.pids_limit (pos 0));
})

-- a file that the parent delegates is there; a failed write is passed over
abbrev pub put_file : (String → Bool) → String → ℤ → Dict ℤ → Dict ℤ
put_file writable name value files = elim (lookup name files) [
  | none ↦ files
  | some old ↦ if writable name then insert name value files else files
]

abbrev pub max_weight : ℕ
max_weight = 10000

abbrev pub clamped : ℕ → ℕ
clamped n = if ltb max_weight n then max_weight else n

-- a limit that is set
abbrev pub put_limit : (String → Bool) → String → Bool → ℤ → Dict ℤ → Dict ℤ
put_limit writable name wanted value files =
    if wanted then put_file writable name value files else files

-- `applyResources`
unfoldable pub apply_resources : (String → Bool) → Resources → Dict ℤ → Dict ℤ
apply_resources writable r files =
    put_limit writable "pids.max" (ltb 0 r.pids_limit) (pos r.pids_limit) (
      put_limit writable "io.weight" (ltb 0 r.io_weight) (pos (clamped r.io_weight)) (
        put_limit writable "memory.max" (ltb_ℤ (pos 0) r.mem_limit_bytes) r.mem_limit_bytes (
          put_limit writable "cpu.weight" (ltb 0 r.cpu_shares) (pos (clamped r.cpu_shares)) files)))

abbrev pub or_none : Option Resources → Resources
or_none none = no_resources
or_none (some r) = r

-- the limits in the slice of a process, as `handleSpawn` and `CreateProcessSlice` put them
unfoldable pub limit_process : (String → Bool) → Option ResourceSpec → Dict ℤ → Dict ℤ
unfolding apply_resources proto_resources_to_lord
limit_process writable spec files =
    apply_resources writable (or_none (proto_resources_to_lord spec)) files
