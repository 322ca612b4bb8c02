-- ===== src/Spawn/Resources.antt =====
-- `validateResources` against the ranges that its messages name.
use etronium_scdr.Prelude.{◌≡◌, ◌↔◌, none, some, pos, ◌≤ℤ◌, arith}
use etronium_scdr.Proto.{ResourceSpec}
use etronium_scdr.Spawn.{validate_resources}

pub record IsInRange (r : ResourceSpec) : Type 0 where
  pub shares : (pos 0 ≤ℤ r.cpu_shares) × (r.cpu_shares ≤ℤ pos 10000)
  pub quota : (pos 0 ≤ℤ r.cpu_quota_pct) × (r.cpu_quota_pct ≤ℤ pos 100)
  pub memory : pos 0 ≤ℤ r.mem_limit_bytes
  pub io : (pos 0 ≤ℤ r.io_weight) × (r.io_weight ≤ℤ pos 10000)
  pub pids : (pos 0 ≤ℤ r.pids_limit) × (r.pids_limit ≤ℤ pos 1000000)

-- A resource specification is accepted exactly if each of its numbers is in its range: CPU shares and
-- I/O weight from 0 to 10000, the CPU quota from 0 to 100, the limit of pids from 0 to 1000000, and
-- the memory limit at least 0.
pub validate_resources_iff : (r : ResourceSpec) → (validate_resources (some r) ≡ none) ↔ IsInRange r
unfolding validate_resources
validate_resources_iff r = (
  λ h. record {
    shares = (ground arith, ground arith);
    quota = (ground arith, ground arith);
    memory = ground arith;
    io = (ground arith, ground arith);
    pids = (ground arith, ground arith);
  },
  λ v. ground (arith, v.shares, v.quota, v.memory, v.io, v.pids),
)
