-- ===== src/Client/Flags.antt =====
-- Which flags of `run` make a request that the scheduler accepts.
use etronium_scdr.Prelude.{
  String, ◌≡◌, refl, ◌↔◌, ◌⊎◌, ◌||◌, none, some, List, ℤ, pos, negsuc, ltb_ℤ, ◌≤ℤ◌, arith, true,
  false, Bool-cases, inl, inr,
}
use etronium_scdr.Proto.{ResourceSpec}
use etronium_scdr.Spawn.{validate_resources}
use etronium_scdr.Spawn.Resources.{IsInRange, validate_resources_iff}
use etronium_scdr.Client.{RunFlags, mem_bytes, run_resources, run_request}

-- no flag is positive, or both are in their ranges
abbrev pub IsAsked : RunFlags → Type 0
IsAsked f =
    (ltb_ℤ (pos 0) f.cpu_shares || ltb_ℤ (pos 0) f.mem_mb ≡ false)
    ⊎ (pos 0 ≤ℤ f.cpu_shares) × (f.cpu_shares ≤ℤ pos 10000) × (pos 0 ≤ℤ f.mem_mb)

abbrev asked_resources : RunFlags → ResourceSpec
asked_resources f = record {
  cpu_shares = f.cpu_shares;
  cpu_quota_pct = pos 0;
  mem_limit_bytes = mem_bytes f.mem_mb;
  io_weight = pos 0;
  pids_limit = pos 0;
}

mem_sign : (m : ℤ) → pos 0 ≤ℤ mem_bytes m → pos 0 ≤ℤ m
mem_sign (pos n) h = ground arith
mem_sign (negsuc n) h = ground arith

mem_bytes_low : (m : ℤ) → pos 0 ≤ℤ m → pos 0 ≤ℤ mem_bytes m
mem_bytes_low (pos n) h = ground arith
mem_bytes_low (negsuc n) h = ground arith

-- The scheduler accepts the resources that `run` asks for exactly if neither of the two flags is
-- positive, so that none are asked for, or the shares are from 0 to 10000 and the memory is not
-- negative.
pub run_request-accepted :
    (tenant : String) (f : RunFlags) (exec_path : String) (argv : List String)
    → (validate_resources (run_request tenant f exec_path argv).resources ≡ none) ↔ IsAsked f
unfolding run_request validate_resources
run_request-accepted tenant f exec_path argv =
    elim (Bool-cases (ltb_ℤ (pos 0) f.cpu_shares || ltb_ℤ (pos 0) f.mem_mb)) [
      | inr none_asked ↦ (λ h. inl none_asked, λ v. rw none_asked refl)
      | inl asked ↦
          let spec : ResourceSpec = asked_resources f in
          let opened : run_resources f ≡ some spec = rw asked refl in
          let (within, back) = validate_resources_iff spec in
          (λ h. inr (ranged (within (rw opened at h))), λ v. rw opened (back (in_range asked v)))
    ]
  where
    ranged :
        IsInRange (asked_resources f)
        → (pos 0 ≤ℤ f.cpu_shares) × (f.cpu_shares ≤ℤ pos 10000) × (pos 0 ≤ℤ f.mem_mb)
    ranged v = (v.shares.0, v.shares.1, mem_sign f.mem_mb v.memory)

    in_range :
        (ltb_ℤ (pos 0) f.cpu_shares || ltb_ℤ (pos 0) f.mem_mb) ≡ true
        → IsAsked f
        → IsInRange (asked_resources f)
    in_range asked (inl none_asked) = absurd (cc)
    in_range asked (inr v) = record {
      shares = (v.0, v.1);
      quota = (ground arith, ground arith);
      memory = mem_bytes_low f.mem_mb v.2;
      io = (ground arith, ground arith);
      pids = (ground arith, ground arith);
    }
