-- ===== src/Bpf.antt =====
-- internal/scheduler/bpf.go: the numbers that the scheduler writes to the kernel's BPF maps. The maps
-- are lists of pairs, `pinned` tells whether they can be opened, and SHA-256 is a parameter.
pub mod Numbers
mod Tests
use Prim.Native.Nat.{bit_and, bit_or}
use etronium_scdr.Prelude.{
  ℕ, ◌-◌, ◌^◌, ◌≡◌, refl, String, Bool, true, false, ◌||◌, Option, none, some, List, [], ◌∷◌, eqb,
  ltb, if◌then◌else◌, arith, Bool-cases, inl, inr,
}

pub record BpfMaps : Type 0 where
  pub pinned : Bool
  pub lord_cpus : List (ℕ × ℕ)
  pub lord_dsq : List (ℕ × ℕ)
  pub task_lord : List (ℕ × ℕ)

-- `m.Put(k, v)`
abbrev pub put : ℕ → ℕ → List (ℕ × ℕ) → List (ℕ × ℕ)
put k v [] = (k, v) ∷ []
put k v ((j, w) ∷ m) = if eqb j k then (k, v) ∷ m else (j, w) ∷ put k v m

-- the second of two writes to a key is the one that stays
put_twice : (k v w : ℕ) (m : List (ℕ × ℕ)) → put k w (put k v m) ≡ put k w m
put_twice k v w [] = ground arith
put_twice k v w ((j, x) ∷ m) = elim (Bool-cases (eqb j k)) [
  | inl same ↦ ground arith
  | inr other ↦ rw (other, other, put_twice k v w m) refl
]

-- `LordDSQID`: 0xE7700000000000 | uint64(lordID & 0xFF)
unfoldable pub lord_dsq_id : ℕ → ℕ
lord_dsq_id lord_id = bit_or 0xE7700000000000 (bit_and lord_id 0xFF)

-- `LordCPUMaskFromShares`: (1 << shares) - 1
unfoldable pub lord_cpu_mask_from_shares : ℕ → ℕ
lord_cpu_mask_from_shares shares = if eqb shares 0 || ltb 16 shares then 1 else 2 ^ shares - 1

module _ (lord_id_from_hostname : String → ℕ) where
  -- Where a map does not open nothing is written, and the error is only logged by the caller.
  unfoldable pub register_lord_bpf : String → ℕ → BpfMaps → BpfMaps
  register_lord_bpf hostname cpu_shares m =
      let id = lord_id_from_hostname hostname in
      if m.pinned
      then record m {
        lord_cpus = put id (lord_cpu_mask_from_shares cpu_shares) m.lord_cpus;
        lord_dsq = put id (lord_dsq_id id) m.lord_dsq;
      }
      else m

  -- `UpdateLordCPUMask`: the new mask, or the error of a map that does not open
  unfoldable pub update_lord_cpu_mask : String → ℕ → BpfMaps → Option ℕ × BpfMaps
  update_lord_cpu_mask hostname new_shares m =
      let new_mask = lord_cpu_mask_from_shares new_shares in
      if m.pinned
      then (
        some new_mask,
        record m { lord_cpus = put (lord_id_from_hostname hostname) new_mask m.lord_cpus },
      )
      else (none, m)

  -- A registered lord whose mask is then updated leaves the maps as if it had been registered with the
  -- new shares in the first place.
  update-register :
      (hostname : String) (cpu_shares new_shares : ℕ) (m : BpfMaps)
      → (update_lord_cpu_mask hostname new_shares (register_lord_bpf hostname cpu_shares m)).1
        ≡ register_lord_bpf hostname new_shares m
  unfolding update_lord_cpu_mask register_lord_bpf
  update-register hostname cpu_shares new_shares m = elim (Bool-cases m.pinned) [
    | inl open_maps ↦
        rw
          (
            open_maps,
            put_twice (lord_id_from_hostname hostname) (lord_cpu_mask_from_shares cpu_shares)
                (lord_cpu_mask_from_shares new_shares) m.lord_cpus,
          )
          refl
    | inr shut ↦ rw shut refl
  ]

unfoldable pub assign_task_bpf : ℕ → ℕ → BpfMaps → BpfMaps
assign_task_bpf task_pid lord_id m =
    if m.pinned then record m { task_lord = put task_pid lord_id m.task_lord } else m
