-- ===== src/Bpf/Numbers.antt =====
-- Bounds of the masks of bpf.go.
use native.Mathlib.Decide.{dec_lt}
use etronium_scdr.Prelude.{ℕ, zero, suc, ◌*◌, ◌^◌, ◌≤◌, ◌<◌, ◌≡◌, arith}
use etronium_scdr.Bpf.{lord_cpu_mask_from_shares}

power_suc : (n : ℕ) → 2 ^ (suc n) ≡ 2 * 2 ^ n
power_suc n = omega arith

power_pos : (n : ℕ) → 0 < 2 ^ n
power_pos zero = omega arith
power_pos (suc n) = omega (arith, power_pos n, power_suc n)

power_mono : (n k : ℕ) → n ≤ k → 2 ^ n ≤ 2 ^ k
power_mono zero k h = omega (arith, power_pos k)
power_mono (suc n) zero h = absurd (omega arith)
power_mono (suc n) (suc k) h = omega (arith, power_mono n k (omega arith), power_suc n, power_suc k)

-- Whatever a lord advertises, its CPU mask has at least one CPU and none beyond the first sixteen.
pub cpu_mask_bounds :
    (shares : ℕ)
    → (0 < lord_cpu_mask_from_shares shares) × (lord_cpu_mask_from_shares shares < 2 ^ 16)
unfolding lord_cpu_mask_from_shares
cpu_mask_bounds zero = (omega arith, omega arith)
cpu_mask_bounds (suc n) = elim (dec_lt n 16) [
  | no large ↦ ground arith
  | yes small ↦ ground (arith, power_mono (suc n) 16, power_mono 1 (suc n))
]
