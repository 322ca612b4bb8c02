-- ===== src/Lord/Slices/Usage.antt =====
-- What a heartbeat says of the usage of a lord: `readCpuUsec`, `readMemTotal` and `getCurrentUsage` of
-- internal/lord/stats.go.
use etronium_scdr.Prelude.{
  ℕ, suc, ◌+◌, ◌-◌, ◌%◌, ◌^◌, ◌<◌, ◌≡◌, refl, ap, ◌∙◌, Bool, ◌&&◌, Option, none, some, List, [],
  ◌∷◌, ℤ, pos, negsuc, ltb, if◌then◌else◌, arith, Bool-cases, inl, inr,
}
use etronium_scdr.Float.{Float}
use etronium_scdr.Config.{Text}
use etronium_scdr.Lord.Slices.{Files, file, read_uint, value_or_zero}

-- `lastCpuUsec` and `lastSampleAt` of the agent
pub record Sample : Type 0 where
  pub last_cpu_usec : ℕ
  pub last_sample_at : Option ℕ

-- the low bits of a number as a signed one
abbrev pub wrap : ℕ → ℕ → ℤ
wrap w n =
    if ltb (n % 2 ^ suc w) (2 ^ w)
    then pos (n % 2 ^ suc w)
    else negsuc (2 ^ suc w - 1 - n % 2 ^ suc w)

module _ {K : Type 0} (fs : Files K) where
  -- the loop of `readMemTotal` over the entries of the directory, which are a name and whether it is a
  -- directory
  unfoldable pub mem_loop : Text → List (Text × Bool) → ℕ → K → ℕ
  mem_loop base [] total k = total
  mem_loop base ((name, is_dir) ∷ entries) total k =
      let used = value_or_zero (read_uint fs (file fs (fs.join base name) "memory.current") k) in
      let skipped = mem_loop base entries total k in
      let counted = mem_loop base entries ((total + used) % 2 ^ 64) k in
      if is_dir then counted else skipped

  -- `readMemTotal`
  unfoldable pub read_mem_total : Text → K → ℕ
  unfolding mem_loop
  read_mem_total base k = elim (fs.read_dir base k) [
    | none ↦ 0
    | some entries ↦ mem_loop base entries 0 k
  ]

  -- `readCpuUsec`
  unfoldable pub read_cpu_usec : Text → K → ℕ
  read_cpu_usec base k = value_or_zero (read_uint fs (file fs base "cpu.usage.usec") k)

  module _ (fl : Float) (to_uint : fl.F → ℕ) (seconds_since : ℕ → ℕ → fl.F) (cores : ℤ) where
    abbrev zero_f : fl.F
    zero_f = fl.of_int (pos 0)

    -- a percentage between 0 and 100 for each core
    abbrev clamp_pct : fl.F → fl.F
    clamp_pct pct =
        let top = fl.mul (fl.of_int (pos 100)) (fl.of_int cores) in
        let low = if fl.lt pct zero_f then zero_f else pct in if fl.lt top low then top else low

    abbrev percentage : ℕ → fl.F → fl.F
    percentage delta elapsed =
        fl.div
          (fl.mul (fl.div (fl.div (fl.of_int (pos delta)) (fl.lit 1000000 0)) elapsed)
            (fl.lit 100 0))
          (fl.of_int cores)

    -- the share of the processor since the last sample
    unfoldable pub cpu_since : ℕ → ℕ → ℕ → Option ℕ → ℕ
    cpu_since now now_usec last none = 0
    cpu_since now now_usec last (some at) =
        let elapsed = seconds_since at now in
        if ltb 0 last && (ltb last now_usec && fl.lt zero_f elapsed)
        then to_uint (clamp_pct (percentage (now_usec - last) elapsed))
        else 0

    -- `getCurrentUsage` of an agent that has a cgroup manager
    unfoldable pub current_usage : Text → ℕ → Sample → K → (ℤ × ℤ) × Sample
    unfolding cpu_since read_cpu_usec read_mem_total
    current_usage base now s k = (
      (
        wrap 31 (cpu_since now (read_cpu_usec base k) s.last_cpu_usec s.last_sample_at),
        wrap 63 (read_mem_total base k),
      ),
      record { last_cpu_usec = read_cpu_usec base k; last_sample_at = some now },
    )

    -- A lord whose slice has no file cpu.usage.usec always reports a usage of 0 for the processor,
    -- whatever it has sampled before, and its next sample knows no time of the processor.
    pub no_cpu_usage :
        (base : Text) (now : ℕ) (s : Sample) (k : K)
        → fs.read (file fs base "cpu.usage.usec") k ≡ none
        → ((current_usage base now s k).0.0 ≡ pos 0)
          × ((current_usage base now s k).1.last_cpu_usec ≡ 0)
    unfolding current_usage read_cpu_usec read_uint cpu_since
    no_cpu_usage base now s k missing =
        let nothing : read_cpu_usec base k ≡ 0 = rw (missing, read_cpu_usec, read_uint) refl in
        let idle : cpu_since now (read_cpu_usec base k) s.last_cpu_usec s.last_sample_at ≡ 0 =
          ap (λ n. cpu_since now n s.last_cpu_usec s.last_sample_at) nothing
          ∙ never s.last_cpu_usec s.last_sample_at in
        (ap (wrap 31) idle, nothing)
      where
        never : (last : ℕ) (at : Option ℕ) → cpu_since now 0 last at ≡ 0
        never last none = unfold cpu_since in refl
        never last (some at) = unfold cpu_since in ground arith

  -- the sum over the directories
  abbrev pub mem_sum : Text → List (Text × Bool) → K → ℕ
  mem_sum base [] k = 0
  mem_sum base ((name, is_dir) ∷ entries) k =
      (if is_dir
        then value_or_zero (read_uint fs (file fs (fs.join base name) "memory.current") k)
        else 0)
      + mem_sum base entries k

  mem_loop_eq :
      (base : Text) (entries : List (Text × Bool)) (total : ℕ) (k : K)
      → total + mem_sum base entries k < 2 ^ 64
      → mem_loop base entries total k ≡ total + mem_sum base entries k
  unfolding mem_loop
  mem_loop_eq base [] total k small = omega arith
  mem_loop_eq base ((name, is_dir) ∷ entries) total k small =
      let used : ℕ =
        value_or_zero (read_uint fs (file fs (fs.join base name) "memory.current") k) in
      elim (Bool-cases is_dir) [
        | inl dir ↦
            let enough : total + (used + mem_sum base entries k) < 2 ^ 64 = ground arith in
            let step : mem_loop base ((name, is_dir) ∷ entries) total k
                ≡ mem_loop base entries ((total + used) % 2 ^ 64) k =
              ground arith in
            let low : (total + used) % 2 ^ 64 ≡ total + used = omega arith in
            let rest : mem_loop base entries (total + used) k
                ≡ total + used + mem_sum base entries k =
              mem_loop_eq base entries (total + used) k (omega arith) in
            let sum : mem_sum base ((name, is_dir) ∷ entries) k ≡ used + mem_sum base entries k =
              ground arith in
            step ∙ ap (λ n. mem_loop base entries n k) low ∙ omega arith
        | inr plain ↦
            let enough : total + mem_sum base entries k < 2 ^ 64 = ground arith in
            let step : mem_loop base ((name, is_dir) ∷ entries) total k
                ≡ mem_loop base entries total k =
              ground arith in
            let rest : mem_loop base entries total k ≡ total + mem_sum base entries k =
              mem_loop_eq base entries total k enough in
            let sum : mem_sum base ((name, is_dir) ∷ entries) k ≡ mem_sum base entries k =
              ground arith in
            step ∙ omega arith
      ]
