-- ===== src/Lord/Limits.antt =====
-- Which limits reach the interface files of a process's slice.
use etronium_scdr.Prelude.{
  String, ◌==◌, eq_iff, ◌≡◌, refl, ap, ◌∙◌, Bool, false, ◌&&◌, Option, none, some, Dict, lookup,
  lookup-insert, ℤ, pos, negsuc, ltb, ltb_ℤ, pos_part, arith, if◌then◌else◌,
}
use etronium_scdr.Proto.{ResourceSpec}
use etronium_scdr.Spawn.{validate_resources}
use etronium_scdr.Lord.Cgroup.{
  Resources, max32, proto_resources_to_lord, clamped, put_limit, apply_resources, or_none,
  limit_process,
}

-- a file after an attempt to put a value there
abbrev pub put_value : Bool → Bool → ℤ → Option ℤ → Option ℤ
put_value can wanted value none = none
put_value can wanted value (some old) = if wanted && can then some value else some old

put_limit_same :
    (writable : String → Bool) (name : String) (wanted : Bool) (value : ℤ) (files : Dict ℤ)
    → lookup name (put_limit writable name wanted value files)
      ≡ put_value (writable name) wanted value (lookup name files)
put_limit_same writable name wanted value files =
    ground (arith, lookup-insert name name value files, eq_iff name name)

put_limit_other :
    (writable : String → Bool) (name other : String) (wanted : Bool) (value : ℤ) (files : Dict ℤ)
    → (other == name) ≡ false
    → lookup other (put_limit writable name wanted value files) ≡ lookup other files
put_limit_other writable name other wanted value files ne =
    ground (arith, lookup-insert other name value files, eq_iff other name, eq_iff name other)

module _ (writable : String → Bool) (r : Resources) (files : Dict ℤ) where
  abbrev with_cpu : Dict ℤ
  with_cpu = put_limit writable "cpu.weight" (ltb 0 r.cpu_shares) (pos (clamped r.cpu_shares)) files

  abbrev with_mem : Dict ℤ
  with_mem =
      put_limit writable "memory.max" (ltb_ℤ (pos 0) r.mem_limit_bytes) r.mem_limit_bytes with_cpu

  abbrev with_io : Dict ℤ
  with_io = put_limit writable "io.weight" (ltb 0 r.io_weight) (pos (clamped r.io_weight)) with_mem

  past_cpu :
      (name : String) → (name == "cpu.weight") ≡ false → lookup name with_cpu ≡ lookup name files
  past_cpu name ne = put_limit_other writable "cpu.weight" name _ _ files ne

  past_mem :
      (name : String) → (name == "memory.max") ≡ false → lookup name with_mem ≡ lookup name with_cpu
  past_mem name ne = put_limit_other writable "memory.max" name _ _ with_cpu ne

  past_io :
      (name : String) → (name == "io.weight") ≡ false → lookup name with_io ≡ lookup name with_mem
  past_io name ne = put_limit_other writable "io.weight" name _ _ with_mem ne

  past_pids :
      (name : String)
      → (name == "pids.max") ≡ false
      → lookup name (apply_resources writable r files) ≡ lookup name with_io
  unfolding apply_resources
  past_pids name ne = put_limit_other writable "pids.max" name _ _ with_io ne

  -- what `applyResources` puts into each file
  pub apply_resources_files :
      (lookup "cpu.weight" (apply_resources writable r files)
        ≡ put_value
            (writable "cpu.weight")
            (ltb 0 r.cpu_shares)
            (pos (clamped r.cpu_shares))
            (lookup "cpu.weight" files))
      × (lookup "memory.max" (apply_resources writable r files)
          ≡ put_value
              (writable "memory.max")
              (ltb_ℤ (pos 0) r.mem_limit_bytes)
              r.mem_limit_bytes
              (lookup "memory.max" files))
      × (lookup "io.weight" (apply_resources writable r files)
          ≡ put_value
              (writable "io.weight")
              (ltb 0 r.io_weight)
              (pos (clamped r.io_weight))
              (lookup "io.weight" files))
      × (lookup "pids.max" (apply_resources writable r files)
          ≡ put_value
              (writable "pids.max")
              (ltb 0 r.pids_limit)
              (pos r.pids_limit)
              (lookup "pids.max" files))
      × ((name : String)
          → (name == "cpu.weight") ≡ false
          → (name == "memory.max") ≡ false
          → (name == "io.weight") ≡ false
          → (name == "pids.max") ≡ false
          → lookup name (apply_resources writable r files) ≡ lookup name files)
  unfolding apply_resources
  apply_resources_files = (
    past_pids "cpu.weight" refl
        ∙ past_io "cpu.weight" refl
        ∙ past_mem "cpu.weight" refl
        ∙ put_limit_same writable "cpu.weight" _ _ files,
    past_pids "memory.max" refl
        ∙ past_io "memory.max" refl
        ∙ put_limit_same writable "memory.max" _ _ with_cpu
        ∙ ap (put_value (writable "memory.max") (ltb_ℤ (pos 0) r.mem_limit_bytes) r.mem_limit_bytes)
            (past_cpu "memory.max" refl),
    past_pids "io.weight" refl
        ∙ put_limit_same writable "io.weight" _ _ with_mem
        ∙ ap (put_value (writable "io.weight") (ltb 0 r.io_weight) (pos (clamped r.io_weight)))
            (past_mem "io.weight" refl ∙ past_cpu "io.weight" refl),
    put_limit_same writable "pids.max" _ _ with_io
        ∙ ap (put_value (writable "pids.max") (ltb 0 r.pids_limit) (pos r.pids_limit))
            (past_io "pids.max" refl ∙ past_mem "pids.max" refl ∙ past_cpu "pids.max" refl),
    λ name cpu mem io pids.
        past_pids name pids ∙ past_io name io ∙ past_mem name mem ∙ past_cpu name cpu,
  )

-- a weight that the scheduler accepts goes to the file as it is
weight_kept :
    (x : ℤ)
    → ltb_ℤ x (pos 0) ≡ false
    → ltb_ℤ (pos 10000) x ≡ false
    → (can : Bool) (o : Option ℤ)
    → put_value can
        (ltb 0 (pos_part (max32 x (pos 0))))
        (pos (clamped (pos_part (max32 x (pos 0)))))
        o
      ≡ put_value can (ltb_ℤ (pos 0) x) x o
weight_kept (pos n) low high can o =
    let top : clamped (pos_part (max32 (pos n) (pos 0))) ≡ n = ground arith in
    let flag : ltb 0 (pos_part (max32 (pos n) (pos 0))) ≡ ltb_ℤ (pos 0) (pos n) = ground arith in
    rw (top, flag) refl
weight_kept (negsuc n) low high can o = absurd (ground arith)

count_kept :
    (x : ℤ)
    → ltb_ℤ x (pos 0) ≡ false
    → (can : Bool) (o : Option ℤ)
    → put_value can (ltb 0 (pos_part (max32 x (pos 0)))) (pos (pos_part (max32 x (pos 0)))) o
      ≡ put_value can (ltb_ℤ (pos 0) x) x o
count_kept (pos n) low can o =
    let same : pos_part (max32 (pos n) (pos 0)) ≡ n = ground arith in
    let flag : ltb 0 (pos_part (max32 (pos n) (pos 0))) ≡ ltb_ℤ (pos 0) (pos n) = ground arith in
    rw (flag, same) refl
count_kept (negsuc n) low can o = absurd (ground arith)

-- what the validation of the scheduler lets through
record InRange (r : ResourceSpec) : Type 0 where
  cpu_low : ltb_ℤ r.cpu_shares (pos 0) ≡ false
  cpu_high : ltb_ℤ (pos 10000) r.cpu_shares ≡ false
  io_low : ltb_ℤ r.io_weight (pos 0) ≡ false
  io_high : ltb_ℤ (pos 10000) r.io_weight ≡ false
  pids_low : ltb_ℤ r.pids_limit (pos 0) ≡ false

validate_resources-InRange : (r : ResourceSpec) → validate_resources (some r) ≡ none → InRange r
unfolding validate_resources
validate_resources-InRange r h = record {
  cpu_low = ground arith;
  cpu_high = ground arith;
  io_low = ground arith;
  io_high = ground arith;
  pids_low = ground arith;
}

module _ (writable : String → Bool) (r : ResourceSpec) (files : Dict ℤ) where
  abbrev pub limits : Dict ℤ
  limits = limit_process writable (some r) files

  -- a file of the slice has the value that is asked for, if it is there, can be written and one is asked for
  abbrev pub HoldsLimit : String → ℤ → Type 0
  HoldsLimit name value =
      lookup name limits ≡ put_value (writable name) (ltb_ℤ (pos 0) value) value (lookup name files)

  -- The limits of a spec that the scheduler's validation accepts reach the interface files unchanged:
  -- each of the four files, if it is there and can be written, holds the value of the spec where that
  -- is positive, and else what it held; and no other file changes.
  pub limits_applied :
      validate_resources (some r) ≡ none
      → HoldsLimit "cpu.weight" r.cpu_shares
        × HoldsLimit "memory.max" r.mem_limit_bytes
        × HoldsLimit "io.weight" r.io_weight
        × HoldsLimit "pids.max" r.pids_limit
        × ((name : String)
            → (name == "cpu.weight") ≡ false
            → (name == "memory.max") ≡ false
            → (name == "io.weight") ≡ false
            → (name == "pids.max") ≡ false
            → lookup name limits ≡ lookup name files)
  unfolding limit_process apply_resources proto_resources_to_lord
  limits_applied valid =
      let within : InRange r = validate_resources-InRange r valid in
      let (cpu, mem, io, pids, rest) =
        apply_resources_files writable (or_none (proto_resources_to_lord (some r))) files in
      (
        cpu
            ∙ weight_kept r.cpu_shares within.cpu_low within.cpu_high (writable "cpu.weight")
                (lookup "cpu.weight" files),
        mem,
        io
            ∙ weight_kept r.io_weight within.io_low within.io_high (writable "io.weight")
                (lookup "io.weight" files),
        pids
            ∙ count_kept r.pids_limit within.pids_low (writable "pids.max")
                (lookup "pids.max" files),
        rest,
      )
