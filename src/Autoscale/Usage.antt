-- ===== src/Autoscale/Usage.antt =====
-- `readLordCPU` and `readLordMem` of internal/scheduler/autoscale.go. The files below
-- /sys/fs/cgroup/etronium/<lord> are a parameter, by the lord and the name of the file, and the
-- functions of the packages strings and strconv are others. `parse_uint` is the number that
-- `strconv.ParseUint` returns, whatever its error, which the source drops.
use etronium_scdr.Prelude.{
  ℕ, ◌≡◌, refl, String, Bool, false, Option, none, some, List, [], ◌∷◌, pos, eqb, ◌==◌,
  if◌then◌else◌, Bool-cases, inl, inr,
}
use etronium_scdr.Float.{Float}

module _ (fl : Float) (read : String → String → Option String) (parse_uint : String → ℕ)
    (trim_space : String → String) where
  open fl use {F, of_int, lit, div, lt, lt_irrefl}

  -- microseconds over the window of a second
  abbrev pub per_second : ℕ → F
  per_second usec = div (of_int (pos usec)) (lit 1000000 0)

  module _ (lines : String → List String) (has_prefix : String → String → Bool)
      (fields : String → List String) where
    -- the second field, where there are two
    abbrev pub second_field : List String → Option String
    second_field [] = none
    second_field (_ ∷ []) = none
    second_field (_ ∷ (f ∷ _)) = some f

    -- the loop over the lines of cpu.stat
    unfoldable pub usage_line : List String → F
    usage_line [] = lit 0 0
    usage_line (line ∷ rest) =
        let later = usage_line rest in
        if has_prefix line "usage_usec "
        then elim (second_field (fields line)) [ none ↦ later | some f ↦ per_second (parse_uint f) ]
        else later

    unfoldable pub read_lord_cpu : String → F
    read_lord_cpu lord_id = elim (read lord_id "cpu.usage_usec") [
      | some data_read ↦ per_second (parse_uint (trim_space data_read))
      | none ↦ elim (read lord_id "cpu.stat") [
        | none ↦ lit 0 0
        | some stat ↦ usage_line (lines stat)
      ]
    ]

  -- a ratio, cut at 1
  abbrev pub capped : F → F
  capped r = if lt (lit 1 0) r then lit 1 0 else r

  -- the ratio to what memory.max says; 0.1 stands for a lord without a limit
  abbrev pub mem_ratio : ℕ → String → F
  mem_ratio cur_val max_str =
      if max_str == "max"
      then lit 1 1
      else if eqb (parse_uint max_str) 0
      then lit 0 0
      else capped (div (of_int (pos cur_val)) (of_int (pos (parse_uint max_str))))

  -- what memory.current and memory.max give, if they can be read
  abbrev pub mem_of_files : Option String → Option String → F
  mem_of_files none limit = lit 0 0
  mem_of_files (some cur) none = lit 0 0
  mem_of_files (some cur) (some limit) = mem_ratio (parse_uint (trim_space cur)) (trim_space limit)

  unfoldable pub read_lord_mem : String → F
  read_lord_mem lord_id = mem_of_files (read lord_id "memory.current") (read lord_id "memory.max")

  capped-le : (r : F) → lt (lit 1 0) (capped r) ≡ false
  capped-le r = elim (Bool-cases (lt (lit 1 0) r)) [
    | inl over ↦ rw (over, lt_irrefl (lit 1 0)) refl
    | inr under ↦ rw (under, under) refl
  ]

  module _ (least : lt (lit 1 0) (lit 0 0) ≡ false) (tenth : lt (lit 1 0) (lit 1 1) ≡ false) where
    mem_ratio-le :
        (cur_val : ℕ) (max_str : String) → lt (lit 1 0) (mem_ratio cur_val max_str) ≡ false
    mem_ratio-le cur_val max_str = elim (Bool-cases (max_str == "max")) [
      | inl no_limit ↦ rw no_limit tenth
      | inr limited ↦ elim (Bool-cases (eqb (parse_uint max_str) 0)) [
        | inl empty ↦ rw (limited, empty) least
        | inr there ↦
            rw (limited, there)
              (capped-le (div (of_int (pos cur_val)) (of_int (pos (parse_uint max_str)))))
      ]
    ]

    mem_of_files-le : (cur limit : Option String) → lt (lit 1 0) (mem_of_files cur limit) ≡ false
    mem_of_files-le none limit = least
    mem_of_files-le (some cur) none = least
    mem_of_files-le (some cur) (some limit) =
        mem_ratio-le (parse_uint (trim_space cur)) (trim_space limit)

    -- The memory that a lord is sampled with never exceeds 1, whatever its files hold, where 1 is not
    -- below 0 nor below 0.1.
    pub read_lord_mem-le : (lord_id : String) → lt (lit 1 0) (read_lord_mem lord_id) ≡ false
    unfolding read_lord_mem
    read_lord_mem-le lord_id =
        mem_of_files-le (read lord_id "memory.current") (read lord_id "memory.max")
