-- ===== src/Lord/Slices.antt =====
-- internal/lord/cgroup.go and stats.go: the slices of a lord in the cgroup file system. The files, the
-- kernel behind them and the functions of the library on paths and texts are an interface; a text is
-- its bytes. `os.MkdirAll`, `os.Remove`, `os.ReadFile`, `os.WriteFile` and `os.Stat` are its operations.
-- Logging is left out.
pub mod Roots
pub mod Candidates
pub mod Usage
pub mod Ends
pub mod Tests
use etronium_scdr.Prelude.{
  ℕ, zero, suc, ◌+◌, ◌%◌, ◌^◌, String, Bool, true, false, ◌&&◌, ◌||◌, not, Option, none, some, List,
  [], ◌∷◌, ◌++◌, ℤ, pos, ltb, eqb, ltb_ℤ, if◌then◌else◌, length,
}
use etronium_scdr.Config.{Text}
use etronium_scdr.Lord.Cgroup.{Resources, no_resources, clamped, or_none}

-- what `os.Remove` does; ENOTEMPTY and EBUSY are `busy`
pub data Removal : Type 0 where
  removed busy not_removed : Removal

pub record Files (K : Type 0) : Type 1 where
  pub text : String → Text
  pub join : Text → Text → Text
  pub decimal : ℤ → Text
  pub parse_uint : Text → Option ℕ
  pub contains : Text → Text → Bool
  pub stat : Text → K → Bool
  pub mkdir : Text → K → Bool × K
  pub mkdir_all : Text → K → Bool × K
  pub remove : Text → K → Removal × K
  pub read_dir : Text → K → Option (List (Text × Bool))
  pub read : Text → K → Option Text
  pub write : Text → Text → K → Bool × K

-- `lordID` and the path of the slice of the lord
pub record CgroupManager : Type 0 where
  pub lord_id : Text
  pub base_path : Text

pub record Stats : Type 0 where
  pub cpu_usage_usec : ℕ
  pub memory_current : ℕ
  pub memory_peak : ℕ
  pub procs_current : ℕ

pub data SliceError : Type 0 where
  no_cgroup_v2 no_writable_root no_mkdir no_write no_remove : SliceError

abbrev pub value_or_zero : Option ℕ → ℕ
value_or_zero none = 0
value_or_zero (some n) = n

abbrev pub or_empty : Option Text → Text
or_empty none = []
or_empty (some t) = t

module _ {K : Type 0} (fs : Files K) where
  abbrev pub newline : Text
  newline = 10 ∷ []

  -- a file of a directory
  abbrev pub file : Text → String → Text
  file dir name = fs.join dir (fs.text name)

  -- `writeFile`
  abbrev pub write_file : Text → Text → K → Bool × K
  write_file path value k = fs.write path (value ++ newline) k

  -- `readUint`
  unfoldable pub read_uint : Text → K → Option ℕ
  read_uint path k = elim (fs.read path k) [ none ↦ none | some t ↦ fs.parse_uint t ]

  -- the loop of `enableControllers`; `current` is what the file held when it was read last
  unfoldable pub enable_loop : Text → List String → Text → K → K
  enable_loop path [] current k = k
  enable_loop path (c ∷ cs) current k =
      let (wrote, k') = write_file path (fs.text "+" ++ fs.text c) k in
      let skipped = enable_loop path cs current k in
      let failed = enable_loop path cs current k' in
      let enabled = enable_loop path cs (or_empty (fs.read path k')) k' in
      if fs.contains current (fs.text "+" ++ fs.text c)
      then skipped
      else if wrote
      then enabled
      else failed

  abbrev pub controllers : List String
  controllers = "cpu" ∷ "memory" ∷ "io" ∷ "pids" ∷ []

  -- `enableControllers`, which never returns an error
  unfoldable pub enable_controllers : Text → K → K
  unfolding enable_loop
  enable_controllers slice k =
      let path = file slice "cgroup.subtree_control" in
      enable_loop path controllers (or_empty (fs.read path k)) k

  -- a limit of `applyResources`: a file that is not there and a write that fails are passed over
  abbrev pub write_limit : Text → String → Bool → ℤ → K → K
  write_limit slice name is_set value k =
      if is_set && fs.stat (file slice name) k
      then (write_file (file slice name) (fs.decimal value) k).1
      else k

  -- `applyResources`, which never returns an error
  unfoldable pub write_limits : Text → Resources → K → K
  write_limits slice r k = write_limit slice "pids.max" (ltb 0 r.pids_limit) (pos r.pids_limit) (
      write_limit slice "io.weight" (ltb 0 r.io_weight) (pos (clamped r.io_weight)) (
        write_limit slice "memory.max" (ltb_ℤ (pos 0) r.mem_limit_bytes) r.mem_limit_bytes
          (write_limit slice "cpu.weight" (ltb 0 r.cpu_shares) (pos (clamped r.cpu_shares)) k)))

  -- `CreateProcessSlice`
  unfoldable pub create_process_slice :
      CgroupManager → Text → Option Resources → K → Option SliceError × K
  unfolding enable_controllers write_limits
  create_process_slice m id resources k =
      let slice = fs.join m.base_path id in
      let (made, k₁) = fs.mkdir_all slice k in
      if made
      then (none, write_limits slice (or_none resources) (enable_controllers slice k₁))
      else (some no_mkdir, k₁)

  -- `Attach`
  unfoldable pub attach : CgroupManager → Text → ℤ → K → Option SliceError × K
  attach m id pid k =
      let (wrote, k₁) =
        write_file (file (fs.join m.base_path id) "cgroup.procs") (fs.decimal pid) k in
      if wrote then (none, k₁) else (some no_write, k₁)

  -- the first part of `Destroy`: the kernel is asked to kill what is left in the slice
  unfoldable pub kill_slice : Text → K → K
  kill_slice slice k =
      let path = file slice "cgroup.kill" in
      if ltb 0 (length (or_empty (fs.read path k))) then (fs.write path (fs.text "1") k).1 else k

  -- what `Destroy` makes of the result of `os.Remove`
  abbrev pub left_by : Removal × K → Option SliceError × K
  left_by (removed, k) = (none, k)
  left_by (busy, k) = (none, k)
  left_by (not_removed, k) = (some no_remove, k)

  -- `Destroy`: a slice that is still busy is left, without an error
  unfoldable pub destroy : CgroupManager → Text → K → Option SliceError × K
  unfolding kill_slice
  destroy m id k =
      let slice = fs.join m.base_path id in left_by (fs.remove slice (kill_slice slice k))

  -- `ReadStats`, which never returns an error
  unfoldable pub read_stats : CgroupManager → Text → K → Stats
  unfolding read_uint
  read_stats m id k =
      let slice = fs.join m.base_path id in
      record {
        cpu_usage_usec = value_or_zero (read_uint (file slice "cpu.usage.usec") k);
        memory_current = value_or_zero (read_uint (file slice "memory.current") k);
        memory_peak = value_or_zero (read_uint (file slice "memory.peak") k);
        procs_current = value_or_zero (read_uint (file slice "pids.current") k) % 2 ^ 32;
      }
