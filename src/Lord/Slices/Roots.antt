-- ===== src/Lord/Slices/Roots.antt =====
-- The search for a cgroup in which a lord may make its slices, and the slice of the lord:
-- `findWritableRoot` and `NewCgroupManager` of internal/lord/cgroup.go.
use etronium_scdr.Prelude.{
  ℕ, ◌≡◌, refl, Bool, true, false, ◌||◌, not, Option, none, some, List, [], ◌∷◌, eqb, if◌then◌else◌,
  Bool-cases, inl, inr,
}
use etronium_scdr.Config.{Text}
use etronium_scdr.Lord.Slices.{
  Files, CgroupManager, SliceError, no_cgroup_v2, no_writable_root, no_mkdir, or_empty, file,
  enable_controllers,
}

-- `strings.Split` at a byte
abbrev pub cons_head : ℕ → List Text → List Text
cons_head c [] = (c ∷ []) ∷ []
cons_head c (l ∷ ls) = (c ∷ l) ∷ ls

unfoldable pub split : ℕ → Text → List Text
split sep [] = [] ∷ []
split sep (c ∷ cs) = let rest = split sep cs in if eqb c sep then [] ∷ rest else cons_head c rest

-- what follows a prefix
unfoldable pub strip_prefix : Text → Text → Option Text
strip_prefix [] t = some t
strip_prefix (p ∷ ps) [] = none
strip_prefix (p ∷ ps) (c ∷ cs) = let rest = strip_prefix ps cs in if eqb p c then rest else none

-- "0::" and "/"
abbrev pub v2_prefix : Text
v2_prefix = 48 ∷ 58 ∷ 58 ∷ []

abbrev pub is_slash : Text → Bool
is_slash [] = false
is_slash (c ∷ []) = eqb c 47
is_slash (c ∷ d ∷ cs) = false

abbrev pub is_empty : Text → Bool
is_empty [] = true
is_empty (c ∷ cs) = false

-- the path of the first line for v2; the root is no candidate of its own
unfoldable pub own_path : List Text → Option Text
unfolding strip_prefix
own_path [] = none
own_path (l ∷ ls) =
    let rest = own_path ls in
    elim (strip_prefix v2_prefix l) [
      | none ↦ rest
      | some p ↦ if is_empty p || is_slash p then none else some p
    ]

module _ {K : Type 0} (fs : Files K) where
  abbrev pub cgroup_root : Text
  cgroup_root = fs.text "/sys/fs/cgroup"

  unfoldable pub root_candidates : K → List Text
  unfolding own_path split
  root_candidates k =
      elim (own_path (split 10 (or_empty (fs.read (fs.text "/proc/self/cgroup") k)))) [
        | none ↦ cgroup_root ∷ []
        | some p ↦ fs.join cgroup_root p ∷ cgroup_root ∷ []
      ]

  abbrev pub probe : Text → Text
  probe c = file fs c ".etronium-probe-dir"

  -- the loop of `findWritableRoot`
  unfoldable pub probe_loop : List Text → K → Option Text × K
  probe_loop [] k = (none, k)
  probe_loop (c ∷ cs) k =
      let (made, k₁) = fs.mkdir (probe c) k in
      let later = probe_loop cs k₁ in if made then (some c, (fs.remove (probe c) k₁).1) else later

  -- `findWritableRoot`
  unfoldable pub find_writable_root : K → Option Text × K
  unfolding probe_loop root_candidates
  find_writable_root k = probe_loop (root_candidates k) k

  -- the slices of all lords and of this one
  unfoldable pub make_slices : Text → Text → K → (Option CgroupManager × Option SliceError) × K
  unfolding enable_controllers
  make_slices lord_id root k =
      let etronium = file fs root "etronium" in
      let (made, k₁) = fs.mkdir_all etronium k in
      let k₂ = enable_controllers fs etronium k₁ in
      let base = fs.join etronium lord_id in
      let (made', k₃) = fs.mkdir_all base k₂ in
      if not made
      then ((none, some no_mkdir), k₁)
      else if made'
      then ((some (record { lord_id = lord_id; base_path = base }), none), k₃)
      else ((none, some no_mkdir), k₃)

  -- `NewCgroupManager`
  unfoldable pub new_cgroup_manager : Text → K → (Option CgroupManager × Option SliceError) × K
  unfolding find_writable_root make_slices
  new_cgroup_manager lord_id k =
      let (root, k₁) = find_writable_root k in
      if fs.stat (fs.text "/sys/fs/cgroup/cgroup.controllers") k
      then elim root [
        | none ↦ ((none, some no_writable_root), k₁)
        | some r ↦ make_slices lord_id r k₁
      ]
      else ((none, some no_cgroup_v2), k)

  -- A directory that cannot be made changes nothing, and to remove a directory that has just been made
  -- undoes that.
  pub record IsClean : Type 0 where
    pub mkdir_fails : (p : Text) (k : K) → (fs.mkdir p k).0 ≡ false → (fs.mkdir p k).1 ≡ k
    pub mkdir_undone :
        (p : Text) (k : K) → (fs.mkdir p k).0 ≡ true → (fs.remove p (fs.mkdir p k).1).1 ≡ k

  abbrev pub IsWritable : K → Text → Type 0
  IsWritable k c = (fs.mkdir (probe c) k).0 ≡ true

  -- the first writable one of a list
  pub data FirstWritable (k : K) : List Text → Option Text → Type 0 where
    exhausted : FirstWritable k [] none
    here : {c : Text} {cs : List Text} → IsWritable k c → FirstWritable k (c ∷ cs) (some c)
    passed :
        {c : Text} {cs : List Text} {o : Option Text}
        → ¬ IsWritable k c
        → FirstWritable k cs o
        → FirstWritable k (c ∷ cs) o

  probe_loop-FirstWritable :
      (cs : List Text) (k : K)
      → IsClean
      → FirstWritable k cs (probe_loop cs k).0 × ((probe_loop cs k).1 ≡ k)
  unfolding probe_loop
  probe_loop-FirstWritable [] k clean = (exhausted, refl)
  probe_loop-FirstWritable (c ∷ cs) k clean = elim (Bool-cases (fs.mkdir (probe c) k).0) [
    | inl made ↦ rw (made, probe_loop) (here made, clean.mkdir_undone (probe c) k made)
    | inr failed ↦
        let same : (fs.mkdir (probe c) k).1 ≡ k = clean.mkdir_fails (probe c) k failed in
        let (first, kept) = probe_loop-FirstWritable cs k clean in
        rw (failed, same, probe_loop) (passed (λ made. cc) first, kept)
  ]

  pub find_writable_root-FirstWritable :
      (k : K)
      → IsClean
      → FirstWritable k (root_candidates k) (find_writable_root k).0
        × ((find_writable_root k).1 ≡ k)
  unfolding find_writable_root
  find_writable_root-FirstWritable k clean = probe_loop-FirstWritable (root_candidates k) k clean
