-- ===== src/Lord/Slices/Tests.antt =====
-- A small file system, in which only short paths can be made, and inputs on which the theorems about the
-- slices apply.
use etronium_scdr.Prelude.{
  ℕ, ◌==◌, ◌≡◌, refl, Bool, true, false, none, some, List, [], ◌∷◌, ◌++◌, ltb, eqb, length,
  if◌then◌else◌, arith, Bool-cases, inl, inr,
}
use etronium_scdr.Config.{Text}
use etronium_scdr.Lord.Slices.{Files, CgroupManager, removed, busy}
use etronium_scdr.Lord.Slices.Roots.{IsClean, find_writable_root}
use etronium_scdr.Lord.Slices.Candidates.{AreTried, find_writable_root_tries}
use etronium_scdr.Lord.Slices.Usage.{Sample}

-- the directories that have been made, newest first
abbrev Dirs : Type 0
Dirs = List Text

abbrev make : Text → Dirs → Bool × Dirs
make p k = if ltb 5 (length p) then (false, k) else (true, p ∷ k)

abbrev drop_newest : Dirs → Dirs
drop_newest [] = []
drop_newest (p ∷ k) = k

-- "1:", and "0::/a" in the next line
abbrev own_cgroup : Text
own_cgroup = 49 ∷ 58 ∷ 10 ∷ 48 ∷ 58 ∷ 58 ∷ 47 ∷ 97 ∷ []

abbrev small : Files Dirs
small = record {
  text = λ s. if s == "/proc/self/cgroup" then 1 ∷ [] else 2 ∷ 3 ∷ [];
  join = λ a b. a ++ b;
  decimal = λ n. [];
  parse_uint = λ t. some (length t);
  contains = λ t u. false;
  stat = λ p k. true;
  mkdir = make;
  mkdir_all = make;
  remove = λ p k. (removed, drop_newest k);
  read_dir = λ p k. none;
  read = λ p k. if eqb (length p) 1 then some own_cgroup else none;
  write = λ p v k. (true, k);
}

-- the same, in which every slice holds a process
abbrev held : Files Dirs
held = record small { remove = λ p k. (busy, k) }

small-IsClean : IsClean small
small-IsClean = record { mkdir_fails = λ p k. fails p k; mkdir_undone = λ p k. undone p k }
  where
    fails : (p : Text) (k : Dirs) → (make p k).0 ≡ false → (make p k).1 ≡ k
    fails p k h = elim (Bool-cases (ltb 5 (length p))) [
      | inl long ↦ rw long refl
      | inr short ↦ absurd (ground arith)
    ]

    undone : (p : Text) (k : Dirs) → (make p k).0 ≡ true → drop_newest (make p k).1 ≡ k
    undone p k h = elim (Bool-cases (ltb 5 (length p))) [
      | inl long ↦ absurd (ground arith)
      | inr short ↦ rw short refl
    ]

find_writable_root_tries_example :
    AreTried small [] (47 ∷ 97 ∷ []) (find_writable_root small []).0
    × ((find_writable_root small []).1 ≡ [])
find_writable_root_tries_example =
    find_writable_root_tries small [] (47 ∷ 97 ∷ []) ((49 ∷ 58 ∷ []) ∷ []) [] small-IsClean refl
      (
        ((λ e. absurd (omega arith)), ((λ e. absurd (omega arith)), tt)),
        (
          (
            (λ e. absurd (omega arith)),
            (
              (λ e. absurd (omega arith)),
              (
                (λ e. absurd (omega arith)),
                ((λ e. absurd (omega arith)), ((λ e. absurd (omega arith)), tt)),
              ),
            ),
          ),
          tt,
        ),
      )
      ((λ q e. other_head q e), tt)
  where
    other_head : (q : Text) → ¬ ((49 ∷ 58 ∷ []) ≡ 48 ∷ 58 ∷ 58 ∷ q)
    other_head q e = let heads : ◌≡◌ {A = ℕ} 49 48 = cc in omega arith

-- the cgroup of the agent cannot be written, and the root is taken
root_found : (find_writable_root small []).0 ≡ some (2 ∷ 3 ∷ [])
unfolding find_writable_root
root_found = refl

abbrev manager : CgroupManager
manager = record { lord_id = 7 ∷ []; base_path = 2 ∷ 3 ∷ [] }

abbrev earlier : Sample
earlier = record { last_cpu_usec = 500; last_sample_at = some 3 }
