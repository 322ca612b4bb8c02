-- ===== src/Lord/Slices/Candidates.antt =====
-- In which cgroups a lord tries to make its slices: the file of its own cgroup, read line by line.
use mathlib.Core.Path.{subst}
use etronium_scdr.Prelude.{
  ℕ, ◌≡◌, ◌≢◌, refl, ap, ◌∙◌, ◌⊎◌, inl, inr, false, ◌||◌, Option, none, some, List, [], ◌∷◌, ◌++◌,
  All, eqb, arith, Bool-cases, Option-cases, if◌then◌else◌,
}
use etronium_scdr.Config.{Text}
use etronium_scdr.Lord.Slices.{Files}
use etronium_scdr.Lord.Slices.Roots.{
  split, strip_prefix, v2_prefix, is_slash, is_empty, own_path, cons_head, cgroup_root,
  root_candidates, find_writable_root, IsClean, FirstWritable, find_writable_root-FirstWritable,
}

-- the lines of a text, with a newline between each two
abbrev pub join_lines : Text → List Text → Text
join_lines l [] = l
join_lines l (m ∷ ls) = l ++ 10 ∷ join_lines m ls

abbrev pub unlines : List Text → Text
unlines [] = []
unlines (l ∷ ls) = join_lines l ls

-- a line holds no newline
abbrev pub IsLine : Text → Type 0
IsLine = All (λ c. c ≢ 10)

-- a line that is not the one for v2
abbrev pub IsOther : Text → Type 0
IsOther l = (q : Text) → l ≢ v2_prefix ++ q

split-line : (l : Text) → IsLine l → split 10 l ≡ l ∷ []
unfolding split
split-line [] v = refl
split-line (c ∷ l) v =
    let differs : eqb c 10 ≡ false = not_newline c v.0 in
    rw (differs, split) (ap (cons_head c) (split-line l v.1))
  where
    not_newline : (d : ℕ) → d ≢ 10 → eqb d 10 ≡ false
    not_newline d ne = ground arith

split-append : (l t : Text) → IsLine l → split 10 (l ++ 10 ∷ t) ≡ l ∷ split 10 t
unfolding split
split-append [] t v = refl
split-append (c ∷ l) t v =
    let differs : eqb c 10 ≡ false = not_newline c v.0 in
    rw (differs, split) (ap (cons_head c) (split-append l t v.1))
  where
    not_newline : (d : ℕ) → d ≢ 10 → eqb d 10 ≡ false
    not_newline d ne = ground arith

split-join_lines :
    (l : Text) (ls : List Text) → IsLine l → All IsLine ls → split 10 (join_lines l ls) ≡ l ∷ ls
split-join_lines l [] v vs = split-line l v
split-join_lines l (m ∷ ls) v vs =
    split-append l (join_lines m ls) v ∙ ap (λ x. l ∷ x) (split-join_lines m ls vs.0 vs.1)

strip_prefix_sound : (p l q : Text) → strip_prefix p l ≡ some q → l ≡ p ++ q
unfolding strip_prefix
strip_prefix_sound [] l q h = cc
strip_prefix_sound (c ∷ p) [] q h = absurd (cc)
strip_prefix_sound (c ∷ p) (d ∷ l) q h = elim (Bool-cases (eqb c d)) [
  | inl same ↦
      let head : c ≡ d = ground arith in
      let rest : l ≡ p ++ q = strip_prefix_sound p l q (rw (same, strip_prefix) at h) in cc
  | inr other ↦ absurd (ground arith)
]

-- what a path of the agent's cgroup gives
abbrev own_of : Text → Option Text
own_of p = if is_empty p || is_slash p then none else some p

own_path-line :
    (p : Text) (before after : List Text)
    → All IsOther before
    → own_path (before ++ (v2_prefix ++ p) ∷ after) ≡ own_of p
unfolding own_path strip_prefix
own_path-line p [] after others = refl
own_path-line p (l ∷ before) after others = elim (Option-cases (strip_prefix v2_prefix l)) [
  | inl none_there ↦ rw (none_there, own_path) (own_path-line p before after others.1)
  | inr (q, there) ↦ absurd (others.0 q (strip_prefix_sound v2_prefix l q there))
]

own_of-cases :
    (p : Text)
    → (p ≡ []) × (own_of p ≡ none)
      ⊎ ((p ≡ 47 ∷ []) × (own_of p ≡ none) ⊎ (p ≢ []) × (p ≢ 47 ∷ []) × (own_of p ≡ some p))
own_of-cases [] = inl (refl, refl)
own_of-cases (c ∷ []) = elim (Bool-cases (eqb c 47)) [
  | inl slash ↦ let same : c ≡ 47 = ground arith in inr (inl (ap (λ x. x ∷ []) same, rw slash refl))
  | inr other ↦ inr (inr ((λ e. cc), differs c other, rw other refl))
]
  where
    differs : (d : ℕ) → eqb d 47 ≡ false → d ∷ [] ≢ 47 ∷ []
    differs d h e = let same : d ≡ 47 = cc in absurd (ground arith)
own_of-cases (c ∷ d ∷ p) = inr (inr ((λ e. cc), (λ e. cc), refl))

module _ {K : Type 0} (fs : Files K) where
  -- the root of all cgroups alone is tried, or the agent's own one first and then the root
  abbrev pub AreTried : K → Text → Option Text → Type 0
  AreTried k p found =
      ((p ≡ []) ⊎ (p ≡ 47 ∷ [])) × FirstWritable fs k (cgroup_root fs ∷ []) found
      ⊎ (p ≢ [])
        × (p ≢ 47 ∷ [])
        × FirstWritable fs k (fs.join (cgroup_root fs) p ∷ cgroup_root fs ∷ []) found

  candidates-of :
      (k : K) (p l : Text) (ls : List Text) (o : Option Text)
      → fs.read (fs.text "/proc/self/cgroup") k ≡ some (join_lines l ls)
      → IsLine l
      → All IsLine ls
      → own_path (l ∷ ls) ≡ o
      → root_candidates fs k ≡ elim o [
        | none ↦ cgroup_root fs ∷ []
        | some own ↦ fs.join (cgroup_root fs) own ∷ cgroup_root fs ∷ []
      ]
  unfolding root_candidates
  candidates-of k p l ls o content line lines own =
      rw (content, root_candidates) (rw (split-join_lines l ls line lines, own) refl)

  -- Suppose that a directory that cannot be made changes nothing, and that removing one that has just been
  -- made undoes it; and that the file of the agent's cgroup has a line for v2, the first of which is
  -- "0::" and a path. The search for a root leaves the files as they were. It tries the cgroup of that
  -- path first and then the root of all cgroups, or only the latter if the path is empty or "/"; it
  -- finds the first of these in which a directory can be made, and fails only if there is none.
  pub find_writable_root_tries :
      (k : K) (p : Text) (before after : List Text)
      → IsClean fs
      → fs.read (fs.text "/proc/self/cgroup") k
        ≡ some (unlines (before ++ (v2_prefix ++ p) ∷ after))
      → All IsLine (before ++ (v2_prefix ++ p) ∷ after)
      → All IsOther before
      → AreTried k p (find_writable_root fs k).0 × ((find_writable_root fs k).1 ≡ k)
  find_writable_root_tries k p before after clean content lines others =
      let (first, kept) = find_writable_root-FirstWritable fs k clean in
      (
        elim (own_of-cases p) [
          | inl (empty, alone) ↦
              inl (inl empty, subst (tried k) (by_lines before content lines others alone) first)
          | inr (inl (slash, alone)) ↦
              inl (inr slash, subst (tried k) (by_lines before content lines others alone) first)
          | inr (inr (full, other, own)) ↦
              inr (full, other, subst (tried k) (by_lines before content lines others own) first)
        ],
        kept,
      )
    where
      tried : K → List Text → Type 0
      tried m cs = FirstWritable fs m cs (find_writable_root fs m).0

      by_lines :
          {o : Option Text} (bs : List Text)
          → fs.read (fs.text "/proc/self/cgroup") k
            ≡ some (unlines (bs ++ (v2_prefix ++ p) ∷ after))
          → All IsLine (bs ++ (v2_prefix ++ p) ∷ after)
          → All IsOther bs
          → own_of p ≡ o
          → root_candidates fs k ≡ elim o [
            | none ↦ cgroup_root fs ∷ []
            | some own ↦ fs.join (cgroup_root fs) own ∷ cgroup_root fs ∷ []
          ]
      by_lines {o} [] e v w own =
          candidates-of k p (v2_prefix ++ p) after o e v.0 v.1 (own_path-line p [] after w ∙ own)
      by_lines {o} (b ∷ bs) e v w own =
          candidates-of k p b (bs ++ (v2_prefix ++ p) ∷ after) o e v.0 v.1
            (own_path-line p (b ∷ bs) after w ∙ own)
