-- ===== src/Statistics/Tests.antt =====
-- A map with two keys, the first of which is the key of zeros, so that a walk sees the other one only.
use etronium_scdr.Prelude.{
  ℕ, ◌≡◌, ◌≢◌, refl, sym, ap₂, In, inl, Bool-cases, Option, none, some, List, [], ◌∷◌, ◌++◌, eqb,
  Bool, ◌&&◌, true, false, if◌then◌else◌, arith, inr,
}
use etronium_scdr.Statistics.{Bytes, PinnedMap, LordStats, map_info, read_lord_stats, stats_of}
use etronium_scdr.Statistics.Walks.{IsOrdered, head?, Says, packed_stats, walks_see}

same_bytes : Bytes → Bytes → Bool
same_bytes [] [] = true
same_bytes [] (c ∷ cs) = false
same_bytes (b ∷ bs) [] = false
same_bytes (b ∷ bs) (c ∷ cs) = eqb b c && same_bytes bs cs

same_bytes_sound : (x y : Bytes) → same_bytes x y ≡ true → x ≡ y
unfolding same_bytes
same_bytes_sound [] [] h = refl
same_bytes_sound [] (c ∷ cs) h = absurd (cc)
same_bytes_sound (b ∷ bs) [] h = absurd (cc)
same_bytes_sound (b ∷ bs) (c ∷ cs) h =
    let heads : b ≡ c = ground arith in
    let tails : bs ≡ cs = same_bytes_sound bs cs (ground arith) in
    ap₂ (λ (n : ℕ) (l : List ℕ). n ∷ l) heads tails

abbrev zeros : Bytes
zeros = 0 ∷ 0 ∷ 0 ∷ 0 ∷ []

abbrev one : Bytes
one = 1 ∷ 0 ∷ 0 ∷ 0 ∷ []

abbrev two_keys : List Bytes
two_keys = zeros ∷ one ∷ []

abbrev next_of : Bytes → Option Bytes
next_of k = if same_bytes k zeros then some one else if same_bytes k one then none else some zeros

abbrev sample : LordStats
sample = record { nr_select_cpu = 300; nr_enqueue = 7; nr_dispatch = 70000; nr_reject = 1 }

abbrev pinned : PinnedMap
pinned = record { next = next_of; find = λ k. some (packed_stats sample) }

pinned-IsOrdered : IsOrdered pinned two_keys
unfolding same_bytes
pinned-IsOrdered = record { first = not_there; following = behind }
  where
    other : (k j : Bytes) → k ≢ j → same_bytes k j ≡ false
    other k j ne = elim (Bool-cases (same_bytes k j)) [
      | inl same ↦ absurd (ne (same_bytes_sound k j same))
      | inr differs ↦ differs
    ]

    not_there : (k : Bytes) → ¬ In k two_keys → next_of k ≡ some zeros
    not_there k absent =
        let a : same_bytes k zeros ≡ false = other k zeros (λ e. absent (inl (sym e))) in
        let b : same_bytes k one ≡ false = other k one (λ e. absent (inr (inl (sym e)))) in
        rw (a, b) refl

    behind : (xs ys : List Bytes) (k : Bytes) → two_keys ≡ xs ++ k ∷ ys → next_of k ≡ head? ys
    behind [] ys k e =
        let key : zeros ≡ k = cc in let rest : one ∷ [] ≡ ys = cc in rw (← key, ← rest) refl
    behind (x ∷ []) ys k e =
        let key : one ≡ k = cc in
        let rest : ◌≡◌ {A = List Bytes} [] ys = cc in rw (← key, ← rest) refl
    behind (x ∷ y ∷ []) ys k e = absurd (cc)
    behind (x ∷ y ∷ z ∷ xs) ys k e = absurd (cc)

one-Says : Says pinned one 1 sample
one-Says = record {
  key = refl;
  narrow = omega arith;
  value = refl;
  wide = record {
    select_cpu = omega arith;
    enqueue = omega arith;
    dispatch = omega arith;
    reject = omega arith;
  };
}

walks_see_example :
    (map_info pinned 4 3 ≡ some 1)
    × (out : List (ℕ × LordStats)) × (read_lord_stats pinned 3 ≡ some out)
    × (stats_of 1 out ≡ some sample)
walks_see_example =
    walks_see pinned two_keys (one ∷ []) ((1, sample) ∷ []) 3 1 pinned-IsOrdered (inr ([], refl))
      (one-Says, tt) (omega arith)
