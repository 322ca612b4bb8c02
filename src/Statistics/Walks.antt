-- ===== src/Statistics/Walks.antt =====
-- Which entries a walk over a map of the kernel sees.
use etronium_scdr.Prelude.{
  ℕ, zero, suc, ◌+◌, ◌*◌, ◌/◌, ◌%◌, ◌<◌, ◌≡◌, refl, ap, sym, ◌∙◌, Option, none, some, List, [], ◌∷◌,
  ◌++◌, replicate, length, eqb, arith, In, ◌⊎◌, inl, inr, Option-cases, if◌then◌else◌,
}
use etronium_scdr.Statistics.{
  Bytes, PinnedMap, LordStats, little_endian, decode, add_stats, put_stats, stats_of, stats_loop,
  read_lord_stats, live_loop, map_info,
}

-- The keys that follow a key, up to the end.
pub data Follow (m : PinnedMap) : Bytes → List Bytes → Type 0 where
  last : {k : Bytes} → m.next k ≡ none → Follow m k []
  step : {k j : Bytes} {ks : List Bytes} → m.next k ≡ some j → Follow m j ks → Follow m k (j ∷ ks)

live_loop-length :
    (m : PinnedMap) (fuel : ℕ) (k : Bytes) (ks : List Bytes) (count : ℕ)
    → Follow m k ks
    → length ks < fuel
    → live_loop m fuel k count ≡ some (count + length ks)
unfolding live_loop
live_loop-length m zero k ks count walk enough = absurd (omega arith)
live_loop-length m (suc fuel) k ks count (last ends) enough =
    rw (ends, live_loop) (ap (λ (n : ℕ). some n) (omega arith))
live_loop-length m (suc fuel) k ks count (step {j = j} {ks = js} goes walk) enough =
    let rest : live_loop m fuel j (suc count) ≡ some (suc count + length js) =
      live_loop-length m fuel j js (suc count) walk (omega arith) in
    rw (goes, live_loop) (rest ∙ ap (λ (n : ℕ). some n) (omega arith))

-- what the keys add, in order
abbrev pub add_all : PinnedMap → List Bytes → List (ℕ × LordStats) → List (ℕ × LordStats)
add_all m [] out = out
add_all m (k ∷ ks) out = add_all m ks (add_stats m k out)

stats_loop-add_all :
    (m : PinnedMap) (fuel : ℕ) (k : Bytes) (ks : List Bytes) (out : List (ℕ × LordStats))
    → Follow m k ks
    → length ks < fuel
    → stats_loop m fuel k out ≡ some (add_all m ks out)
unfolding stats_loop
stats_loop-add_all m zero k ks out walk enough = absurd (omega arith)
stats_loop-add_all m (suc fuel) k ks out (last ends) enough = rw (ends, stats_loop) refl
stats_loop-add_all m (suc fuel) k ks out (step {j = j} {ks = js} goes walk) enough =
    rw (goes, stats_loop) (stats_loop-add_all m fuel j js (add_stats m j out) walk (omega arith))

stats_of-put_stats :
    (id j : ℕ) (ls : LordStats) (out : List (ℕ × LordStats))
    → stats_of j (put_stats id ls out) ≡ (if eqb id j then some ls else stats_of j out)
stats_of-put_stats id j ls [] = refl
stats_of-put_stats id j ls ((i, l) ∷ out) = ground (arith, stats_of-put_stats id j ls out)

abbrev pub head? : List Bytes → Option Bytes
head? [] = none
head? (k ∷ ks) = some k

-- The keys of a map in the order of the kernel: `next` gives the first after a key that the map does not
-- have, and otherwise the one that follows.
pub record IsOrdered (m : PinnedMap) (keys : List Bytes) : Type 0 where
  pub first : (k : Bytes) → ¬ In k keys → m.next k ≡ head? keys
  pub following : (xs ys : List Bytes) (k : Bytes) → keys ≡ xs ++ k ∷ ys → m.next k ≡ head? ys

-- the keys that a walk from a key on sees: all of them, or those behind it
abbrev pub Behind : Bytes → List Bytes → List Bytes → Type 0
Behind k keys after =
    (¬ In k keys) × (after ≡ keys) ⊎ ((before : List Bytes) × (keys ≡ before ++ k ∷ after))

append_assoc_snoc : (xs ys : List Bytes) (k : Bytes) → (xs ++ k ∷ []) ++ ys ≡ xs ++ k ∷ ys
append_assoc_snoc [] ys k = refl
append_assoc_snoc (x ∷ xs) ys k = ap (λ l. x ∷ l) (append_assoc_snoc xs ys k)

module _ (m : PinnedMap) (keys : List Bytes) (o : IsOrdered m keys) where
  -- from a key of the map on
  IsOrdered-Follow : (xs ys : List Bytes) (k : Bytes) → keys ≡ xs ++ k ∷ ys → Follow m k ys
  IsOrdered-Follow xs [] k e = last (o.following xs [] k e)
  IsOrdered-Follow xs (j ∷ ys) k e =
      step (o.following xs (j ∷ ys) k e)
        (IsOrdered-Follow (xs ++ k ∷ []) ys j (e ∙ sym (append_assoc_snoc xs (j ∷ ys) k)))

  all_of : (k : Bytes) (ks : List Bytes) → keys ≡ ks → m.next k ≡ head? keys → Follow m k ks
  all_of k [] e goes = last (goes ∙ ap head? e)
  all_of k (j ∷ ks) e goes = step (goes ∙ ap head? e) (IsOrdered-Follow [] ks j e)

  Behind-Follow : (k : Bytes) (after : List Bytes) → Behind k keys after → Follow m k after
  Behind-Follow k after (inl (absent, same)) = all_of k after (sym same) (o.first k absent)
  Behind-Follow k after (inr (before, e)) = IsOrdered-Follow before after k e

-- what the keys say of a lord: the last one of its id that can be looked up
abbrev pub last_stats : PinnedMap → ℕ → List Bytes → Option LordStats
last_stats m id [] = none
last_stats m id (k ∷ ks) = elim (last_stats m id ks) [
  | some l ↦ some l
  | none ↦ stats_of id (add_stats m k [])
]

stats_of-add_stats :
    (m : PinnedMap) (id : ℕ) (k : Bytes) (out : List (ℕ × LordStats))
    → stats_of id (add_stats m k out)
      ≡ elim (stats_of id (add_stats m k [])) [ some l ↦ some l | none ↦ stats_of id out ]
stats_of-add_stats m id k out = elim (Option-cases (m.find k)) [
  | inl missing ↦ ground arith
  | inr (value, found) ↦ ground (arith, stats_of-put_stats (little_endian k) id (decode value) out)
]

stats_of-add_all :
    (m : PinnedMap) (id : ℕ) (ks : List Bytes) (out : List (ℕ × LordStats))
    → stats_of id (add_all m ks out)
      ≡ elim (last_stats m id ks) [ some l ↦ some l | none ↦ stats_of id out ]
stats_of-add_all m id [] out = refl
stats_of-add_all m id (k ∷ ks) out =
    ground (arith, stats_of-add_all m id ks (add_stats m k out), stats_of-add_stats m id k out)

-- a number in so many bytes, the lowest first, and how many numbers fit
abbrev pub packed : ℕ → ℕ → Bytes
packed zero n = []
packed (suc w) n = (n % 256) ∷ packed w (n / 256)

abbrev pub span : ℕ → ℕ
span zero = 1
span (suc w) = 256 * span w

little_endian-packed : (w n : ℕ) → n < span w → little_endian (packed w n) ≡ n
unfolding little_endian
little_endian-packed zero n h = omega arith
little_endian-packed (suc w) n h = omega (arith, little_endian-packed w (n / 256) (omega arith))

-- the value that the kernel keeps for a lord: four numbers of 64 bits
abbrev pub packed_stats : LordStats → Bytes
packed_stats l =
    packed 8 l.nr_select_cpu
    ++ (packed 8 l.nr_enqueue ++ (packed 8 l.nr_dispatch ++ packed 8 l.nr_reject))

pub record IsWide (l : LordStats) : Type 0 where
  pub select_cpu : l.nr_select_cpu < span 8
  pub enqueue : l.nr_enqueue < span 8
  pub dispatch : l.nr_dispatch < span 8
  pub reject : l.nr_reject < span 8

decode-packed_stats : (l : LordStats) → IsWide l → decode (packed_stats l) ≡ l
unfolding decode
decode-packed_stats l v i = record {
  nr_select_cpu = little_endian-packed 8 l.nr_select_cpu v.select_cpu i;
  nr_enqueue = little_endian-packed 8 l.nr_enqueue v.enqueue i;
  nr_dispatch = little_endian-packed 8 l.nr_dispatch v.dispatch i;
  nr_reject = little_endian-packed 8 l.nr_reject v.reject i;
}

-- what a key and its value stand for: the id of a lord and its numbers
pub record Says (m : PinnedMap) (k : Bytes) (id : ℕ) (l : LordStats) : Type 0 where
  pub key : k ≡ packed 4 id
  pub narrow : id < span 4
  pub value : m.find k ≡ some (packed_stats l)
  pub wide : IsWide l

-- the last numbers of a lord in a list
abbrev pub last_of : ℕ → List (ℕ × LordStats) → Option LordStats
last_of id [] = none
last_of id ((i, l) ∷ told) = elim (last_of id told) [
  | some later ↦ some later
  | none ↦ if eqb i id then some l else none
]

-- the keys of a map, with the ids and the numbers that they stand for
abbrev pub AllSay : PinnedMap → List Bytes → List (ℕ × LordStats) → Type 0
AllSay m [] [] = Unit
AllSay m [] (x ∷ told) = ⊥
AllSay m (k ∷ ks) [] = ⊥
AllSay m (k ∷ ks) ((id, l) ∷ told) = Says m k id l × AllSay m ks told

add_stats-Says :
    (m : PinnedMap) (k : Bytes) (id : ℕ) (l : LordStats)
    → Says m k id l
    → add_stats m k [] ≡ (id, l) ∷ []
add_stats-Says m k id l v =
    let number : little_endian k ≡ id =
      ap little_endian v.key ∙ little_endian-packed 4 id v.narrow in
    let numbers : decode (packed_stats l) ≡ l = decode-packed_stats l v.wide in
    rw (v.value, add_stats, number, numbers) refl

last_stats-AllSay :
    (m : PinnedMap) (id : ℕ) (ks : List Bytes) (told : List (ℕ × LordStats))
    → AllSay m ks told
    → last_stats m id ks ≡ last_of id told
last_stats-AllSay m id [] [] v = refl
last_stats-AllSay m id [] (x ∷ told) v = absurd v
last_stats-AllSay m id (k ∷ ks) [] v = absurd v
last_stats-AllSay m id (k ∷ ks) ((i, l) ∷ told) v =
    let own : add_stats m k [] ≡ (i, l) ∷ [] = add_stats-Says m k i l v.0 in
    ground (arith, last_stats-AllSay m id ks told v.1, ap (stats_of id) own)

-- The walks over a map of the kernel, whose keys are ids of lords and whose values are four numbers of
-- 64 bits, the lowest byte first, come to their end with a turn more than the map has keys. They start
-- at a key of zeros: if the map has no such key, they see all its keys, and otherwise only those
-- behind it. `mapInfo` counts the keys that it sees, and `readLordStats` gives for each lord the four
-- numbers of the last of them with its id.
pub walks_see :
    (m : PinnedMap) (keys after : List Bytes) (told : List (ℕ × LordStats)) (fuel id : ℕ)
    → IsOrdered m keys
    → Behind (replicate 4 0) keys after
    → AllSay m after told
    → length after < fuel
    → (map_info m 4 fuel ≡ some (length after))
      × (out : List (ℕ × LordStats)) × (read_lord_stats m fuel ≡ some out)
      × (stats_of id out ≡ last_of id told)
unfolding map_info read_lord_stats
walks_see m keys after told fuel id o behind say enough =
    let walk : Follow m (replicate 4 0) after =
      Behind-Follow m keys o (replicate 4 0) after behind in
    let seen : stats_of id (add_all m after [])
        ≡ elim (last_stats m id after) [ some l ↦ some l | none ↦ none ] =
      stats_of-add_all m id after [] in
    (
      live_loop-length m fuel (replicate 4 0) after 0 walk enough
          ∙ ap (λ (n : ℕ). some n) (omega arith),
      add_all m after [],
      stats_loop-add_all m fuel (replicate 4 0) after [] walk enough,
      ground (arith, last_stats-AllSay m id after told say),
    )
