-- ===== src/Statistics.antt =====
-- cmd/scheduler/main.go: `scheduler stats`, which walks the maps of the kernel. A pinned map is an
-- interface: `next` is `NextKey` and `find` is `Lookup`, and a key and a value are their bytes. The map is
-- taken to stay as it is during a walk. A walk has a fuel; `none` is one that has not ended.
pub mod Walks
pub mod Tests
use etronium_scdr.Prelude.{
  ℕ, zero, suc, ◌+◌, ◌*◌, ◌^◌, Option, none, some, List, [], ◌∷◌, take, drop, replicate, eqb, Bool,
  if◌then◌else◌,
}

abbrev pub Bytes : Type 0
Bytes = List ℕ

pub record PinnedMap : Type 0 where
  pub next : Bytes → Option Bytes
  pub find : Bytes → Option Bytes

pub record LordStats : Type 0 where
  pub nr_select_cpu : ℕ
  pub nr_enqueue : ℕ
  pub nr_dispatch : ℕ
  pub nr_reject : ℕ

-- `binary.LittleEndian`
unfoldable pub little_endian : Bytes → ℕ
little_endian [] = 0
little_endian (b ∷ bs) = b + 256 * little_endian bs

-- the eight bytes from an offset on
abbrev pub word_at : ℕ → Bytes → ℕ
word_at offset value = little_endian (take 8 (drop offset value))

unfoldable pub decode : Bytes → LordStats
unfolding little_endian
decode value = record {
  nr_select_cpu = word_at 0 value;
  nr_enqueue = word_at 8 value;
  nr_dispatch = word_at 16 value;
  nr_reject = word_at 24 value;
}

-- a Go map from the id of a lord
abbrev pub put_stats : ℕ → LordStats → List (ℕ × LordStats) → List (ℕ × LordStats)
put_stats id ls [] = (id, ls) ∷ []
put_stats id ls ((i, l) ∷ out) = if eqb i id then (id, ls) ∷ out else (i, l) ∷ put_stats id ls out

abbrev pub stats_of : ℕ → List (ℕ × LordStats) → Option LordStats
stats_of id [] = none
stats_of id ((i, l) ∷ out) = if eqb i id then some l else stats_of id out

-- what a key adds; one that cannot be looked up is passed over
abbrev pub add_stats : PinnedMap → Bytes → List (ℕ × LordStats) → List (ℕ × LordStats)
add_stats m key out = elim (m.find key) [
  | none ↦ out
  | some value ↦ put_stats (little_endian key) (decode value) out
]

-- the loop of `readLordStats` from a key on
unfoldable pub stats_loop :
    PinnedMap → ℕ → Bytes → List (ℕ × LordStats) → Option (List (ℕ × LordStats))
unfolding decode
stats_loop m zero key out = none
stats_loop m (suc fuel) key out = elim (m.next key) [
  | none ↦ some out
  | some k ↦ stats_loop m fuel k (add_stats m k out)
]

-- `readLordStats`: the walk begins at a key of four zero bytes
unfoldable pub read_lord_stats : PinnedMap → ℕ → Option (List (ℕ × LordStats))
unfolding stats_loop
read_lord_stats m fuel = stats_loop m fuel (replicate 4 0) []

-- the loop of `mapInfo`
unfoldable pub live_loop : PinnedMap → ℕ → Bytes → ℕ → Option ℕ
live_loop m zero key count = none
live_loop m (suc fuel) key count = elim (m.next key) [
  | none ↦ some count
  | some k ↦ live_loop m fuel k (suc count)
]

-- `mapInfo`, with what `Info` says of the size of a key
unfoldable pub map_info : PinnedMap → ℕ → ℕ → Option ℕ
unfolding live_loop
map_info m key_size fuel =
    if eqb key_size 0 then some 0 else live_loop m fuel (replicate key_size 0) 0
