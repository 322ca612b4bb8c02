-- ===== src/Ring.antt =====
-- `ringBuffer` of internal/scheduler/process_table.go: the last bytes that a process has printed.
-- A byte is any number: bytes are moved and never computed with. The mutex makes each method one
-- step. `make([]byte, capBytes)` is a list of `capBytes` zeros.
pub mod Bounds
pub mod Window
pub mod Follow
pub mod Wrapped
mod Tests
use etronium_scdr.Prelude.{
  ℕ, ◌+◌, ◌-◌, ◌*◌, ◌%◌, List, [], ◌∷◌, ◌++◌, Bool, true, false, leb, ltb, min, if◌then◌else◌,
  length, take, drop, replicate,
}

pub record Ring : Type 0 where
  pub bytes : List ℕ
  pub off : ℕ
  pub full : Bool
  pub cap : ℕ

abbrev pub ring_bytes : ℕ
ring_bytes = 64 * 1024

unfoldable pub new_ring : ℕ → Ring
new_ring cap_bytes = record {
  bytes = replicate cap_bytes 0;
  off = 0;
  full = false;
  cap = cap_bytes;
}

-- Go's `copy(dst, src)` into the slice that begins at index `at`: as many bytes as fit
abbrev pub copied : List ℕ → ℕ → List ℕ → ℕ
copied dst at src = min (length dst - at) (length src)

abbrev pub copy_at : List ℕ → ℕ → List ℕ → List ℕ
copy_at dst at src =
    take at dst ++ (take (copied dst at src) src ++ drop (at + copied dst at src) dst)

pub write : Ring → List ℕ → Ring
write r p =
    if leb r.cap (length p)
    then record r { bytes = copy_at r.bytes 0 (drop (length p - r.cap) p); full = true; off = 0 }
    else (let n = copied r.bytes r.off p in
        let data' = copy_at r.bytes r.off p in
        if leb r.cap (r.off + n)
        then record r { bytes = data'; full = true; off = (r.off + n) % r.cap }
        else record r { bytes = data'; off = r.off + n })

pub contents : Ring → List ℕ
contents r = if r.full then drop r.off r.bytes ++ take r.off r.bytes else take r.off r.bytes

pub total : Ring → ℕ
total r = if r.full then r.cap * 2 else r.off

-- `SinceOffset`. The int64 difference `cur - lastTotal` is taken only where it is positive.
pub since_offset : Ring → ℕ → List ℕ × ℕ
since_offset r last_total =
    let cur = if r.full then r.cap * 2 else r.off in
    if leb cur last_total
    then ([], last_total)
    else (let added = min (cur - last_total) r.cap in
        let start = (cur - added) % r.cap in
        let end = cur % r.cap in
        if ltb start end
        then (drop start (take end r.bytes), cur)
        else (drop start r.bytes ++ take end r.bytes, cur))

-- the buffer after several writes
abbrev pub writes : Ring → List (List ℕ) → Ring
writes r [] = r
writes r (p ∷ ps) = writes (write r p) ps
