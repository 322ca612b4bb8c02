-- ===== src/Ring/Bounds.antt =====
-- The representation invariant of `ringBuffer`, which every write keeps.
use etronium_scdr.Prelude.{
  ℕ, ◌+◌, ◌-◌, ◌≤◌, ◌<◌, ◌≡◌, List, ◌++◌, arith, length, length-append, length-take, length-drop,
  length-replicate, take, drop,
}
use etronium_scdr.Ring.{Ring, new_ring, copied, copy_at, write}

pub record IsValid (r : Ring) : Type 0 where
  pub storage : length r.bytes ≡ r.cap
  pub off_in : r.off < r.cap

pub length-copy_at :
    (dst : List ℕ) (at : ℕ) (src : List ℕ)
    → at ≤ length dst
    → length (copy_at dst at src) ≡ length dst
length-copy_at dst at src h = omega (
  arith,
  length-append (take at dst) (take n src ++ drop (at + n) dst),
  length-append (take n src) (drop (at + n) dst),
  length-take at dst,
  length-take n src,
  length-drop (at + n) dst,
)
  where
    n : ℕ
    n = copied dst at src

pub new_ring-IsValid : (cap : ℕ) → 0 < cap → IsValid (new_ring cap)
unfolding new_ring
new_ring-IsValid cap h = record { storage = length-replicate cap 0; off_in = h }

-- From a valid buffer a write of any length leaves a valid one: the storage keeps its length and
-- the offset stays inside it.
pub write-IsValid : {r : Ring} (p : List ℕ) → IsValid r → IsValid (write r p)
unfolding write
write-IsValid {r} p v =
    ground
      (arith, length-copy_at r.bytes 0 (drop (length p - r.cap) p), length-copy_at r.bytes r.off p)

-- A write does not change the capacity.
pub cap-write : (r : Ring) (p : List ℕ) → (write r p).cap ≡ r.cap
unfolding write
cap-write r p = ground arith
