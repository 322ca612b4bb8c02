-- ===== src/Ring/Window.antt =====
-- What `ringBuffer.Bytes` holds after `ringBuffer.Write`, on every branch.
use native.Mathlib.Nat.{mod-eq_of_lt, mod-eq-sub-mod}
use etronium_scdr.Prelude.{
  ℕ, zero, suc, ◌∷◌, ◌+◌, ◌-◌, ◌≤◌, ◌<◌, ◌≡◌, sym, ap, ◌∙◌, List, [], ◌++◌, append-nil,
  append_assoc, arith, leb, min, if◌then◌else◌, Bool-cases, inl, inr, length, take, drop,
  length-append, length-take, length-drop, drop-append_le, drop-append_ge, take_all, drop_all,
  drop-drop, drop-append_length, take-append_length,
}
use etronium_scdr.Ring.{Ring, copied, copy_at, write, contents}
use etronium_scdr.Ring.Bounds.{IsValid}

-- the last `n` elements
abbrev pub last : ℕ → List ℕ → List ℕ
last n l = drop (length l - n) l

-- the bytes of `p` that the code stores
abbrev pub kept : Ring → List ℕ → List ℕ
kept r p = if leb r.cap (length p) then p else take (r.cap - r.off) p

drop_to : (a b : ℕ) (l : List ℕ) → a ≡ b → drop a l ≡ drop b l
drop_to a b l e = ap (λ k. drop k l) e

take-min : (k : ℕ) (l : List ℕ) → take (min k (length l)) l ≡ take k l
take-min zero l = ap (λ k. take k l) {x = min 0 (length l)} {y = 0} (omega arith)
take-min (suc k) [] = ap (λ k. take {A = ℕ} k []) {x = min (suc k) 0} {y = 0} (omega arith)
take-min (suc k) (x ∷ l) =
    ap (λ k. take k (x ∷ l)) {x = min (suc k) (suc (length l))} {y = suc (min k (length l))}
      (omega arith)
    ∙ ap (λ m. x ∷ m) (take-min k l)

module _ (d : List ℕ) (at : ℕ) (src : List ℕ) (h : at ≤ length d) where
  abbrev front : List ℕ
  front = take at d ++ take (copied d at src) src

  length-front : at + copied d at src ≡ length front
  length-front = omega (
    arith,
    length-append (take at d) (take (copied d at src) src),
    length-take at d,
    length-take (copied d at src) src,
  )

  copy_at-eq-append : copy_at d at src ≡ front ++ drop (at + copied d at src) d
  copy_at-eq-append = sym (append_assoc (take at d) (take (copied d at src) src) _)

  drop-copy_at : drop (at + copied d at src) (copy_at d at src) ≡ drop (at + copied d at src) d
  drop-copy_at = rw copy_at-eq-append (drop-append_length _ front _ length-front)

  take-copy_at : take (at + copied d at src) (copy_at d at src) ≡ front
  take-copy_at = rw copy_at-eq-append (take-append_length _ front _ length-front)

  -- a copy that reaches the end of the storage
  copy_at_to_end : length d ≤ at + copied d at src → copy_at d at src ≡ front
  copy_at_to_end e = rw (copy_at-eq-append, drop_all (at + copied d at src) d e) (append-nil front)

-- the window after `q` has come behind a full buffer, and behind one that is not full
module _ (d q : List ℕ) (off cap : ℕ) (size : length d ≡ cap) (fits : off + length q ≤ cap) where
  last_full :
      last cap ((drop off d ++ take off d) ++ q) ≡ drop (off + length q) d ++ (take off d ++ q)
  last_full = rw append_assoc (
      drop_to _ (length q) _ count
      ∙ drop-append_le (length q) (drop off d) (take off d ++ q) (omega (arith, length-drop off d))
      ∙ ap (λ l. l ++ (take off d ++ q)) (drop-drop (length q) off d))
    where
      count : length (drop off d ++ (take off d ++ q)) - cap ≡ length q
      count = omega (
        arith,
        length-append (drop off d) (take off d ++ q),
        length-append (take off d) q,
        length-take off d,
        length-drop off d,
      )

  last_filling : last cap (take off d ++ q) ≡ take off d ++ q
  last_filling = drop_to _ 0 _ (omega (arith, length-append (take off d) q, length-take off d))

module _ {r : Ring} (p : List ℕ) (v : IsValid r) where
  abbrev stored : List ℕ
  stored = take (copied r.bytes r.off p) p

  stored-eq-take : stored ≡ take (r.cap - r.off) p
  stored-eq-take = rw (← v.storage) (take-min (length r.bytes - r.off) p)

  length-stored : length stored ≡ copied r.bytes r.off p
  length-stored = omega (arith, length-take (copied r.bytes r.off p) p)

  off_le : r.off ≤ length r.bytes
  off_le = omega (arith, v.storage, v.off_in)

  fits : r.off + length stored ≤ r.cap
  fits = omega (arith, v.storage, v.off_in, length-stored)

  last-contents : last r.cap (contents r ++ stored) ≡ (
      if r.full
      then drop (r.off + length stored) r.bytes ++ (take r.off r.bytes ++ stored)
      else take r.off r.bytes ++ stored)
  unfolding contents
  last-contents = elim (Bool-cases r.full) [
    | inl e ↦ rw e (last_full r.bytes stored r.off r.cap v.storage fits)
    | inr e ↦ rw e (last_filling r.bytes stored r.off r.cap v.storage fits)
  ]

  -- `len(p) >= r.cap`: the last `cap` bytes of `p`
  contents-write_long : r.cap ≤ length p → contents (write r p) ≡ last r.cap (contents r ++ p)
  unfolding write contents
  contents-write_long long = ground (
    arith,
    copy_at_long,
    append-nil tail,
    drop-append_ge (length (contents r ++ p) - r.cap) (contents r) p,
    length-append (contents r) p,
  )
    where
      tail : List ℕ
      tail = drop (length p - r.cap) p

      length-tail : length tail ≡ r.cap
      length-tail = omega (arith, length-drop (length p - r.cap) p)

      copy_at_long : copy_at r.bytes 0 tail ≡ tail
      copy_at_long =
          copy_at_to_end r.bytes 0 tail (omega arith) (omega (arith, v.storage, length-tail))
          ∙ take_all (copied r.bytes 0 tail) tail (omega (arith, v.storage, length-tail))

  -- the write stays short of the end of the storage
  contents-write_short :
      length p < r.cap
      → r.off + copied r.bytes r.off p < r.cap
      → contents (write r p) ≡ last r.cap (contents r ++ stored)
  unfolding write contents
  contents-write_short short less = ground (
    arith,
    last-contents,
    length-stored,
    drop-copy_at r.bytes r.off p off_le,
    take-copy_at r.bytes r.off p off_le,
  )

  -- the write reaches the end of the storage
  contents-write_end :
      length p < r.cap
      → r.cap ≤ r.off + copied r.bytes r.off p
      → contents (write r p) ≡ last r.cap (contents r ++ stored)
  unfolding write contents
  contents-write_end short more = ground (
    arith,
    last-contents,
    length-stored,
    v.storage,
    v.off_in,
    mod-eq_of_lt {n = 0} {m = r.cap},
    mod-eq-sub-mod {n = r.off + copied r.bytes r.off p} {m = r.cap},
    copy_at_to_end r.bytes r.off p off_le,
    append-nil (front r.bytes r.off p off_le),
    drop_all (r.off + length stored) r.bytes,
  )

-- A write puts the stored bytes behind what was there and the window keeps the last `cap` of them.
-- A `p` of at least `cap` bytes is stored whole; of a shorter one only what fits before the end of
-- the storage.
pub contents-write :
    {r : Ring} (p : List ℕ) → IsValid r → contents (write r p) ≡ last r.cap (contents r ++ kept r p)
contents-write {r} p v = ground (
  arith,
  contents-write_long p v,
  contents-write_short p v,
  contents-write_end p v,
  stored-eq-take p v,
)

-- A `p` that is shorter than the buffer, and longer than what is left before the end of the storage,
-- is cut: the buffer ends as if only the part that fits had been written.
pub write_drops_tail :
    {r : Ring} (p : List ℕ)
    → IsValid r
    → r.cap - r.off < length p
    → length p < r.cap
    → write r p ≡ write r (take (r.cap - r.off) p)
unfolding write
write_drops_tail {r} p v long short =
    ground (arith, length-take (r.cap - r.off) p, take_all (r.cap - r.off) (take (r.cap - r.off) p))
