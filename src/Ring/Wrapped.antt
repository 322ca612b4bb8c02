-- ===== src/Ring/Wrapped.antt =====
-- `ringBuffer` once it has wrapped: what a follower of `StreamProcessIO` still gets.
use etronium_scdr.Prelude.{ℕ, ◌*◌, ◌≡◌, ◌∙◌, List, [], ◌∷◌, true, arith}
use etronium_scdr.Ring.{Ring, write, writes, total, since_offset}
use etronium_scdr.Ring.Bounds.{cap-write}

full-write : (r : Ring) (p : List ℕ) → r.full ≡ true → (write r p).full ≡ true
unfolding write
full-write r p h = ground arith

total-writes : (r : Ring) (ps : List (List ℕ)) → r.full ≡ true → total (writes r ps) ≡ r.cap * 2
unfolding total
total-writes r [] h = ground arith
total-writes r (p ∷ ps) h =
    total-writes (write r p) ps (full-write r p h) ∙ ground (arith, cap-write r p)

since_offset_at_total : (r : Ring) → since_offset r (total r) ≡ ([], total r)
unfolding since_offset total
since_offset_at_total r = ground arith

-- A follower that has read a full buffer to its total gets nothing any more, whatever is written
-- after that, and its offset stays.
pub follow_stalls :
    (r : Ring) (ps : List (List ℕ))
    → r.full ≡ true
    → since_offset (writes r ps) (total r) ≡ ([], total r)
follow_stalls r ps h =
    rw (total-writes r [] h, ← total-writes r ps h) (since_offset_at_total (writes r ps))
