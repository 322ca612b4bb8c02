-- ===== src/Ring/Tests.antt =====
-- Runs of `ringBuffer`, and inputs on which the theorems about it apply.
use etronium_scdr.Prelude.{◌≡◌, refl, [], ◌∷◌, ◌++◌, arith}
use etronium_scdr.Ring.{Ring, new_ring, write, writes, contents, total, since_offset}
use etronium_scdr.Ring.Bounds.{IsValid, new_ring-IsValid, write-IsValid}
use etronium_scdr.Ring.Window.{last, kept, contents-write, write_drops_tail}
use etronium_scdr.Ring.Wrapped.{follow_stalls}
use etronium_scdr.Ring.Follow.{IsFilling}

abbrev ring3 : Ring
ring3 = write (new_ring 4) (1 ∷ 2 ∷ 3 ∷ [])

abbrev full_ring : Ring
full_ring = write (new_ring 4) (1 ∷ 2 ∷ 3 ∷ 4 ∷ 5 ∷ [])

ring3-IsValid : IsValid ring3
ring3-IsValid = write-IsValid (1 ∷ 2 ∷ 3 ∷ []) (new_ring-IsValid 4 (omega arith))

full_ring-contents : contents full_ring ≡ 2 ∷ 3 ∷ 4 ∷ 5 ∷ []
unfolding contents write new_ring
full_ring-contents = refl

-- two of the three bytes do not fit behind the first three and are lost
ring3-cut : contents (write ring3 (7 ∷ 8 ∷ 9 ∷ [])) ≡ 1 ∷ 2 ∷ 3 ∷ 7 ∷ []
unfolding contents write new_ring
ring3-cut = refl

contents-write_example :
    contents (write ring3 (7 ∷ 8 ∷ [])) ≡ last 4 (contents ring3 ++ kept ring3 (7 ∷ 8 ∷ []))
unfolding write new_ring
contents-write_example = contents-write (7 ∷ 8 ∷ []) ring3-IsValid

write_drops_tail_example : write ring3 (7 ∷ 8 ∷ []) ≡ write ring3 (7 ∷ [])
unfolding write new_ring
write_drops_tail_example = write_drops_tail (7 ∷ 8 ∷ []) ring3-IsValid (omega arith) (omega arith)

follow_stalls_example : since_offset (writes full_ring ((6 ∷ []) ∷ (7 ∷ []) ∷ [])) 8 ≡ ([], 8)
unfolding write new_ring total
follow_stalls_example = follow_stalls full_ring ((6 ∷ []) ∷ (7 ∷ []) ∷ []) refl

small-IsFilling : IsFilling (write (new_ring 8) (1 ∷ 2 ∷ []))
unfolding write new_ring
small-IsFilling = record {
  valid = write-IsValid (1 ∷ 2 ∷ []) (new_ring-IsValid 8 (omega arith));
  open_end = refl;
}
