-- ===== src/Table/Rebind.antt =====
-- `UpdateLordForHostname` moves exactly the processes of the old lord.
use etronium_scdr.Prelude.{
  ℕ, String, ◌≡◌, ap, ◌∙◌, not, ◌==◌, eq_iff, Bool, true, false, ◌&&◌, ◌||◌, some, List, ◌∷◌, [],
  Dict, lookup, arith, if◌then◌else◌, Bool-cases, inl, inr, eqb, get_elem?, modify,
  get_elem?-modify_self, get_elem?-modify_ne,
}
use etronium_scdr.Table.{
  Entry, Table, get, deref, set_lord, lord_is, rebind_loop, update_lord_for_hostname,
}

abbrev listed : ℕ → Dict ℕ → Bool
listed a [] = false
listed a ((k, b) ∷ d) = eqb b a || listed a d

module _ (old new : String) (differ : (old == new) ≡ false) where
  abbrev moved : Bool → Entry → Entry
  moved here e = if here && e.info.ref.lord_id == old then set_lord new e else e

  modify-moved :
      (b : ℕ) (heap : List Entry) (a : ℕ) (e : Entry)
      → get_elem? heap a ≡ some e
      → get_elem? (if lord_is old (get_elem? heap b) then modify (set_lord new) b heap else heap) a
        ≡ some (moved (eqb b a) e)
  modify-moved b heap a e h = ground (
    arith,
    get_elem?-modify_self (set_lord new) b heap e,
    get_elem?-modify_ne (set_lord new) b a heap,
  )

  moved-moved : (x y : Bool) (e : Entry) → moved x (moved y e) ≡ moved (y || x) e
  moved-moved x y e = ground (arith, eq_iff new old, eq_iff old new, differ)

  loop_at :
      (d : Dict ℕ) (heap : List Entry) (a : ℕ) (e : Entry)
      → get_elem? heap a ≡ some e
      → get_elem? (rebind_loop old new d heap).1 a ≡ some (moved (listed a d) e)
  unfolding rebind_loop
  loop_at [] heap a e h = h
  loop_at ((k, b) ∷ d) heap a e h =
      loop_at d (if lord_is old (get_elem? heap b) then modify (set_lord new) b heap else heap) a
        (moved (eqb b a) e) (modify-moved b heap a e h)
      ∙ ap some (moved-moved (listed a d) (eqb b a) e)

lookup-listed : (k : String) (a : ℕ) (d : Dict ℕ) → lookup k d ≡ some a → listed a d ≡ true
unfolding lookup
lookup-listed k a [] h = cc
lookup-listed k a ((j, b) ∷ d) h = ground (arith, lookup-listed k a d)

-- the early return of `UpdateLordForHostname`
abbrev pub no_rebind : String → String → Bool
no_rebind old new = old == "" || new == "" || old == new

-- A process of the table is moved to the new lord if it was on the old one, and is left as it is if
-- it was not; nothing moves if one of the two ids is empty or they are equal.
pub update_lord_moves :
    (old new k : String) (t : Table) (a : ℕ) (e : Entry)
    → get t k ≡ some a
    → deref t a ≡ some e
    → deref (update_lord_for_hostname old new t).1 a
      ≡ some (if not (no_rebind old new) && e.info.ref.lord_id == old then set_lord new e else e)
unfolding update_lord_for_hostname
update_lord_moves old new k t a e h there = elim (Bool-cases (no_rebind old new)) [
  | inl skip ↦ rw skip there
  | inr go ↦ rw go (
      ground
        (arith, loop_at old new (differ go) t.by_id t.heap a e there, lookup-listed k a t.by_id h))
]
  where
    differ : no_rebind old new ≡ false → (old == new) ≡ false
    differ go = ground arith
