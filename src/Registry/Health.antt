-- ===== src/Registry/Health.antt =====
-- The health of lords: heartbeats, the sweep, and what the listings show.
use etronium_scdr.Prelude.{
  ℕ, ◌+◌, ◌≤◌, String, ◌≡◌, refl, ◌↔◌, ◌==◌, Bool, true, false, ◌&&◌, not, none, some, [], ◌∷◌,
  Dict, lookup, insert, ℤ, arith, if◌then◌else◌, Option-cases, ◌⊎◌, inl, inr, In, Holds,
}
use etronium_scdr.Proto.{Lord}
use etronium_scdr.Registry.{
  LordEntry, Registry, update_stats, set_stats, mark_down, is_lost, sweep_loop, sweep_heartbeats,
  list_loop, list_all,
}

abbrev pub swept : ℕ → ℕ → LordEntry → LordEntry
swept now ttl e = if is_lost now ttl e then mark_down e else e

-- the entry of a key after the sweep
lookup-sweep_loop :
    (now ttl : ℕ) (d : Dict LordEntry) (id : String)
    → lookup id (sweep_loop now ttl d).1
      ≡ elim (lookup id d) [ none ↦ none | some e ↦ some (swept now ttl e) ]
unfolding sweep_loop lookup
lookup-sweep_loop now ttl [] id = refl
lookup-sweep_loop now ttl ((j, e) ∷ d) id = ground (arith, lookup-sweep_loop now ttl d id)

-- a key whose entry the sweep takes down
abbrev pub Lost : ℕ → ℕ → Dict LordEntry → String → Type 0
Lost now ttl [] id = ⊥
Lost now ttl ((j, e) ∷ d) id = ((j ≡ id) × (is_lost now ttl e ≡ true)) ⊎ Lost now ttl d id

In-sweep_loop :
    (now ttl : ℕ) (d : Dict LordEntry) (id : String)
    → In id (sweep_loop now ttl d).0 ↔ Lost now ttl d id
unfolding sweep_loop
In-sweep_loop now ttl [] id = (λ h. h, λ h. h)
In-sweep_loop now ttl ((j, e) ∷ d) id = split (is_lost now ttl e) refl (In-sweep_loop now ttl d id)
  where
    split :
        (b : Bool)
        → is_lost now ttl e ≡ b
        → In id (sweep_loop now ttl d).0 ↔ Lost now ttl d id
        → In id (if b then j ∷ (sweep_loop now ttl d).0 else (sweep_loop now ttl d).0)
          ↔ Lost now ttl ((j, e) ∷ d) id
    split true q rest = (
      λ h. elim h [ inl same ↦ inl (same, q) | inr later ↦ inr (rest.0 later) ],
      λ h. elim h [ inl this ↦ inl this.0 | inr later ↦ inr (rest.1 later) ],
    )
    split false q rest = (
      λ h. inr (rest.0 h),
      λ h. elim h [ inl this ↦ absurd (cc this.1) | inr later ↦ rest.1 later ],
    )

-- The sweep returns exactly the ids of the lords that were healthy and whose last heartbeat is more
-- than the time to live ago.
pub sweep-Lost :
    (now ttl : ℕ) (r : Registry) (id : String)
    → In id (sweep_heartbeats now ttl r).0 ↔ Lost now ttl r.by_id id
unfolding sweep_heartbeats
sweep-Lost now ttl r id = In-sweep_loop now ttl r.by_id id

-- After the sweep every lord that still counts as healthy has sent a heartbeat within the time to
-- live, and the rest of its entry is as before.
pub sweep_fresh :
    (now ttl : ℕ) (r : Registry) (id : String) (e : LordEntry)
    → lookup id (sweep_heartbeats now ttl r).1.by_id ≡ some e
    → e.healthy ≡ true
    → (now ≤ e.last_heartbeat + ttl) × (lookup id r.by_id ≡ some e)
unfolding sweep_heartbeats
sweep_fresh now ttl r id e h up = elim (Option-cases (lookup id r.by_id)) [
  | inl absent ↦ absurd (ground (arith, lookup-sweep_loop now ttl r.by_id id))
  | inr (x, found) ↦ ground (arith, lookup-sweep_loop now ttl r.by_id id)
]

Holds-insert_self : (k : String) (e : LordEntry) (d : Dict LordEntry) → Holds (insert k e d) e
unfolding insert
Holds-insert_self k e [] = inl refl
Holds-insert_self k e ((j, x) ∷ d) = split (j == k) (Holds-insert_self k e d)
  where
    split :
        (b : Bool)
        → Holds (insert k e d) e
        → Holds (if b then (k, e) ∷ d else (j, x) ∷ insert k e d) e
    split true h = inl refl
    split false h = inr h

listed-Holds :
    (d : Dict LordEntry) (e : LordEntry)
    → Holds d e
    → e.healthy ≡ true
    → In e.info (list_loop true d)
listed-Holds [] e h up = elim h [ ]
listed-Holds ((id, x) ∷ d) e (inl same) up = rw (same, up) (inl refl)
listed-Holds ((id, x) ∷ d) e (inr later) up = split x.healthy (listed-Holds d e later up)
  where
    split :
        (b : Bool)
        → In e.info (list_loop true d)
        → In e.info (if true && not b then list_loop true d else x.info ∷ list_loop true d)
    split true h = inr h
    split false h = h

-- A heartbeat from a lord that was taken down makes it a healthy one again for the placement, and
-- `ListLords` of the healthy lords shows it, but with its own `healthy` field still false.
pub heartbeat_leaves_flag_down :
    (now : ℕ) (id : String) (cpu mem procs : ℤ) (r : Registry) (e : LordEntry)
    → lookup id r.by_id ≡ some (mark_down e)
    → (l : Lord) × In l (list_all (update_stats now id cpu mem procs r).1 true)
      × (l.lord_id ≡ e.info.lord_id)
      × (l.healthy ≡ false)
unfolding update_stats list_all
heartbeat_leaves_flag_down now id cpu mem procs r e found = (
  (set_stats now cpu mem procs (mark_down e)).info,
  rw (found, list_loop)
      (listed-Holds (insert id (set_stats now cpu mem procs (mark_down e)) r.by_id)
        (set_stats now cpu mem procs (mark_down e))
        (Holds-insert_self id (set_stats now cpu mem procs (mark_down e)) r.by_id) refl),
  refl,
  refl,
)
