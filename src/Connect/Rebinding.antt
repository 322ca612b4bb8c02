-- ===== src/Connect/Rebinding.antt =====
-- The re-binding of processes when a lord with a known hostname connects.
use etronium_scdr.Prelude.{
  String, ◌≡◌, ◌≢◌, ◌==◌, eq_iff, eq_refl, [], ◌∷◌, ◌++◌, Dict, lookup, insert, arith,
  if◌then◌else◌, ℕ, suc, ℤ, true, false, Option, none, some, refl, ap, sym, ◌∙◌, In, length, inl,
  inr, Bool-cases,
}
use etronium_scdr.Table.{Table, Entry, get, deref, set_lord}
use etronium_scdr.Table.Rebind.{update_lord_moves}
use etronium_scdr.Registry.{LordEntry, register, find_by_hostname, hostname_loop}
use etronium_scdr.Server.{Server}
use etronium_scdr.Connect.{RegisterRequest, new_lord, rebind, connect_lord}

-- If the search by hostname visits the lord that has just been registered first, no process moves.
rebind_misses_old_lord :
    (lord_id hostname : String) (e : LordEntry) (rest : Dict LordEntry) (t : Table)
    → e.info.hostname ≡ hostname
    → rebind lord_id hostname ((lord_id, e) ∷ rest) t ≡ t
unfolding rebind find_by_hostname
rebind_misses_old_lord lord_id hostname e rest t same =
    ground (arith, eq_iff e.info.hostname hostname, eq_refl lord_id)

-- If a lord connects with a hostname and the search by it finds another lord, each process of the
-- table on that one moves to the new lord, and every other one stays where it was.
pub rebind_moves :
    (lord_id hostname k : String) (visited : Dict LordEntry) (t : Table) (a : ℕ) (e : Entry)
    → hostname ≢ ""
    → lord_id ≢ ""
    → find_by_hostname hostname visited ≢ ""
    → find_by_hostname hostname visited ≢ lord_id
    → get t k ≡ some a
    → deref t a ≡ some e
    → deref (rebind lord_id hostname visited t) a
      ≡ some (
          if e.info.ref.lord_id == find_by_hostname hostname visited then set_lord lord_id e else e)
unfolding rebind
rebind_moves lord_id hostname k visited t a e named ided found other known there = ground (
  arith,
  update_lord_moves (find_by_hostname hostname visited) lord_id k t a e known there,
  eq_iff hostname "",
  eq_iff lord_id "",
  eq_iff (find_by_hostname hostname visited) "",
  eq_iff (find_by_hostname hostname visited) lord_id,
)

-- one order of the entries of a map
pub record IsOrderOf (visited d : Dict LordEntry) : Type 0 where
  pub only : (x : String × LordEntry) → In x visited → In x d
  pub all : (x : String × LordEntry) → In x d → In x visited
  pub no_more : length visited ≡ length d

module _ (id : String) (e : LordEntry) where
  insert_fresh : (d : Dict LordEntry) → lookup id d ≡ none → insert id e d ≡ d ++ (id, e) ∷ []
  unfolding lookup insert
  insert_fresh [] fresh = refl
  insert_fresh ((j, w) ∷ d) fresh = elim (Bool-cases (j == id)) [
    | inl same ↦ absurd (ground arith)
    | inr other ↦
        rw (other, insert) (ap (λ l. (j, w) ∷ l) (insert_fresh d (rw (other, lookup) at fresh)))
  ]

  In-snoc :
      (x : String × LordEntry) (d : Dict LordEntry) → In x (d ++ (id, e) ∷ []) → In x ((id, e) ∷ d)
  In-snoc x [] h = h
  In-snoc x (y ∷ d) (inl here) = inr (inl here)
  In-snoc x (y ∷ d) (inr later) = elim (In-snoc x d later) [
    | inl own ↦ inl own
    | inr rest ↦ inr (inr rest)
  ]

  In-last : (d : Dict LordEntry) (x : String × LordEntry) → ((id, e) ≡ x) → In x (d ++ (id, e) ∷ [])
  In-last [] x h = inl h
  In-last (y ∷ d) x h = inr (In-last d x h)

  In-before : (d : Dict LordEntry) (x : String × LordEntry) → In x d → In x (d ++ (id, e) ∷ [])
  In-before [] x h = absurd h
  In-before (y ∷ d) x (inl here) = inl here
  In-before (y ∷ d) x (inr later) = inr (In-before d x later)

  length-snoc : (d : Dict LordEntry) → length (d ++ (id, e) ∷ []) ≡ suc (length d)
  length-snoc [] = refl
  length-snoc (y ∷ d) = ap suc (length-snoc d)

  first-IsOrderOf :
      (d : Dict LordEntry) → lookup id d ≡ none → IsOrderOf ((id, e) ∷ d) (insert id e d)
  first-IsOrderOf d fresh = rw (insert_fresh d fresh) (record {
    only = λ x h. elim h [ inl own ↦ In-last d x own | inr rest ↦ In-before d x rest ];
    all = λ x h. In-snoc x d h;
    no_more = sym (length-snoc d);
  })

  hostname_loop-insert :
      (hostname : String) (d : Dict LordEntry)
      → lookup id d ≡ none
      → hostname_loop hostname d ≢ ""
      → hostname_loop hostname (insert id e d) ≡ hostname_loop hostname d
  unfolding lookup insert
  hostname_loop-insert hostname [] fresh found = absurd (found refl)
  hostname_loop-insert hostname ((j, w) ∷ d) fresh found = elim (Bool-cases (j == id)) [
    | inl same ↦ absurd (ground arith)
    | inr other ↦ elim (Bool-cases (w.info.hostname == hostname)) [
      | inl hit ↦ rw (other, insert, hit) refl
      | inr miss ↦
          rw (other, insert, miss)
            (hostname_loop-insert hostname d (rw (other, lookup) at fresh) (rw miss at found))
    ]
  ]

  find_by_hostname-insert :
      (hostname : String) (d : Dict LordEntry)
      → hostname ≢ ""
      → lookup id d ≡ none
      → find_by_hostname hostname d ≢ ""
      → find_by_hostname hostname (insert id e d) ≡ find_by_hostname hostname d
  unfolding find_by_hostname
  find_by_hostname-insert hostname d named fresh found = elim (Bool-cases (hostname == "")) [
    | inl empty ↦ absurd (named (ground (arith, eq_iff hostname "")))
    | inr given ↦ rw given (hostname_loop-insert hostname d fresh (rw given at found))
  ]

module _ (lord_id_from_hostname : String → ℕ) (to_uint32 : ℤ → ℕ) (now : ℕ) (lord_id : String)
    (req : RegisterRequest) (s : Server) where
  -- the registry that the search by hostname goes through
  abbrev pub registered : Dict LordEntry
  registered = (register now (new_lord lord_id req) s.lords).by_id

  -- the process table after the lord has connected
  abbrev pub table_after : Dict LordEntry → Table
  table_after visited =
      (connect_lord lord_id_from_hostname to_uint32 now lord_id req visited s).processes

  -- A lord connects under a new id, with the hostname of a lord that has been registered before. Where the
  -- search by hostname, which finds the older lord before the new one is registered, goes through the
  -- registry in one order, a process on the older lord moves to the new one; in another order of the
  -- same registry, it stays on the older one.
  pub rebind_by_order :
      (k : String) (a : ℕ) (e : Entry)
      → req.hostname ≢ ""
      → lord_id ≢ ""
      → lookup lord_id s.lords.by_id ≡ none
      → find_by_hostname req.hostname s.lords.by_id ≢ ""
      → find_by_hostname req.hostname s.lords.by_id ≢ lord_id
      → get s.processes k ≡ some a
      → deref s.processes a ≡ some e
      → e.info.ref.lord_id ≡ find_by_hostname req.hostname s.lords.by_id
      → (moving staying : Dict LordEntry) × IsOrderOf moving registered
        × (deref (table_after moving) a ≡ some (set_lord lord_id e))
        × IsOrderOf staying registered
        × (deref (table_after staying) a ≡ some e)
  unfolding connect_lord register
  rebind_by_order k a e named ided fresh found other known there home =
      let x : LordEntry = record {
        info = new_lord lord_id req;
        last_heartbeat = now;
        healthy = true;
        drain_requested = false;
      } in
      let old : find_by_hostname req.hostname (insert lord_id x s.lords.by_id)
          ≡ find_by_hostname req.hostname s.lords.by_id =
        find_by_hostname-insert lord_id x req.hostname s.lords.by_id named fresh found in
      (
        insert lord_id x s.lords.by_id,
        (lord_id, x) ∷ s.lords.by_id,
        record { only = λ y h. h; all = λ y h. h; no_more = refl },
        rebind_moves lord_id req.hostname k (insert lord_id x s.lords.by_id) s.processes a e named
              ided (λ eq. found (sym old ∙ eq)) (λ eq. other (sym old ∙ eq)) known there
            ∙ by_home (sym old),
        first-IsOrderOf lord_id x s.lords.by_id fresh,
        rw (rebind_misses_old_lord lord_id req.hostname x s.lords.by_id s.processes refl) there,
      )
    where
      by_home :
          {f : String}
          → find_by_hostname req.hostname s.lords.by_id ≡ f
          → ◌≡◌ {A = Option Entry}
              (some (if e.info.ref.lord_id == f then set_lord lord_id e else e))
              (some (set_lord lord_id e))
      by_home {f} eq = ground (arith, eq_iff e.info.ref.lord_id f)
