-- ===== src/Table/Listing.antt =====
-- What the listings of the table return: exactly the processes that they are asked for.
use etronium_scdr.Prelude.{
  ℕ, String, ◌≡◌, refl, sym, ◌∙◌, eq_iff, ◌↔◌, inl, inr, ◌==◌, Bool, true, false, ◌&&◌, ◌||◌, not,
  none, some, ◌∷◌, [], Dict, lookup, arith, if◌then◌else◌, Option-cases, In, Holds, Holds-lookup,
}
use mathlib.Core.Path.{subst}
use etronium_scdr.Proto.{is_running}
use etronium_scdr.Table.{Entry, Table, get, deref, select, holds, list_by_tenant, list_by_lord}
use etronium_scdr.Table.Invariant.{IsValid}

module _ {V : Type 0} (keep : V → Bool) where
  In-select : (d : Dict V) (a : V) → In a (select keep d) → Holds d a × (keep a ≡ true)
  In-select [] a h = elim h [ ]
  In-select ((k, v) ∷ d) a h = split (keep v) refl (In-select d a) h
    where
      split :
          (b : Bool)
          → keep v ≡ b
          → (In a (select keep d) → Holds d a × (keep a ≡ true))
          → In a (if b then v ∷ select keep d else select keep d)
          → Holds ((k, v) ∷ d) a × (keep a ≡ true)
      split true q rest (inl e) = (inl e, rw (← e) q)
      split true q rest (inr h) = (inr (rest h).0, (rest h).1)
      split false q rest h = (inr (rest h).0, (rest h).1)

  select-In : (d : Dict V) (a : V) → Holds d a → keep a ≡ true → In a (select keep d)
  select-In [] a h q = elim h [ ]
  select-In ((k, v) ∷ d) a (inl e) q = rw (e, q) (inl refl)
  select-In ((k, v) ∷ d) a (inr h) q = split (keep v) (select-In d a h q)
    where
      split :
          (b : Bool) → In a (select keep d) → In a (if b then v ∷ select keep d else select keep d)
      split true h = inr h
      split false h = h

-- what a test that reads an entry through a pointer says of that entry
holds_to :
    (p : Entry → Bool) (t : Table) (a : ℕ)
    → holds p t a ≡ true
    → (e : Entry) × (deref t a ≡ some e) × (p e ≡ true)
holds_to p t a h = elim (Option-cases (deref t a)) [
  | inl missing ↦ absurd (ground arith)
  | inr (e, there) ↦ (e, there, ground arith)
]

holds_from :
    (p : Entry → Bool) (t : Table) (a : ℕ) (e : Entry)
    → deref t a ≡ some e
    → p e ≡ true
    → holds p t a ≡ true
holds_from p t a e there h = ground arith

-- `ListByLord` returns a process exactly if the table holds it, its lord is the one asked for, and
-- the filter accepts it.
pub list_by_lord_iff :
    (t : Table) (lord_id : String) (keep : Entry → Bool) (a : ℕ)
    → In a (list_by_lord t lord_id keep) ↔ (
        Holds t.by_id a
        × ((e : Entry) × (deref t a ≡ some e) × (e.info.ref.lord_id ≡ lord_id) × (keep e ≡ true)))
unfolding list_by_lord
list_by_lord_iff t lord_id keep a = (to, from)
  where
    test : Entry → Bool
    test e = e.info.ref.lord_id == lord_id && keep e

    to :
        In a (select (holds test t) t.by_id)
        → Holds t.by_id a
          × ((e : Entry) × (deref t a ≡ some e) × (e.info.ref.lord_id ≡ lord_id) × (keep e ≡ true))
    to h =
        let (held, p) = In-select (holds test t) t.by_id a h in
        let (e, there, q) = holds_to test t a p in
        (held, (e, there, ground (arith, eq_iff e.info.ref.lord_id lord_id), ground arith))

    from :
        Holds t.by_id a
          × ((e : Entry) × (deref t a ≡ some e) × (e.info.ref.lord_id ≡ lord_id) × (keep e ≡ true))
        → In a (select (holds test t) t.by_id)
    from (held, (e, there, same, q)) =
        select-In (holds test t) t.by_id a held
          (holds_from test t a e there (ground (arith, eq_iff e.info.ref.lord_id lord_id)))

-- the test of `ListByTenant`
abbrev wanted : Bool → Entry → Bool
wanted only_running e = not only_running || is_running e.info.state

list_by_tenant-some :
    (t : Table) (tenant_id : String) (only_running : Bool) (d : Dict ℕ)
    → lookup tenant_id t.by_tenant ≡ some d
    → list_by_tenant t tenant_id only_running ≡ select (holds (wanted only_running) t) d
unfolding list_by_tenant
list_by_tenant-some t tenant_id only_running d h = rw (h, list_by_tenant)

list_by_tenant-none :
    (t : Table) (tenant_id : String) (only_running : Bool)
    → lookup tenant_id t.by_tenant ≡ none
    → list_by_tenant t tenant_id only_running ≡ []
unfolding list_by_tenant
list_by_tenant-none t tenant_id only_running h = rw (h, list_by_tenant)

-- In a valid table every process that `ListByTenant` returns is one of that tenant, and runs or is
-- paused if only such ones are asked for.
pub list_by_tenant_sound :
    (t : Table) (tenant_id : String) (only_running : Bool) (a : ℕ)
    → IsValid t
    → In a (list_by_tenant t tenant_id only_running)
    → (e : Entry) × (deref t a ≡ some e)
      × (e.info.tenant_id ≡ tenant_id)
      × ((not only_running || is_running e.info.state) ≡ true)
list_by_tenant_sound t tenant_id only_running a v h =
    elim (Option-cases (lookup tenant_id t.by_tenant)) [
      | inl missing ↦ absurd (subst (In a) (list_by_tenant-none t tenant_id only_running missing) h)
      | inr (d, found) ↦
          let (held, p) =
            In-select (holds (wanted only_running) t) d a
              (subst (In a) (list_by_tenant-some t tenant_id only_running d found) h) in
          let (e, there, q) = holds_to (wanted only_running) t a p in
          let (x, at, own) = v.tenant_own tenant_id d a found held in
          (e, there, same_entry e x tenant_id (sym there ∙ at) own, q)
    ]
  where
    same_entry :
        (e x : Entry) (n : String) → some e ≡ some x → x.info.tenant_id ≡ n → e.info.tenant_id ≡ n
    same_entry e x n p q = ground arith

-- In a valid table `ListByTenant` returns every process of the tenant that the table has under its
-- id, those that do not run left out if only running ones are asked for.
pub list_by_tenant_complete :
    (t : Table) (only_running : Bool) (k : String) (a : ℕ) (e : Entry)
    → IsValid t
    → get t k ≡ some a
    → deref t a ≡ some e
    → (not only_running || is_running e.info.state) ≡ true
    → In a (list_by_tenant t e.info.tenant_id only_running)
list_by_tenant_complete t only_running k a e v h there q =
    let (d, found, at) = v.tenant_all k a e h there in
    subst (In a) (sym (list_by_tenant-some t e.info.tenant_id only_running d found)) (
      select-In (holds (wanted only_running) t) d a (Holds-lookup k a d at)
        (holds_from (wanted only_running) t a e there q))
