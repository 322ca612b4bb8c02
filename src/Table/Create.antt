-- ===== src/Table/Create.antt =====
-- `Create` keeps the invariant of the table, if the id is new.
use etronium_scdr.Prelude.{
  ℕ, String, ◌≡◌, ◌==◌, eq_iff, eq_refl, true, false, none, some, Dict, lookup, insert,
  lookup-insert, arith, if◌then◌else◌, Bool-cases, Option-cases, Holds, Holds-insert, sym, ◌∙◌, ◌⊎◌,
  inl, inr, length, get_elem?_lt, get_elem?-append_length, get_elem?-snoc_from, get_elem?-snoc_some,
}
use mathlib.Core.Path.{subst}
use etronium_scdr.Proto.{ProcessInfo, is_final}
use etronium_scdr.Table.{Entry, Table, new_entry, create_entry, get, deref, tenant_map}
use etronium_scdr.Table.Invariant.{IsValid}

module _ (info : ProcessInfo) (t : Table) (v : IsValid t)
    (fresh : get t info.ref.process_id ≡ none) where
  abbrev t' : Table
  t' = (create_entry info t).1

  abbrev pid : String
  pid = info.ref.process_id

  pub get-create : (k : String) → get t' k ≡ (if pid == k then some (length t.heap) else get t k)
  unfolding create_entry
  get-create k = lookup-insert k pid (length t.heap) t.by_id

  by_tenant-create :
      (n : String)
      → lookup n t'.by_tenant ≡ (
          if info.tenant_id == n
          then some (insert pid (length t.heap) (tenant_map (lookup info.tenant_id t.by_tenant)))
          else lookup n t.by_tenant)
  unfolding create_entry
  by_tenant-create n = lookup-insert n info.tenant_id _ t.by_tenant

  pub deref-create_old : (b : ℕ) {e : Entry} → deref t b ≡ some e → deref t' b ≡ some e
  unfolding create_entry
  deref-create_old b h = get_elem?-snoc_some t.heap (new_entry info) b h

  deref-create_from :
      (b : ℕ) {e : Entry}
      → deref t' b ≡ some e
      → (deref t b ≡ some e) ⊎ ((b ≡ length t.heap) × (new_entry info ≡ e))
  unfolding create_entry
  deref-create_from b h = get_elem?-snoc_from t.heap (new_entry info) b h

  pub deref-create_new : deref t' (length t.heap) ≡ some (new_entry info)
  unfolding create_entry
  deref-create_new = get_elem?-append_length t.heap (new_entry info)

  create-by_id :
      (k : String) (a : ℕ)
      → get t' k ≡ some a
      → (e : Entry) × (deref t' a ≡ some e) × (e.info.ref.process_id ≡ k)
  create-by_id k a h = elim (Bool-cases (pid == k)) [
    | inl e ↦ (new_entry info, ground (arith, get-create k, deref-create_new), (eq_iff pid k).0 e)
    | inr ne ↦
        let (x, there, same) = v.by_id_ok k a (ground (arith, get-create k)) in
        (x, deref-create_old a there, same)
  ]

  tenant_map_ok :
      (k : String) (a : ℕ)
      → lookup k (tenant_map (lookup info.tenant_id t.by_tenant)) ≡ some a
      → get t k ≡ some a
  tenant_map_ok k a h = elim (Option-cases (lookup info.tenant_id t.by_tenant)) [
    | inl e ↦ absurd (unfold lookup in ground arith)
    | inr (d, e) ↦ v.tenant_ok info.tenant_id k d a e (rw e at h)
  ]

  create-tenant :
      (n k : String) (d : Dict ℕ) (a : ℕ)
      → lookup n t'.by_tenant ≡ some d
      → lookup k d ≡ some a
      → get t' k ≡ some a
  create-tenant n k d a h h' = elim (Bool-cases (info.tenant_id == n)) [
    | inl e ↦ ground (
      arith,
      get-create k,
      by_tenant-create n,
      tenant_map_ok k a,
      lookup-insert k pid (length t.heap) (tenant_map (lookup info.tenant_id t.by_tenant)),
    )
    | inr ne ↦
        ground (arith, get-create k, by_tenant-create n, v.tenant_ok n k d a, fresh, eq_iff pid k)
  ]

  create-tenant_old :
      (k : String) (a : ℕ) (e : Entry)
      → (pid == k) ≡ false
      → get t k ≡ some a
      → deref t a ≡ some e
      → (d : Dict ℕ) × (lookup e.info.tenant_id t'.by_tenant ≡ some d) × (lookup k d ≡ some a)
  create-tenant_old k a e ne h there =
      let (d, found, at) = v.tenant_all k a e h there in
      elim (Bool-cases (info.tenant_id == e.info.tenant_id)) [
        | inl same ↦ (
          insert pid (length t.heap) (tenant_map (lookup info.tenant_id t.by_tenant)),
          rw (by_tenant-create e.info.tenant_id, same),
          rw (lookup-insert, ne, (eq_iff info.tenant_id e.info.tenant_id).0 same, found) at,
        )
        | inr other ↦ (d, rw (by_tenant-create e.info.tenant_id, other) found, at)
      ]

  create-tenant_all :
      (k : String) (a : ℕ) (e : Entry)
      → get t' k ≡ some a
      → deref t' a ≡ some e
      → (d : Dict ℕ) × (lookup e.info.tenant_id t'.by_tenant ≡ some d) × (lookup k d ≡ some a)
  create-tenant_all k a e h there = elim (Bool-cases (pid == k)) [
    | inl new ↦ elim (deref-create_from a there) [
      | inl old ↦ absurd (omega (arith, get_elem?_lt t.heap a e old, same_address new))
      | inr made ↦ (
        insert pid (length t.heap) (tenant_map (lookup info.tenant_id t.by_tenant)),
        rw (← made.1, by_tenant-create info.tenant_id, eq_refl info.tenant_id),
        rw (lookup-insert, new, made.0),
      )
    ]
    | inr old ↦ elim (deref-create_from a there) [
      | inl before ↦ create-tenant_old k a e old (before_get old) before
      | inr made ↦
          let (x, at, same) = v.by_id_ok k a (before_get old) in
          absurd (omega (arith, get_elem?_lt t.heap a x at, made.0))
    ]
  ]
    where
      same_address : (pid == k) ≡ true → a ≡ length t.heap
      same_address new = ground (arith, get-create k)

      before_get : (pid == k) ≡ false → get t k ≡ some a
      before_get old = ground (arith, get-create k)

  tenant_map_own :
      (b : ℕ)
      → Holds (tenant_map (lookup info.tenant_id t.by_tenant)) b
      → (e : Entry) × (deref t b ≡ some e) × (e.info.tenant_id ≡ info.tenant_id)
  tenant_map_own b held = elim (Option-cases (lookup info.tenant_id t.by_tenant)) [
    | inl e ↦ absurd (rw e at held)
    | inr (d, e) ↦ v.tenant_own info.tenant_id d b e (rw e at held)
  ]

  create-tenant_own :
      (n : String) (d : Dict ℕ) (b : ℕ)
      → lookup n t'.by_tenant ≡ some d
      → Holds d b
      → (e : Entry) × (deref t' b ≡ some e) × (e.info.tenant_id ≡ n)
  create-tenant_own n d b h held = elim (Bool-cases (info.tenant_id == n)) [
    | inl e ↦
        elim (Holds-insert pid (length t.heap) b (tenant_map (lookup info.tenant_id t.by_tenant))
          (subst (λ (m : Dict ℕ). Holds m b) (sym (same_map e)) held)) [
            | inl new ↦ (new_entry info, rw (← new) deref-create_new, (eq_iff info.tenant_id n).0 e)
            | inr old ↦
                let (x, there, same) = tenant_map_own b old in
                (x, deref-create_old b there, same ∙ (eq_iff info.tenant_id n).0 e)
          ]
    | inr ne ↦
        let (x, there, same) = v.tenant_own n d b (ground (arith, by_tenant-create n)) held in
        (x, deref-create_old b there, same)
  ]
    where
      same_map :
          (info.tenant_id == n) ≡ true
          → insert pid (length t.heap) (tenant_map (lookup info.tenant_id t.by_tenant)) ≡ d
      same_map e = ground (arith, by_tenant-create n)

  pub create-IsValid : is_final info.state ≡ false → IsValid t'
  create-IsValid open_state = record {
    by_id_ok = create-by_id;
    tenant_ok = create-tenant;
    tenant_all = create-tenant_all;
    tenant_own = create-tenant_own;
    closed = λ b e there. elim (deref-create_from b there) [
      | inl old ↦ v.closed b e old
      | inr made ↦ rw (← made.1) (λ final. cc)
    ];
  }
