-- ===== src/Table/Invariant.antt =====
-- What holds of the process table after any calls: the two maps agree on their entries, no pointer
-- dangles, and a process in a final state has its `exited` channel closed.
use etronium_scdr.Prelude.{
  ℕ, String, ◌≡◌, ap, ◌∙◌, true, Option, none, some, List, Dict, lookup, ◌⊎◌, inl, inr, Holds,
  get_elem?-modify-some, get_elem?-modify_from,
}
use etronium_scdr.Proto.{is_final}
use etronium_scdr.Table.{Record, Entry, Table, new_table, get, deref, update, log_at, append_wal}

-- a final state is one that `Wait` has been told of
abbrev pub IsClosed : Entry → Type 0
IsClosed e = is_final e.info.state ≡ true → e.exited ≡ true

pub record IsValid (t : Table) : Type 0 where
  pub by_id_ok :
      (k : String) (a : ℕ)
      → get t k ≡ some a
      → (e : Entry) × (deref t a ≡ some e) × (e.info.ref.process_id ≡ k)
  pub tenant_ok :
      (n k : String) (d : Dict ℕ) (a : ℕ)
      → lookup n t.by_tenant ≡ some d
      → lookup k d ≡ some a
      → get t k ≡ some a
  pub tenant_all :
      (k : String) (a : ℕ) (e : Entry)
      → get t k ≡ some a
      → deref t a ≡ some e
      → (d : Dict ℕ) × (lookup e.info.tenant_id t.by_tenant ≡ some d) × (lookup k d ≡ some a)
  pub tenant_own :
      (n : String) (d : Dict ℕ) (a : ℕ)
      → lookup n t.by_tenant ≡ some d
      → Holds d a
      → (e : Entry) × (deref t a ≡ some e) × (e.info.tenant_id ≡ n)
  pub closed : (a : ℕ) (e : Entry) → deref t a ≡ some e → IsClosed e

-- a change of an entry that the maps do not notice
pub record Keeps (f : Entry → Entry) : Type 0 where
  pub id : (e : Entry) → (f e).info.ref.process_id ≡ e.info.ref.process_id
  pub tenant : (e : Entry) → (f e).info.tenant_id ≡ e.info.tenant_id
  pub shut : (e : Entry) → IsClosed e → IsClosed (f e)

module _ {f : Entry → Entry} (keeps : Keeps f) where
  same_id : (x y : Entry) → ((y ≡ x) ⊎ (y ≡ f x)) → y.info.ref.process_id ≡ x.info.ref.process_id
  same_id x y (inl e) = ap (λ (z : Entry). z.info.ref.process_id) e
  same_id x y (inr e) = ap (λ (z : Entry). z.info.ref.process_id) e ∙ keeps.id x

  same_tenant : (x y : Entry) → ((y ≡ x) ⊎ (y ≡ f x)) → y.info.tenant_id ≡ x.info.tenant_id
  same_tenant x y (inl e) = ap (λ (z : Entry). z.info.tenant_id) e
  same_tenant x y (inr e) = ap (λ (z : Entry). z.info.tenant_id) e ∙ keeps.tenant x

  still-IsClosed : (x y : Entry) → ((y ≡ x) ⊎ (y ≡ f x)) → IsClosed x → IsClosed y
  still-IsClosed x y (inl e) h = rw e h
  still-IsClosed x y (inr e) h = rw e (keeps.shut x h)

  pub update-IsValid : (a : ℕ) {t : Table} → IsValid t → IsValid (update f a t)
  update-IsValid a {t} v = record {
    by_id_ok = λ k b h.
        let (x, there, same) = v.by_id_ok k b h in
        let (y, now, which) = get_elem?-modify-some f a b t.heap there in
        (y, now, same_id x y which ∙ same);
    tenant_ok = v.tenant_ok;
    tenant_all = λ k b y h now.
        let (x, there, which) = get_elem?-modify_from f a b t.heap now in
        rw (same_tenant x y which) (v.tenant_all k b x h there);
    tenant_own = λ n d b h held.
        let (x, there, same) = v.tenant_own n d b h held in
        let (y, now, which) = get_elem?-modify-some f a b t.heap there in
        (y, now, same_tenant x y which ∙ same);
    closed = λ b y now.
        let (x, there, which) = get_elem?-modify_from f a b t.heap now in
        still-IsClosed x y which (v.closed b x there);
  }

-- the log is no part of the invariant
pub wal-IsValid :
    (w : Option (List Record)) {t : Table} → IsValid t → IsValid (record t { wal = w })
wal-IsValid w v = record {
  by_id_ok = v.by_id_ok;
  tenant_ok = v.tenant_ok;
  tenant_all = v.tenant_all;
  tenant_own = v.tenant_own;
  closed = v.closed;
}

pub log_at-IsValid : (f : Entry → Record) (a : ℕ) {t : Table} → IsValid t → IsValid (log_at f a t)
log_at-IsValid f a {t} v =
    wal-IsValid (elim (deref t a) [ none ↦ t.wal | some e ↦ append_wal (f e) t.wal ]) v

pub new_table-IsValid : IsValid new_table
unfolding lookup
new_table-IsValid = record {
  by_id_ok = λ k a h. absurd (cc);
  tenant_ok = λ n k d a h. cc;
  tenant_all = λ k a e h. absurd (cc);
  tenant_own = λ n d a h. absurd (cc);
  closed = λ a e h. cc;
}
