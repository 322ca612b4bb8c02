-- ===== src/Wal/Recovery.antt =====
-- A restarted scheduler has the table that it had, up to the times of changes, the captured output
-- and the subscribers. This is about the methods that write to the log.
use mathlib.Core.List.{map-append}
use etronium_scdr.Prelude.{
  ℕ, String, ◌≡◌, refl, sym, ap, ap₂, ◌∙◌, Bool, ◌||◌, none, [], ◌∷◌, ◌++◌, map, Dict, lookup,
  insert, ℤ, length, length-map, modify, map-modify, get_elem?-map_eq,
}
use etronium_scdr.Proto.{ProcessState, ProcessInfo, is_final}
use etronium_scdr.Table.{
  Table, Entry, Record, new_entry, tenant_map, create_entry, set_state, update_state_entry,
  update_state, update_result_entry, update_result, log_at, update,
}
use etronium_scdr.Table.Invariant.{IsValid}

-- what a restart preserves of an entry
abbrev pub view : Entry → ProcessInfo × Bool
view e = (record e.info { state_changed_at = none; exited_at = none }, e.exited)

pub record SameView (u t : Table) : Type 0 where
  pub heap : map view u.heap ≡ map view t.heap
  pub by_id : u.by_id ≡ t.by_id
  pub by_tenant : u.by_tenant ≡ t.by_tenant

pub SameView-refl : (t : Table) → SameView t t
SameView-refl t = record { heap = refl; by_id = refl; by_tenant = refl }

pub SameView-trans : {s t u : Table} → SameView s t → SameView t u → SameView s u
SameView-trans a b = record {
  heap = a.heap ∙ b.heap;
  by_id = a.by_id ∙ b.by_id;
  by_tenant = a.by_tenant ∙ b.by_tenant;
}

pub SameView-symm : {s t : Table} → SameView s t → SameView t s
SameView-symm a = record { heap = sym a.heap; by_id = sym a.by_id; by_tenant = sym a.by_tenant }

view_state : ProcessState → String → ℤ → ProcessInfo × Bool → ProcessInfo × Bool
view_state st lord_id local_pid (info, done) = (
  record (set_state 0 st lord_id local_pid info) { state_changed_at = none },
  done || is_final st,
)

view-update_state :
    (now : ℕ) (st : ProcessState) (lord_id : String) (local_pid : ℤ) (e : Entry)
    → view (update_state_entry now st lord_id local_pid e)
      ≡ view_state st lord_id local_pid (view e)
unfolding update_state_entry view_state
view-update_state now st lord_id local_pid e = refl

view_result : ℤ → ℤ → ProcessInfo × Bool → ProcessInfo × Bool
view_result code sig (info, done) = (record info { exit_code = code; exit_signal = sig }, done)

view-update_result :
    (now : ℕ) (code sig : ℤ) (e : Entry)
    → view (update_result_entry now code sig e) ≡ view_result code sig (view e)
unfolding update_result_entry view_result
view-update_result now code sig e = refl

-- the same change of one entry on both sides, at any two times
SameView-update :
    (f f' : Entry → Entry) (g : ProcessInfo × Bool → ProcessInfo × Bool)
    → ((e : Entry) → view (f e) ≡ g (view e))
    → ((e : Entry) → view (f' e) ≡ g (view e))
    → (a : ℕ) {u t : Table} → SameView u t
    → SameView (update f a u) (update f' a t)
SameView-update f f' g p p' a {u} {t} s = record {
  heap =
      map-modify view f g p a u.heap
      ∙ ap (modify g a) s.heap
      ∙ sym (map-modify view f' g p' a t.heap);
  by_id = s.by_id;
  by_tenant = s.by_tenant;
}

SameView-log_at :
    (f f' : Entry → Record) (a : ℕ) {u t : Table}
    → SameView u t
    → SameView (log_at f a u) (log_at f' a t)
SameView-log_at f f' a s = record { heap = s.heap; by_id = s.by_id; by_tenant = s.by_tenant }

pub SameView-create :
    (info : ProcessInfo) {u t : Table}
    → SameView u t
    → SameView (create_entry info u).1 (create_entry info t).1
unfolding create_entry
SameView-create info {u} {t} s = record {
  heap = rw (map-append, map-append) (ap (λ l. l ++ view (new_entry info) ∷ []) s.heap);
  by_id = ap₂ (insert info.ref.process_id) same_length s.by_id;
  by_tenant =
      ap₂
        (λ (n : ℕ) (d : Dict (Dict ℕ)).
          insert info.tenant_id
            (insert info.ref.process_id n (tenant_map (lookup info.tenant_id d))) d)
        same_length s.by_tenant;
}
  where
    same_length : length u.heap ≡ length t.heap
    same_length = sym (length-map view u.heap) ∙ ap length s.heap ∙ length-map view t.heap

pub SameView-update_state :
    (now now' : ℕ) (st : ProcessState) (lord_id : String) (local_pid : ℤ) (a : ℕ) {u t : Table}
    → SameView u t
    → SameView
        (update_state now st lord_id local_pid a u)
        (update_state now' st lord_id local_pid a t)
unfolding update_state
SameView-update_state now now' st lord_id local_pid a s =
    SameView-update (update_state_entry now st lord_id local_pid)
      (update_state_entry now' st lord_id local_pid) (view_state st lord_id local_pid)
      (view-update_state now st lord_id local_pid) (view-update_state now' st lord_id local_pid) a
      (SameView-log_at _ _ a s)

pub SameView-update_result :
    (now now' : ℕ) (code sig : ℤ) (a : ℕ) {u t : Table}
    → SameView u t
    → SameView (update_result now code sig a u) (update_result now' code sig a t)
unfolding update_result
SameView-update_result now now' code sig a s =
    SameView-update (update_result_entry now code sig) (update_result_entry now' code sig)
      (view_result code sig) (view-update_result now code sig) (view-update_result now' code sig) a
      (SameView-log_at _ _ a s)

-- the invariant speaks of the view alone
pub SameView-IsValid : {u t : Table} → SameView u t → IsValid t → IsValid u
SameView-IsValid {u} {t} s v = record {
  by_id_ok = λ k a h.
      let (e, there, same) = v.by_id_ok k a (ap (lookup k) (sym s.by_id) ∙ h) in
      let (x, at, alike) = get_elem?-map_eq view a u.heap t.heap s.heap there in
      (x, at, ap (λ (w : ProcessInfo × Bool). w.0.ref.process_id) alike ∙ same);
  tenant_ok = λ n k d a h h'.
      ap (lookup k) s.by_id ∙ v.tenant_ok n k d a (ap (lookup n) (sym s.by_tenant) ∙ h) h';
  tenant_all = λ k a e h there.
      let (x, at, alike) = get_elem?-map_eq view a t.heap u.heap (sym s.heap) there in
      let (d, found, held) = v.tenant_all k a x (ap (lookup k) (sym s.by_id) ∙ h) at in
      (
        d,
        ap₂ lookup (ap (λ (w : ProcessInfo × Bool). w.0.tenant_id) (sym alike)) s.by_tenant ∙ found,
        held,
      );
  tenant_own = λ n d a h held.
      let (e, there, same) = v.tenant_own n d a (ap (lookup n) (sym s.by_tenant) ∙ h) held in
      let (x, at, alike) = get_elem?-map_eq view a u.heap t.heap s.heap there in
      (x, at, ap (λ (w : ProcessInfo × Bool). w.0.tenant_id) alike ∙ same);
  closed = λ a e there final.
      let (x, at, alike) = get_elem?-map_eq view a t.heap u.heap (sym s.heap) there in
      ap (λ (w : ProcessInfo × Bool). w.1) (sym alike)
      ∙ v.closed a x at (ap (λ (w : ProcessInfo × Bool). is_final w.0.state) alike ∙ final);
}
