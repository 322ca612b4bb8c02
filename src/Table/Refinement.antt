-- ===== src/Table/Refinement.antt =====
-- The process table implements the map of Table/Abstract.
use etronium_scdr.Prelude.{
  ℕ, String, ◌≡◌, refl, sym, ap, ◌∙◌, ◌==◌, false, none, some, List, [], ◌∷◌, ℤ, if◌then◌else◌,
  Bool-cases, Option-cases, inl, inr, length, not, ◌&&◌,
}
use etronium_scdr.Proto.{ProcessInfo, ProcessState}
use etronium_scdr.Table.{
  Entry, Table, new_entry, create_entry, get, update_state, update_state_entry, update_result,
  update_result_entry, update_lord_for_hostname, set_lord,
}
use etronium_scdr.Table.Invariant.{IsValid}
use etronium_scdr.Table.Create.{create-IsValid, get-create, deref-create_old, deref-create_new}
use etronium_scdr.Table.Steps.{update_state-IsValid, update_result-IsValid, rebind-IsValid}
use etronium_scdr.Table.Rebind.{no_rebind, update_lord_moves}
use etronium_scdr.Table.Access.{
  deref-update_state, deref-update_state_other, deref-update_result, deref-update_result_other,
}
use etronium_scdr.Table.Abstract.{
  Spec, status, view_at, on_status, Call, created, state_changed, finished, rebound, through, call,
  spec_state, spec_result, spec_rebind, spec_call, Allowed, call_all, spec_call_all, AllAllowed,
}
use etronium_scdr.Table.Views.{view-cases, view-known, view-unknown, Rewrites, view-through}

update_state-Rewrites :
    (now : ℕ) (st : ProcessState) (lord_id : String) (local_pid : ℤ)
    → Rewrites
        (update_state now st lord_id local_pid)
        (update_state_entry now st lord_id local_pid)
        (spec_state now st lord_id local_pid)
unfolding update_state update_state_entry
update_state-Rewrites now st lord_id local_pid = record {
  same_ids = λ a t k. refl;
  here = λ a t h. deref-update_state now st lord_id local_pid a t h;
  elsewhere = λ a t b ne. deref-update_state_other now st lord_id local_pid a t b ne;
  agrees = λ e. refl;
}

update_result-Rewrites :
    (now : ℕ) (code sig : ℤ)
    → Rewrites
        (update_result now code sig)
        (update_result_entry now code sig)
        (spec_result now code sig)
unfolding update_result update_result_entry
update_result-Rewrites now code sig = record {
  same_ids = λ a t k. refl;
  here = λ a t h. deref-update_result now code sig a t h;
  elsewhere = λ a t b ne. deref-update_result_other now code sig a t b ne;
  agrees = λ e. refl;
}

view-create :
    (info : ProcessInfo) (t : Table) (k : String)
    → IsValid t
    → get t info.ref.process_id ≡ none
    → view_at (create_entry info t).1 k
      ≡ (if info.ref.process_id == k then some (info, false) else view_at t k)
view-create info t k v fresh = elim (Bool-cases (info.ref.process_id == k)) [
  | inl same ↦ rw same (
      view-known (create_entry info t).1 k (length t.heap) (new_entry info)
        (rw same at (get-create info t v fresh k)) (deref-create_new info t v fresh))
  | inr ne ↦
      let known : get (create_entry info t).1 k ≡ get t k =
        rw ne at (get-create info t v fresh k) in
      rw ne (elim (view-cases v k) [
        | inl absent ↦
            view-unknown (create_entry info t).1 k (known ∙ absent) ∙ sym (view-unknown t k absent)
        | inr (b, x, known', there, named) ↦
            view-known (create_entry info t).1 k b x (known ∙ known')
              (deref-create_old info t v fresh b there)
            ∙ sym (view-known t k b x known' there)
      ])
]

get-rebind :
    (old new : String) (t : Table) (k : String)
    → get (update_lord_for_hostname old new t).1 k ≡ get t k
unfolding update_lord_for_hostname
get-rebind old new t k = elim (Bool-cases (no_rebind old new)) [
  | inl skip ↦ rw skip refl
  | inr go ↦ rw go refl
]

status-moved :
    (old new : String) (e : Entry)
    → status (if not (no_rebind old new) && e.info.ref.lord_id == old then set_lord new e else e)
      ≡ spec_rebind old new (status e)
status-moved old new e = elim (Bool-cases (not (no_rebind old new) && e.info.ref.lord_id == old)) [
  | inl hit ↦ rw hit refl
  | inr miss ↦ rw miss refl
]

view-rebind :
    (old new : String) (t : Table) (k : String)
    → IsValid t
    → view_at (update_lord_for_hostname old new t).1 k
      ≡ on_status (spec_rebind old new) (view_at t k)
view-rebind old new t k v = elim (view-cases v k) [
  | inl absent ↦
      rw
        (
          view-unknown (update_lord_for_hostname old new t).1 k (get-rebind old new t k ∙ absent),
          view-unknown t k absent,
        )
        refl
  | inr (a, e, known, there, named) ↦
      rw
        (
          view-known (update_lord_for_hostname old new t).1 k a
              (if not (no_rebind old new) && e.info.ref.lord_id == old then set_lord new e else e)
              (get-rebind old new t k ∙ known) (update_lord_moves old new k t a e known there),
          view-known t k a e known there,
        )
        (ap some (status-moved old new e))
]

-- Each call does to the processes what the specification says, at every id.
view-call :
    (c : Call) (t : Table) (k : String)
    → IsValid t
    → Allowed c t
    → view_at (call c t) k ≡ spec_call c (view_at t) k
unfolding call
view-call (created info) t k v ok = view-create info t k v ok.0
view-call (state_changed now id st lord_id local_pid) t k v ok =
    view-through (update_state-Rewrites now st lord_id local_pid) id k v
view-call (finished now id code sig) t k v ok =
    view-through (update_result-Rewrites now code sig) id k v
view-call (rebound old new) t k v ok = view-rebind old new t k v

through-IsValid :
    (op : ℕ → Table → Table) (id : String) {t : Table}
    → ((a : ℕ) → IsValid t → IsValid (op a t))
    → IsValid t
    → IsValid (through id op t)
through-IsValid op id {t} keeps v = elim (Option-cases (get t id)) [
  | inl absent ↦ rw (absent, through) v
  | inr (a, known) ↦ rw (known, through) (keeps a v)
]

call-IsValid : (c : Call) (t : Table) → IsValid t → Allowed c t → IsValid (call c t)
unfolding call
call-IsValid (created info) t v ok = create-IsValid info t v ok.0 ok.1
call-IsValid (state_changed now id st lord_id local_pid) t v ok =
    through-IsValid (update_state now st lord_id local_pid) id
      (λ a v. update_state-IsValid now st lord_id local_pid a v) v
call-IsValid (finished now id code sig) t v ok =
    through-IsValid (update_result now code sig) id (λ a v. update_result-IsValid now code sig a v)
      v
call-IsValid (rebound old new) t v ok = rebind-IsValid old new v

spec_call-same :
    (c : Call) (m n : Spec)
    → ((k : String) → m k ≡ n k)
    → (k : String) → spec_call c m k ≡ spec_call c n k
spec_call-same (created info) m n h k = rw h refl
spec_call-same (state_changed now id st lord_id local_pid) m n h k = rw h refl
spec_call-same (finished now id code sig) m n h k = rw h refl
spec_call-same (rebound old new) m n h k = rw h refl

spec_call_all-same :
    (cs : List Call) (m n : Spec)
    → ((k : String) → m k ≡ n k)
    → (k : String) → spec_call_all cs m k ≡ spec_call_all cs n k
spec_call_all-same [] m n h k = h k
spec_call_all-same (c ∷ cs) m n h k =
    spec_call_all-same cs (spec_call c m) (spec_call c n) (spec_call-same c m n h) k

-- The process table implements a map from ids to processes: after any sequence of calls of `Create`
-- with new ids, of `UpdateState` and `UpdateResult` through `Get`, and of `UpdateLordForHostname`, on a
-- valid table, it holds under every id what the same calls on that map leave there, the process and
-- whether those who wait for it have been woken.
pub call_all-refines :
    (cs : List Call) (t : Table) (k : String)
    → IsValid t
    → AllAllowed cs t
    → view_at (call_all cs t) k ≡ spec_call_all cs (view_at t) k
call_all-refines [] t k v ok = refl
call_all-refines (c ∷ cs) t k v ok =
    call_all-refines cs (call c t) k (call-IsValid c t v ok.0) ok.1
    ∙ spec_call_all-same cs (view_at (call c t)) (spec_call c (view_at t))
        (λ j. view-call c t j v ok.0) k
