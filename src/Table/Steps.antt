-- ===== src/Table/Steps.antt =====
-- Every method of the process table keeps its invariant.
use etronium_scdr.Prelude.{
  ℕ, String, ◌≡◌, refl, ◌==◌, false, none, some, List, ◌∷◌, [], Dict, ℤ, arith, Bool-cases, inl,
  inr, ◌||◌,
}
use etronium_scdr.Proto.{ProcessState, ProcessInfo, is_final}
use etronium_scdr.Table.{
  set_info, Record, state, result, Table, new_table, attach_wal, create_entry, get, deref, update,
  update_state_entry, update_state, update_result_entry, update_result, subscribe_watch,
  cancel_watch, set_lord, lord_is, rebind_loop, update_lord_for_hostname,
}
use etronium_scdr.Table.Invariant.{
  IsValid, Keeps, update-IsValid, wal-IsValid, log_at-IsValid, new_table-IsValid,
}
use etronium_scdr.Table.Create.{create-IsValid}

-- What one entry change of `UpdateState` keeps, and of the other writes.
pub update_state-Keeps :
    (now : ℕ) (st : ProcessState) (lord_id : String) (local_pid : ℤ)
    → Keeps (update_state_entry now st lord_id local_pid)
unfolding update_state_entry
update_state-Keeps now st lord_id local_pid = record {
  id = λ e. refl;
  tenant = λ e. refl;
  shut = λ e c h. ground arith;
}

pub update_result-Keeps : (now : ℕ) (code sig : ℤ) → Keeps (update_result_entry now code sig)
unfolding update_result_entry
update_result-Keeps now code sig = record {
  id = λ e. refl;
  tenant = λ e. refl;
  shut = λ e c h. c h;
}

pub update_state-IsValid :
    (now : ℕ) (st : ProcessState) (lord_id : String) (local_pid : ℤ) (a : ℕ) {t : Table}
    → IsValid t
    → IsValid (update_state now st lord_id local_pid a t)
unfolding update_state
update_state-IsValid now st lord_id local_pid a v =
    update-IsValid (update_state-Keeps now st lord_id local_pid) a
      (log_at-IsValid (λ e. state e.info.ref.process_id st lord_id local_pid) a v)

pub update_result-IsValid :
    (now : ℕ) (code sig : ℤ) (a : ℕ) {t : Table}
    → IsValid t
    → IsValid (update_result now code sig a t)
unfolding update_result
update_result-IsValid now code sig a v =
    update-IsValid (update_result-Keeps now code sig) a
      (log_at-IsValid (λ e. result e.info.ref.process_id code sig) a v)

-- a change of the info that leaves ids and state as they are
pub set_info-Keeps :
    (f : ProcessInfo → ProcessInfo)
    → ((i : ProcessInfo) → (f i).ref.process_id ≡ i.ref.process_id)
    → ((i : ProcessInfo) → (f i).tenant_id ≡ i.tenant_id)
    → ((i : ProcessInfo) → (f i).state ≡ i.state)
    → Keeps (set_info f)
set_info-Keeps f id tenant st = record {
  id = λ e. id e.info;
  tenant = λ e. tenant e.info;
  shut = λ e c h. c (rw (← st e.info) h);
}

set_lord-Keeps : (lord_id : String) → Keeps (set_lord lord_id)
set_lord-Keeps lord_id = record { id = λ e. refl; tenant = λ e. refl; shut = λ e c h. c h }

subscribe_watch-Keeps : Keeps (λ e. (subscribe_watch e).1)
unfolding subscribe_watch
subscribe_watch-Keeps = record { id = λ e. refl; tenant = λ e. refl; shut = λ e c h. c h }

cancel_watch-Keeps : (n : ℕ) → Keeps (cancel_watch n)
unfolding cancel_watch
cancel_watch-Keeps n = record { id = λ e. refl; tenant = λ e. refl; shut = λ e c h. c h }

rebind_loop-IsValid :
    (old new : String) (d : Dict ℕ) {t : Table}
    → IsValid t
    → IsValid (record t { heap = (rebind_loop old new d t.heap).1 })
unfolding rebind_loop
rebind_loop-IsValid old new [] v = v
rebind_loop-IsValid old new ((k, a) ∷ d) {t} v = elim (Bool-cases (lord_is old (deref t a))) [
  | inl e ↦ rw e (rebind_loop-IsValid old new d (update-IsValid (set_lord-Keeps new) a v))
  | inr e ↦ rw e (rebind_loop-IsValid old new d v)
]

pub rebind-IsValid :
    (old new : String) {t : Table} → IsValid t → IsValid (update_lord_for_hostname old new t).1
unfolding update_lord_for_hostname
rebind-IsValid old new {t} v = elim (Bool-cases (old == "" || new == "" || old == new)) [
  | inl e ↦ rw e v
  | inr e ↦ rw e (rebind_loop-IsValid old new t.by_id v)
]

-- One call of a method that changes the table. An id that `Create` is given is new, and the process
-- has not ended: `NewID` makes ULIDs, and `Spawn` creates in state READY.
pub data Step (t : Table) : Table → Type 0 where
  created :
      (info : ProcessInfo)
      → get t info.ref.process_id ≡ none
      → is_final info.state ≡ false
      → Step t (create_entry info t).1
  state_changed :
      (now : ℕ) (st : ProcessState) (lord_id : String) (local_pid : ℤ) (a : ℕ)
      → Step t (update_state now st lord_id local_pid a t)
  finished : (now : ℕ) (code sig : ℤ) (a : ℕ) → Step t (update_result now code sig a t)
  rebound : (old new : String) → Step t (update_lord_for_hostname old new t).1
  watched : (a : ℕ) → Step t (update (λ e. (subscribe_watch e).1) a t)
  unwatched : (n a : ℕ) → Step t (update (cancel_watch n) a t)
  attached : (log : List Record) → Step t (attach_wal log t)

pub data Reach : Table → Type 0 where
  start : Reach new_table
  next : {t u : Table} → Reach t → Step t u → Reach u

-- Each call of a method of the table keeps its invariant.
pub Step-IsValid : {t u : Table} → Step t u → IsValid t → IsValid u
Step-IsValid {t} (created info fresh open_state) v = create-IsValid info t v fresh open_state
Step-IsValid (state_changed now st lord_id local_pid a) v =
    update_state-IsValid now st lord_id local_pid a v
Step-IsValid (finished now code sig a) v = update_result-IsValid now code sig a v
Step-IsValid (rebound old new) v = rebind-IsValid old new v
Step-IsValid (watched a) v = update-IsValid subscribe_watch-Keeps a v
Step-IsValid (unwatched n a) v = update-IsValid (cancel_watch-Keeps n) a v
Step-IsValid (attached log) v = unfold attach_wal in wal-IsValid (some log) v

-- After any sequence of calls on a new table, in any order: an id leads to the entry of that
-- process; the tenants' maps and the map of ids lead to the same entries, each under its own tenant;
-- and an entry in state EXITED or STOPPED has its `exited` channel closed.
pub Reach-IsValid : {t : Table} → Reach t → IsValid t
Reach-IsValid start = new_table-IsValid
Reach-IsValid (next r st) = Step-IsValid st (Reach-IsValid r)
