-- ===== src/Table/Abstract.antt =====
-- What the process table promises: a map from ids to processes. The heap, the pointers, the maps of
-- the tenants, the log and the subscribers are forgotten.
use etronium_scdr.Prelude.{
  ℕ, String, ◌≡◌, ◌==◌, Bool, false, ◌&&◌, ◌||◌, not, Option, none, some, List, [], ◌∷◌, ℤ,
  if◌then◌else◌,
}
use etronium_scdr.Proto.{ProcessState, ProcessInfo, is_final}
use etronium_scdr.Table.{
  Entry, Table, create_entry, get, deref, set_state, update_state, update_result,
  update_lord_for_hostname,
}
use etronium_scdr.Table.Rebind.{no_rebind}

-- a process, and whether those who wait for it have been woken
abbrev pub Status : Type 0
Status = ProcessInfo × Bool

abbrev pub Spec : Type 0
Spec = String → Option Status

abbrev pub status : Entry → Status
status e = (e.info, e.exited)

abbrev pub status_of : Option Entry → Option Status
status_of none = none
status_of (some e) = some (status e)

-- the process that a table holds under an id
abbrev pub view_of : Table → Option ℕ → Option Status
view_of t none = none
view_of t (some a) = status_of (deref t a)

abbrev pub view_at : Table → Spec
view_at t k = view_of t (get t k)

abbrev pub on_status : (Status → Status) → Option Status → Option Status
on_status f none = none
on_status f (some p) = some (f p)

-- the calls that change processes; `Get` finds the pointer
pub data Call : Type 0 where
  created : ProcessInfo → Call
  state_changed : ℕ → String → ProcessState → String → ℤ → Call
  finished : ℕ → String → ℤ → ℤ → Call
  rebound : String → String → Call

-- a method called through the pointer that `Get` gives, if it gives one
abbrev pub through_pointer : (ℕ → Table → Table) → Option ℕ → Table → Table
through_pointer op none t = t
through_pointer op (some a) t = op a t

abbrev pub through : String → (ℕ → Table → Table) → Table → Table
through id op t = through_pointer op (get t id) t

unfoldable pub call : Call → Table → Table
call (created info) t = (create_entry info t).1
call (state_changed now id st lord_id local_pid) t =
    through id (update_state now st lord_id local_pid) t
call (finished now id code sig) t = through id (update_result now code sig) t
call (rebound old new) t = (update_lord_for_hostname old new t).1

-- The same on the map.
abbrev pub spec_state : ℕ → ProcessState → String → ℤ → Status → Status
spec_state now st lord_id local_pid (info, woken) =
    (set_state now st lord_id local_pid info, woken || is_final st)

abbrev pub spec_result : ℕ → ℤ → ℤ → Status → Status
spec_result now code sig (info, woken) =
    (record info { exited_at = some now; exit_code = code; exit_signal = sig }, woken)

abbrev pub spec_rebind : String → String → Status → Status
spec_rebind old new (info, woken) =
    if not (no_rebind old new) && info.ref.lord_id == old
    then (record info { ref = record info.ref { lord_id = new } }, woken)
    else (info, woken)

abbrev pub spec_call : Call → Spec → Spec
spec_call (created info) m k = if info.ref.process_id == k then some (info, false) else m k
spec_call (state_changed now id st lord_id local_pid) m k =
    if id == k then on_status (spec_state now st lord_id local_pid) (m k) else m k
spec_call (finished now id code sig) m k =
    if id == k then on_status (spec_result now code sig) (m k) else m k
spec_call (rebound old new) m k = on_status (spec_rebind old new) (m k)

-- a new process has a new id and has not ended
abbrev pub Allowed : Call → Table → Type 0
Allowed (created info) t = (get t info.ref.process_id ≡ none) × (is_final info.state ≡ false)
Allowed _ t = Unit

abbrev pub call_all : List Call → Table → Table
call_all [] t = t
call_all (c ∷ cs) t = call_all cs (call c t)

abbrev pub spec_call_all : List Call → Spec → Spec
spec_call_all [] m = m
spec_call_all (c ∷ cs) m = spec_call_all cs (spec_call c m)

abbrev pub AllAllowed : List Call → Table → Type 0
AllAllowed [] t = Unit
AllAllowed (c ∷ cs) t = Allowed c t × AllAllowed cs (call c t)
