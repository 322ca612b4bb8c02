-- ===== src/Table.antt =====
-- internal/scheduler/process_table.go: `ProcessTable` and `ProcessEntry`. The two maps share their
-- entries: an entry lives on a heap, and a pointer to it is its index there. The mutexes make each
-- method one step; the time of a call is an argument.
pub mod Invariant
pub mod Create
pub mod Steps
pub mod Listing
pub mod Rebind
pub mod Access
pub mod Abstract
pub mod Views
pub mod Refinement
pub mod Tests
use etronium_scdr.Prelude.{
  ℕ, ◌+◌, suc, String, ◌==◌, Bool, true, false, ◌&&◌, ◌||◌, not, Option, none, some, List, [], ◌∷◌,
  ◌++◌, map, Dict, lookup, insert, ℤ, pos, eqb_ℤ, eqb, ltb, if◌then◌else◌, length, get_elem?,
  modify,
}
use etronium_scdr.Proto.{ProcessState, ProcessInfo, ProcessRef, is_final, is_running}
use etronium_scdr.Ring.{Ring, new_ring, ring_bytes}

-- a line of the write-ahead log, as the `Append` functions of wal.go give it to the encoder
pub data Record : Type 0 where
  create : ProcessInfo → Record
  state : String → ProcessState → String → ℤ → Record
  result : String → ℤ → ℤ → Record

-- The event's `Ref` is the entry's own pointer, and its type is always STATE_CHANGED.
pub record ProcessEvent : Type 0 where
  pub at : ℕ
  pub new_state : ProcessState

-- `number` stands for the identity of the cancel channel; `events` is what waits in a channel of 16.
pub record Watcher : Type 0 where
  pub number : ℕ
  pub events : List ProcessEvent

pub record Entry : Type 0 where
  pub info : ProcessInfo
  pub exited : Bool
  pub io_buf : Ring
  pub io_last_sent : ℕ
  pub watchers : List Watcher
  pub next_watcher : ℕ

pub record Table : Type 0 where
  pub heap : List Entry
  pub by_id : Dict ℕ
  pub by_tenant : Dict (Dict ℕ)
  pub wal : Option (List Record)

abbrev pub new_table : Table
new_table = record { heap = []; by_id = []; by_tenant = []; wal = none }

unfoldable pub attach_wal : List Record → Table → Table
attach_wal w t = record t { wal = some w }

-- the methods of `WAL` on a nil receiver do nothing
abbrev pub append_wal : Record → Option (List Record) → Option (List Record)
append_wal r none = none
append_wal r (some w) = some (w ++ r ∷ [])

abbrev pub new_entry : ProcessInfo → Entry
new_entry info = record {
  info = info;
  exited = false;
  io_buf = new_ring ring_bytes;
  io_last_sent = 0;
  watchers = [];
  next_watcher = 0;
}

-- `t.byTenant[tenant]`, made where it is missing
abbrev pub tenant_map : Option (Dict ℕ) → Dict ℕ
tenant_map none = []
tenant_map (some d) = d

-- `Create` returns the pointer to the new entry.
unfoldable pub create_entry : ProcessInfo → Table → ℕ × Table
create_entry info t =
    let a = length t.heap in
    (
      a,
      record {
        heap = t.heap ++ new_entry info ∷ [];
        by_id = insert info.ref.process_id a t.by_id;
        by_tenant =
            insert info.tenant_id
              (insert info.ref.process_id a (tenant_map (lookup info.tenant_id t.by_tenant)))
              t.by_tenant;
        wal = append_wal (create info) t.wal;
      },
    )

abbrev pub get : Table → String → Option ℕ
get t process_id = lookup process_id t.by_id

abbrev pub deref : Table → ℕ → Option Entry
deref t a = get_elem? t.heap a

-- a change of one entry through its pointer
abbrev pub update : (Entry → Entry) → ℕ → Table → Table
update f a t = record t { heap = modify f a t.heap }

-- `select { case w.events <- ev: … default: }` on a channel of 16
abbrev pub notify : ProcessEvent → Watcher → Watcher
notify ev w = if ltb (length w.events) 16 then record w { events = w.events ++ ev ∷ [] } else w

-- the part of `UpdateState` that writes `Info`
unfoldable pub set_state : ℕ → ProcessState → String → ℤ → ProcessInfo → ProcessInfo
set_state now st lord_id local_pid info = record info {
  state = st;
  state_changed_at = some now;
  ref = record info.ref {
    lord_id = if lord_id == "" then info.ref.lord_id else lord_id;
    local_pid = if eqb_ℤ local_pid (pos 0) then info.ref.local_pid else local_pid;
  };
}

unfoldable pub update_state_entry : ℕ → ProcessState → String → ℤ → Entry → Entry
unfolding set_state
update_state_entry now st lord_id local_pid e = record e {
  info = set_state now st lord_id local_pid e.info;
  exited = e.exited || is_final st;
  watchers = map (notify (record { at = now; new_state = st })) e.watchers;
}

abbrev pub log_at : (Entry → Record) → ℕ → Table → Table
log_at f a t = record t {
  wal = elim (deref t a) [ none ↦ t.wal | some e ↦ append_wal (f e) t.wal ];
}

unfoldable pub update_state : ℕ → ProcessState → String → ℤ → ℕ → Table → Table
unfolding update_state_entry
update_state now st lord_id local_pid a t =
    update (update_state_entry now st lord_id local_pid) a
      (log_at (λ e. state e.info.ref.process_id st lord_id local_pid) a t)

unfoldable pub update_result_entry : ℕ → ℤ → ℤ → Entry → Entry
update_result_entry now exit_code exit_signal e = record e {
  info = record e.info { exited_at = some now; exit_code = exit_code; exit_signal = exit_signal };
}

unfoldable pub update_result : ℕ → ℤ → ℤ → ℕ → Table → Table
unfolding update_result_entry
update_result now exit_code exit_signal a t =
    update (update_result_entry now exit_code exit_signal) a
      (log_at (λ e. result e.info.ref.process_id exit_code exit_signal) a t)

-- a write of `Info` under `entry.mu`
abbrev pub set_info : (ProcessInfo → ProcessInfo) → Entry → Entry
set_info f e = record e { info = f e.info }

unfoldable pub subscribe_watch : Entry → ℕ × Entry
subscribe_watch e = (
  e.next_watcher,
  record e {
    watchers = e.watchers ++ record { number = e.next_watcher; events = [] } ∷ [];
    next_watcher = suc e.next_watcher;
  },
)

-- the first watcher with that cancel channel goes
abbrev pub remove_watcher : ℕ → List Watcher → List Watcher
remove_watcher n [] = []
remove_watcher n (w ∷ ws) = if eqb w.number n then ws else w ∷ remove_watcher n ws

unfoldable pub cancel_watch : ℕ → Entry → Entry
cancel_watch n e = record e { watchers = remove_watcher n e.watchers }

-- a `range` loop over a map that collects the values for which a test holds
abbrev pub select {ℓ} : {V : Type ℓ} → (V → Bool) → Dict V → List V
select keep [] = []
select keep ((k, v) ∷ d) = if keep v then v ∷ select keep d else select keep d

-- A pointer that a map holds is never dangling; `false` there is not reached (Table/Invariant).
abbrev pub holds : (Entry → Bool) → Table → ℕ → Bool
holds p t a = elim (deref t a) [ none ↦ false | some e ↦ p e ]

unfoldable pub list_by_tenant : Table → String → Bool → List ℕ
list_by_tenant t tenant_id only_running = elim (lookup tenant_id t.by_tenant) [
  | none ↦ []
  | some d ↦ select (holds (λ e. not only_running || is_running e.info.state) t) d
]

unfoldable pub list_by_lord : Table → String → (Entry → Bool) → List ℕ
list_by_lord t lord_id keep =
    select (holds (λ e. e.info.ref.lord_id == lord_id && keep e) t) t.by_id

unfoldable pub all_entries : Table → List ℕ
all_entries t = select (λ a. true) t.by_id

abbrev pub set_lord : String → Entry → Entry
set_lord lord_id = set_info (λ info. record info { ref = record info.ref { lord_id = lord_id } })

abbrev pub lord_is : String → Option Entry → Bool
lord_is old none = false
lord_is old (some e) = e.info.ref.lord_id == old

-- the loop of `UpdateLordForHostname`, over the pointers that are left
unfoldable pub rebind_loop : String → String → Dict ℕ → List Entry → ℕ × List Entry
rebind_loop old new [] heap = (0, heap)
rebind_loop old new ((k, a) ∷ d) heap =
    let hit = lord_is old (get_elem? heap a) in
    let (n, heap') = rebind_loop old new d (if hit then modify (set_lord new) a heap else heap) in
    ((if hit then suc n else n), heap')

unfoldable pub update_lord_for_hostname : String → String → Table → ℕ × Table
unfolding rebind_loop
update_lord_for_hostname old new t =
    if old == "" || new == "" || old == new
    then (0, t)
    else (let (n, heap) = rebind_loop old new t.by_id t.heap in (n, record t { heap = heap }))
