-- ===== src/Table/Tests.antt =====
-- A table with two processes, and inputs on which the theorems about the process table apply.
use etronium_scdr.Prelude.{String, ◌≡◌, refl, none, some, [], pos, lookup, insert, List, ◌∷◌}
use etronium_scdr.Proto.{ProcessInfo, ready, stopped}
use etronium_scdr.Table.{Table, Entry, new_table, new_entry, create_entry, update_state}
use etronium_scdr.Table.Invariant.{IsValid, new_table-IsValid}
use etronium_scdr.Table.Abstract.{Call, rebound, view_at, call_all, spec_call_all}
use etronium_scdr.Table.Refinement.{call_all-refines}
use etronium_scdr.Table.Steps.{Reach, start, next, created, state_changed, Reach-IsValid}

abbrev pub process : String → String → String → ProcessInfo
process id tenant lord = record {
  ref = record { process_id = id; lord_id = lord; local_pid = pos 0 };
  tenant_id = tenant;
  exec_path = "/bin/sh";
  argv = [];
  env = [];
  working_dir = "/";
  state = ready;
  state_changed_at = some 1;
  resources = none;
  cpu_usage_usec_total = pos 0;
  mem_peak_bytes = pos 0;
  exited_at = none;
  exit_code = pos 0;
  exit_signal = pos 0;
  restart_count = pos 0;
  last_error = "";
  state_dump_path = "";
  max_restarts = pos 10;
}

abbrev pub one : Table
one = (create_entry (process "p1" "a" "l1") new_table).1

abbrev two : Table
two = (create_entry (process "p2" "b" "l2") one).1

abbrev stopped_two : Table
stopped_two = update_state 5 stopped "" (pos 0) 1 two

pub one-IsValid : IsValid one
unfolding create_entry lookup insert
one-IsValid = Reach-IsValid (next start (created (process "p1" "a" "l1") refl refl))

two-Reach : Reach two
unfolding create_entry lookup insert
two-Reach =
    next (next start (created (process "p1" "a" "l1") refl refl))
      (created (process "p2" "b" "l2") refl refl)

two-IsValid : IsValid two
two-IsValid = Reach-IsValid two-Reach

stopped_two-Reach : Reach stopped_two
stopped_two-Reach = next two-Reach (state_changed 5 stopped "" (pos 0) 1)

-- the second process of the table
abbrev second : Entry
second = new_entry (process "p2" "b" "l2")

abbrev calls : List Call
calls =
    Call.created (process "p1" "a" "l1")
    ∷ Call.state_changed 3 "p1" stopped "" (pos 0)
    ∷ rebound "l1" "l2"
    ∷ []

call_all-refines_example :
    view_at (call_all calls new_table) "p1" ≡ spec_call_all calls (view_at new_table) "p1"
call_all-refines_example =
    call_all-refines calls new_table "p1" new_table-IsValid
      ((unfold lookup in refl, refl), (tt, (tt, tt)))
