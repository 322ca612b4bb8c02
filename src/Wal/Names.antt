-- ===== src/Wal/Names.antt =====
-- The names of the states in the log.
use etronium_scdr.Prelude.{◌≡◌, refl, some}
use etronium_scdr.Proto.{
  ProcessState, unspecified, new, ready, running, paused, migrating, exited, stopped, restarting,
}
use etronium_scdr.Wal.{state_name, process_state_by_name}

-- Every state is read back from the name that it is logged under.
pub process_state_by_name-state_name :
    (st : ProcessState) → process_state_by_name (state_name st) ≡ some st
unfolding state_name process_state_by_name
process_state_by_name-state_name unspecified = refl
process_state_by_name-state_name new = refl
process_state_by_name-state_name ready = refl
process_state_by_name-state_name running = refl
process_state_by_name-state_name paused = refl
process_state_by_name-state_name migrating = refl
process_state_by_name-state_name exited = refl
process_state_by_name-state_name stopped = refl
process_state_by_name-state_name restarting = refl
