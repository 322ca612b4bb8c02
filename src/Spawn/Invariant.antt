-- ===== src/Spawn/Invariant.antt =====
-- `Spawn` keeps the invariant of the process table.
use etronium_scdr.Prelude.{ℕ, String, ◌≡◌, refl, Option, none, ap, sym, negsuc, pos, length}
use mathlib.Core.Path.{subst}
use etronium_scdr.Proto.{ProcessInfo, SpawnRequest, stopped}
use etronium_scdr.Float.{Float}
use etronium_scdr.Table.{get}
use etronium_scdr.Table.Invariant.{IsValid}
use etronium_scdr.Table.Create.{create-IsValid}
use etronium_scdr.Table.Steps.{update_state-IsValid, update_result-IsValid}
use etronium_scdr.Server.{Server, Result}
use etronium_scdr.Spawn.{new_info, spawn_process}
use etronium_scdr.Spawn.Outcome.{
  Outcome, rejected, unplaced, unconnected, failed, started, with_entry, spawn_process-Outcome,
}

module _ (fl : Float) (now : ℕ) (id : String) (req : SpawnRequest) (s : Server) where
  with_entry-IsValid :
      (lord_id : String)
      → IsValid s.processes
      → get s.processes id ≡ none
      → IsValid (with_entry (new_info now id lord_id req) s).processes
  unfolding new_info
  with_entry-IsValid lord_id v fresh =
      create-IsValid (new_info now id lord_id req) s.processes v fresh refl

  Outcome-IsValid :
      {out : Result (Option ProcessInfo) × Server}
      → Outcome fl now id req s out
      → IsValid s.processes
      → get s.processes id ≡ none
      → IsValid out.1.processes
  Outcome-IsValid (rejected why) v fresh = v
  Outcome-IsValid (unplaced good p) v fresh = v
  Outcome-IsValid (unconnected lord good p q) v fresh = v
  Outcome-IsValid (failed lord sess good p live full left) v fresh =
      update_result-IsValid now (negsuc 0) (pos 0) (length s.processes.heap) (
        update_state-IsValid now stopped "" (pos 0) (length s.processes.heap)
          (with_entry-IsValid lord.lord_id v fresh))
  Outcome-IsValid (started {s'} st) v fresh =
      subst IsValid (sym (ap (λ (x : Server). x.processes) st.sending.after))
        (with_entry-IsValid st.lord.lord_id v fresh)

  -- Whatever its outcome, `Spawn` leaves a valid process table, if it was given one and a new id.
  pub spawn_process-IsValid :
      IsValid s.processes
      → get s.processes id ≡ none
      → IsValid (spawn_process fl now id req s).1.processes
  spawn_process-IsValid v fresh = Outcome-IsValid (spawn_process-Outcome fl now id req s) v fresh
