-- ===== src/Autoscale/Applied.antt =====
-- What `applyDecision` does to the server.
use etronium_scdr.Prelude.{
  ℕ, String, ◌≡◌, ◌≢◌, refl, ◌==◌, eq_iff, true, false, some, List, [], ◌∷◌, Dict, lookup, arith,
  Bool-cases, inl, inr, In,
}
use etronium_scdr.Proto.{is_final}
use etronium_scdr.Float.{Float}
use etronium_scdr.Table.{Entry, get, deref}
use etronium_scdr.Server.{Server, Result, ok, err}
use etronium_scdr.Recovery.{MigrateResponse, migrate, migrated}
use etronium_scdr.Recovery.Respawn.{Outcome, skipped, refused, respawned, failed}
use etronium_scdr.Recovery.Invariant.{IsSound, migrate-IsSound}
use etronium_scdr.Recovery.Moved.{
  Migration, nowhere, stays, moves, target, migrate-Migration, migrate_tells_old_lord_nothing,
}
use etronium_scdr.Autoscale.{Decision, is_move}
use etronium_scdr.Autoscale.Apply.{
  pick_coldest_process, move_request, without_answer, apply_move, apply_decision, apply_decisions,
}
use etronium_scdr.Autoscale.Youngest.{pick_coldest_process_sound}

-- a Go map has each key once
abbrev pub IsMap : Dict ℕ → Type 0
IsMap d = (k : String) (a : ℕ) → In (k, a) d → lookup k d ≡ some a

module _ (fl : Float) (now : ℕ) (d : Decision) (s : Server) where
  abbrev picked : String
  picked = pick_coldest_process now d.from_lord s.processes

  without_answer_state : (out : Result MigrateResponse × Server) → (without_answer out).1 ≡ out.1
  without_answer_state (ok resp, s') = refl
  without_answer_state (err e, s') = refl

  -- what holds of the server before and after each move holds after the decision
  apply_decision_cases :
      (P : Server → Type 0)
      → P s
      → (picked ≢ "" → P (migrate fl now (move_request picked d) s).1)
      → P (apply_decision fl now d s).1
  unfolding apply_decision apply_move
  apply_decision_cases P same moved = elim (Bool-cases (is_move d.action)) [
    | inl move ↦ elim (Bool-cases (picked == "")) [
      | inl nobody ↦ rw (move, apply_decision, nobody) same
      | inr somebody ↦
          rw (move, apply_decision, somebody)
            (rw (without_answer_state (migrate fl now (move_request picked d) s))
              (moved (named somebody)))
    ]
    | inr other ↦ rw (other, apply_decision) same
  ]
    where
      named : (picked == "") ≡ false → picked ≢ ""
      named somebody e = ground (arith, eq_iff picked "")

  apply_decision-IsSound : IsSound s → IsSound (apply_decision fl now d s).1
  apply_decision-IsSound v =
      apply_decision_cases IsSound v (λ h. migrate-IsSound fl now (move_request picked d) s v)

  -- A decision of the autoscaler to move a process off a lord sends nothing to that lord, given that
  -- the table has each id once: whatever becomes of the process, the copy on the lord that was
  -- overloaded is not told to stop.
  pub apply_decision_tells_old_lord_nothing :
      IsMap s.processes.by_id
      → lookup d.from_lord (apply_decision fl now d s).1.sessions ≡ lookup d.from_lord s.sessions
  apply_decision_tells_old_lord_nothing keys =
      apply_decision_cases (λ u. lookup d.from_lord u.sessions ≡ lookup d.from_lord s.sessions) refl
        (λ found.
          let (years, o, least) = pick_coldest_process_sound now d.from_lord s.processes found in
          rw o.on_lord at (
            migrate_tells_old_lord_nothing fl now (move_request picked d) s o.pointer o.entry
              (keys picked o.pointer o.listed) o.there))

  Migration-ended :
      (a : ℕ) (e : Entry)
      → is_final e.info.state ≡ true
      → {out : Result MigrateResponse × Server} → Migration fl now (move_request picked d) s a e out
      → out.1 ≡ s
  Migration-ended a e ended (nowhere chosen absent) = refl
  Migration-ended a e ended (stays same) = refl
  Migration-ended a e ended (moves {out} ne o) = unchanged out o
    where
      unchanged :
          (out : Result (Unit {0}) × Server)
          → Outcome now (target fl now (move_request picked d) s a e) a s e out
          → (migrated a (target fl now (move_request picked d) s a e) out).1 ≡ s
      unchanged (ok u, s') (skipped over) = refl
      unchanged (ok u, s') (respawned live few q) = absurd (cc)
      unchanged (err why, s') (refused live many) = absurd (cc)
      unchanged (err why, s') (failed f live few blocked) = absurd (cc)

  -- If the process that `pickColdestProcessOnLord` names has ended, the decision of the autoscaler
  -- leaves the whole server as it is: nothing moves off the lord.
  pub apply_decision_ended :
      (a : ℕ) (e : Entry)
      → get s.processes (pick_coldest_process now d.from_lord s.processes) ≡ some a
      → deref s.processes a ≡ some e
      → is_final e.info.state ≡ true
      → (apply_decision fl now d s).1 ≡ s
  apply_decision_ended a e known there ended =
      apply_decision_cases (λ u. u ≡ s) refl
        (λ found.
          Migration-ended a e ended
            (migrate-Migration fl now (move_request picked d) s a e known there))

module _ (fl : Float) where
  -- Applying the decisions of a round keeps the process table valid.
  pub apply_decisions-IsSound :
      (now : ℕ) (ds : List Decision) (s : Server)
      → IsSound s
      → IsSound (apply_decisions fl now ds s)
  unfolding apply_decisions
  apply_decisions-IsSound now [] s v = v
  apply_decisions-IsSound now (d ∷ ds) s v =
      apply_decisions-IsSound now ds (apply_decision fl now d s).1
        (apply_decision-IsSound fl now d s v)
