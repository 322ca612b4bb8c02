-- ===== src/Autoscale/Apply.antt =====
-- `applyDecision` and `pickColdestProcessOnLord` of internal/scheduler/autoscale.go, and one tick of
-- the loop of `StartAutoscale`. Logging is left out.
use etronium_scdr.Prelude.{
  ℕ, ◌-◌, ◌/◌, ◌^◌, String, ◌==◌, Bool, true, ◌&&◌, Option, none, some, List, [], ◌∷◌, Dict, ltb,
  if◌then◌else◌,
}
use etronium_scdr.Float.{Float}
use etronium_scdr.Table.{Entry, Table, deref}
use etronium_scdr.Server.{Server, Result, ok, err, second}
use etronium_scdr.Recovery.{MigrateRequest, MigrateResponse, migrate}
use etronium_scdr.Autoscale.{Decision, is_move, AutoscaleConfig, LordScore, AutoscaleState}
use etronium_scdr.Autoscale.Sampling.{sample}
use etronium_scdr.Autoscale.Rounds.{decide}

-- whole seconds since a time; one that is not there is the start of the epoch
abbrev pub age : ℕ → Option ℕ → ℕ
age now none = now / second
age now (some t) = (now - t) / second

abbrev pub max_uint64 : ℕ
max_uint64 = 2 ^ 64 - 1

-- on the lord, and younger than the best so far
abbrev pub is_younger : ℕ → String → ℕ → Entry → Bool
is_younger now lord_id best e =
    e.info.ref.lord_id == lord_id && ltb (age now e.info.state_changed_at) best

-- one turn of the loop: the best id so far and its age
abbrev pub younger : ℕ → String → String → Option Entry → String × ℕ → String × ℕ
younger now lord_id id none best = best
younger now lord_id id (some e) best =
    if is_younger now lord_id best.1 e then (id, age now e.info.state_changed_at) else best

unfoldable pub youngest_loop : ℕ → String → Table → Dict ℕ → String × ℕ → String × ℕ
youngest_loop now lord_id t [] best = best
youngest_loop now lord_id t ((id, a) ∷ d) best =
    youngest_loop now lord_id t d (younger now lord_id id (deref t a) best)

-- `pickColdestProcessOnLord`
unfoldable pub pick_coldest_process : ℕ → String → Table → String
unfolding youngest_loop
pick_coldest_process now lord_id t = (youngest_loop now lord_id t t.by_id ("", max_uint64)).0

-- the error of a call whose answer is not used
abbrev pub without_answer : Result MigrateResponse × Server → Result (Unit {0}) × Server
without_answer (ok resp, s) = (ok tt, s)
without_answer (err e, s) = (err e, s)

abbrev pub move_request : String → Decision → MigrateRequest
move_request id d = record { process_id = id; target_lord_id = d.to_lord; auto = true }

module _ (fl : Float) where
  open fl use {F}

  -- a process off the lord of the decision, if there is one
  unfoldable pub apply_move : ℕ → Decision → String → Server → Result (Unit {0}) × Server
  apply_move now d id s =
      if id == "" then (ok tt, s) else without_answer (migrate fl now (move_request id d) s)

  -- `applyDecision`
  unfoldable pub apply_decision : ℕ → Decision → Server → Result (Unit {0}) × Server
  unfolding apply_move
  apply_decision now d s =
      if is_move d.action
      then apply_move now d (pick_coldest_process now d.from_lord s.processes) s
      else (ok tt, s)

  -- the decisions of a round, one after the other; an error does not stop the loop
  unfoldable pub apply_decisions : ℕ → List Decision → Server → Server
  apply_decisions now [] s = s
  apply_decisions now (d ∷ ds) s = apply_decisions now ds (apply_decision now d s).1

  -- a tick of the loop of `StartAutoscale`
  unfoldable pub tick :
      AutoscaleConfig fl
      → (Dict (LordScore fl) → Dict (LordScore fl))
      → (String → F)
      → (String → F)
      → Dict F
      → ℕ
      → AutoscaleState fl × Server
      → AutoscaleState fl × Server
  unfolding apply_decisions
  tick cfg sort cpu_of mem_of rates now (st, s) =
      let (ds, st') = decide fl cfg now sort (sample fl cfg cpu_of mem_of rates s.lords.by_id st) in
      (st', apply_decisions now ds s)
