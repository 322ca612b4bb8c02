-- ===== src/Recovery/Invariant.antt =====
-- Recovery and migration keep the invariant of the process table.
use etronium_scdr.Prelude.{
  ℕ, zero, suc, ◌-◌, String, refl, Bool, List, [], ◌∷◌, ℤ, pos, negsuc, Bool-cases, Option-cases,
  inl, inr, ltb, lookup, insert, ◌&&◌, ◌==◌,
}
use etronium_scdr.Proto.{ProcessInfo, stopped, restarting, is_final, incr32}
use etronium_scdr.Float.{Float}
use etronium_scdr.Table.{get, deref, list_by_lord}
use etronium_scdr.Table.Invariant.{IsValid, update-IsValid}
use etronium_scdr.Table.Steps.{update_state-IsValid, update_result-IsValid, set_info-Keeps}
use etronium_scdr.Registry.{pick}
use etronium_scdr.Server.{Server, Result, ok, err, send_event}
use etronium_scdr.Server.Sending.{processes-send_event}
use etronium_scdr.Recovery.{
  give_up, mark_restarting, after_respawn, send_respawn, exhausted, respawn, restarts, ack_timeout,
  respawnable, respawn_pass, max_attempts, recovery_loop, stop_one, stop_restarting,
  recover_candidates, is_recent, recover, MigrateRequest, migrated, migrate_to, asked, target_of,
  migrate,
}
use etronium_scdr.Recovery.Respawn.{marked}

-- a server whose process table is valid
abbrev pub IsSound : Server → Type 0
IsSound s = IsValid s.processes

give_up-IsSound :
    (now : ℕ) (message : String) (code : ℤ) (a : ℕ) (s : Server)
    → IsSound s
    → IsSound (give_up now message code a s)
unfolding give_up
give_up-IsSound now message code a s v = update_result-IsValid now code (pos 0) a (
    update_state-IsValid now stopped "" (pos 0) a (
      update-IsValid
        (set_info-Keeps (λ info. record info { last_error = message }) (λ i. refl) (λ i. refl)
          (λ i. refl))
        a v))

marked-IsSound :
    (now : ℕ) (new_lord : String) (a : ℕ) (s : Server)
    → IsSound s
    → IsSound (marked now new_lord a s)
unfolding mark_restarting
marked-IsSound now new_lord a s v =
    update-IsValid
      (set_info-Keeps
        (λ info. record info {
          ref = record info.ref { lord_id = new_lord };
          restart_count = incr32 info.restart_count;
        })
        (λ i. refl) (λ i. refl) (λ i. refl))
      a (update_state-IsValid now restarting "" (pos 0) a v)

after_respawn-IsSound :
    (now a : ℕ) (out : Result (Unit {0}) × Server)
    → IsSound out.1
    → IsSound (after_respawn now a out).1
unfolding after_respawn
after_respawn-IsSound now a (ok u, s) v = v
after_respawn-IsSound now a (err e, s) v = give_up-IsSound now "respawn failed" (negsuc 1) a s v

send_respawn-IsSound :
    (now : ℕ) (new_lord : String) (a : ℕ) (s : Server)
    → IsSound s
    → IsSound (send_respawn now new_lord a s).1
unfolding send_respawn
send_respawn-IsSound now new_lord a s v = elim (Option-cases (deref s.processes a)) [
  | inl absent ↦ rw (absent, send_respawn) v
  | inr (e, found) ↦
      rw (found, send_respawn)
        (after_respawn-IsSound now a (send_event new_lord _ s)
          (rw (processes-send_event new_lord _ s) v))
]

-- A respawn leaves a valid process table valid, whatever its outcome.
pub respawn-IsSound :
    (now : ℕ) (new_lord : String) (a : ℕ) (s : Server)
    → IsSound s
    → IsSound (respawn now new_lord a s).1
unfolding respawn
respawn-IsSound now new_lord a s v = elim (Option-cases (deref s.processes a)) [
  | inl absent ↦ rw (absent, respawn) v
  | inr (e, found) ↦ elim (Bool-cases (is_final e.info.state)) [
    | inl over ↦ rw (found, respawn, over) v
    | inr live ↦ elim (Bool-cases (exhausted e.info)) [
      | inl many ↦
          rw (found, respawn, live, many)
            (give_up-IsSound now "max_restarts reached" (negsuc 3) a s v)
      | inr few ↦
          rw (found, respawn, live, few)
            (send_respawn-IsSound now new_lord a (marked now new_lord a s)
              (marked-IsSound now new_lord a s v))
    ]
  ]
]

pub ack_timeout-IsSound : (now a : ℕ) (s : Server) → IsSound s → IsSound (ack_timeout now a s)
unfolding ack_timeout
ack_timeout-IsSound now a s v = elim (Bool-cases (restarts a s.processes)) [
  | inl hit ↦ rw hit (give_up-IsSound now "respawn ack timeout (>30s)" (negsuc 2) a s v)
  | inr miss ↦ rw miss v
]

respawn_pass-IsSound :
    (now : ℕ) (target : String) (as' : List ℕ) (s : Server)
    → IsSound s
    → IsSound (respawn_pass now target as' s).1
unfolding respawn_pass
respawn_pass-IsSound now target [] s v = v
respawn_pass-IsSound now target (a ∷ as') s v =
    respawn_pass-IsSound now target as' (respawn now target a s).1
      (respawn-IsSound now target a s v)

pub stop_one-IsSound : (now a : ℕ) (s : Server) → IsSound s → IsSound (stop_one now a s)
unfolding stop_one
stop_one-IsSound now a s v = elim (Bool-cases (restarts a s.processes)) [
  | inl hit ↦ rw hit (give_up-IsSound now "no lord available for respawn" (negsuc 4) a s v)
  | inr miss ↦ rw miss v
]

stop_restarting-IsSound :
    (now : ℕ) (as' : List ℕ) (s : Server) → IsSound s → IsSound (stop_restarting now as' s)
unfolding stop_restarting
stop_restarting-IsSound now [] s v = v
stop_restarting-IsSound now (a ∷ as') s v =
    stop_restarting-IsSound now as' (stop_one now a s) (stop_one-IsSound now a s v)

module _ (fl : Float) (between : ℕ → Server → Server)
    (keeps : (k : ℕ) (s : Server) → IsSound s → IsSound (between k s)) where
  recovery_loop-IsSound :
      (left now : ℕ) (as' : List ℕ) (s : Server)
      → IsSound s
      → IsSound (recovery_loop fl between left now as' s)
  unfolding recovery_loop
  recovery_loop-IsSound zero now as' s v = v
  recovery_loop-IsSound (suc left) now as' s v =
      let s₁ = between (max_attempts - suc left) s in
      let v₁ = keeps (max_attempts - suc left) s v in
      elim (Option-cases (pick fl "" s₁.lords)) [
        | inl absent ↦ rw (absent, recovery_loop) (recovery_loop-IsSound left now as' s₁ v₁)
        | inr (lord, found) ↦
            let s₂ = (respawn_pass now lord.lord_id as' s₁).1 in
            let v₂ : IsSound s₂ = respawn_pass-IsSound now lord.lord_id as' s₁ v₁ in
            elim (Bool-cases (ltb 0 (respawn_pass now lord.lord_id as' s₁).0)) [
              | inl some_done ↦ rw (found, recovery_loop, some_done) v₂
              | inr none_done ↦
                  rw (found, recovery_loop, none_done) (recovery_loop-IsSound left now as' s₂ v₂)
            ]
      ]

  recover_candidates-IsSound :
      (now : ℕ) (as' : List ℕ) (s : Server)
      → IsSound s
      → IsSound (recover_candidates fl between now as' s)
  unfolding recover_candidates
  recover_candidates-IsSound now [] s v = v
  recover_candidates-IsSound now (a ∷ as') s v =
      stop_restarting-IsSound now (a ∷ as') (recovery_loop fl between max_attempts now (a ∷ as') s)
        (recovery_loop-IsSound max_attempts now (a ∷ as') s v)

  -- A recovery leaves a valid process table valid, if what happens while it sleeps does.
  pub recover-IsSound :
      (now : ℕ) (dead : String) (s : Server) → IsSound s → IsSound (recover fl between now dead s)
  unfolding recover
  recover-IsSound now dead s v =
      elim (Bool-cases (is_recent now (lookup dead s.last_recovery_at))) [
        | inl recent ↦ rw recent v
        | inr first ↦ rw first (
            recover_candidates-IsSound now (list_by_lord s.processes dead respawnable)
              (record s { last_recovery_at = insert dead now s.last_recovery_at }) v)
      ]

migrated-IsSound :
    (a : ℕ) (target : String) (out : Result (Unit {0}) × Server)
    → IsSound out.1
    → IsSound (migrated a target out).1
migrated-IsSound a target (ok u, s) v = v
migrated-IsSound a target (err e, s) v = v

migrate_to-IsSound :
    (now : ℕ) (chosen : Bool) (target : String) (a : ℕ) (info : ProcessInfo) (s : Server)
    → IsSound s
    → IsSound (migrate_to now chosen target a info s).1
unfolding migrate_to
migrate_to-IsSound now chosen target a info s v = elim (Bool-cases (chosen && target == "")) [
  | inl nowhere ↦ rw (nowhere, migrate_to) v
  | inr found ↦ elim (Bool-cases (target == info.ref.lord_id)) [
    | inl same ↦ rw (found, migrate_to, same) v
    | inr other ↦
        rw (found, migrate_to, other)
          (migrated-IsSound a target (respawn now target a s) (respawn-IsSound now target a s v))
  ]
]

-- A migration leaves a valid process table valid, whatever it answers.
pub migrate-IsSound :
    (fl : Float) (now : ℕ) (req : MigrateRequest) (s : Server)
    → IsSound s
    → IsSound (migrate fl now req s).1
unfolding migrate
migrate-IsSound fl now req s v = elim (Option-cases (get s.processes req.process_id)) [
  | inl absent ↦ rw (absent, migrate) v
  | inr (a, known) ↦ elim (Option-cases (deref s.processes a)) [
    | inl dangling ↦ rw (known, dangling, migrate) v
    | inr (e, there) ↦
        rw (known, there, migrate)
          (migrate_to-IsSound now (asked req) (target_of fl req e.info.ref.lord_id s) a e.info s v)
  ]
]
