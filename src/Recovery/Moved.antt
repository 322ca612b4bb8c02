-- ===== src/Recovery/Moved.antt =====
-- `Migrate`: where a process goes, and what becomes of the lord it was on.
use etronium_scdr.Prelude.{
  ℕ, String, ◌≡◌, ◌≢◌, refl, sym, ap, ◌∙◌, ◌==◌, eq_iff, true, false, ◌&&◌, some, lookup,
  lookup-insert_ne, [], ◌∷◌, ◌++◌, arith, Bool-cases, inl, inr,
}
use etronium_scdr.Proto.{is_final, spawn}
use etronium_scdr.Float.{Float}
use etronium_scdr.Table.{Entry, get, deref}
use etronium_scdr.Server.{Server, no_alternative, Result, ok, err}
use etronium_scdr.Server.Sending.{Sent}
use etronium_scdr.Recovery.{
  MigrateRequest, MigrateResponse, migrate, migrate_to, migrated, asked, target_of, give_up,
  respawn_request,
}
use etronium_scdr.Recovery.Respawn.{
  restarted, marked, Outcome, skipped, refused, respawned, failed, respawn-Outcome,
}

-- the sessions of the other lords: what is on its way to them
abbrev pub OthersKept : String → Server → Server → Type 0
OthersKept new_lord s s' = (l : String) → l ≢ new_lord → lookup l s'.sessions ≡ lookup l s.sessions

module _ (now : ℕ) (new_lord : String) (a : ℕ) (s : Server) (e : Entry) where
  Outcome-OthersKept :
      {out : Result (Unit {0}) × Server}
      → Outcome now new_lord a s e out
      → OthersKept new_lord s out.1
  Outcome-OthersKept (skipped over) l ne = refl
  Outcome-OthersKept (refused live many) l ne = unfold give_up in refl
  Outcome-OthersKept (respawned live few q) l ne =
      ap (λ (x : Server). lookup l x.sessions) q.after
      ∙ lookup-insert_ne l new_lord
          (record q.session {
            outbox =
                q.session.outbox ++ spawn (respawn_request (restarted now new_lord e).info) ∷ [];
          })
          s.sessions ne
  Outcome-OthersKept (failed why live few blocked) l ne = unfold give_up in refl

module _ (fl : Float) (now : ℕ) (req : MigrateRequest) (s : Server) (a : ℕ) (e : Entry) where
  abbrev pub current : String
  current = e.info.ref.lord_id

  abbrev pub target : String
  target = target_of fl req e.info.ref.lord_id s

  -- the outcomes of `Migrate` for a process in the table
  pub data Migration : Result MigrateResponse × Server → Type 0 where
    nowhere : asked req ≡ true → target ≡ "" → Migration (err no_alternative, s)
    stays :
        target ≡ current
        → Migration (
          ok (record {
            acknowledged = false;
            current_state = e.info.state;
            new_lord_id = target;
            new_local_pid = e.info.ref.local_pid;
          }),
          s,
        )
    moves :
        {out : Result (Unit {0}) × Server}
        → target ≢ current
        → Outcome now target a s e out
        → Migration (migrated a target out)

  migrate_to-Migration :
      deref s.processes a ≡ some e → Migration (migrate_to now (asked req) target a e.info s)
  unfolding migrate_to
  migrate_to-Migration there = elim (Bool-cases (asked req && target == "")) [
    | inl absent ↦
        rw (absent, migrate_to) (nowhere (ground arith) (ground (arith, eq_iff target "")))
    | inr found ↦ elim (Bool-cases (target == current)) [
      | inl same ↦ rw (found, migrate_to, same) (stays (ground (arith, eq_iff target current)))
      | inr other ↦
          rw (found, migrate_to, other)
            (moves (ground (arith, eq_iff target current)) (respawn-Outcome now target a s e there))
    ]
  ]

  pub migrate-Migration :
      get s.processes req.process_id ≡ some a
      → deref s.processes a ≡ some e
      → Migration (migrate fl now req s)
  unfolding migrate
  migrate-Migration known there = rw (known, there, migrate) (migrate_to-Migration there)

  Migration-OthersKept :
      {out : Result MigrateResponse × Server}
      → Migration out
      → lookup current out.1.sessions ≡ lookup current s.sessions
  Migration-OthersKept (nowhere chosen absent) = refl
  Migration-OthersKept (stays same) = refl
  Migration-OthersKept (moves {out} ne o) = sessions_of out o (λ h. ne (sym h))
    where
      sessions_of :
          (out : Result (Unit {0}) × Server)
          → Outcome now target a s e out
          → current ≢ target
          → lookup current (migrated a target out).1.sessions ≡ lookup current s.sessions
      sessions_of (ok u, s') o ne = Outcome-OthersKept now target a s e o current ne
      sessions_of (err why, s') o ne = Outcome-OthersKept now target a s e o current ne

  -- Whatever `Migrate` answers for a process in the table, it sends nothing to the lord that the
  -- process is on: the process there is never told to stop.
  pub migrate_tells_old_lord_nothing :
      get s.processes req.process_id ≡ some a
      → deref s.processes a ≡ some e
      → lookup e.info.ref.lord_id (migrate fl now req s).1.sessions
        ≡ lookup e.info.ref.lord_id s.sessions
  migrate_tells_old_lord_nothing known there = Migration-OthersKept (migrate-Migration known there)

  -- what an acknowledged migration has done
  pub data Moved (resp : MigrateResponse) (s' : Server) : Type 0 where
    over : is_final e.info.state ≡ true → s' ≡ s → Moved resp s'
    under_way :
        Sent resp.new_lord_id
          (spawn (respawn_request (restarted now resp.new_lord_id e).info))
          (marked now resp.new_lord_id a s)
          s'
        → Moved resp s'

  Migration-Moved :
      {out : Result MigrateResponse × Server}
      → Migration out
      → (resp : MigrateResponse) → out.0 ≡ ok resp
      → resp.acknowledged ≡ true
      → (resp.new_lord_id ≡ target) × (target ≢ current) × Moved resp out.1
  Migration-Moved (nowhere chosen absent) resp h good = absurd (cc)
  Migration-Moved (stays same) resp h good = absurd (cc)
  Migration-Moved (moves {out} ne o) resp h good = from out o h
    where
      from :
          (out : Result (Unit {0}) × Server)
          → Outcome now target a s e out
          → (migrated a target out).0 ≡ ok resp
          → (resp.new_lord_id ≡ target) × (target ≢ current) × Moved resp (migrated a target out).1
      from (ok u, s') (skipped done) h = (ground arith, ne, over done refl)
      from (ok u, s') (respawned live few q) h =
          let same : resp.new_lord_id ≡ target = ground arith in (same, ne, under_way (rw same q))
      from (err why, s') o h = absurd (cc)

  -- If `Migrate` acknowledges, the lord it names is not the one that the process was on, and either the
  -- process had ended and nothing has been done, or it is RESTARTING on the named lord with its spawn
  -- event the last in that lord's outbox.
  pub migrate_acknowledged :
      (resp : MigrateResponse)
      → get s.processes req.process_id ≡ some a
      → deref s.processes a ≡ some e
      → (migrate fl now req s).0 ≡ ok resp
      → resp.acknowledged ≡ true
      → (resp.new_lord_id ≡ target_of fl req e.info.ref.lord_id s)
        × (target_of fl req e.info.ref.lord_id s ≢ e.info.ref.lord_id)
        × Moved resp (migrate fl now req s).1
  migrate_acknowledged resp known there h good =
      Migration-Moved (migrate-Migration known there) resp h good

-- With `auto` set, the answer and the effect of `Migrate` do not depend on the target in the request.
pub migrate_auto_ignores_target :
    (fl : Float) (now : ℕ) (process_id x y : String) (s : Server)
    → migrate fl now (record { process_id = process_id; target_lord_id = x; auto = true }) s
      ≡ migrate fl now (record { process_id = process_id; target_lord_id = y; auto = true }) s
unfolding migrate
migrate_auto_ignores_target fl now process_id x y s = refl
