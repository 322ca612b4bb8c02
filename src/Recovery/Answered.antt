-- ===== src/Recovery/Answered.antt =====
-- What a respawn answers, and the process that it leaves.
use etronium_scdr.Prelude.{
  ℕ, String, ◌≡◌, ◌≢◌, ◌∙◌, refl, ap, eq_refl, true, false, ◌&&◌, some, [], ◌∷◌, ◌++◌, ℤ, pos,
  negsuc, leb_ℤ, ◌≤ℤ◌, arith, lookup, lookup-insert, length, ◌<◌,
}
use etronium_scdr.Proto.{SpawnRequest, is_final, incr32, spawn, stopped, restarting}
use etronium_scdr.Table.{Entry, deref, update_state_entry, update_result_entry}
use etronium_scdr.Server.{
  Server, Session, Error, Result, max_restarts_reached, outbox_size, ok, err,
}
use etronium_scdr.Server.Sending.{Sent, Blocked}
use etronium_scdr.Spawn.{build_spawn_request}
use etronium_scdr.Recovery.{give_up, respawn_request, respawn}
use etronium_scdr.Recovery.Respawn.{
  restarted, given_up, marked, Outcome, skipped, refused, respawned, failed, respawn-Outcome,
  deref-give_up, deref-give_up_other, deref-mark_restarting, deref-mark_restarting_other,
}

module _ (a : ℕ) (s : Server) where
  -- the process at the pointer is STOPPED with an exit code, whoever waits for it is woken, and no other
  -- process has changed
  pub record IsStopped (code : ℤ) (s' : Server) : Type 0 where
    pub entry : Entry
    pub there : deref s'.processes a ≡ some entry
    pub state : entry.info.state ≡ stopped
    pub exit_code : entry.info.exit_code ≡ code
    pub exit_signal : entry.info.exit_signal ≡ pos 0
    pub woken : entry.exited ≡ true
    pub others : (b : ℕ) → a ≢ b → deref s'.processes b ≡ deref s.processes b

module _ (new_lord : String) (a : ℕ) (s : Server) (e : Entry) where
  -- The process at the pointer is RESTARTING on the new lord with one restart more, and the outbox of that
  -- lord, which had room, ends with an event that starts the same command under the same id.
  pub record IsRestarted (s' : Server) : Type 0 where
    pub entry : Entry
    pub there : deref s'.processes a ≡ some entry
    pub state : entry.info.state ≡ restarting
    pub home : entry.info.ref.lord_id ≡ new_lord
    pub counted : entry.info.restart_count ≡ incr32 e.info.restart_count
    pub session : Session
    pub found : lookup new_lord s.sessions ≡ some session
    pub room : length session.outbox < outbox_size
    pub request : SpawnRequest
    pub named : request.process_id ≡ e.info.ref.process_id
    pub command : (request.exec_path ≡ e.info.exec_path) × (request.argv ≡ e.info.argv)
    pub queued :
        lookup new_lord s'.sessions
        ≡ some (record session { outbox = session.outbox ++ spawn request ∷ [] })
    pub others : (b : ℕ) → a ≢ b → deref s'.processes b ≡ deref s.processes b

  -- the number of restarts is limited, and reached
  abbrev pub HasHadAll : Type 0
  HasHadAll = (pos 0 ≤ℤ e.info.max_restarts) × (e.info.max_restarts ≤ℤ e.info.restart_count)

  -- the answers of a respawn, each with its reason and the server after it
  pub data Answer : Result (Unit {0}) × Server → Type 0 where
    left_alone : is_final e.info.state ≡ true → Answer (ok tt, s)
    exhausted_before :
        {s' : Server}
        → is_final e.info.state ≡ false
        → HasHadAll
        → IsStopped a s (negsuc 3) s'
        → Answer (err max_restarts_reached, s')
    restarts :
        {s' : Server}
        → is_final e.info.state ≡ false
        → ¬ HasHadAll
        → IsRestarted s'
        → Answer (ok tt, s')
    unsent :
        {s' : Server} (why : Error)
        → is_final e.info.state ≡ false
        → ¬ HasHadAll
        → Blocked new_lord s
        → IsStopped a s (negsuc 1) s'
        → Answer (err why, s')

exhausted-HasHadAll :
    (max count : ℤ)
    → (leb_ℤ (pos 0) max && leb_ℤ max count) ≡ true
    → (pos 0 ≤ℤ max) × (max ≤ℤ count)
exhausted-HasHadAll max count h = ground arith

not_exhausted :
    (max count : ℤ)
    → (leb_ℤ (pos 0) max && leb_ℤ max count) ≡ false
    → ¬ ((pos 0 ≤ℤ max) × (max ≤ℤ count))
not_exhausted max count h all = let low = all.0 in let high = all.1 in absurd (ground arith)

module _ (now : ℕ) (new_lord : String) (a : ℕ) (s : Server) (e : Entry)
    (there : deref s.processes a ≡ some e) where
  refused-IsStopped : IsStopped a s (negsuc 3) (give_up now "max_restarts reached" (negsuc 3) a s)
  unfolding update_state_entry update_result_entry
  refused-IsStopped = record {
    entry = given_up now "max_restarts reached" (negsuc 3) e;
    there = deref-give_up now a s "max_restarts reached" (negsuc 3) there;
    state = refl;
    exit_code = refl;
    exit_signal = refl;
    woken = ground arith;
    others = λ b ne. deref-give_up_other now a s "max_restarts reached" (negsuc 3) b ne;
  }

  unsent-IsStopped :
      IsStopped a s (negsuc 1) (give_up now "respawn failed" (negsuc 1) a (marked now new_lord a s))
  unfolding update_state_entry update_result_entry
  unsent-IsStopped = record {
    entry = given_up now "respawn failed" (negsuc 1) (restarted now new_lord e);
    there =
        deref-give_up now a (marked now new_lord a s) "respawn failed" (negsuc 1)
          (deref-mark_restarting now a s new_lord there);
    state = refl;
    exit_code = refl;
    exit_signal = refl;
    woken = ground arith;
    others = λ b ne.
        deref-give_up_other now a (marked now new_lord a s) "respawn failed" (negsuc 1) b ne
        ∙ deref-mark_restarting_other now a s new_lord b ne;
  }

  respawned-IsRestarted :
      (s' : Server)
      → Sent new_lord
          (spawn (respawn_request (restarted now new_lord e).info))
          (marked now new_lord a s)
          s'
      → IsRestarted new_lord a s e s'
  unfolding update_state_entry respawn_request build_spawn_request
  respawned-IsRestarted s' q = record {
    entry = restarted now new_lord e;
    there =
        ap (λ (x : Server). deref x.processes a) q.after
        ∙ deref-mark_restarting now a s new_lord there;
    state = refl;
    home = refl;
    counted = refl;
    session = q.session;
    found = q.found;
    room = q.room;
    request = respawn_request (restarted now new_lord e).info;
    named = refl;
    command = (refl, refl);
    queued =
        ap (λ (x : Server). lookup new_lord x.sessions) q.after
        ∙ ground (
          arith,
          lookup-insert new_lord new_lord
              (record q.session {
                outbox =
                    q.session.outbox
                    ++ spawn (respawn_request (restarted now new_lord e).info) ∷ [];
              })
              s.sessions,
          eq_refl new_lord,
        );
    others = λ b ne.
        ap (λ (x : Server). deref x.processes b) q.after
        ∙ deref-mark_restarting_other now a s new_lord b ne;
  }

  Outcome-Answer :
      {out : Result (Unit {0}) × Server}
      → Outcome now new_lord a s e out
      → Answer new_lord a s e out
  Outcome-Answer (skipped over) = left_alone over
  Outcome-Answer (refused live many) =
      exhausted_before live (exhausted-HasHadAll e.info.max_restarts e.info.restart_count many)
        refused-IsStopped
  Outcome-Answer (respawned {s'} live few q) =
      restarts live (not_exhausted e.info.max_restarts e.info.restart_count few)
        (respawned-IsRestarted s' q)
  Outcome-Answer (failed why live few blocked) =
      unsent why live (not_exhausted e.info.max_restarts e.info.restart_count few) blocked
        unsent-IsStopped

  -- A respawn of a process in the table has one of four answers. One that has ended is left alone,
  -- without an error. One that has had the restarts of its limit is STOPPED with exit code -4, and the
  -- answer is an error. Otherwise it is RESTARTING on the new lord with one restart more, and the last
  -- event in that lord's outbox starts its command under its id; or, if the lord has no session or its
  -- outbox no room, it is STOPPED with exit code -2, and the answer is an error. Whoever waits for a
  -- process that is STOPPED so is woken, and no other process changes.
  pub respawn_answered : Answer new_lord a s e (respawn now new_lord a s)
  respawn_answered = Outcome-Answer (respawn-Outcome now new_lord a s e there)
