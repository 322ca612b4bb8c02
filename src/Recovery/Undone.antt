-- ===== src/Recovery/Undone.antt =====
-- Two ends of a recovery: no lord is there, and a lord takes the only process.
use etronium_scdr.Prelude.{
  ℕ, zero, suc, String, ◌≡◌, refl, ap, ◌∙◌, true, false, none, some, List, [], ◌∷◌, negsuc, arith,
  In, lookup,
}
use etronium_scdr.Proto.{Lord, is_final}
use etronium_scdr.Float.{Float}
use etronium_scdr.Table.{Table, Entry, deref, update_state_entry}
use etronium_scdr.Table.Listing.{list_by_lord_iff}
use etronium_scdr.Registry.{pick}
use etronium_scdr.Server.{Server, Result, ok}
use etronium_scdr.Recovery.{
  restarts, is_restarting, respawnable, respawn, respawn_pass, recovery_loop, max_attempts,
  stop_one, stop_restarting, recover_candidates, is_recent, recover,
}
use etronium_scdr.Recovery.Respawn.{
  given_up, restarted, Outcome, skipped, refused, respawned, failed, deref-give_up,
  deref-mark_restarting, respawn-Outcome,
}
use etronium_scdr.Recovery.Finish.{candidates, noted, recover-candidates, stop_nothing}

-- a candidate is in another state
respawnable_not_restarting : (e : Entry) → respawnable e ≡ true → is_restarting e.info.state ≡ false
respawnable_not_restarting e h = ground arith

restarts_of_deref :
    (a : ℕ) (t : Table) (e : Entry) → deref t a ≡ some e → restarts a t ≡ is_restarting e.info.state
restarts_of_deref a t e h = rw (h, restarts) refl

-- what other goroutines do is nothing
abbrev pub undisturbed : ℕ → Server → Server
undisturbed k s = s

module _ (fl : Float) (now : ℕ) (dead : String) (s : Server) where
  candidates_not_restarting :
      (a : ℕ) → In a (candidates fl now dead s) → restarts a s.processes ≡ false
  candidates_not_restarting a h =
      let (held, found) = (list_by_lord_iff s.processes dead respawnable a).0 h in
      let (e, there, on, able) = found in
      restarts_of_deref a s.processes e there ∙ respawnable_not_restarting e able

  loop_without_lord :
      (left : ℕ) (as' : List ℕ) (u : Server)
      → pick fl "" u.lords ≡ none
      → recovery_loop fl undisturbed left now as' u ≡ u
  unfolding recovery_loop
  loop_without_lord zero as' u h = refl
  loop_without_lord (suc left) as' u h = rw (h, recovery_loop) (loop_without_lord left as' u h)

  recover_candidates_without_lord :
      (as' : List ℕ) (u : Server)
      → pick fl "" u.lords ≡ none
      → ((a : ℕ) → In a as' → restarts a u.processes ≡ false)
      → recover_candidates fl undisturbed now as' u ≡ u
  unfolding recover_candidates
  recover_candidates_without_lord [] u h none_of = refl
  recover_candidates_without_lord (b ∷ as') u h none_of =
      rw (loop_without_lord max_attempts (b ∷ as') u h) (stop_nothing now (b ∷ as') u none_of)

  module _ (first : is_recent now (lookup dead s.last_recovery_at) ≡ false) where
    -- If no lord can be picked during all of a recovery that is not debounced, and nothing else happens,
    -- every process stays as it was, in its state and on the lord that is gone.
    pub recover_without_lord :
        pick fl "" s.lords ≡ none → (recover fl undisturbed now dead s).processes ≡ s.processes
    recover_without_lord h = rw (recover-candidates fl now dead undisturbed s first) (
        ap (λ (x : Server). x.processes)
          (recover_candidates_without_lord (candidates fl now dead s) (noted fl now dead s) h
            candidates_not_restarting))

respawned_entry :
    (now : ℕ) (new_lord : String) (a : ℕ) (s : Server) (e : Entry)
    → deref s.processes a ≡ some e
    → is_final e.info.state ≡ false
    → {out : Result (Unit {0}) × Server} → Outcome now new_lord a s e out
    → out.0 ≡ ok tt
    → deref out.1.processes a ≡ some (restarted now new_lord e)
respawned_entry now new_lord a s e there live (skipped over) good = absurd (cc)
respawned_entry now new_lord a s e there live (refused live' many) good = absurd (cc)
respawned_entry now new_lord a s e there live (respawned live' few q) good =
    ap (λ (x : Server). deref x.processes a) q.after ∙ deref-mark_restarting now a s new_lord there
respawned_entry now new_lord a s e there live (failed why live' few blocked) good = absurd (cc)

loop_succeeds :
    (fl : Float) (left now : ℕ) (a : ℕ) (u : Server) (lord : Lord)
    → pick fl "" u.lords ≡ some lord
    → (respawn now lord.lord_id a u).0 ≡ ok tt
    → recovery_loop fl undisturbed (suc left) now (a ∷ []) u ≡ (respawn now lord.lord_id a u).1
unfolding recovery_loop respawn_pass
loop_succeeds fl left now a u lord h good = rw (h, recovery_loop, good) refl

-- A respawned process that is still RESTARTING is given up by the loop after the retries.
stop_one-restarted :
    (now : ℕ) (new_lord : String) (a : ℕ) (s : Server) (e : Entry)
    → deref s.processes a ≡ some (restarted now new_lord e)
    → deref (stop_one now a s).processes a
      ≡ some (given_up now "no lord available for respawn" (negsuc 4) (restarted now new_lord e))
unfolding stop_one update_state_entry
stop_one-restarted now new_lord a s e there =
    rw (restarts_of_deref a s.processes (restarted now new_lord e) there)
      (deref-give_up now a s "no lord available for respawn" (negsuc 4) there)

module _ (fl : Float) (now : ℕ) (dead : String) (s : Server) (a : ℕ) (e : Entry) (lord : Lord) where
  -- If a recovery that is not debounced finds one process, picks a lord for it and respawns it there
  -- without an error, and nothing else happens, the process ends STOPPED with exit code -5, one restart
  -- counted and the new lord noted.
  pub recover_stops_respawned :
      is_recent now (lookup dead s.last_recovery_at) ≡ false
      → candidates fl now dead s ≡ a ∷ []
      → deref s.processes a ≡ some e
      → is_final e.info.state ≡ false
      → pick fl "" s.lords ≡ some lord
      → (respawn now lord.lord_id a (noted fl now dead s)).0 ≡ ok tt
      → deref (recover fl undisturbed now dead s).processes a
        ≡ some
            (given_up now "no lord available for respawn" (negsuc 4) (restarted now lord.lord_id e))
  unfolding recover_candidates stop_restarting
  recover_stops_respawned first only there live h good =
      rw
        (
          recover-candidates fl now dead undisturbed s first,
          only,
          recover_candidates,
          loop_succeeds fl 9 now a (noted fl now dead s) lord h good,
        )
        (stop_one-restarted now lord.lord_id a (respawn now lord.lord_id a (noted fl now dead s)).1
          e
          (respawned_entry now lord.lord_id a (noted fl now dead s) e there live
            (respawn-Outcome now lord.lord_id a (noted fl now dead s) e there) good))
