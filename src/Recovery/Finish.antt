-- ===== src/Recovery/Finish.antt =====
-- The end of `recoverFromLordDisconnect`: what is RESTARTING then is given up.
use etronium_scdr.Prelude.{
  ℕ, String, ◌≡◌, refl, ap, ◌∙◌, true, false, some, List, [], ◌∷◌, negsuc, arith, Bool-cases,
  Option-cases, inl, inr, In, lookup, insert,
}
use mathlib.Core.Path.{subst}
use etronium_scdr.Float.{Float}
use etronium_scdr.Table.{Entry, deref, list_by_lord, update_state_entry, update_result_entry}
use etronium_scdr.Server.{Server}
use etronium_scdr.Recovery.{
  give_up, restarts, stop_one, respawnable, recovery_loop, max_attempts, stop_restarting,
  recover_candidates, is_recent, recover,
}
use etronium_scdr.Recovery.Respawn.{deref-give_up, deref-give_up_other}

module _ (a : ℕ) (s : Server) where
  restarts_entry : restarts a s.processes ≡ true → (e : Entry) × (deref s.processes a ≡ some e)
  restarts_entry h = elim (Option-cases (deref s.processes a)) [
    | inl absent ↦ absurd (ground arith)
    | inr found ↦ found
  ]

  restarts_same :
      (s' : Server)
      → deref s'.processes a ≡ deref s.processes a
      → restarts a s'.processes ≡ restarts a s.processes
  restarts_same s' h = rw (h, restarts) refl

-- the message and the code of the last loop
abbrev pub unplaced : ℕ → ℕ → Server → Server
unplaced now a s = give_up now "no lord available for respawn" (negsuc 4) a s

module _ (now : ℕ) where
  unplaced_not_restarting :
      (a : ℕ) (s : Server)
      → restarts a s.processes ≡ true
      → restarts a (unplaced now a s).processes ≡ false
  unfolding update_state_entry update_result_entry
  unplaced_not_restarting a s h =
      let (e, there) = restarts_entry a s h in
      rw (deref-give_up now a s "no lord available for respawn" (negsuc 4) there, restarts) refl

  stop_one_keeps :
      (a b : ℕ) (s : Server)
      → restarts a s.processes ≡ false
      → deref (stop_one now b s).processes a ≡ deref s.processes a
  unfolding stop_one
  stop_one_keeps a b s h = elim (Bool-cases (restarts b s.processes)) [
    | inr same ↦ rw same refl
    | inl hit ↦ rw hit (
        deref-give_up_other now b s "no lord available for respawn" (negsuc 4) a
          (λ e. absurd (cc (ap (λ c. restarts c s.processes) e))))
  ]

  stop_one_settles : (a : ℕ) (s : Server) → restarts a (stop_one now a s).processes ≡ false
  unfolding stop_one
  stop_one_settles a s = elim (Bool-cases (restarts a s.processes)) [
    | inl hit ↦ rw hit (unplaced_not_restarting a s hit)
    | inr same ↦ rw (same, same) refl
  ]

  pub stop_keeps :
      (as' : List ℕ) (a : ℕ) (s : Server)
      → restarts a s.processes ≡ false
      → deref (stop_restarting now as' s).processes a ≡ deref s.processes a
  unfolding stop_restarting
  stop_keeps [] a s h = refl
  stop_keeps (b ∷ as') a s h =
      stop_keeps as' a (stop_one now b s)
        (restarts_same a s (stop_one now b s) (stop_one_keeps a b s h) ∙ h)
      ∙ stop_one_keeps a b s h

  stop_settles :
      (as' : List ℕ) (a : ℕ) (s : Server)
      → In a as'
      → restarts a (stop_restarting now as' s).processes ≡ false
  unfolding stop_restarting
  stop_settles [] a s h = elim h [ ]
  stop_settles (b ∷ as') a s (inl this) =
      subst (λ c. restarts c (stop_restarting now as' (stop_one now b s)).processes ≡ false) this
        (restarts_same b (stop_one now b s) (stop_restarting now as' (stop_one now b s))
            (stop_keeps as' b (stop_one now b s) (stop_one_settles b s))
          ∙ stop_one_settles b s)
  stop_settles (b ∷ as') a s (inr later) = stop_settles as' a (stop_one now b s) later

  -- where none is RESTARTING the loop does nothing
  pub stop_nothing :
      (as' : List ℕ) (s : Server)
      → ((a : ℕ) → In a as' → restarts a s.processes ≡ false)
      → stop_restarting now as' s ≡ s
  unfolding stop_restarting stop_one
  stop_nothing [] s h = refl
  stop_nothing (b ∷ as') s h = rw (h b (inl refl)) (stop_nothing as' s (λ a later. h a (inr later)))

module _ (fl : Float) (now : ℕ) (dead : String) where
  -- the processes that a recovery finds
  abbrev pub candidates : Server → List ℕ
  candidates s = list_by_lord s.processes dead respawnable

  -- the server with the time of this recovery noted
  abbrev pub noted : Server → Server
  noted s = record s { last_recovery_at = insert dead now s.last_recovery_at }

  module _ (between : ℕ → Server → Server) (s : Server)
      (first : is_recent now (lookup dead s.last_recovery_at) ≡ false) where
    pub recover-candidates :
        recover fl between now dead s ≡ recover_candidates fl between now (candidates s) (noted s)
    unfolding recover
    recover-candidates = rw (first, recover) refl

    recover_candidates_settles :
        (as' : List ℕ) (a : ℕ) (u : Server)
        → In a as'
        → restarts a (recover_candidates fl between now as' u).processes ≡ false
    unfolding recover_candidates
    recover_candidates_settles [] a u h = elim h [ ]
    recover_candidates_settles (b ∷ as') a u h =
        stop_settles now (b ∷ as') a (recovery_loop fl between max_attempts now (b ∷ as') u) h

    -- Whatever other goroutines do while a recovery sleeps, after a recovery that is not debounced none
    -- of its candidates is RESTARTING: not even one whose spawn event is on its way to a new lord.
    pub recover_settles :
        (a : ℕ) → In a (candidates s) → restarts a (recover fl between now dead s).processes ≡ false
    recover_settles a h =
        rw recover-candidates (recover_candidates_settles (candidates s) a (noted s) h)
