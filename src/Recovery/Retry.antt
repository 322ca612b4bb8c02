-- ===== src/Recovery/Retry.antt =====
-- Respawning again: the bound on restarts, a retry after a failure, and the other processes.
use etronium_scdr.Prelude.{
  ℕ, String, ◌≡◌, ◌≢◌, refl, ap, ◌∙◌, true, false, ◌&&◌, some, ℤ, pos, negsuc, leb_ℤ, ◌≤ℤ◌, arith,
}
use etronium_scdr.Proto.{is_final, incr32}
use etronium_scdr.Table.{Entry, deref, update_state_entry, update_result_entry}
use etronium_scdr.Server.{Server, Result, ok, err}
use etronium_scdr.Recovery.{respawn, give_up}
use etronium_scdr.Recovery.Respawn.{
  given_up, restarted, marked, Outcome, skipped, refused, respawned, failed, respawn-Outcome,
  deref-give_up, deref-give_up_other, deref-mark_restarting, deref-mark_restarting_other,
}

abbrev pub IsErr : Result (Unit {0}) → Type 0
IsErr (ok u) = ⊥
IsErr (err e) = Unit

incr32_within :
    (count max : ℤ)
    → pos 0 ≤ℤ max
    → (leb_ℤ (pos 0) max && leb_ℤ max count) ≡ false
    → incr32 count ≤ℤ max
incr32_within count max low few = ground arith

module _ (now : ℕ) (new_lord : String) (a : ℕ) (s : Server) (e : Entry)
    (there : deref s.processes a ≡ some e) where
  -- the entry of the process, within its bound
  abbrev Within : Server → Type 0
  Within s' =
      (e' : Entry) × (deref s'.processes a ≡ some e')
      × (e'.info.max_restarts ≡ e.info.max_restarts)
      × (e'.info.restart_count ≤ℤ e'.info.max_restarts)

  deref-failed :
      deref (give_up now "respawn failed" (negsuc 1) a (marked now new_lord a s)).processes a
      ≡ some (given_up now "respawn failed" (negsuc 1) (restarted now new_lord e))
  deref-failed =
      deref-give_up now a (marked now new_lord a s) "respawn failed" (negsuc 1)
        (deref-mark_restarting now a s new_lord there)

  Outcome-Within :
      {out : Result (Unit {0}) × Server}
      → Outcome now new_lord a s e out
      → pos 0 ≤ℤ e.info.max_restarts
      → e.info.restart_count ≤ℤ e.info.max_restarts
      → Within out.1
  unfolding update_state_entry update_result_entry
  Outcome-Within (skipped over) low bound = (e, there, refl, bound)
  Outcome-Within (refused live many) low bound = (
    given_up now "max_restarts reached" (negsuc 3) e,
    deref-give_up now a s "max_restarts reached" (negsuc 3) there,
    refl,
    bound,
  )
  Outcome-Within (respawned {s'} live few q) low bound = (
    restarted now new_lord e,
    ap (λ (x : Server). deref x.processes a) q.after ∙ deref-mark_restarting now a s new_lord there,
    refl,
    incr32_within e.info.restart_count e.info.max_restarts low few,
  )
  Outcome-Within (failed why live few blocked) low bound = (
    given_up now "respawn failed" (negsuc 1) (restarted now new_lord e),
    deref-failed,
    refl,
    incr32_within e.info.restart_count e.info.max_restarts low few,
  )

  -- A respawn of a process with a limit on its restarts leaves the limit as it is, and its count of
  -- restarts within it.
  pub respawn_within_limit :
      pos 0 ≤ℤ e.info.max_restarts
      → e.info.restart_count ≤ℤ e.info.max_restarts
      → (e' : Entry) × (deref (respawn now new_lord a s).1.processes a ≡ some e')
        × (e'.info.max_restarts ≡ e.info.max_restarts)
        × (e'.info.restart_count ≤ℤ e'.info.max_restarts)
  respawn_within_limit low bound =
      Outcome-Within (respawn-Outcome now new_lord a s e there) low bound

  respawn_of_final : is_final e.info.state ≡ true → respawn now new_lord a s ≡ (ok tt, s)
  unfolding respawn
  respawn_of_final over = rw (there, respawn, over) refl

  Outcome-final :
      {out : Result (Unit {0}) × Server}
      → Outcome now new_lord a s e out
      → IsErr out.0
      → (e' : Entry) × (deref out.1.processes a ≡ some e') × (is_final e'.info.state ≡ true)
  unfolding update_state_entry update_result_entry
  Outcome-final (skipped over) bad = elim bad [ ]
  Outcome-final (refused live many) bad = (
    given_up now "max_restarts reached" (negsuc 3) e,
    deref-give_up now a s "max_restarts reached" (negsuc 3) there,
    refl,
  )
  Outcome-final (respawned live few q) bad = elim bad [ ]
  Outcome-final (failed why live few blocked) bad =
      (given_up now "respawn failed" (negsuc 1) (restarted now new_lord e), deref-failed, refl)

  Outcome-others :
      {out : Result (Unit {0}) × Server}
      → Outcome now new_lord a s e out
      → (b : ℕ) → a ≢ b
      → deref out.1.processes b ≡ deref s.processes b
  Outcome-others (skipped over) b ne = refl
  Outcome-others (refused live many) b ne =
      deref-give_up_other now a s "max_restarts reached" (negsuc 3) b ne
  Outcome-others (respawned live few q) b ne =
      ap (λ (x : Server). deref x.processes b) q.after
      ∙ deref-mark_restarting_other now a s new_lord b ne
  Outcome-others (failed why live few blocked) b ne =
      deref-give_up_other now a (marked now new_lord a s) "respawn failed" (negsuc 1) b ne
      ∙ deref-mark_restarting_other now a s new_lord b ne

  -- A respawn of one process changes no other one.
  pub respawn_leaves_others :
      (b : ℕ) → a ≢ b → deref (respawn now new_lord a s).1.processes b ≡ deref s.processes b
  respawn_leaves_others b ne = Outcome-others (respawn-Outcome now new_lord a s e there) b ne

-- After a respawn that failed, another one of the same process, at any time and on any lord, does
-- nothing and reports success.
pub failed_respawn_is_final :
    (now now' : ℕ) (new_lord other_lord : String) (a : ℕ) (s : Server) (e : Entry)
    → deref s.processes a ≡ some e
    → IsErr (respawn now new_lord a s).0
    → respawn now' other_lord a (respawn now new_lord a s).1 ≡ (ok tt, (respawn now new_lord a s).1)
failed_respawn_is_final now now' new_lord other_lord a s e there bad =
    let (e', there', over) =
      Outcome-final now new_lord a s e there (respawn-Outcome now new_lord a s e there) bad in
    respawn_of_final now' other_lord a (respawn now new_lord a s).1 e' there' over
