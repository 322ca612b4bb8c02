-- ===== src/Recovery/Respawn.antt =====
-- The outcomes of `respawnProcessOnLord`.
use etronium_scdr.Prelude.{
  ℕ, String, ◌≡◌, ◌≢◌, ◌∙◌, true, false, some, ℤ, pos, negsuc, arith, Bool-cases, inl, inr,
}
use etronium_scdr.Proto.{is_final, incr32, spawn, stopped, restarting}
use etronium_scdr.Table.{
  Table, Entry, deref, set_info, update_state, update_state_entry, update_result_entry,
}
use etronium_scdr.Table.Access.{
  deref-update, deref-update_other, deref-update_state, deref-update_state_other,
  deref-update_result, deref-update_result_other,
}
use etronium_scdr.Server.{Server, Error, max_restarts_reached, Result, ok, err}
use etronium_scdr.Server.Sending.{Sent, Blocked, Push, sent, unsent, send_event-Push}
use etronium_scdr.Recovery.{
  on_table, give_up, respawn_request, mark_restarting, after_respawn, info_at, send_respawn,
  exhausted, respawn,
}

-- an entry that is given up, and one that is restarted
abbrev pub given_up : ℕ → String → ℤ → Entry → Entry
given_up now message code e = update_result_entry now code (pos 0) (
    update_state_entry now stopped "" (pos 0)
      (set_info (λ info. record info { last_error = message }) e))

abbrev pub restarted : ℕ → String → Entry → Entry
restarted now new_lord e =
    set_info
      (λ info. record info {
        ref = record info.ref { lord_id = new_lord };
        restart_count = incr32 info.restart_count;
      })
      (update_state_entry now restarting "" (pos 0) e)

module _ (now : ℕ) (a : ℕ) (s : Server) where
  pub deref-give_up :
      (message : String) (code : ℤ) {e : Entry}
      → deref s.processes a ≡ some e
      → deref (give_up now message code a s).processes a ≡ some (given_up now message code e)
  unfolding give_up
  deref-give_up message code h = deref-update_result now code (pos 0) a _ (
      deref-update_state now stopped "" (pos 0) a _
        (deref-update (set_info (λ info. record info { last_error = message })) a s.processes h))

  pub deref-give_up_other :
      (message : String) (code : ℤ) (b : ℕ)
      → a ≢ b
      → deref (give_up now message code a s).processes b ≡ deref s.processes b
  unfolding give_up
  deref-give_up_other message code b ne =
      deref-update_result_other now code (pos 0) a _ b ne
      ∙ deref-update_state_other now stopped "" (pos 0) a _ b ne
      ∙ deref-update_other (set_info (λ info. record info { last_error = message })) a s.processes b
          ne

  pub deref-mark_restarting :
      (new_lord : String) {e : Entry}
      → deref s.processes a ≡ some e
      → deref (mark_restarting now new_lord a s.processes) a ≡ some (restarted now new_lord e)
  unfolding mark_restarting
  deref-mark_restarting new_lord h =
      deref-update _ a (update_state now restarting "" (pos 0) a s.processes)
        (deref-update_state now restarting "" (pos 0) a s.processes h)

  pub deref-mark_restarting_other :
      (new_lord : String) (b : ℕ)
      → a ≢ b
      → deref (mark_restarting now new_lord a s.processes) b ≡ deref s.processes b
  unfolding mark_restarting
  deref-mark_restarting_other new_lord b ne =
      deref-update_other _ a (update_state now restarting "" (pos 0) a s.processes) b ne
      ∙ deref-update_state_other now restarting "" (pos 0) a s.processes b ne

pub info_at_of_deref :
    (a : ℕ) (t : Table) {e : Entry} → deref t a ≡ some e → info_at a t ≡ some e.info
info_at_of_deref a t h = ground arith

-- the server when the process is marked RESTARTING
abbrev pub marked : ℕ → String → ℕ → Server → Server
marked now new_lord a s = on_table (mark_restarting now new_lord a) s

module _ (now : ℕ) (new_lord : String) (a : ℕ) (s : Server) (e : Entry) where
  -- the outcomes of a respawn
  pub data Outcome : Result (Unit {0}) × Server → Type 0 where
    skipped : is_final e.info.state ≡ true → Outcome (ok tt, s)
    refused :
        is_final e.info.state ≡ false
        → exhausted e.info ≡ true
        → Outcome (err max_restarts_reached, give_up now "max_restarts reached" (negsuc 3) a s)
    respawned :
        {s' : Server}
        → is_final e.info.state ≡ false
        → exhausted e.info ≡ false
        → Sent new_lord
            (spawn (respawn_request (restarted now new_lord e).info))
            (marked now new_lord a s)
            s'
        → Outcome (ok tt, s')
    failed :
        (why : Error)
        → is_final e.info.state ≡ false
        → exhausted e.info ≡ false
        → Blocked new_lord s
        → Outcome (err why, give_up now "respawn failed" (negsuc 1) a (marked now new_lord a s))

  after_respawn-Outcome :
      is_final e.info.state ≡ false
      → exhausted e.info ≡ false
      → {out : Result (Unit {0}) × Server}
      → Push new_lord
          (spawn (respawn_request (restarted now new_lord e).info))
          (marked now new_lord a s)
          out
      → Outcome (after_respawn now a out)
  unfolding after_respawn
  after_respawn-Outcome live few (sent q) = respawned live few q
  after_respawn-Outcome live few (unsent why blocked) = failed why live few blocked

  send_respawn-Outcome :
      is_final e.info.state ≡ false
      → exhausted e.info ≡ false
      → deref s.processes a ≡ some e
      → Outcome (send_respawn now new_lord a (marked now new_lord a s))
  unfolding send_respawn
  send_respawn-Outcome live few there =
      rw (deref-mark_restarting now a s new_lord there, send_respawn)
        (after_respawn-Outcome live few (
          send_event-Push new_lord (spawn (respawn_request (restarted now new_lord e).info))
            (marked now new_lord a s)))

  -- whichever branch it takes
  pub respawn-Outcome : deref s.processes a ≡ some e → Outcome (respawn now new_lord a s)
  unfolding respawn
  respawn-Outcome there = elim (Bool-cases (is_final e.info.state)) [
    | inl over ↦ rw (there, respawn, over) (skipped over)
    | inr live ↦ elim (Bool-cases (exhausted e.info)) [
      | inl many ↦ rw (there, respawn, live, many) (refused live many)
      | inr few ↦ rw (there, respawn, live, few) (send_respawn-Outcome live few there)
    ]
  ]
