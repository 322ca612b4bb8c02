-- ===== src/Network/Events.antt =====
-- An event that is alone on its way: the rounds that take it to the agent, and its answer back.
use etronium_scdr.Prelude.{
  ℕ, String, ◌≡◌, refl, ap, eq_refl, some, [], ◌∷◌, ◌++◌, lookup, insert, lookup-insert, Dict, ℤ,
  arith,
}
use etronium_scdr.Proto.{LordEvent}
use etronium_scdr.Server.{Session, Server, take_event}
use etronium_scdr.Connect.{LordCmd, handle}
use etronium_scdr.Lord.{Os}
use etronium_scdr.Lord.Handlers.{Waiting, Handled, handle_event}
use etronium_scdr.Network.{Network, HasRoom, pushed, served, sent, handled, done, more, with_outbox}
use etronium_scdr.Network.Settling.{Ran}

-- a server whose session has an empty outbox
abbrev pub emptied : String → Session → Server → Server
emptied lord_id sess s = record s {
  sessions = insert lord_id (record sess { outbox = [] }) s.sessions;
}

module _ (lord_id_from_hostname : String → ℕ) (to_uint32 : ℤ → ℕ) (lord_id : String) (os : Os)
    (w : Waiting) where
  pub take_event-only :
      (ev : LordEvent) (sess : Session) (s : Server)
      → lookup lord_id s.sessions ≡ some sess
      → sess.outbox ≡ ev ∷ []
      → take_event lord_id s ≡ (some ev, emptied lord_id sess s)
  unfolding take_event
  take_event-only ev sess s found only = rw (found, take_event, only) refl

  -- an event that is alone on its way, to the agent
  pub event_served :
      (ev : LordEvent) (sess : Session) (n : Network) (out : Handled)
      → HasRoom n.agent
      → lookup lord_id n.server.sessions ≡ some sess
      → sess.outbox ≡ ev ∷ []
      → n.down ≡ []
      → handle_event os w ev n.agent ≡ some out
      → Ran lord_id_from_hostname to_uint32 lord_id os w 2 n
          (record n { server = emptied lord_id sess n.server; agent = out.1; down = [] })
  event_served ev sess n out room found only down answer =
      more (pushed ev (emptied lord_id sess n.server) (take_event-only ev sess n.server found only))
        (more (served ev [] out (ap (λ l. l ++ ev ∷ []) down) room answer) done)

  -- an event that is alone on its way, and its answer
  pub event_answered :
      (ev : LordEvent) (sess : Session) (n : Network) (out : Handled) (now : ℕ) (cmd : LordCmd)
      → HasRoom n.agent
      → lookup lord_id n.server.sessions ≡ some sess
      → sess.outbox ≡ ev ∷ []
      → n.down ≡ []
      → n.up ≡ []
      → handle_event os w ev n.agent ≡ some out
      → out.1.outbox ≡ cmd ∷ []
      → Ran lord_id_from_hostname to_uint32 lord_id os w 4 n (record {
        server =
            handle lord_id_from_hostname to_uint32 now lord_id cmd (emptied lord_id sess n.server);
        agent = with_outbox [] out.1;
        down = [];
        up = [];
      })
  event_answered ev sess n out now cmd room found only down up answer told =
      more (pushed ev (emptied lord_id sess n.server) (take_event-only ev sess n.server found only))
        (more (served ev [] out (ap (λ l. l ++ ev ∷ []) down) room answer)
          (more (sent cmd [] told) (more (handled now cmd [] (ap (λ l. l ++ cmd ∷ []) up)) done)))

pub lookup-insert_self :
    (lord_id : String) (sess : Session) (d : Dict Session)
    → lookup lord_id (insert lord_id sess d) ≡ some sess
lookup-insert_self lord_id sess d =
    ground (arith, lookup-insert lord_id lord_id sess d, eq_refl lord_id)
