-- ===== src/Server/Sending.antt =====
-- What a push to a lord's outbox does to the server.
use etronium_scdr.Prelude.{
  ◌<◌, ◌≤◌, ◌⊎◌, ◌≡◌, refl, String, none, some, [], ◌∷◌, ◌++◌, lookup, insert, ltb, length, arith,
  Bool-cases, Option-cases, inl, inr,
}
use etronium_scdr.Proto.{LordEvent}
use etronium_scdr.Server.{
  Session, Server, Error, no_session, send_timeout, Result, ok, err, outbox_size, send_event,
  offer_event, take_event,
}

-- the server after an event has come behind the others in a session's outbox
abbrev pub queued : String → LordEvent → Session → Server → Server
queued lord_id ev sess s = record s {
  sessions = insert lord_id (record sess { outbox = sess.outbox ++ ev ∷ [] }) s.sessions;
}

pub record Sent (lord_id : String) (ev : LordEvent) (s s' : Server) : Type 0 where
  pub session : Session
  pub found : lookup lord_id s.sessions ≡ some session
  pub room : length session.outbox < outbox_size
  pub after : s' ≡ queued lord_id ev session s

-- why a push fails: there is no session, or its outbox stays full
abbrev pub Blocked : String → Server → Type 0
Blocked lord_id s =
    (lookup lord_id s.sessions ≡ none)
    ⊎ ((sess : Session) × (lookup lord_id s.sessions ≡ some sess)
        × (outbox_size ≤ length sess.outbox))

-- the two outcomes of a push
pub data Push (lord_id : String) (ev : LordEvent) (s : Server)
    : Result (Unit {0}) × Server → Type 0 where
  sent : {s' : Server} → Sent lord_id ev s s' → Push lord_id ev s (ok tt, s')
  unsent : (e : Error) → Blocked lord_id s → Push lord_id ev s (err e, s)

-- An event is either queued behind the others in the outbox of a live session that has room, or the
-- push fails, as there is no session or no room in its outbox, and the server is as it was.
pub send_event-Push :
    (lord_id : String) (ev : LordEvent) (s : Server) → Push lord_id ev s (send_event lord_id ev s)
unfolding send_event
send_event-Push lord_id ev s = elim (Option-cases (lookup lord_id s.sessions)) [
  | inl absent ↦ rw (absent, send_event) (unsent no_session (inl absent))
  | inr (sess, found) ↦ elim (Bool-cases (ltb (length sess.outbox) outbox_size)) [
    | inl room ↦
        rw (found, send_event, room)
          (sent (record { session = sess; found = found; room = ground arith; after = refl }))
    | inr full ↦
        rw (found, send_event, full) (unsent send_timeout (inr (sess, found, ground arith)))
  ]
]

-- A push leaves the process table as it is.
pub processes-send_event :
    (lord_id : String) (ev : LordEvent) (s : Server)
    → (send_event lord_id ev s).1.processes ≡ s.processes
unfolding send_event
processes-send_event lord_id ev s = ground arith

pub processes-offer_event :
    (lord_id : String) (ev : LordEvent) (s : Server)
    → (offer_event lord_id ev s).processes ≡ s.processes
unfolding offer_event
processes-offer_event lord_id ev s = processes-send_event lord_id ev s

pub processes-take_event :
    (lord_id : String) (s : Server) → (take_event lord_id s).1.processes ≡ s.processes
unfolding take_event
processes-take_event lord_id s = ground arith
