-- ===== src/Requests/Drains.antt =====
-- What `Shutdown` asks of the lords.
use etronium_scdr.Prelude.{
  ◌<◌, String, ◌≡◌, ◌≢◌, refl, ◌∙◌, true, some, List, [], ◌∷◌, ◌++◌, lookup, lookup-insert,
  lookup-insert_ne, eq_refl, ℤ, ltb, length, arith, Bool-cases, Option-cases, inl, inr,
}
use etronium_scdr.Proto.{LordEvent, set_drain}
use etronium_scdr.Server.{Server, Session, outbox_size, send_event, offer_event}
use etronium_scdr.Requests.Input.{request_drains}

module _ (id : String) (sess : Session) where
  offer_event_other :
      (j : String) (ev : LordEvent) (s : Server)
      → id ≢ j
      → lookup id (offer_event j ev s).sessions ≡ lookup id s.sessions
  unfolding offer_event send_event
  offer_event_other j ev s ne = elim (Option-cases (lookup j s.sessions)) [
    | inl absent ↦ rw (absent, offer_event) refl
    | inr (other, found) ↦ elim (Bool-cases (ltb (length other.outbox) outbox_size)) [
      | inl room ↦ rw (found, offer_event, room) (lookup-insert_ne id j _ s.sessions ne)
      | inr full ↦ rw (found, offer_event, full) refl
    ]
  ]

  abbrev pub asked_to : LordEvent → Session
  asked_to ev = record sess { outbox = sess.outbox ++ ev ∷ [] }

  offer_event_self :
      (ev : LordEvent) (s : Server)
      → lookup id s.sessions ≡ some sess
      → length sess.outbox < outbox_size
      → lookup id (offer_event id ev s).sessions ≡ some (asked_to ev)
  unfolding offer_event send_event
  offer_event_self ev s live fits =
      let room : ltb (length sess.outbox) outbox_size ≡ true = ground arith in
      rw (live, offer_event, room)
        (ground (arith, lookup-insert id id (asked_to ev) s.sessions, eq_refl id))

  abbrev pub Differs : List String → Type 0
  Differs [] = Unit
  Differs (j ∷ ids) = (id ≢ j) × Differs ids

  request_drains_other :
      (grace : ℤ) (ids : List String) (s : Server)
      → Differs ids
      → lookup id (request_drains grace ids s).sessions ≡ lookup id s.sessions
  unfolding request_drains
  request_drains_other grace [] s d = refl
  request_drains_other grace (j ∷ ids) s d =
      request_drains_other grace ids (offer_event j (set_drain grace) s) d.1
      ∙ offer_event_other j (set_drain grace) s d.0

  -- `Shutdown` asks each lord whose session has room to drain: the request is the last event in its
  -- outbox, in whatever order the sessions are visited, each of them once.
  pub request_drains_reaches :
      (grace : ℤ) (before after : List String) (s : Server)
      → Differs before
      → Differs after
      → lookup id s.sessions ≡ some sess
      → length sess.outbox < outbox_size
      → lookup id (request_drains grace (before ++ id ∷ after) s).sessions
        ≡ some (asked_to (set_drain grace))
  unfolding request_drains
  request_drains_reaches grace [] after s d d' live fits =
      request_drains_other grace after (offer_event id (set_drain grace) s) d'
      ∙ offer_event_self (set_drain grace) s live fits
  request_drains_reaches grace (j ∷ before) after s d d' live fits =
      request_drains_reaches grace before after (offer_event j (set_drain grace) s) d.1 d'
        (offer_event_other j (set_drain grace) s d.0 ∙ live) fits
