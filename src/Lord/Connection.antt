-- ===== src/Lord/Connection.antt =====
-- One connection of a lord: the registration in `recvLoop` and `sendLoop` of internal/lord/agent.go,
-- which send on the same stream, and the first message as `Connect` of internal/scheduler/connect.go takes it. That gRPC
-- connects and that `detectHardware` succeeds is assumed; the heartbeats are in the outbox.
use etronium_scdr.Prelude.{
  ℕ, String, ◌≡◌, refl, ap, Bool, true, false, none, some, List, [], ◌∷◌, ◌++◌, ℤ, Dict, inl, inr,
  Bool-cases,
}
use etronium_scdr.Proto.{
  LordEvent, register_ack, heartbeat_ack, spawn, kill, lazy_death_ack, set_drain, write_stdin,
  file_push,
}
use etronium_scdr.Registry.{LordEntry}
use etronium_scdr.Server.{Server, Result, ok, err, invalid_argument}
use etronium_scdr.Connect.{RegisterRequest, LordCmd, connect_lord}
use etronium_scdr.Lord.{Agent, Os}
use etronium_scdr.Lord.Handlers.{Waiting, Handled, handle_set_drain, handle_event}
use etronium_scdr.Lord.Drain.{Ticks, drain_ends}

-- what a lord sends on its stream
pub data Message : Type 0 where
  hello : RegisterRequest → Message
  report : LordCmd → Message

-- The two senders of a connection, with whether the registration has been sent.
pub record Connection : Type 0 where
  pub registered : Bool
  pub outbox : List LordCmd
  pub stream : List Message

abbrev pub opened : List LordCmd → Connection
opened outbox = record { registered = false; outbox = outbox; stream = [] }

-- `recvLoop` sends the registration once, and `sendLoop` sends what is in the outbox from the start.
pub data Sends (hw : RegisterRequest) (c : Connection) : Connection → Type 0 where
  registers :
      c.registered ≡ false
      → Sends hw c (record c { registered = true; stream = c.stream ++ hello hw ∷ [] })
  forwards :
      (cmd : LordCmd) (rest : List LordCmd)
      → c.outbox ≡ cmd ∷ rest
      → Sends hw c (record c { outbox = rest; stream = c.stream ++ report cmd ∷ [] })
  queues : (cmd : LordCmd) → Sends hw c (record c { outbox = c.outbox ++ cmd ∷ [] })

pub data Sent (hw : RegisterRequest) (c : Connection) : Connection → Type 0 where
  none_sent : Sent hw c c
  one_more : {d e : Connection} → Sent hw c d → Sends hw d e → Sent hw c e

module _ (lord_id_from_hostname : String → ℕ) (to_uint32 : ℤ → ℕ) where
  -- `Connect` up to its loops: the first message has to be a registration
  unfoldable pub accept :
      ℕ → String → Dict LordEntry → List Message → Server → Result (Unit {0}) × Server
  accept now lord_id visited [] s = (err invalid_argument, s)
  accept now lord_id visited (hello req ∷ rest) s =
      (ok tt, connect_lord lord_id_from_hostname to_uint32 now lord_id req visited s)
  accept now lord_id visited (report cmd ∷ rest) s = (err invalid_argument, s)

module _ (lord_id_from_hostname : String → ℕ) (to_uint32 : ℤ → ℕ) (hw : RegisterRequest) where
  -- With a message left in the outbox, from an earlier connection or from a process that runs, a lord
  -- that connects can be rejected: there is an order of the two senders in which that message goes first,
  -- the scheduler answers invalid argument and stays as it was, and the message is in the outbox no more.
  pub reconnect_rejected :
      (now : ℕ) (lord_id : String) (visited : Dict LordEntry) (cmd : LordCmd) (rest : List LordCmd)
      (s : Server)
      → (c : Connection) × Sent hw (opened (cmd ∷ rest)) c
        × (c.registered ≡ true)
        × (c.outbox ≡ rest)
        × (accept lord_id_from_hostname to_uint32 now lord_id visited c.stream s
            ≡ (err invalid_argument, s))
  unfolding accept
  reconnect_rejected now lord_id visited cmd rest s =
      (_, one_more (one_more none_sent (forwards cmd rest refl)) (registers refl), refl, refl, refl)

  -- the stream begins with the registration
  abbrev pub IsOpen : Connection → Type 0
  IsOpen c = (rest : List Message) × (c.stream ≡ hello hw ∷ rest)

  Sends-IsOpen : (c d : Connection) → Sends hw c d → IsOpen c → IsOpen d
  Sends-IsOpen c d (registers first) (rest, e) =
      (rest ++ hello hw ∷ [], ap (λ l. l ++ hello hw ∷ []) e)
  Sends-IsOpen c d (forwards cmd left waits) (rest, e) =
      (rest ++ report cmd ∷ [], ap (λ l. l ++ report cmd ∷ []) e)
  Sends-IsOpen c d (queues cmd) (rest, e) = (rest, e)

  Sent-IsOpen : {c d : Connection} → Sent hw c d → IsOpen c → IsOpen d
  Sent-IsOpen none_sent o = o
  Sent-IsOpen (one_more {d} {e} r st) o = Sends-IsOpen d e st (Sent-IsOpen r o)

  -- a lord whose registration goes first is connected, whatever it sends after that
  pub registration_accepted :
      (now : ℕ) (lord_id : String) (visited : Dict LordEntry) (outbox : List LordCmd) (s : Server)
      (c : Connection)
      → Sent hw (record { registered = true; outbox = outbox; stream = hello hw ∷ [] }) c
      → accept lord_id_from_hostname to_uint32 now lord_id visited c.stream s
        ≡ (ok tt, connect_lord lord_id_from_hostname to_uint32 now lord_id hw visited s)
  unfolding accept
  registration_accepted now lord_id visited outbox s c r =
      let (rest, e) = Sent-IsOpen r ([], refl) in
      ap (λ l. accept lord_id_from_hostname to_uint32 now lord_id visited l s) e

-- a handler returns, if the clock of a drain goes forward
pub handle_event-answers :
    (os : Os) (w : Waiting) (ev : LordEvent) (ag : Agent)
    → Ticks w
    → (out : Handled) × (handle_event os w ev ag ≡ some out)
unfolding handle_event
handle_event-answers os w (set_drain grace) ag ticks = elim (Bool-cases ag.draining) [
  | inl already ↦ ((none, ag), rw (already, handle_set_drain) refl)
  | inr working ↦ let (ag₁, ag₂, over, drained) = drain_ends w grace ag ticks working in (_, over)
]
handle_event-answers os w (register_ack id) ag ticks = (_, refl)
handle_event-answers os w heartbeat_ack ag ticks = (_, refl)
handle_event-answers os w (spawn req) ag ticks = (_, refl)
handle_event-answers os w (kill req) ag ticks = (_, refl)
handle_event-answers os w (lazy_death_ack grace) ag ticks = (_, refl)
handle_event-answers os w (write_stdin req) ag ticks = (_, refl)
handle_event-answers os w file_push ag ticks = (_, refl)
