-- ===== src/Network.antt =====
-- The scheduler and a lord as one system (internal/scheduler/connect.go, internal/lord/agent.go): the
-- messages between them, the four loops that move these, and what the lord does in between. Each
-- stream keeps the order of its messages, as gRPC does. Time is that of the scheduler. A run is one of
-- the program of the lord: it ends when that ends, 100 ms after a drain.
pub mod Cost
pub mod Reactions
pub mod Settling
pub mod Rounds
pub mod Events
pub mod Spawning
pub mod Stopping
pub mod Runs
pub mod Tests
use etronium_scdr.Prelude.{
  ℕ, ◌<◌, length, suc, String, ◌≡◌, Option, none, some, List, [], ◌∷◌, ◌++◌, lookup, ℤ,
}
use etronium_scdr.Proto.{LordEvent}
use etronium_scdr.Server.{Server, take_event}
use etronium_scdr.Connect.{LordCmd, handle}
use etronium_scdr.Lord.{
  LocalProcess, Agent, Os, WaitStatus, IoChunk, agent_outbox_size, send, send_heartbeat, to_cmd,
  wait_process,
}
use etronium_scdr.Lord.Handlers.{Waiting, Handled, handle_event}
use etronium_scdr.System.{Step, Reach, received, delivered, next}

-- `down` and `up` are what the two directions of the stream of the lord hold.
pub record Network : Type 0 where
  pub server : Server
  pub agent : Agent
  pub down : List LordEvent
  pub up : List LordCmd

-- what waits in the outbox of a session
abbrev pub queue : String → Server → List LordEvent
queue lord_id s = elim (lookup lord_id s.sessions) [ none ↦ [] | some sess ↦ sess.outbox ]

abbrev pub with_outbox : List LordCmd → Agent → Agent
with_outbox cmds ag = record ag { outbox = cmds }

-- a send to the outbox of the agent need not wait
abbrev pub HasRoom : Agent → Type 0
HasRoom ag = length ag.outbox < agent_outbox_size

module _ (lord_id_from_hostname : String → ℕ) (to_uint32 : ℤ → ℕ) (lord_id : String) (os : Os)
    (w : Waiting) where
  -- A round of one of the loops: `sendLoop` of the session, also where its send takes more than 2 s and
  -- the event is dropped, `recvLoop` of the agent, `sendLoop` of the agent and `recvLoop` of the
  -- session. A handler of the agent is at its answer when the outbox has room.
  pub data Deliver (n : Network) : Network → Type 0 where
    pushed :
        (ev : LordEvent) (s : Server)
        → take_event lord_id n.server ≡ (some ev, s)
        → Deliver n (record n { server = s; down = n.down ++ ev ∷ [] })
    dropped :
        (ev : LordEvent) (s : Server)
        → take_event lord_id n.server ≡ (some ev, s)
        → Deliver n (record n { server = s })
    served :
        (ev : LordEvent) (rest : List LordEvent) (out : Handled)
        → n.down ≡ ev ∷ rest
        → HasRoom n.agent
        → handle_event os w ev n.agent ≡ some out
        → Deliver n (record n { agent = out.1; down = rest })
    sent :
        (cmd : LordCmd) (rest : List LordCmd)
        → n.agent.outbox ≡ cmd ∷ rest
        → Deliver n (record n { agent = with_outbox rest n.agent; up = n.up ++ cmd ∷ [] })
    handled :
        (now : ℕ) (cmd : LordCmd) (rest : List LordCmd)
        → n.up ≡ cmd ∷ rest
        → Deliver n (record n {
          server = handle lord_id_from_hostname to_uint32 now lord_id cmd n.server;
          up = rest;
        })

  -- so many rounds, one after the other
  pub data Deliveries : ℕ → Network → Network → Type 0 where
    done : {n : Network} → Deliveries 0 n n
    more : {k : ℕ} {n m u : Network} → Deliver n m → Deliveries k m u → Deliveries (suc k) n u
