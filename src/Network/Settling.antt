-- ===== src/Network/Settling.antt =====
-- The messages between the scheduler and a lord come to rest.
use etronium_scdr.Prelude.{
  ℕ, zero, suc, ◌+◌, ◌≤◌, ◌<◌, String, ◌≡◌, refl, ap, sym, ◌∙◌, some, List, [], ◌∷◌, ◌⊎◌, lookup, ℤ,
  arith, Option-cases, List-cases, inl, inr, insert, length,
}
use etronium_scdr.Proto.{LordEvent}
use etronium_scdr.Server.{Server, take_event}
use etronium_scdr.Lord.{Agent, Os}
use etronium_scdr.Lord.Handlers.{Waiting}
use etronium_scdr.Lord.Drain.{Ticks}
use etronium_scdr.Lord.Connection.{handle_event-answers}
use etronium_scdr.Network.{
  Network, HasRoom, queue, Deliver, pushed, dropped, served, sent, handled, Deliveries, done, more,
}
use etronium_scdr.Network.Cost.{
  cost, queue_cost, outbox_cost, down_cost, up_cost, down_cost-snoc, up_cost-snoc, queue-found,
  queue-take_event, queue_cost-handle,
}
use etronium_scdr.Network.Reactions.{IsQuiet, handle_event-outbox}

-- nothing is on its way
pub record IsSettled (lord_id : String) (n : Network) : Type 0 where
  pub queue_empty : queue lord_id n.server ≡ []
  pub down_empty : n.down ≡ []
  pub outbox_empty : n.agent.outbox ≡ []
  pub up_empty : n.up ≡ []

pub has_room : (ag : Agent) → ag.outbox ≡ [] → HasRoom ag
has_room ag empty = omega (arith, ap length empty)

module _ (lord_id_from_hostname : String → ℕ) (to_uint32 : ℤ → ℕ) (lord_id : String) (os : Os)
    (w : Waiting) where
  abbrev pub Delivered : Network → Network → Type 0
  Delivered = Deliver lord_id_from_hostname to_uint32 lord_id os w

  abbrev pub Ran : ℕ → Network → Network → Type 0
  Ran = Deliveries lord_id_from_hostname to_uint32 lord_id os w

  cost-Delivered : (n u : Network) → IsQuiet w → Delivered n u → cost lord_id u < cost lord_id n
  cost-Delivered n u quiet (pushed ev s took) =
      omega (
        arith,
        ap queue_cost (queue-take_event lord_id ev n.server s took),
        down_cost-snoc n.down ev,
      )
  cost-Delivered n u quiet (dropped ev s took) =
      omega (arith, ap queue_cost (queue-take_event lord_id ev n.server s took))
  cost-Delivered n u quiet (served ev rest out waits room h) =
      omega (arith, ap down_cost waits, handle_event-outbox os w ev n.agent out quiet h)
  cost-Delivered n u quiet (sent cmd rest waits) =
      omega (arith, ap outbox_cost waits, up_cost-snoc n.up cmd)
  cost-Delivered n u quiet (handled now cmd rest waits) = omega (
    arith,
    ap up_cost waits,
    queue_cost-handle lord_id_from_hostname to_uint32 now lord_id cmd n.server,
  )

  -- no sequence of rounds is longer than the cost of what was on its way
  run_bound : (k : ℕ) (n u : Network) → IsQuiet w → Ran k n u → k + cost lord_id u ≤ cost lord_id n
  run_bound k n u quiet done = omega arith
  run_bound k n u quiet (more {k = j} {m = m} d ds) =
      omega (arith, cost-Delivered n m quiet d, run_bound j m u quiet ds)

  take_event-some :
      (ev : LordEvent) (rest : List LordEvent) (s : Server)
      → queue lord_id s ≡ ev ∷ rest
      → (u : Server) × (take_event lord_id s ≡ (some ev, u))
  unfolding take_event
  take_event-some ev rest s waits = elim (Option-cases (lookup lord_id s.sessions)) [
    | inl absent ↦ absurd (ground arith)
    | inr (sess, found) ↦
        let outbox : sess.outbox ≡ ev ∷ rest = sym (queue-found lord_id sess s found) ∙ waits in
        (
          record s { sessions = insert lord_id (record sess { outbox = rest }) s.sessions },
          rw (found, take_event, outbox) refl,
        )
  ]

  -- while something is on its way, some loop has a round to do
  progress : (n : Network) → Ticks w → IsSettled lord_id n ⊎ ((u : Network) × Delivered n u)
  progress n ticks = elim (List-cases n.agent.outbox) [
    | inr (cmd, rest, waits) ↦ inr (_, sent cmd rest waits)
    | inl outbox_empty ↦ elim (List-cases (queue lord_id n.server)) [
      | inr (ev, rest, waits) ↦
          let (s, took) = take_event-some ev rest n.server waits in inr (_, pushed ev s took)
      | inl queue_empty ↦ elim (List-cases n.down) [
        | inr (ev, rest, waits) ↦
            let (out, answered) = handle_event-answers os w ev n.agent ticks in
            inr (_, served ev rest out waits (has_room n.agent outbox_empty) answered)
        | inl down_empty ↦ elim (List-cases n.up) [
          | inr (cmd, rest, waits) ↦ inr (_, handled 0 cmd rest waits)
          | inl up_empty ↦ inl (record {
            queue_empty = queue_empty;
            down_empty = down_empty;
            outbox_empty = outbox_empty;
            up_empty = up_empty;
          })
        ]
      ]
    ]
  ]

  settle_within :
      (bound : ℕ) (n : Network)
      → IsQuiet w
      → Ticks w
      → cost lord_id n ≤ bound
      → (k : ℕ) × (u : Network) × Ran k n u × IsSettled lord_id u
  settle_within bound n quiet ticks enough = by_progress bound n enough (progress n ticks)
    where
      by_progress :
          (b : ℕ) (m : Network)
          → cost lord_id m ≤ b
          → IsSettled lord_id m ⊎ ((u : Network) × Delivered m u)
          → (k : ℕ) × (u : Network) × Ran k m u × IsSettled lord_id u
      by_progress b m le (inl settled) = (0, m, done, settled)
      by_progress zero m le (inr (u, d)) = absurd (omega (arith, cost-Delivered m u quiet d))
      by_progress (suc b) m le (inr (u, d)) =
          let (k, v, ds, settled) =
            by_progress b u (omega (arith, cost-Delivered m u quiet d)) (progress u ticks) in
          (suc k, v, more d ds, settled)

  -- While a drain waits, nothing else sends, and the clock goes forward. From whatever is on its way
  -- between the scheduler and a lord, and whatever rounds the four loops have done since, further
  -- rounds lead to a state in which nothing is on its way, and all the rounds together are at most as
  -- many as the cost of what was on its way at first: the two sides do not answer each other forever.
  pub messages_settle :
      (k : ℕ) (n u : Network)
      → IsQuiet w
      → Ticks w
      → Ran k n u
      → (j : ℕ) × (v : Network) × Ran j u v × IsSettled lord_id v × (k + j ≤ cost lord_id n)
  messages_settle k n u quiet ticks ran =
      let (j, v, further, settled) = settle_within (cost lord_id u) u quiet ticks (omega arith) in
      let before : k + cost lord_id u ≤ cost lord_id n = run_bound k n u quiet ran in
      let after : j + cost lord_id v ≤ cost lord_id u = run_bound j u v quiet further in
      (j, v, further, settled, omega arith)
