-- ===== src/Network/Rounds.antt =====
-- Which rounds are possible when one message is on its way and no other: the runs of two and of four
-- rounds that follow.
use etronium_scdr.Prelude.{
  ℕ, zero, suc, String, ◌≡◌, refl, ap, sym, ◌∙◌, ◌⊎◌, inl, inr, some, List, [], ◌∷◌, ◌++◌, ℤ, arith,
}
use etronium_scdr.Proto.{LordEvent}
use etronium_scdr.Server.{Server, take_event}
use etronium_scdr.Connect.{LordCmd, handle}
use etronium_scdr.Lord.{Os}
use etronium_scdr.Lord.Handlers.{Waiting, Handled, handle_event}
use etronium_scdr.Network.{Network, queue, pushed, dropped, served, sent, handled, done, more}
use etronium_scdr.Network.Cost.{queue-take_event}
use etronium_scdr.Network.Settling.{Delivered, Ran}

-- two lists that are the same but for their last elements
pub last_same : (l : List LordCmd) (x y : LordCmd) → l ++ x ∷ [] ≡ l ++ y ∷ [] → x ≡ y
last_same [] x y e = cc
last_same (c ∷ l) x y e = let rest : l ++ x ∷ [] ≡ l ++ y ∷ [] = cc in last_same l x y rest

-- what is on its way, place by place
pub record OnWay (lord_id : String) (waiting down : List LordEvent) (outbox up : List LordCmd)
    (n : Network) : Type 0 where
  pub in_queue : queue lord_id n.server ≡ waiting
  pub in_down : n.down ≡ down
  pub in_outbox : n.agent.outbox ≡ outbox
  pub in_up : n.up ≡ up

module _ (lord_id_from_hostname : String → ℕ) (to_uint32 : ℤ → ℕ) (lord_id : String) (os : Os)
    (w : Waiting) where
  abbrev To : Network → Network → Type 0
  To = Delivered lord_id_from_hostname to_uint32 lord_id os w

  abbrev Runs : ℕ → Network → Network → Type 0
  Runs = Ran lord_id_from_hostname to_uint32 lord_id os w

  none_taken :
      (ev : LordEvent) (s u : Server)
      → queue lord_id s ≡ []
      → take_event lord_id s ≡ (some ev, u)
      → ⊥
  none_taken ev s u empty took =
      let q : queue lord_id s ≡ ev ∷ queue lord_id u = queue-take_event lord_id ev s u took in cc

  -- nothing is on its way, and no round is possible
  at_rest : (n u : Network) → OnWay lord_id [] [] [] [] n → To n u → ⊥
  at_rest n u o (pushed ev s took) = none_taken ev n.server s o.in_queue took
  at_rest n u o (dropped ev s took) = none_taken ev n.server s o.in_queue took
  at_rest n u o (served ev rest out waits room h) = let e = o.in_down in cc
  at_rest n u o (sent cmd rest waits) = let e = o.in_outbox in cc
  at_rest n u o (handled now cmd rest waits) = let e = o.in_up in cc

  -- the round after that in which an event waits in the outbox of its session
  first_round :
      (ev : LordEvent) (s : Server) (n u : Network)
      → OnWay lord_id (ev ∷ []) [] [] [] n
      → take_event lord_id n.server ≡ (some ev, s)
      → To n u
      → OnWay lord_id [] [] [] [] u
        ⊎ OnWay lord_id [] (ev ∷ []) [] [] u × (u.server ≡ s) × (u.agent ≡ n.agent)
  first_round ev s n u o takes (pushed ev' s' took) =
      let q : queue lord_id n.server ≡ ev' ∷ queue lord_id s' =
        queue-take_event lord_id ev' n.server s' took in
      let waits = o.in_queue in
      let event : ev' ≡ ev = cc in
      let left : queue lord_id s' ≡ [] = cc in
      let server : s' ≡ s = cc in
      inr (
        record {
          in_queue = left;
          in_down = ap (λ l. l ++ ev' ∷ []) o.in_down ∙ ap (λ x. x ∷ []) event;
          in_outbox = o.in_outbox;
          in_up = o.in_up;
        },
        server,
        refl,
      )
  first_round ev s n u o takes (dropped ev' s' took) =
      let q : queue lord_id n.server ≡ ev' ∷ queue lord_id s' =
        queue-take_event lord_id ev' n.server s' took in
      let waits = o.in_queue in
      inl (record { in_queue = cc; in_down = o.in_down; in_outbox = o.in_outbox; in_up = o.in_up })
  first_round ev s n u o takes (served ev' rest out waits room h) = let e = o.in_down in absurd (cc)
  first_round ev s n u o takes (sent cmd rest waits) = let e = o.in_outbox in absurd (cc)
  first_round ev s n u o takes (handled now cmd rest waits) = let e = o.in_up in absurd (cc)

  -- the round of the handler
  second_round :
      (ev : LordEvent) (out : Handled) (cmds : List LordCmd) (n u : Network)
      → OnWay lord_id [] (ev ∷ []) [] [] n
      → handle_event os w ev n.agent ≡ some out
      → out.1.outbox ≡ cmds
      → To n u
      → OnWay lord_id [] [] cmds [] u × (u.server ≡ n.server) × (u.agent ≡ out.1)
  second_round ev out cmds n u o answer told (pushed ev' s' took) =
      absurd (none_taken ev' n.server s' o.in_queue took)
  second_round ev out cmds n u o answer told (dropped ev' s' took) =
      absurd (none_taken ev' n.server s' o.in_queue took)
  second_round ev out cmds n u o answer told (served ev' rest out' waits room h) =
      let e = o.in_down in
      let event : ev' ≡ ev = cc in
      let left : rest ≡ [] = cc in
      let same : out' ≡ out = cc in
      (
        record {
          in_queue = o.in_queue;
          in_down = left;
          in_outbox = ap (λ (x : Handled). x.1.outbox) same ∙ told;
          in_up = o.in_up;
        },
        refl,
        ap (λ (x : Handled). x.1) same,
      )
  second_round ev out cmds n u o answer told (sent cmd rest waits) =
      let e = o.in_outbox in absurd (cc)
  second_round ev out cmds n u o answer told (handled now cmd rest waits) =
      let e = o.in_up in absurd (cc)

  -- a message leaves the outbox of the agent
  third_round :
      (cmd : LordCmd) (n u : Network)
      → OnWay lord_id [] [] (cmd ∷ []) [] n
      → To n u
      → OnWay lord_id [] [] [] (cmd ∷ []) u × (u.server ≡ n.server)
  third_round cmd n u o (pushed ev' s' took) = absurd (none_taken ev' n.server s' o.in_queue took)
  third_round cmd n u o (dropped ev' s' took) = absurd (none_taken ev' n.server s' o.in_queue took)
  third_round cmd n u o (served ev' rest out' waits room h) = let e = o.in_down in absurd (cc)
  third_round cmd n u o (sent cmd' rest waits) =
      let e = o.in_outbox in
      let message : cmd' ≡ cmd = cc in
      let left : rest ≡ [] = cc in
      (
        record {
          in_queue = o.in_queue;
          in_down = o.in_down;
          in_outbox = left;
          in_up = ap (λ l. l ++ cmd' ∷ []) o.in_up ∙ ap (λ x. x ∷ []) message;
        },
        refl,
      )
  third_round cmd n u o (handled now cmd' rest waits) = let e = o.in_up in absurd (cc)

  -- the scheduler handles it
  fourth_round :
      (cmd : LordCmd) (n u : Network)
      → OnWay lord_id [] [] [] (cmd ∷ []) n
      → To n u
      → (now : ℕ) × (u.server ≡ handle lord_id_from_hostname to_uint32 now lord_id cmd n.server)
  fourth_round cmd n u o (pushed ev' s' took) = absurd (none_taken ev' n.server s' o.in_queue took)
  fourth_round cmd n u o (dropped ev' s' took) = absurd (none_taken ev' n.server s' o.in_queue took)
  fourth_round cmd n u o (served ev' rest out' waits room h) = let e = o.in_down in absurd (cc)
  fourth_round cmd n u o (sent cmd' rest waits) = let e = o.in_outbox in absurd (cc)
  fourth_round cmd n u o (handled now cmd' rest waits) =
      let e = o.in_up in
      let message : cmd' ≡ cmd = cc in
      (now, ap (λ x. handle lord_id_from_hostname to_uint32 now lord_id x n.server) message)

  pub no_rounds : (k : ℕ) (a b : Network) → k ≡ 0 → Runs k a b → a ≡ b
  no_rounds zero a b e done = refl
  no_rounds (suc k) a b e (more d ds) = absurd (omega arith)

  first_of :
      (k j : ℕ) (n u : Network) → k ≡ suc j → Runs k n u → (m : Network) × To n m × Runs j m u
  first_of zero j n n' e done = absurd (omega arith)
  first_of (suc k) j n u e (more {k = i} {m = m} d ds) =
      let same : k ≡ j = omega arith in (m, d, (rw same at ds))

  -- Two rounds after a lone event is queued, its handler has run.
  pub two_rounds :
      (ev : LordEvent) (s : Server) (out : Handled) (cmds : List LordCmd) (n u : Network)
      → OnWay lord_id (ev ∷ []) [] [] [] n
      → take_event lord_id n.server ≡ (some ev, s)
      → handle_event os w ev n.agent ≡ some out
      → out.1.outbox ≡ cmds
      → (k : ℕ) → Runs (suc (suc k)) n u
      → (m : Network) × OnWay lord_id [] [] cmds [] m
        × (m.server ≡ s)
        × (m.agent ≡ out.1)
        × Runs k m u
  two_rounds ev s out cmds n u o takes answer told k ran =
      let (m, d, ds) = first_of (suc (suc k)) (suc k) n u refl ran in
      let (v, d', ds') = first_of (suc k) k m u refl ds in
      elim (first_round ev s n m o takes d) [
        | inl lost ↦ absurd (at_rest m v lost d')
        | inr (on, server, agent) ↦
            let (on', server', agent') =
              second_round ev out cmds m v on (ap (handle_event os w ev) agent ∙ answer) told d' in
            (v, on', server' ∙ server, agent', ds')
      ]

  -- two rounds after a lone message is in the outbox of the agent, the scheduler has handled it
  pub message_rounds :
      (cmd : LordCmd) (n u : Network)
      → OnWay lord_id [] [] (cmd ∷ []) [] n
      → Runs 2 n u
      → (now : ℕ) × (u.server ≡ handle lord_id_from_hostname to_uint32 now lord_id cmd n.server)
  message_rounds cmd n u o ran =
      let (m, d, ds) = first_of 2 1 n u (omega arith) ran in
      let (v, d', ds') = first_of 1 0 m u (omega arith) ds in
      let (on, server) = third_round cmd n m o d in
      let (now, at_end) = fourth_round cmd m v on d' in
      let over : v ≡ u = no_rounds 0 v u refl ds' in
      (
        now,
        ap (λ (x : Network). x.server) (sym over)
            ∙ at_end
            ∙ ap (handle lord_id_from_hostname to_uint32 now lord_id cmd) server,
      )
