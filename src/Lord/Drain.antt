-- ===== src/Lord/Drain.antt =====
-- The drain of a lord: its waiting ends, and no process is left without SIGKILL.
use etronium_scdr.Prelude.{
  ℕ, zero, suc, ◌+◌, ◌≤◌, ◌<◌, ◌≡◌, ◌≢◌, refl, ap, ◌∙◌, Bool, true, false, none, some, List, [],
  ◌∷◌, ◌++◌, ℤ, pos, eqb, ltb, length, arith, if◌then◌else◌, Bool-cases, ◌⊎◌, inl, inr, In, Dict,
  Holds,
}
use etronium_scdr.Connect.{lazy_death}
use etronium_scdr.Lord.{
  LocalProcess, Agent, drain_complete, kill_all, signal_all, grace_of, nanoseconds,
}
use etronium_scdr.Lord.Handlers.{Waiting, drain_wait, end_drain, drained, handle_set_drain}

-- a clock that goes forward from look to look, as the ticker of 500 ms makes it
abbrev pub Ticks : Waiting → Type 0
Ticks w = (k : ℕ) → w.clock k < w.clock (suc k)

-- the agent at look k of a drain that began with an agent, if the waiting goes on that long
abbrev pub at_look : Waiting → Agent → ℕ → Agent
at_look w ag zero = w.between 0 ag
at_look w ag (suc k) = w.between (suc k) (at_look w ag k)

module _ (w : Waiting) where
  -- a look after which the waiting goes on: there is time left, and a process
  abbrev pub Goes : Agent → ℕ → ℕ → Type 0
  Goes start deadline j = (w.clock j < deadline) × ((at_look w start j).procs ≢ [])

  -- The waiting that began with an agent ends at look k with another: there no process is left or the
  -- time is up, and at every look before, it went on.
  pub record IsOver (start : Agent) (deadline : ℕ) (ag : Agent) (k : ℕ) : Type 0 where
    pub seen : ag ≡ at_look w start k
    pub over : (ag.procs ≡ []) ⊎ (deadline ≤ w.clock k)
    pub before : (j : ℕ) → j < k → Goes start deadline j

  empty_of_length : (ag : Agent) → eqb (length ag.procs) 0 ≡ true → ag.procs ≡ []
  empty_of_length ag h = by_list ag.procs h
    where
      by_list : (d : Dict LocalProcess) → eqb (length d) 0 ≡ true → d ≡ []
      by_list [] e = refl
      by_list (x ∷ d) e = absurd (ground arith)

  alive_of_length : (ag : Agent) → eqb (length ag.procs) 0 ≡ false → ag.procs ≢ []
  alive_of_length ag h e = absurd (ground (arith, ap length e))

  before-suc :
      (start : Agent) (deadline k : ℕ)
      → ((j : ℕ) → j < k → Goes start deadline j)
      → Goes start deadline k
      → (j : ℕ) → j < suc k
      → Goes start deadline j
  before-suc start deadline k earlier now j h = elim (Bool-cases (ltb j k)) [
    | inl lt ↦ earlier j (ground arith)
    | inr ge ↦ let same : k ≡ j = ground arith in rw (← same) now
  ]

  -- one turn more than there are nanoseconds left is enough
  drain_wait-ends :
      (left k deadline : ℕ) (start ag : Agent)
      → Ticks w
      → deadline ≤ w.clock k + left
      → w.between k ag ≡ at_look w start k
      → ((j : ℕ) → j < k → Goes start deadline j)
      → (ag' : Agent) × (last : ℕ) × (drain_wait w (suc left) k deadline ag ≡ some ag')
        × IsOver start deadline ag' last
  unfolding drain_wait
  drain_wait-ends zero k deadline start ag ticks enough same earlier =
      let late : ltb (w.clock k) deadline ≡ false = ground arith in
      (
        w.between k ag,
        k,
        rw (late, drain_wait) refl,
        record { seen = same; over = inr (ground arith); before = earlier },
      )
  drain_wait-ends (suc left) k deadline start ag ticks enough same earlier =
      let ag₁ : Agent = w.between k ag in
      elim (Bool-cases (ltb (w.clock k) deadline)) [
        | inl early ↦ elim (Bool-cases (eqb (length ag₁.procs) 0)) [
          | inl empty ↦ (
            ag₁,
            k,
            rw (early, empty, drain_wait) refl,
            record { seen = same; over = inl (empty_of_length ag₁ empty); before = earlier },
          )
          | inr alive ↦
              let tick : w.clock k < w.clock (suc k) = ticks k in
              let busy : ag₁.procs ≢ [] = alive_of_length ag₁ alive in
              let goes : Goes start deadline k =
                (ground arith, λ e. busy (ap (λ (x : Agent). x.procs) same ∙ e)) in
              let (ag', last, result, over) =
                drain_wait-ends left (suc k) deadline start ag₁ ticks
                  (closer (w.clock k) (w.clock (suc k)) left enough tick)
                  (ap (w.between (suc k)) same) (before-suc start deadline k earlier goes) in
              (ag', last, rw (early, alive, drain_wait) result, over)
        ]
        | inr late ↦ (
          ag₁,
          k,
          rw (late, drain_wait) refl,
          record { seen = same; over = inr (ground arith); before = earlier },
        )
      ]
    where
      closer : (t u left : ℕ) → deadline ≤ t + suc left → t < u → deadline ≤ u + left
      closer t u left h h' = omega arith

  kill_all-In :
      (signal : ℤ) (d : Dict LocalProcess) (p : LocalProcess)
      → Holds d p
      → In (pos p.lord_pid, signal) (kill_all signal d)
  kill_all-In signal [] p h = absurd h
  kill_all-In signal ((id, q) ∷ d) p (inl e) =
      inl (ap (λ (x : LocalProcess). (pos x.lord_pid, signal)) e)
  kill_all-In signal ((id, q) ∷ d) p (inr h) = inr (kill_all-In signal d p h)

  In-append : (x : ℤ × ℤ) (xs ys : List (ℤ × ℤ)) → In x ys → In x (xs ++ ys)
  In-append x [] ys h = h
  In-append x (y ∷ xs) ys h = inr (In-append x xs ys h)

  -- SIGTERM to every process, as the drain begins with it
  abbrev pub draining_from : Agent → Agent
  draining_from ag = signal_all (pos 15) (record ag { draining = true })

  -- What a drain of `ag` has done, whose waiting ended with `ag₁`. Each process that the agent had has been
  -- sent SIGTERM before the first look, and each one that it has in the end SIGKILL after the last.
  pub record Drained (grace : ℤ) (ag : Agent) (ag₁ : Agent) (ag₂ : Agent) : Type 0 where
    pub last : ℕ
    pub waited : IsOver (draining_from ag) (w.clock 0 + nanoseconds (grace_of grace)) ag₁ last
    pub asked :
        (p : LocalProcess)
        → Holds ag.procs p
        → In (pos p.lord_pid, pos 15) (draining_from ag).signals
    pub killed : (p : LocalProcess) → Holds ag₂.procs p → In (pos p.lord_pid, pos 9) ag₂.signals
    pub told : ag₂.outbox ≡ (
        if ltb (length ag₁.outbox) 128
        then ag₁.outbox ++ lazy_death (grace_of grace) ∷ []
        else ag₁.outbox)
    pub exits : ag₂.exiting ≡ true

  asked-draining_from :
      (ag : Agent) (p : LocalProcess)
      → Holds ag.procs p
      → In (pos p.lord_pid, pos 15) (draining_from ag).signals
  unfolding signal_all
  asked-draining_from ag p h =
      In-append (pos p.lord_pid, pos 15) ag.signals (kill_all (pos 15) ag.procs)
        (kill_all-In (pos 15) ag.procs p h)

  end_drain-Drained :
      (grace : ℤ) (start ag : Agent) (last : ℕ)
      → IsOver (draining_from start) (w.clock 0 + nanoseconds (grace_of grace)) ag last
      → Drained grace start ag (end_drain grace ag).1
  unfolding end_drain signal_all
  end_drain-Drained grace start ag last over = record {
    last = last;
    waited = over;
    asked = λ p h. asked-draining_from start p h;
    killed = λ p h. killed_by p (held p h);
    told = told_by;
    exits = refl;
  }
    where
      signals_kept : (end_drain grace ag).1.signals ≡ ag.signals ++ kill_all (pos 9) ag.procs
      signals_kept = ground arith

      procs_kept : (end_drain grace ag).1.procs ≡ ag.procs
      procs_kept = ground arith

      held : (p : LocalProcess) → Holds (end_drain grace ag).1.procs p → Holds ag.procs p
      held p h = rw procs_kept at h

      killed_by :
          (p : LocalProcess)
          → Holds ag.procs p
          → In (pos p.lord_pid, pos 9) (end_drain grace ag).1.signals
      killed_by p h = rw signals_kept (
          In-append (pos p.lord_pid, pos 9) ag.signals (kill_all (pos 9) ag.procs)
            (kill_all-In (pos 9) ag.procs p h))

      told_by : (end_drain grace ag).1.outbox ≡ (
          if ltb (length ag.outbox) 128
          then ag.outbox ++ lazy_death (grace_of grace) ∷ []
          else ag.outbox)
      told_by = ground arith

  -- If its clock goes forward from one look at the processes to the next, the drain of a lord that was
  -- not draining comes to an end. Each process of the lord is sent SIGTERM first. The waiting ends at
  -- the first look that sees no process or comes when the grace period is over. Every process that is
  -- left has been sent SIGKILL then, the scheduler is told where the outbox has room, and the program
  -- is about to exit.
  pub drain_ends :
      (grace : ℤ) (ag : Agent)
      → Ticks w
      → ag.draining ≡ false
      → (ag₁ ag₂ : Agent) × (handle_set_drain w grace ag ≡ some (some drain_complete, ag₂))
        × Drained grace ag ag₁ ag₂
  unfolding handle_set_drain end_drain
  drain_ends grace ag ticks working =
      let started : Agent = draining_from ag in
      let (ag₁, last, result, over) =
        drain_wait-ends (nanoseconds (grace_of grace)) 0 (w.clock 0 + nanoseconds (grace_of grace))
          started started ticks (omega arith) refl (λ j h. absurd (omega arith)) in
      let opened : handle_set_drain w grace ag
          ≡ drained grace (
              drain_wait w (suc (nanoseconds (grace_of grace))) 0
                (w.clock 0 + nanoseconds (grace_of grace)) started) =
        if_working ag.draining working in
      (
        ag₁,
        (end_drain grace ag₁).1,
        opened ∙ ap (drained grace) result,
        end_drain-Drained grace ag ag₁ last over,
      )
    where
      if_working :
          (b : Bool)
          → b ≡ false
          → (if b
              then some (none, ag)
              else drained grace (
                  drain_wait w
                    (suc (nanoseconds (grace_of grace)))
                    0
                    (w.clock 0 + nanoseconds (grace_of grace))
                    (signal_all (pos 15) (record ag { draining = true }))))
            ≡ drained grace (
                drain_wait w
                  (suc (nanoseconds (grace_of grace)))
                  0
                  (w.clock 0 + nanoseconds (grace_of grace))
                  (signal_all (pos 15) (record ag { draining = true })))
      if_working true e = absurd (cc)
      if_working false e = refl
