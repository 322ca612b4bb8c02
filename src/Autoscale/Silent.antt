-- ===== src/Autoscale/Silent.antt =====
-- What `Decide` does with scores without rejects, round after round.
use etronium_scdr.Prelude.{
  ℕ, String, Bool, ◌≡◌, ◌≢◌, refl, false, some, List, [], ◌∷◌, Dict, Bool-cases, ◌⊎◌, inl, inr,
}
use mathlib.Core.Path.{subst}
use etronium_scdr.Float.{Float}
use etronium_scdr.Registry.{LordEntry}
use etronium_scdr.Autoscale.{
  Action, Decision, prune, blacklist, migrate, rebalance, Counters, AutoscaleConfig, LordScore,
  AutoscaleState, new_autoscale_state,
}
use etronium_scdr.Autoscale.Sampling.{reject_rates, sample}
use etronium_scdr.Autoscale.Rounds.{
  blacklist_loop, to_relieve, overload_loop, hottest, on_last, to_rebalance, rebalance_step,
  rate_limited, decide,
}
use etronium_scdr.Autoscale.Targets.{IsSort}
use etronium_scdr.Autoscale.Changes.{Among, Among-append}
use etronium_scdr.Autoscale.Limits.{overload_loop_action, rebalance_step_unlimited}
use etronium_scdr.Autoscale.Rejects.{IsNamed, IsQuiet, sample-IsQuiet}

module _ (fl : Float) where
  open fl use {F, lit, lt}

  module _ (cfg : AutoscaleConfig fl) (now : ℕ) where
    -- with no rejects nothing is blacklisted, as long as the threshold is not negative
    blacklist_loop_quiet :
        (d : Dict (LordScore fl))
        → lt cfg.thresh.blacklist_reject (lit 0 0) ≡ false
        → IsQuiet fl d
        → blacklist_loop fl cfg now d ≡ ([], d)
    unfolding blacklist_loop
    blacklist_loop_quiet [] least quiet = refl
    blacklist_loop_quiet ((k, sc) ∷ d) least quiet =
        rw (quiet sc (inl refl), least, blacklist_loop_quiet d least (λ x h. quiet x (inr h))) refl

    overload_loop-IsQuiet :
        (by_score d : Dict (LordScore fl))
        → IsQuiet fl d
        → IsQuiet fl (overload_loop fl cfg now by_score d).1
    unfolding overload_loop
    overload_loop-IsQuiet by_score [] quiet x h = absurd h
    overload_loop-IsQuiet by_score ((k, sc) ∷ d) quiet x h =
        elim (Bool-cases (to_relieve fl cfg now by_score sc)) [
          | inl relieved ↦ elim (rw (relieved, overload_loop) at h) [
            | inl e ↦ rw (← e) (quiet sc (inl refl))
            | inr later ↦ overload_loop-IsQuiet by_score d (λ y g. quiet y (inr g)) x later
          ]
          | inr passed ↦ elim (rw (passed, overload_loop) at h) [
            | inl e ↦ rw (← e) (quiet sc (inl refl))
            | inr later ↦ overload_loop-IsQuiet by_score d (λ y g. quiet y (inr g)) x later
          ]
        ]

    on_last-IsQuiet :
        (d : Dict (LordScore fl))
        → IsQuiet fl d
        → IsQuiet fl (on_last fl (λ x. record x { last_migration = some now }) d)
    on_last-IsQuiet [] quiet x h = absurd h
    on_last-IsQuiet ((k, y) ∷ []) quiet x (inl e) = rw (← e) (quiet y (inl refl))
    on_last-IsQuiet ((k, y) ∷ []) quiet x (inr h) = absurd h
    on_last-IsQuiet ((k, y) ∷ (j, z) ∷ d) quiet x (inl e) = rw (← e) (quiet y (inl refl))
    on_last-IsQuiet ((k, y) ∷ (j, z) ∷ d) quiet x (inr h) =
        on_last-IsQuiet ((j, z) ∷ d) (λ w g. quiet w (inr g)) x h

    rebalance_step-IsQuiet :
        (limited : Bool) (d : Dict (LordScore fl))
        → IsQuiet fl d
        → IsQuiet fl (rebalance_step fl cfg now limited d).1
    unfolding rebalance_step
    rebalance_step-IsQuiet limited [] quiet = quiet
    rebalance_step-IsQuiet limited ((k, cold) ∷ []) quiet = quiet
    rebalance_step-IsQuiet limited ((k, cold) ∷ (j, y) ∷ d) quiet =
        elim (Bool-cases (to_rebalance fl cfg now limited (hottest fl y d) cold)) [
          | inl moved ↦ rw (moved, rebalance_step) (on_last-IsQuiet ((k, cold) ∷ (j, y) ∷ d) quiet)
          | inr still ↦ rw (still, rebalance_step) quiet
        ]

    decide-IsQuiet :
        (sort : Dict (LordScore fl) → Dict (LordScore fl)) (st : AutoscaleState fl)
        → IsSort fl sort
        → lt cfg.thresh.blacklist_reject (lit 0 0) ≡ false
        → IsQuiet fl st.lords
        → IsQuiet fl (decide fl cfg now sort st).1.lords
    unfolding decide
    decide-IsQuiet sort st sorts least quiet =
        let sorted : IsQuiet fl (sort st.lords) = λ x h. quiet x (sorts.members st.lords x h) in
        let d₂ : Dict (LordScore fl) =
          (overload_loop fl cfg now (sort st.lords) (sort st.lords)).1 in
        rw (blacklist_loop_quiet (sort st.lords) least sorted) (
          rebalance_step-IsQuiet (rate_limited fl cfg now (prune now st.migrations)) d₂
            (overload_loop-IsQuiet (sort st.lords) (sort st.lords) sorted))

    decide_no_blacklist :
        (sort : Dict (LordScore fl) → Dict (LordScore fl)) (st : AutoscaleState fl) (x : Decision)
        → IsSort fl sort
        → lt cfg.thresh.blacklist_reject (lit 0 0) ≡ false
        → IsQuiet fl st.lords
        → Among x (decide fl cfg now sort st).0
        → x.action ≢ blacklist
    unfolding decide
    decide_no_blacklist sort st x sorts least quiet h black =
        let d : Dict (LordScore fl) = sort st.lords in
        let d₁ : Dict (LordScore fl) = (blacklist_loop fl cfg now d).1 in
        let d₂ : Dict (LordScore fl) = (overload_loop fl cfg now d₁ d₁).1 in
        let limited : Bool = rate_limited fl cfg now (prune now st.migrations) in
        let silent : blacklist_loop fl cfg now d ≡ ([], d) =
          blacklist_loop_quiet d least (λ y g. quiet y (sorts.members st.lords y g)) in
        elim (Among-append x _ (rebalance_step fl cfg now limited d₂).0 h) [
          | inl early ↦ elim (Among-append x _ (overload_loop fl cfg now d₁ d₁).0 early) [
            | inl listed ↦
                subst (λ (p : List Decision × Dict (LordScore fl)). Among x p.0) silent listed
            | inr over ↦ other x.action black (inl (overload_loop_action fl cfg now d₁ d₁ x over))
          ]
          | inr last ↦
              other x.action black (inr (rebalance_step_unlimited fl cfg now limited d₂ x last).0)
        ]
      where
        other : (a : Action) → a ≡ blacklist → (a ≡ migrate) ⊎ (a ≡ rebalance) → ⊥
        other a e (inl b) = cc
        other a e (inr m) = cc

  module _ (cfg : AutoscaleConfig fl) (sort : Dict (LordScore fl) → Dict (LordScore fl))
      (id_of : ℕ → String) where
    -- what a round samples: any usage and counters, and lords whose ids are not such keys
    pub record Sampled : Type 0 where
      pub cpu_of : String → F
      pub mem_of : String → F
      pub counters : List (ℕ × Counters)
      pub by_id : Dict LordEntry
      pub named : IsNamed fl id_of by_id

    abbrev pub sampled : Sampled → AutoscaleState fl → AutoscaleState fl
    sampled m st = sample fl cfg m.cpu_of m.mem_of (reject_rates fl id_of m.counters []) m.by_id st

    -- the states of the autoscaler after any number of rounds
    pub data Rounds : AutoscaleState fl → Type 0 where
      start : Rounds (new_autoscale_state fl)
      round :
          {st : AutoscaleState fl} (m : Sampled) (now : ℕ)
          → Rounds st
          → Rounds (decide fl cfg now sort (sampled m st)).1

    Rounds-IsQuiet :
        {st : AutoscaleState fl}
        → IsSort fl sort
        → lt cfg.thresh.blacklist_reject (lit 0 0) ≡ false
        → Rounds st
        → IsQuiet fl st.lords
    Rounds-IsQuiet sorts least start = λ x h. absurd h
    Rounds-IsQuiet sorts least (round {st} m now r) =
        decide-IsQuiet cfg now sort (sampled m st) sorts least (
          sample-IsQuiet fl cfg m.cpu_of m.mem_of id_of m.counters m.by_id st m.named
            (Rounds-IsQuiet sorts least r))

    -- However many rounds the autoscaler makes, and whatever the kernel counts, no decision blacklists
    -- a lord, given that no lord's id is one of the ids of four bytes that the reject rates are kept
    -- under, and that the threshold is not negative.
    pub rounds_never_blacklist :
        (st : AutoscaleState fl) (m : Sampled) (now : ℕ) (x : Decision)
        → IsSort fl sort
        → lt cfg.thresh.blacklist_reject (lit 0 0) ≡ false
        → Rounds st
        → Among x (decide fl cfg now sort (sampled m st)).0
        → x.action ≢ blacklist
    rounds_never_blacklist st m now x sorts least r h =
        decide_no_blacklist cfg now sort (sampled m st) x sorts least
          (sample-IsQuiet fl cfg m.cpu_of m.mem_of id_of m.counters m.by_id st m.named
            (Rounds-IsQuiet sorts least r))
          h
