-- ===== src/Autoscale/Limits.antt =====
-- The limits of `Decide`: the log, the times of the migrations and the rate limit.
use etronium_scdr.Prelude.{
  ℕ, ◌+◌, ◌-◌, ◌≤◌, ◌≡◌, refl, Bool, true, false, List, [], ◌∷◌, ◌++◌, Dict, ltb, length,
  length-drop, drop, arith, Bool-cases, ◌⊎◌, inl, inr,
}
use etronium_scdr.Float.{Float}
use etronium_scdr.Autoscale.{
  Action, migrate, rebalance, blacklist, Decision, minute, prune, is_move, stamps, max_log, trim,
  AutoscaleConfig, LordScore, AutoscaleState,
}
use etronium_scdr.Autoscale.Rounds.{
  to_blacklist, blacklist_loop, to_relieve, overload_loop, hottest, to_rebalance, rebalance_step,
  rate_limited, decide,
}
use etronium_scdr.Autoscale.Changes.{Among, Among-append}

length-trim : (l : List Decision) → length (trim l) ≤ max_log
length-trim l = elim (Bool-cases (ltb max_log (length l))) [
  | inl long ↦
      let dropped : length (drop (length l - max_log) l) ≡ length l - (length l - max_log) =
        length-drop (length l - max_log) l in
      rw long (omega arith)
  | inr short ↦ rw short (ground arith)
]

-- every time is within the last minute
abbrev pub AllRecent : ℕ → List ℕ → Type 0
AllRecent now [] = Unit
AllRecent now (t ∷ ts) = (ltb now (t + minute) ≡ true) × AllRecent now ts

prune-AllRecent : (now : ℕ) (ts : List ℕ) → AllRecent now (prune now ts)
prune-AllRecent now [] = tt
prune-AllRecent now (t ∷ ts) = elim (Bool-cases (ltb now (t + minute))) [
  | inl recent ↦ rw recent (recent, prune-AllRecent now ts)
  | inr old ↦ rw old (prune-AllRecent now ts)
]

stamps-AllRecent : (now : ℕ) (ds : List Decision) → AllRecent now (stamps now ds)
stamps-AllRecent now [] = tt
stamps-AllRecent now (d ∷ ds) = elim (Bool-cases (is_move d.action)) [
  | inl move ↦ rw move (ground arith, stamps-AllRecent now ds)
  | inr other ↦ rw other (stamps-AllRecent now ds)
]

AllRecent-append :
    (now : ℕ) (ts us : List ℕ) → AllRecent now ts → AllRecent now us → AllRecent now (ts ++ us)
AllRecent-append now [] us v w = w
AllRecent-append now (t ∷ ts) us v w = (v.0, AllRecent-append now ts us v.1 w)

module _ (fl : Float) (cfg : AutoscaleConfig fl) (now : ℕ) where
  -- After a round the log holds at most 64 decisions, and the times that the rate limit counts are
  -- all within the last minute, whatever the state before.
  pub decide_bounds :
      (sort : Dict (LordScore fl) → Dict (LordScore fl)) (st : AutoscaleState fl)
      → (length (decide fl cfg now sort st).1.migration_log ≤ 64)
        × AllRecent now (decide fl cfg now sort st).1.migrations
  unfolding decide
  decide_bounds sort st = (
    length-trim (st.migration_log ++ (decide fl cfg now sort st).0),
    AllRecent-append now (prune now st.migrations) (stamps now (decide fl cfg now sort st).0)
        (prune-AllRecent now st.migrations) (stamps-AllRecent now (decide fl cfg now sort st).0),
  )

  pub blacklist_loop_action :
      (d : Dict (LordScore fl)) (x : Decision)
      → Among x (blacklist_loop fl cfg now d).0
      → x.action ≡ blacklist
  unfolding blacklist_loop
  blacklist_loop_action [] x h = absurd h
  blacklist_loop_action ((k, sc) ∷ d) x h = elim (Bool-cases (to_blacklist fl cfg now sc)) [
    | inl listed ↦ elim (rw (listed, blacklist_loop) at h) [
      | inl e ↦ rw (← e) refl
      | inr later ↦ blacklist_loop_action d x later
    ]
    | inr passed ↦ blacklist_loop_action d x (rw (passed, blacklist_loop) at h)
  ]

  pub overload_loop_action :
      (by_score d : Dict (LordScore fl)) (x : Decision)
      → Among x (overload_loop fl cfg now by_score d).0
      → x.action ≡ migrate
  unfolding overload_loop
  overload_loop_action by_score [] x h = absurd h
  overload_loop_action by_score ((k, sc) ∷ d) x h =
      elim (Bool-cases (to_relieve fl cfg now by_score sc)) [
        | inl relieved ↦ elim (rw (relieved, overload_loop) at h) [
          | inl e ↦ rw (← e) refl
          | inr later ↦ overload_loop_action by_score d x later
        ]
        | inr passed ↦ overload_loop_action by_score d x (rw (passed, overload_loop) at h)
      ]

  pub rebalance_step_unlimited :
      (limited : Bool) (d : Dict (LordScore fl)) (x : Decision)
      → Among x (rebalance_step fl cfg now limited d).0
      → (x.action ≡ rebalance) × (limited ≡ false)
  unfolding rebalance_step
  rebalance_step_unlimited limited [] x h = absurd h
  rebalance_step_unlimited limited ((k, cold) ∷ []) x h = absurd h
  rebalance_step_unlimited limited ((k, cold) ∷ (j, y) ∷ d) x h =
      elim (Bool-cases (to_rebalance fl cfg now limited (hottest fl y d) cold)) [
        | inl moved ↦ elim (rw (moved, rebalance_step) at h) [
          | inl e ↦ rw (← e) (refl, ground arith)
          | inr none_left ↦ absurd none_left
        ]
        | inr still ↦ absurd (rw (still, rebalance_step) at h)
      ]

  -- A round decides to rebalance only if the migrations of the last minute, those of this round not
  -- counted, are fewer than the limit.
  pub rebalance_keeps_rate :
      (sort : Dict (LordScore fl) → Dict (LordScore fl)) (st : AutoscaleState fl) (x : Decision)
      → Among x (decide fl cfg now sort st).0
      → x.action ≡ rebalance
      → rate_limited fl cfg now (prune now st.migrations) ≡ false
  unfolding decide
  rebalance_keeps_rate sort st x h action =
      let d₁ : Dict (LordScore fl) = (blacklist_loop fl cfg now (sort st.lords)).1 in
      let d₂ : Dict (LordScore fl) = (overload_loop fl cfg now d₁ d₁).1 in
      let limited : Bool = rate_limited fl cfg now (prune now st.migrations) in
      elim (Among-append x _ (rebalance_step fl cfg now limited d₂).0 h) [
        | inl early ↦ elim (Among-append x _ (overload_loop fl cfg now d₁ d₁).0 early) [
          | inl black ↦
              absurd (other x.action action (inl (blacklist_loop_action (sort st.lords) x black)))
          | inr over ↦ absurd (other x.action action (inr (overload_loop_action d₁ d₁ x over)))
        ]
        | inr last ↦ (rebalance_step_unlimited limited d₂ x last).1
      ]
    where
      other : (a : Action) → a ≡ rebalance → (a ≡ blacklist) ⊎ (a ≡ migrate) → ⊥
      other a e (inl b) = cc
      other a e (inr m) = cc
