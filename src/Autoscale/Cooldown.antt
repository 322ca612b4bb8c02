-- ===== src/Autoscale/Cooldown.antt =====
-- The cooldown of `Decide`: which scores a round changes, and which lords it moves processes off.
use etronium_scdr.Prelude.{
  ℕ, String, ◌≡◌, refl, Bool, true, false, some, [], ◌∷◌, Dict, arith, Bool-cases, inl, inr, Holds,
}
use etronium_scdr.Float.{Float}
use etronium_scdr.Autoscale.{Decision, is_move, prune, AutoscaleConfig, LordScore, AutoscaleState}
use etronium_scdr.Autoscale.Rounds.{
  to_blacklist, blacklist_loop, to_relieve, overload_loop, hottest, on_last, to_rebalance,
  rebalance_step, rate_limited, decide,
}
use etronium_scdr.Autoscale.Targets.{IsKept}
use etronium_scdr.Autoscale.Changes.{
  Among, Among-append, IsCool, Entrywise, Entrywise-refl, Entrywise-IsKept, FromCool, FromMarked,
  FromCool-back, FromMarked-forth,
}

module _ (fl : Float) (cfg : AutoscaleConfig fl) (now : ℕ) where
  blacklist_loop-Entrywise :
      (d : Dict (LordScore fl)) → Entrywise fl cfg now d (blacklist_loop fl cfg now d).1
  unfolding blacklist_loop
  blacklist_loop-Entrywise [] = tt
  blacklist_loop-Entrywise ((k, sc) ∷ d) = elim (Bool-cases (to_blacklist fl cfg now sc)) [
    | inl listed ↦ rw (listed, blacklist_loop) (refl, (refl, inl refl), blacklist_loop-Entrywise d)
    | inr passed ↦ rw (passed, blacklist_loop) (refl, (refl, inl refl), blacklist_loop-Entrywise d)
  ]

  blacklist_loop_moves_nothing :
      (d : Dict (LordScore fl)) (x : Decision)
      → Among x (blacklist_loop fl cfg now d).0
      → is_move x.action ≡ false
  unfolding blacklist_loop
  blacklist_loop_moves_nothing [] x h = absurd h
  blacklist_loop_moves_nothing ((k, sc) ∷ d) x h = elim (Bool-cases (to_blacklist fl cfg now sc)) [
    | inl listed ↦ elim (rw (listed, blacklist_loop) at h) [
      | inl e ↦ rw (← e) refl
      | inr later ↦ blacklist_loop_moves_nothing d x later
    ]
    | inr passed ↦ blacklist_loop_moves_nothing d x (rw (passed, blacklist_loop) at h)
  ]

  to_relieve-IsCool :
      (by_score : Dict (LordScore fl)) (sc : LordScore fl)
      → to_relieve fl cfg now by_score sc ≡ true
      → IsCool fl cfg now sc
  to_relieve-IsCool by_score sc h = ground arith

  overload_loop-Entrywise :
      (by_score d : Dict (LordScore fl))
      → Entrywise fl cfg now d (overload_loop fl cfg now by_score d).1
  unfolding overload_loop
  overload_loop-Entrywise by_score [] = tt
  overload_loop-Entrywise by_score ((k, sc) ∷ d) =
      elim (Bool-cases (to_relieve fl cfg now by_score sc)) [
        | inl relieved ↦
            rw (relieved, overload_loop)
              (
                refl,
                (refl, inr (refl, to_relieve-IsCool by_score sc relieved)),
                overload_loop-Entrywise by_score d,
              )
        | inr passed ↦
            rw (passed, overload_loop) (refl, (refl, inl refl), overload_loop-Entrywise by_score d)
      ]

  abbrev mark : LordScore fl → LordScore fl
  mark x = record x { last_migration = some now }

  FromCool-later :
      (k : String) (z : LordScore fl) (d : Dict (LordScore fl)) (x : Decision)
      → FromCool fl cfg now d x
      → FromCool fl cfg now ((k, z) ∷ d) x
  FromCool-later k z d x (sc, held, named, cool) = (sc, inr held, named, cool)

  FromMarked-later :
      (k : String) (z : LordScore fl) (d : Dict (LordScore fl)) (x : Decision)
      → FromMarked fl cfg now d x
      → FromMarked fl cfg now ((k, z) ∷ d) x
  FromMarked-later k z d x (sc, held, named, cool) = (sc, inr held, named, cool)

  overload_loop-From :
      (by_score d : Dict (LordScore fl)) (x : Decision)
      → Among x (overload_loop fl cfg now by_score d).0
      → FromCool fl cfg now d x × FromMarked fl cfg now (overload_loop fl cfg now by_score d).1 x
  unfolding overload_loop
  overload_loop-From by_score [] x h = absurd h
  overload_loop-From by_score ((k, sc) ∷ d) x h =
      elim (Bool-cases (to_relieve fl cfg now by_score sc)) [
        | inl relieved ↦
            rw (relieved, overload_loop)
              (elim (rw (relieved, overload_loop) at h) [
                | inl e ↦ rw (← e) (
                  (sc, inl refl, refl, to_relieve-IsCool by_score sc relieved),
                  (mark sc, inl refl, refl, refl),
                )
                | inr later ↦
                    let (old, new) = overload_loop-From by_score d x later in
                    (FromCool-later k sc d x old, FromMarked-later k (mark sc) _ x new)
              ])
        | inr passed ↦
            let (old, new) = overload_loop-From by_score d x (rw (passed, overload_loop) at h) in
            rw (passed, overload_loop) (FromCool-later k sc d x old, FromMarked-later k sc _ x new)
      ]

  to_rebalance-IsCool :
      (limited : Bool) (hot cold : LordScore fl)
      → to_rebalance fl cfg now limited hot cold ≡ true
      → IsCool fl cfg now hot
  to_rebalance-IsCool limited hot cold h = ground arith

  hottest-Holds :
      (k : String) (y : LordScore fl) (d : Dict (LordScore fl))
      → Holds ((k, y) ∷ d) (hottest fl y d)
  hottest-Holds k y [] = inl refl
  hottest-Holds k y ((j, x) ∷ d) = inr (hottest-Holds j x d)

  on_last-Entrywise :
      (k : String) (y : LordScore fl) (d : Dict (LordScore fl))
      → IsCool fl cfg now (hottest fl y d)
      → Entrywise fl cfg now ((k, y) ∷ d) (on_last fl mark ((k, y) ∷ d))
  on_last-Entrywise k y [] cool = (refl, (refl, inr (refl, cool)), tt)
  on_last-Entrywise k y ((j, x) ∷ d) cool = (refl, (refl, inl refl), on_last-Entrywise j x d cool)

  on_last-Holds :
      (k : String) (y : LordScore fl) (d : Dict (LordScore fl))
      → Holds (on_last fl mark ((k, y) ∷ d)) (mark (hottest fl y d))
  on_last-Holds k y [] = inl refl
  on_last-Holds k y ((j, x) ∷ d) = inr (on_last-Holds j x d)

  rebalance_step-Entrywise :
      (limited : Bool) (d : Dict (LordScore fl))
      → Entrywise fl cfg now d (rebalance_step fl cfg now limited d).1
  unfolding rebalance_step
  rebalance_step-Entrywise limited [] = tt
  rebalance_step-Entrywise limited ((k, cold) ∷ []) = Entrywise-refl fl cfg now ((k, cold) ∷ [])
  rebalance_step-Entrywise limited ((k, cold) ∷ (j, y) ∷ d) =
      elim (Bool-cases (to_rebalance fl cfg now limited (hottest fl y d) cold)) [
        | inl moved ↦
            rw (moved, rebalance_step)
              (on_last-Entrywise k cold ((j, y) ∷ d)
                (to_rebalance-IsCool limited (hottest fl y d) cold moved))
        | inr still ↦
            rw (still, rebalance_step) (Entrywise-refl fl cfg now ((k, cold) ∷ (j, y) ∷ d))
      ]

  rebalance_step-From :
      (limited : Bool) (d : Dict (LordScore fl)) (x : Decision)
      → Among x (rebalance_step fl cfg now limited d).0
      → FromCool fl cfg now d x × FromMarked fl cfg now (rebalance_step fl cfg now limited d).1 x
  unfolding rebalance_step
  rebalance_step-From limited [] x h = absurd h
  rebalance_step-From limited ((k, cold) ∷ []) x h = absurd h
  rebalance_step-From limited ((k, cold) ∷ (j, y) ∷ d) x h =
      elim (Bool-cases (to_rebalance fl cfg now limited (hottest fl y d) cold)) [
        | inl moved ↦
            rw (moved, rebalance_step)
              (elim (rw (moved, rebalance_step) at h) [
                | inl e ↦ rw (← e) (
                  (
                    hottest fl y d,
                    hottest-Holds k cold ((j, y) ∷ d),
                    refl,
                    to_rebalance-IsCool limited (hottest fl y d) cold moved,
                  ),
                  (mark (hottest fl y d), on_last-Holds k cold ((j, y) ∷ d), refl, refl),
                )
                | inr none_left ↦ absurd none_left
              ])
        | inr still ↦ absurd (rw (still, rebalance_step) at h)
      ]

  pub decide-From :
      (sort : Dict (LordScore fl) → Dict (LordScore fl)) (st : AutoscaleState fl) (x : Decision)
      → Among x (decide fl cfg now sort st).0
      → is_move x.action ≡ true
      → FromCool fl cfg now (sort st.lords) x
        × FromMarked fl cfg now (decide fl cfg now sort st).1.lords x
  unfolding decide
  decide-From sort st x h moves =
      let d : Dict (LordScore fl) = sort st.lords in
      let d₁ : Dict (LordScore fl) = (blacklist_loop fl cfg now d).1 in
      let d₂ : Dict (LordScore fl) = (overload_loop fl cfg now d₁ d₁).1 in
      let limited : Bool = rate_limited fl cfg now (prune now st.migrations) in
      let listed : Entrywise fl cfg now d d₁ = blacklist_loop-Entrywise d in
      let relieved : Entrywise fl cfg now d₁ d₂ = overload_loop-Entrywise d₁ d₁ in
      elim (Among-append x _ (rebalance_step fl cfg now limited d₂).0 h) [
        | inl early ↦ elim (Among-append x _ (overload_loop fl cfg now d₁ d₁).0 early) [
          | inl black ↦ absurd (blacklist_moves moves (blacklist_loop_moves_nothing d x black))
          | inr over ↦
              let (old, new) = overload_loop-From d₁ d₁ x over in
              (
                FromCool-back fl cfg now d d₁ x listed old,
                FromMarked-forth fl cfg now d₂ _ x (rebalance_step-Entrywise limited d₂) new,
              )
        ]
        | inr last ↦
            let (old, new) = rebalance_step-From limited d₂ x last in
            (
              FromCool-back fl cfg now d d₁ x listed
                  (FromCool-back fl cfg now d₁ d₂ x relieved old),
              new,
            )
      ]
    where
      blacklist_moves : is_move x.action ≡ true → is_move x.action ≡ false → ⊥
      blacklist_moves h h' = cc

  -- no lord is entered twice by a round, and each stands under its id
  pub decide-IsKept :
      (sort : Dict (LordScore fl) → Dict (LordScore fl)) (st : AutoscaleState fl)
      → IsKept fl (sort st.lords)
      → IsKept fl (decide fl cfg now sort st).1.lords
  unfolding decide
  decide-IsKept sort st v =
      let d : Dict (LordScore fl) = sort st.lords in
      let d₁ : Dict (LordScore fl) = (blacklist_loop fl cfg now d).1 in
      let d₂ : Dict (LordScore fl) = (overload_loop fl cfg now d₁ d₁).1 in
      let limited : Bool = rate_limited fl cfg now (prune now st.migrations) in
      Entrywise-IsKept fl cfg now d₂ _ (rebalance_step-Entrywise limited d₂) (
        Entrywise-IsKept fl cfg now d₁ d₂ (overload_loop-Entrywise d₁ d₁)
          (Entrywise-IsKept fl cfg now d d₁ (blacklist_loop-Entrywise d) v))
