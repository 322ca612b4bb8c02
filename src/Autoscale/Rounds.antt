-- ===== src/Autoscale/Rounds.antt =====
-- `Decide` of internal/scheduler/autoscale.go, part by part.
use etronium_scdr.Prelude.{
  ℕ, ◌+◌, String, ◌==◌, Bool, ◌&&◌, not, some, List, [], ◌∷◌, ◌++◌, Dict, pos, leb_ℤ, if◌then◌else◌,
  length,
}
use etronium_scdr.Float.{Float}
use etronium_scdr.Autoscale.{
  migrate, rebalance, blacklist, Decision, is_before, is_after, is_cooling, prune, stamps, trim,
  AutoscaleConfig, LordScore, AutoscaleState,
}

module _ (fl : Float) where
  open fl use {F, sub, lt}

  -- `pickColdest`; the hysteresis is not used
  unfoldable pub pick_coldest : Dict (LordScore fl) → String → ℕ → String
  pick_coldest [] from_lord now = ""
  pick_coldest ((k, sc) ∷ d) from_lord now =
      let rest = pick_coldest d from_lord now in
      if sc.lord_id == from_lord
      then rest
      else if is_after sc.blacklist_until now
      then rest
      else sc.lord_id

  -- the hottest lord, the last of the list, and its change
  abbrev pub hottest : LordScore fl → Dict (LordScore fl) → LordScore fl
  hottest sc [] = sc
  hottest sc ((k, x) ∷ d) = hottest x d

  abbrev pub on_last : (LordScore fl → LordScore fl) → Dict (LordScore fl) → Dict (LordScore fl)
  on_last f [] = []
  on_last f ((k, x) ∷ []) = (k, f x) ∷ []
  on_last f ((k, x) ∷ (j, y) ∷ d) = (k, x) ∷ on_last f ((j, y) ∷ d)

  module _ (cfg : AutoscaleConfig fl) (now : ℕ) where
    abbrev pub to_blacklist : LordScore fl → Bool
    to_blacklist sc = lt cfg.thresh.blacklist_reject sc.reject && is_before sc.blacklist_until now

    -- lords with many rejects
    unfoldable pub blacklist_loop : Dict (LordScore fl) → List Decision × Dict (LordScore fl)
    blacklist_loop [] = ([], [])
    blacklist_loop ((k, sc) ∷ d) =
        let (ds, d') = blacklist_loop d in
        if to_blacklist sc
        then (
          record { action = blacklist; from_lord = sc.lord_id; to_lord = "" } ∷ ds,
          (k, record sc { blacklist_until = some (now + cfg.thresh.blacklist_duration) }) ∷ d',
        )
        else (ds, (k, sc) ∷ d')

    -- a lord that is overloaded and not cooling down, and has a target
    abbrev pub to_relieve : Dict (LordScore fl) → LordScore fl → Bool
    to_relieve by_score sc =
        not (lt sc.cpu cfg.thresh.overload_cpu)
        && not (is_cooling cfg.cooldown now sc.last_migration)
        && not (pick_coldest by_score sc.lord_id now == "")

    -- overloaded lords; `by_score` is the whole list, as `pickColdest` sees it
    unfoldable pub overload_loop :
        Dict (LordScore fl) → Dict (LordScore fl) → List Decision × Dict (LordScore fl)
    unfolding pick_coldest
    overload_loop by_score [] = ([], [])
    overload_loop by_score ((k, sc) ∷ d) =
        let (ds, d') = overload_loop by_score d in
        if to_relieve by_score sc
        then (
          record {
            action = migrate;
            from_lord = sc.lord_id;
            to_lord = pick_coldest by_score sc.lord_id now;
          }
              ∷ ds,
          (k, record sc { last_migration = some now }) ∷ d',
        )
        else (ds, (k, sc) ∷ d')

    abbrev pub to_rebalance : Bool → LordScore fl → LordScore fl → Bool
    to_rebalance limited hot cold =
        lt cfg.thresh.rebalance_delta (sub hot.combined cold.combined)
        && not (is_cooling cfg.cooldown now hot.last_migration)
        && not limited

    -- the hottest lord against the coldest one
    unfoldable pub rebalance_step : Bool → Dict (LordScore fl) → List Decision × Dict (LordScore fl)
    rebalance_step limited [] = ([], [])
    rebalance_step limited ((k, cold) ∷ []) = ([], (k, cold) ∷ [])
    rebalance_step limited ((k, cold) ∷ (j, y) ∷ d) =
        let hot = hottest y d in
        if to_rebalance limited hot cold
        then (
          record { action = rebalance; from_lord = hot.lord_id; to_lord = cold.lord_id } ∷ [],
          on_last (λ x. record x { last_migration = some now }) ((k, cold) ∷ (j, y) ∷ d),
        )
        else ([], (k, cold) ∷ (j, y) ∷ d)

    abbrev pub rate_limited : List ℕ → Bool
    rate_limited migrations = leb_ℤ cfg.max_per_min (pos (length migrations))

    -- `Decide`; `sort` is `sort.Slice` by the combined score
    unfoldable pub decide :
        (Dict (LordScore fl) → Dict (LordScore fl))
        → AutoscaleState fl
        → List Decision × AutoscaleState fl
    unfolding blacklist_loop overload_loop rebalance_step
    decide sort st =
        let migrations = prune now st.migrations in
        let (bs, d₁) = blacklist_loop (sort st.lords) in
        let (ms, d₂) = overload_loop d₁ d₁ in
        let (rs, d₃) = rebalance_step (rate_limited migrations) d₂ in
        let decisions = (bs ++ ms) ++ rs in
        (
          decisions,
          record {
            lords = d₃;
            migrations = migrations ++ stamps now decisions;
            migration_log = trim (st.migration_log ++ decisions);
          },
        )
