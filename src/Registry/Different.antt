-- ===== src/Registry/Different.antt =====
-- `LordRegistry.PickDifferent`: the target of a migration.
use etronium_scdr.Prelude.{
  String, ◌≡◌, ap, sym, ◌≢◌, ◌==◌, eq_iff, Bool, true, false, ◌&&◌, not, Option, none, some, arith,
  Option-cases, inl, inr, Holds,
}
use mathlib.Core.Path.{subst}
use etronium_scdr.Proto.{Lord}
use etronium_scdr.Float.{Float}
use etronium_scdr.Registry.{LordEntry, Registry, eligible, score_lord, best_loop, pick_different}
use etronium_scdr.Registry.Choice.{best_loop-Chosen, best_loop_max}

module _ (fl : Float) (exclude : String) (r : Registry) where
  open fl use {lt, neg_one}

  abbrev other : LordEntry → Bool
  other e = eligible e && not (e.info.lord_id == exclude)

  abbrev best : Option Lord
  best = best_loop fl other none neg_one r.by_id

  pick_different-some : (l : Lord) → best ≡ some l → pick_different fl exclude r ≡ l.lord_id
  unfolding pick_different
  pick_different-some l h = rw (h, pick_different)

  pick_different-none : best ≡ none → pick_different fl exclude r ≡ ""
  unfolding pick_different
  pick_different-none h = rw (h, pick_different)

  -- what `PickDifferent` says of the lord whose id it returns
  pub record Target (id : String) : Type 0 where
    pub entry : LordEntry
    pub held : Holds r.by_id entry
    pub named : entry.info.lord_id ≡ id
    pub able : eligible entry ≡ true
    pub differs : id ≢ exclude
    pub top :
        (e : LordEntry)
        → Holds r.by_id e
        → eligible e ≡ true
        → e.info.lord_id ≢ exclude
        → lt (score_lord fl entry.info) (score_lord fl e.info) ≡ false

  Target-best : (l : Lord) → best ≡ some l → Target l.lord_id
  Target-best l h = elim (best_loop-Chosen fl other none neg_one r.by_id l h) [
    | inl absent ↦ absurd (cc)
    | inr c ↦ record {
      entry = c.entry;
      held = c.held;
      named = ap (λ (x : Lord). x.lord_id) c.same;
      able = passes_able c.entry c.kept;
      differs = rw (← c.same) (passes_differs c.entry c.kept);
      top = λ e held able ne. rw c.same (
          best_loop_max fl other none neg_one r.by_id l e (λ b q. absurd (cc)) h held
            (passes e able ne));
    }
  ]
    where
      passes_able : (e : LordEntry) → other e ≡ true → eligible e ≡ true
      passes_able e h = ground arith

      passes_differs : (e : LordEntry) → other e ≡ true → e.info.lord_id ≢ exclude
      passes_differs e h = ground (arith, eq_iff e.info.lord_id exclude)

      passes : (e : LordEntry) → eligible e ≡ true → e.info.lord_id ≢ exclude → other e ≡ true
      passes e h ne = ground (arith, eq_iff e.info.lord_id exclude)

  -- If `PickDifferent` returns an id and not the empty one, it is that of a registered lord that is
  -- healthy, not draining and not the excluded one, and no other such lord scores more.
  pub pick_different_sound : pick_different fl exclude r ≢ "" → Target (pick_different fl exclude r)
  pick_different_sound found = elim (Option-cases best) [
    | inl absent ↦ absurd (found (pick_different-none absent))
    | inr (l, h) ↦ subst Target (sym (pick_different-some l h)) (Target-best l h)
  ]
