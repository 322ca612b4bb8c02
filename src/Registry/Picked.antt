-- ===== src/Registry/Picked.antt =====
-- `LordRegistry.Pick`: which lord a new process gets, and when it gets none.
use etronium_scdr.Prelude.{
  String, ◌≡◌, refl, sym, ◌∙◌, ◌≢◌, ◌==◌, eq_iff, true, false, Option, none, some, [], ◌∷◌, Dict,
  lookup, arith, if◌then◌else◌, Bool-cases, Option-cases, inl, inr, Holds, Holds-lookup,
}
use mathlib.Core.Path.{subst}
use etronium_scdr.Proto.{Lord}
use etronium_scdr.Float.{Float}
use etronium_scdr.Registry.{
  LordEntry, Registry, eligible, has_capacity, score_lord, best_loop, first_eligible, preferred,
  pick,
}
use etronium_scdr.Registry.Choice.{
  Chosen, Chosen-later, best_loop-Chosen, best_loop_max, best_loop-none,
}

first_eligible-Chosen :
    (d : Dict LordEntry) (l : Lord) → first_eligible d ≡ some l → Chosen eligible d l
first_eligible-Chosen [] l h = absurd (unfold first_eligible in cc)
first_eligible-Chosen ((id, e) ∷ d) l h = elim (Bool-cases (eligible e)) [
  | inl q ↦ record {
    entry = e;
    held = inl refl;
    same = unfold first_eligible in ground arith;
    kept = q;
  }
  | inr q ↦ Chosen-later (id, e) (first_eligible-Chosen d l (unfold first_eligible in ground arith))
]

first_eligible-none :
    (d : Dict LordEntry) (e : LordEntry) → first_eligible d ≡ none → Holds d e → eligible e ≡ false
unfolding first_eligible
first_eligible-none [] e h held = elim held [ ]
first_eligible-none ((id, e₀) ∷ d) e h (inl this) =
    subst (λ x. eligible x ≡ false) this (ground arith)
first_eligible-none ((id, e₀) ∷ d) e h (inr later) = first_eligible-none d e (ground arith) later

preferred-Chosen :
    (id : String) (r : Registry) (l : Lord) → preferred id r ≡ some l → Chosen eligible r.by_id l
unfolding preferred
preferred-Chosen id r l h = elim (Option-cases (lookup id r.by_id)) [
  | inl missing ↦ absurd (ground arith)
  | inr (e, found) ↦ record {
    entry = e;
    held = Holds-lookup id e r.by_id found;
    same = ground arith;
    kept = ground arith;
  }
]

module _ (fl : Float) (id : String) (r : Registry) where
  open fl use {lt, neg_one}

  -- the choice by the algorithm, when there is no preference or it cannot be met
  abbrev by_algo : Option Lord
  by_algo =
      if r.algo == "weighted"
      then best_loop fl eligible none neg_one r.by_id
      else first_eligible r.by_id

  pick-preferred : (l : Lord) → preferred id r ≡ some l → pick fl id r ≡ some l
  unfolding pick
  pick-preferred l h = rw (h, pick)

  pick-by_algo : preferred id r ≡ none → pick fl id r ≡ by_algo
  unfolding pick
  pick-by_algo h = rw (h, pick)

  by_algo-Chosen : (l : Lord) → by_algo ≡ some l → Chosen eligible r.by_id l
  by_algo-Chosen l h = elim (Bool-cases (r.algo == "weighted")) [
    | inl w ↦ elim (best_loop-Chosen fl eligible none neg_one r.by_id l (rw w at h)) [
      | inl absent ↦ absurd (cc)
      | inr c ↦ c
    ]
    | inr t ↦ first_eligible-Chosen r.by_id l (rw t at h)
  ]

  -- Whatever the algorithm and the preference, a lord that `Pick` returns is registered, healthy and
  -- not asked to drain.
  pub pick_sound : (l : Lord) → pick fl id r ≡ some l → Chosen eligible r.by_id l
  pick_sound l h = elim (Option-cases (preferred id r)) [
    | inl absent ↦ by_algo-Chosen l (sym (pick-by_algo absent) ∙ h)
    | inr (p, q) ↦ preferred-Chosen id r l (q ∙ sym (pick-preferred p q) ∙ h)
  ]

  -- With the weighted algorithm and no preference that can be met, no healthy and not draining lord
  -- scores more than the one that `Pick` returns.
  pub pick_best :
      (l : Lord) (e : LordEntry)
      → (r.algo == "weighted") ≡ true
      → preferred id r ≡ none
      → pick fl id r ≡ some l
      → Holds r.by_id e
      → eligible e ≡ true
      → lt (score_lord fl l) (score_lord fl e.info) ≡ false
  pick_best l e w absent h held kept =
      best_loop_max fl eligible none neg_one r.by_id l e (λ b q. absurd (cc))
        (rw w at (sym (pick-by_algo absent) ∙ h)) held kept

  -- what it means that no lord is found
  pick-none :
      (e : LordEntry)
      → pick fl id r ≡ none
      → Holds r.by_id e
      → eligible e ≡ true
      → ((r.algo == "weighted") ≡ true) × (lt neg_one (score_lord fl e.info) ≡ false)
  pick-none e h held kept = elim (Option-cases (preferred id r)) [
    | inl absent ↦ elim (Bool-cases (r.algo == "weighted")) [
      | inl w ↦ (
        w,
        best_loop-none fl eligible neg_one r.by_id e (rw w at (sym (pick-by_algo absent) ∙ h)) held
            kept,
      )
      | inr t ↦
          absurd (cc (first_eligible-none r.by_id e (rw t at (sym (pick-by_algo absent) ∙ h)) held))
    ]
    | inr (p, q) ↦ absurd (cc (pick-preferred p q))
  ]

  -- If some lord is healthy, not draining and scores more than -1, `Pick` returns a lord, whatever the
  -- algorithm and the preference.
  pub pick_finds :
      (e : LordEntry)
      → Holds r.by_id e
      → eligible e ≡ true
      → lt neg_one (score_lord fl e.info) ≡ true
      → (l : Lord) × (pick fl id r ≡ some l)
  pick_finds e held kept scored = elim (Option-cases (pick fl id r)) [
    | inl absent ↦ absurd (cc (pick-none e absent held kept).1)
    | inr found ↦ found
  ]

  -- The lord that the tenant prefers is chosen if it is registered, healthy, not draining and has
  -- capacity.
  pub pick_prefers :
      (e : LordEntry)
      → id ≢ ""
      → lookup id r.by_id ≡ some e
      → eligible e ≡ true
      → has_capacity e.info ≡ true
      → pick fl id r ≡ some e.info
  pick_prefers e named found able room =
      pick-preferred e.info (unfold preferred in ground (arith, eq_iff id ""))
