-- ===== src/Autoscale/Twice.antt =====
-- The cooldown from one round of the autoscaler to the next: `Decide`, `Sample` and `Decide` again.
use etronium_scdr.Prelude.{ℕ, ◌+◌, String, ◌≡◌, sym, ◌∙◌, true, false, Dict, ltb}
use etronium_scdr.Float.{Float}
use etronium_scdr.Registry.{LordEntry}
use etronium_scdr.Autoscale.{Decision, is_move, AutoscaleConfig, LordScore, AutoscaleState}
use etronium_scdr.Autoscale.Sampling.{sample}
use etronium_scdr.Autoscale.Rounds.{decide}
use etronium_scdr.Autoscale.Targets.{IsSort, IsKept}
use etronium_scdr.Autoscale.Entries.{sample-last_migration}
use etronium_scdr.Autoscale.Changes.{Among}
use etronium_scdr.Autoscale.Cooldown.{decide-From, decide-IsKept}

module _ (fl : Float) where
  open fl use {F}

  -- Two rounds of the autoscaler with a sample between them, from scores that hold one entry for each
  -- lord: if both decide to move processes off the same lord, the second one comes no sooner than the
  -- cooldown after the first one, given that `sort.Slice` only puts the scores in order.
  pub moves_keep_cooldown :
      (cfg : AutoscaleConfig fl) (sort : Dict (LordScore fl) → Dict (LordScore fl))
      (cpu_of mem_of : String → F) (rates : Dict F) (by_id : Dict LordEntry) (now later : ℕ)
      (st : AutoscaleState fl) (x y : Decision)
      → IsSort fl sort
      → IsKept fl st.lords
      → Among x (decide fl cfg now sort st).0
      → is_move x.action ≡ true
      → Among y
          (decide fl cfg later sort
            (sample fl cfg cpu_of mem_of rates by_id (decide fl cfg now sort st).1)).0
      → is_move y.action ≡ true
      → x.from_lord ≡ y.from_lord
      → ltb later (now + cfg.cooldown) ≡ false
  moves_keep_cooldown cfg sort cpu_of mem_of rates by_id now later st x y sorts kept hx mx hy my
        same =
      let st₁ : AutoscaleState fl = (decide fl cfg now sort st).1 in
      let st₂ : AutoscaleState fl = sample fl cfg cpu_of mem_of rates by_id st₁ in
      let (before, (marked, hm, named, stamp)) = decide-From fl cfg now sort st x hx mx in
      let ((cool, hc, named', rested), after) = decide-From fl cfg later sort st₂ y hy my in
      let kept₁ : IsKept fl st₁.lords =
        decide-IsKept fl cfg now sort st
          (sorts.distinct st.lords kept.0, sorts.keyed st.lords kept.1) in
      let carried : cool.last_migration ≡ marked.last_migration =
        sample-last_migration fl cfg cpu_of mem_of rates by_id st₁ marked cool kept₁ hm
          (sorts.members st₂.lords cool hc) (named ∙ same ∙ sym named') in
      rw (carried, stamp) at rested
