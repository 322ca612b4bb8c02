-- ===== src/Autoscale/Rejects.antt =====
-- The reject rates of `Sample`: the kernel's map gives them under ids of four bytes, and `Sample` looks
-- them up under the ids of the lords.
use etronium_scdr.Prelude.{
  ℕ, String, ◌≡◌, ◌≢◌, refl, ◌∙◌, List, [], ◌∷◌, Dict, lookup, insert, lookup-insert_ne,
  Option-cases, inl, inr, Holds, Holds-lookup, Holds-insert,
}
use etronium_scdr.Float.{Float}
use etronium_scdr.Registry.{LordEntry}
use etronium_scdr.Autoscale.{Counters, AutoscaleConfig, LordScore, AutoscaleState}
use etronium_scdr.Autoscale.Sampling.{smoothed, reject_rates, sample_one, sample_loop, sample}

module _ (fl : Float) where
  open fl use {F, lit, lt}

  -- a lord whose id is not what `lordIDFromUint32` gives for any key
  abbrev pub IsNamed : (ℕ → String) → Dict LordEntry → Type 0
  IsNamed id_of [] = Unit
  IsNamed id_of ((k, l) ∷ ls) = ((key : ℕ) → l.info.lord_id ≢ id_of key) × IsNamed id_of ls

  reject_rates_unknown :
      (id_of : ℕ → String) (counters : List (ℕ × Counters)) (out : Dict F) (id : String)
      → ((key : ℕ) → id ≢ id_of key)
      → lookup id (reject_rates fl id_of counters out) ≡ lookup id out
  unfolding reject_rates
  reject_rates_unknown id_of [] out id ne = refl
  reject_rates_unknown id_of ((key, c) ∷ rest) out id ne =
      reject_rates_unknown id_of rest _ id ne ∙ lookup-insert_ne id (id_of key) _ out (ne key)

  -- no score has a reject rate
  abbrev pub IsQuiet : Dict (LordScore fl) → Type 0
  IsQuiet d = (x : LordScore fl) → Holds d x → x.reject ≡ lit 0 0

  smoothed_quiet :
      (old : Dict (LordScore fl)) (id : String)
      → IsQuiet old
      → smoothed fl (lookup id old) (lit 0 0) ≡ lit 0 0
  smoothed_quiet old id quiet = elim (Option-cases (lookup id old)) [
    | inl missing ↦ rw missing refl
    | inr (prev, found) ↦
        rw (found, quiet prev (Holds-lookup id prev old found), fl.lt_irrefl (lit 0 0)) refl
  ]

  module _ (cfg : AutoscaleConfig fl) (cpu_of mem_of : String → F) (id_of : ℕ → String)
      (counters : List (ℕ × Counters)) where
    abbrev rates : Dict F
    rates = reject_rates fl id_of counters []

    sample_one_quiet :
        (old : Dict (LordScore fl)) (l : LordEntry)
        → IsQuiet old
        → ((key : ℕ) → l.info.lord_id ≢ id_of key)
        → (sample_one fl cfg cpu_of mem_of rates old l).reject ≡ lit 0 0
    unfolding sample_one lookup
    sample_one_quiet old l quiet named =
        rw (reject_rates_unknown id_of counters [] l.info.lord_id named)
          (smoothed_quiet old l.info.lord_id quiet)

    sample_loop-IsQuiet :
        (old : Dict (LordScore fl)) (ls : Dict LordEntry) (live : Dict (LordScore fl))
        → IsQuiet old
        → IsNamed id_of ls
        → IsQuiet live
        → IsQuiet (sample_loop fl cfg cpu_of mem_of rates old ls live)
    unfolding sample_loop
    sample_loop-IsQuiet old [] live quiet named v = v
    sample_loop-IsQuiet old ((k, l) ∷ ls) live quiet named v =
        sample_loop-IsQuiet old ls
          (insert l.info.lord_id (sample_one fl cfg cpu_of mem_of rates old l) live) quiet named.1
          (λ x h. elim (Holds-insert l.info.lord_id _ x live h) [
            | inl new ↦ rw (← new) (sample_one_quiet old l quiet named.0)
            | inr held ↦ v x held
          ])

    pub sample-IsQuiet :
        (by_id : Dict LordEntry) (st : AutoscaleState fl)
        → IsNamed id_of by_id
        → IsQuiet st.lords
        → IsQuiet (sample fl cfg cpu_of mem_of rates by_id st).lords
    unfolding sample
    sample-IsQuiet by_id st named quiet =
        sample_loop-IsQuiet st.lords by_id [] quiet named (λ x h. absurd h)
