-- ===== src/Autoscale/Entries.antt =====
-- How `Sample` and `Decide` change the scores of the lords, entry by entry.
use etronium_scdr.Prelude.{
  String, ◌≡◌, ◌≢◌, refl, sym, ap, ◌∙◌, ◌==◌, eq_iff, false, some, [], ◌∷◌, Dict, lookup, insert,
  arith, Bool-cases, inl, inr, Holds, Holds-insert,
}
use etronium_scdr.Float.{Float}
use etronium_scdr.Registry.{LordEntry}
use etronium_scdr.Autoscale.{AutoscaleConfig, LordScore, AutoscaleState}
use etronium_scdr.Autoscale.Sampling.{previous, sample_one, sample_loop, sample}
use etronium_scdr.Autoscale.Targets.{IsDistinct, IsKeyed, IsKept}

module _ (fl : Float) where
  open fl use {F}

  pub IsKept-lookup :
      (d : Dict (LordScore fl)) (x : LordScore fl)
      → IsKept fl d
      → Holds d x
      → lookup x.lord_id d ≡ some x
  unfolding lookup
  IsKept-lookup [] x v h = absurd h
  IsKept-lookup ((k, z) ∷ d) x v (inl e) = ground (arith, eq_iff k x.lord_id, eq_iff k z.lord_id)
  IsKept-lookup ((k, z) ∷ d) x v (inr h) =
      let ne : z.lord_id ≢ x.lord_id = v.0.0 x h in
      let key : z.lord_id ≡ k = v.1.0 in
      ground (arith, eq_iff k x.lord_id, IsKept-lookup d x (v.0.1, v.1.1) h)

  insert-IsKeyed :
      (k : String) (x : LordScore fl) (d : Dict (LordScore fl))
      → x.lord_id ≡ k
      → IsKeyed fl d
      → IsKeyed fl (insert k x d)
  unfolding insert
  insert-IsKeyed k x [] e v = (e, tt)
  insert-IsKeyed k x ((j, z) ∷ d) e v = elim (Bool-cases (j == k)) [
    | inl same ↦ rw same (e, v.1)
    | inr other ↦ rw other (v.0, insert-IsKeyed k x d e v.1)
  ]

  insert-IsDistinct :
      (k : String) (x : LordScore fl) (d : Dict (LordScore fl))
      → x.lord_id ≡ k
      → IsKept fl d
      → IsDistinct fl (insert k x d)
  unfolding insert
  insert-IsDistinct k x [] e v = ((λ y h. absurd h), tt)
  insert-IsDistinct k x ((j, z) ∷ d) e v = elim (Bool-cases (j == k)) [
    | inl same ↦
        let key : j ≡ k = (eq_iff j k).0 same in
        rw same ((λ y h p. v.0.0 y h (v.1.0 ∙ key ∙ sym e ∙ p)), v.0.1)
    | inr other ↦ rw other (
      (λ y h p. elim (Holds-insert k x y d h) [
        | inl new ↦ absurd (keys_differ other (sym v.1.0 ∙ p ∙ ap (λ s. s.lord_id) (sym new) ∙ e))
        | inr old ↦ v.0.0 y old p
      ]),
      insert-IsDistinct k x d e (v.0.1, v.1.1),
    )
  ]
    where
      keys_differ : (j == k) ≡ false → j ≢ k
      keys_differ other p = ground (arith, eq_iff j k)

  pub insert-IsKept :
      (k : String) (x : LordScore fl) (d : Dict (LordScore fl))
      → x.lord_id ≡ k
      → IsKept fl d
      → IsKept fl (insert k x d)
  insert-IsKept k x d e v = (insert-IsDistinct k x d e v, insert-IsKeyed k x d e v.1)

  module _ (cfg : AutoscaleConfig fl) (cpu_of mem_of : String → F) (rates : Dict F) where
    sample_loop-IsKept :
        (old : Dict (LordScore fl)) (ls : Dict LordEntry) (live : Dict (LordScore fl))
        → IsKept fl live
        → IsKept fl (sample_loop fl cfg cpu_of mem_of rates old ls live)
    unfolding sample_loop sample_one
    sample_loop-IsKept old [] live v = v
    sample_loop-IsKept old ((k, l) ∷ ls) live v =
        sample_loop-IsKept old ls _ (insert-IsKept l.info.lord_id _ live refl v)

    pub sample-IsKept :
        (by_id : Dict LordEntry) (st : AutoscaleState fl)
        → IsKept fl (sample fl cfg cpu_of mem_of rates by_id st).lords
    unfolding sample
    sample-IsKept by_id st = sample_loop-IsKept st.lords by_id [] (tt, tt)

    -- a sampled score takes the last migration over from the old score of its lord
    sample_loop-last_migration :
        (old : Dict (LordScore fl)) (ls : Dict LordEntry) (live : Dict (LordScore fl))
        → ((y : LordScore fl)
            → Holds live y
            → y.last_migration ≡ previous fl (λ p. p.last_migration) (lookup y.lord_id old))
        → (y : LordScore fl) → Holds (sample_loop fl cfg cpu_of mem_of rates old ls live) y
        → y.last_migration ≡ previous fl (λ p. p.last_migration) (lookup y.lord_id old)
    unfolding sample_loop sample_one
    sample_loop-last_migration old [] live from y h = from y h
    sample_loop-last_migration old ((k, l) ∷ ls) live from y h =
        sample_loop-last_migration old ls
          (insert l.info.lord_id (sample_one fl cfg cpu_of mem_of rates old l) live)
          (λ z hz. elim (Holds-insert l.info.lord_id _ z live hz) [
            | inl new ↦ rw (← new) refl
            | inr held ↦ from z held
          ])
          y h

    pub sample-last_migration :
        (by_id : Dict LordEntry) (st : AutoscaleState fl) (x y : LordScore fl)
        → IsKept fl st.lords
        → Holds st.lords x
        → Holds (sample fl cfg cpu_of mem_of rates by_id st).lords y
        → x.lord_id ≡ y.lord_id
        → y.last_migration ≡ x.last_migration
    unfolding sample
    sample-last_migration by_id st x y v hx hy e =
        let found : lookup x.lord_id st.lords ≡ some x = IsKept-lookup st.lords x v hx in
        let from : y.last_migration
            ≡ previous fl (λ p. p.last_migration) (lookup y.lord_id st.lords) =
          sample_loop-last_migration st.lords by_id [] (λ z h. absurd h) y hy in
        rw (← e, found) at from
