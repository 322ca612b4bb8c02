-- ===== src/Autoscale/Changes.antt =====
-- How the scores after a round of `Decide` follow the ones before it.
use etronium_scdr.Prelude.{
  ℕ, ◌≡◌, refl, sym, ◌∙◌, false, some, List, [], ◌∷◌, ◌++◌, Dict, ◌⊎◌, inl, inr, Holds,
}
use etronium_scdr.Float.{Float}
use etronium_scdr.Autoscale.{Decision, is_cooling, AutoscaleConfig, LordScore}
use etronium_scdr.Autoscale.Targets.{IsKept}

-- a decision that stands in a list
abbrev pub Among : Decision → List Decision → Type 0
Among d [] = ⊥
Among d (x ∷ xs) = (x ≡ d) ⊎ Among d xs

pub Among-append :
    (d : Decision) (xs ys : List Decision) → Among d (xs ++ ys) → Among d xs ⊎ Among d ys
Among-append d [] ys h = inr h
Among-append d (x ∷ xs) ys (inl e) = inl (inl e)
Among-append d (x ∷ xs) ys (inr h) = elim (Among-append d xs ys h) [
  | inl l ↦ inl (inr l)
  | inr r ↦ inr r
]

module _ (fl : Float) (cfg : AutoscaleConfig fl) (now : ℕ) where
  abbrev pub IsCool : LordScore fl → Type 0
  IsCool x = is_cooling cfg.cooldown now x.last_migration ≡ false

  -- a score after a round: of the same lord, and its last migration is the old one or, where that was
  -- not recent, now
  abbrev pub Follows : LordScore fl → LordScore fl → Type 0
  Follows x y =
      (y.lord_id ≡ x.lord_id)
      × ((y.last_migration ≡ x.last_migration) ⊎ ((y.last_migration ≡ some now) × IsCool x))

  -- the same keys with scores that follow
  abbrev pub Entrywise : Dict (LordScore fl) → Dict (LordScore fl) → Type 0
  Entrywise [] [] = Unit
  Entrywise [] (y ∷ e) = ⊥
  Entrywise (x ∷ d) [] = ⊥
  Entrywise ((j, x) ∷ d) ((k, y) ∷ e) = (j ≡ k) × Follows x y × Entrywise d e

  abbrev pub Origin : Dict (LordScore fl) → LordScore fl → Type 0
  Origin d y = (x : LordScore fl) × Holds d x × Follows x y

  abbrev pub Successor : Dict (LordScore fl) → LordScore fl → Type 0
  Successor e x = (y : LordScore fl) × Holds e y × Follows x y

  pub Entrywise-refl : (d : Dict (LordScore fl)) → Entrywise d d
  Entrywise-refl [] = tt
  Entrywise-refl ((k, x) ∷ d) = (refl, (refl, inl refl), Entrywise-refl d)

  pub Entrywise-back :
      (d e : Dict (LordScore fl)) (y : LordScore fl) → Entrywise d e → Holds e y → Origin d y
  Entrywise-back [] [] y w h = absurd h
  Entrywise-back [] (z ∷ e) y w h = absurd w
  Entrywise-back (x ∷ d) [] y w h = absurd w
  Entrywise-back ((j, x) ∷ d) ((k, z) ∷ e) y w (inl same) = (x, inl refl, rw (← same) w.1)
  Entrywise-back ((j, x) ∷ d) ((k, z) ∷ e) y w (inr h) =
      let (o, held, f) = Entrywise-back d e y w.2 h in (o, inr held, f)

  pub Entrywise-forth :
      (d e : Dict (LordScore fl)) (x : LordScore fl) → Entrywise d e → Holds d x → Successor e x
  Entrywise-forth [] e x w h = absurd h
  Entrywise-forth (z ∷ d) [] x w h = absurd w
  Entrywise-forth ((j, z) ∷ d) ((k, y) ∷ e) x w (inl same) = (y, inl refl, rw (← same) w.1)
  Entrywise-forth ((j, z) ∷ d) ((k, y) ∷ e) x w (inr h) =
      let (o, held, f) = Entrywise-forth d e x w.2 h in (o, inr held, f)

  pub Entrywise-IsKept : (d e : Dict (LordScore fl)) → Entrywise d e → IsKept fl d → IsKept fl e
  Entrywise-IsKept [] [] w v = v
  Entrywise-IsKept [] (z ∷ e) w v = absurd w
  Entrywise-IsKept (x ∷ d) [] w v = absurd w
  Entrywise-IsKept ((j, x) ∷ d) ((k, y) ∷ e) w v =
      let rest : IsKept fl e = Entrywise-IsKept d e w.2 (v.0.1, v.1.1) in
      (
        (
          (λ z h p.
              let (o, held, f) = Entrywise-back d e z w.2 h in v.0.0 o held (sym w.1.0 ∙ p ∙ f.0)),
          rest.0,
        ),
        (w.1.0 ∙ v.1.0 ∙ w.0, rest.1),
      )

  -- a decision moves processes off a lord that is not cooling down
  abbrev pub FromCool : Dict (LordScore fl) → Decision → Type 0
  FromCool d x = (sc : LordScore fl) × Holds d sc × (sc.lord_id ≡ x.from_lord) × IsCool sc

  -- the lord that a decision moves processes off has its last migration now
  abbrev pub FromMarked : Dict (LordScore fl) → Decision → Type 0
  FromMarked d x =
      (sc : LordScore fl) × Holds d sc × (sc.lord_id ≡ x.from_lord) × (sc.last_migration ≡ some now)

  pub FromCool-back :
      (d e : Dict (LordScore fl)) (x : Decision) → Entrywise d e → FromCool e x → FromCool d x
  FromCool-back d e x w (sc, held, named, cool) =
      let (o, h, f) = Entrywise-back d e sc w held in
      (o, h, sym f.0 ∙ named, elim f.1 [ inl same ↦ rw same at cool | inr fresh ↦ fresh.1 ])

  pub FromMarked-forth :
      (d e : Dict (LordScore fl)) (x : Decision) → Entrywise d e → FromMarked d x → FromMarked e x
  FromMarked-forth d e x w (sc, held, named, mark) =
      let (o, h, f) = Entrywise-forth d e sc w held in
      (o, h, f.0 ∙ named, elim f.1 [ inl same ↦ same ∙ mark | inr fresh ↦ fresh.0 ])
