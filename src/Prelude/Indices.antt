-- ===== src/Prelude/Indices.antt =====
-- Lists seen index by index: after a change at one index, an append or a map.
use Prim.Native.Nat.{ℕ, zero, suc}
use mathlib.Core.Path.{◌≡◌, refl, ap}
use mathlib.Core.Logic.{◌⊎◌, inl, inr}
use mathlib.Core.List.{List, [], ◌∷◌, ◌++◌, map}
use mathlib.Core.Option.{some}
use native.Mathlib.Omega.{arith}
use etronium_scdr.Prelude.Lists.{length, get_elem?, modify}

module _ {ℓ} {A : Type ℓ} (f : A → A) where
  -- what stands at an index after a change, from what stood there
  pub get_elem?-modify-some :
      (a b : ℕ) (l : List A) {x : A}
      → get_elem? l b ≡ some x
      → (y : A) × (get_elem? (modify f a l) b ≡ some y) × ((y ≡ x) ⊎ (y ≡ f x))
  get_elem?-modify-some a b [] h = cc
  get_elem?-modify-some zero zero (z ∷ l) {x} h = (f z, refl, inr (ground arith))
  get_elem?-modify-some (suc a) zero (z ∷ l) h = (z, refl, inl (ground arith))
  get_elem?-modify-some zero (suc b) (z ∷ l) {x} h = (x, h, inl refl)
  get_elem?-modify-some (suc a) (suc b) (z ∷ l) h = get_elem?-modify-some a b l h

  -- and what stood there, from what stands there now
  pub get_elem?-modify_from :
      (a b : ℕ) (l : List A) {y : A}
      → get_elem? (modify f a l) b ≡ some y
      → (x : A) × (get_elem? l b ≡ some x) × ((y ≡ x) ⊎ (y ≡ f x))
  get_elem?-modify_from a b [] h = cc
  get_elem?-modify_from zero zero (z ∷ l) h = (z, refl, inr (ground arith))
  get_elem?-modify_from (suc a) zero (z ∷ l) h = (z, refl, inl (ground arith))
  get_elem?-modify_from zero (suc b) (z ∷ l) {y} h = (y, h, inl refl)
  get_elem?-modify_from (suc a) (suc b) (z ∷ l) h = get_elem?-modify_from a b l h

module _ {ℓ} {A : Type ℓ} where
  pub get_elem?-snoc_from :
      (xs : List A) (y : A) (i : ℕ) {z : A}
      → get_elem? (xs ++ y ∷ []) i ≡ some z
      → (get_elem? xs i ≡ some z) ⊎ ((i ≡ length xs) × (y ≡ z))
  get_elem?-snoc_from [] y zero h = inr (refl, ground arith)
  get_elem?-snoc_from [] y (suc i) h = cc
  get_elem?-snoc_from (x ∷ xs) y zero h = inl h
  get_elem?-snoc_from (x ∷ xs) y (suc i) h = elim (get_elem?-snoc_from xs y i h) [
    | inl e ↦ inl e
    | inr e ↦ inr (ap suc e.0, e.1)
  ]

  pub get_elem?-snoc_some :
      (xs : List A) (y : A) (i : ℕ) {z : A}
      → get_elem? xs i ≡ some z
      → get_elem? (xs ++ y ∷ []) i ≡ some z
  get_elem?-snoc_some [] y i h = cc
  get_elem?-snoc_some (x ∷ xs) y zero h = h
  get_elem?-snoc_some (x ∷ xs) y (suc i) h = get_elem?-snoc_some xs y i h

module _ {ℓ κ} {A : Type ℓ} {B : Type κ} (g : A → B) where
  pub length-map : (xs : List A) → length (map g xs) ≡ length xs
  length-map [] = refl
  length-map (x ∷ xs) = ap suc (length-map xs)

  pub map-modify :
      (f : A → A) (f' : B → B)
      → ((x : A) → g (f x) ≡ f' (g x))
      → (i : ℕ) (xs : List A) → map g (modify f i xs) ≡ modify f' i (map g xs)
  map-modify f f' e i [] = refl
  map-modify f f' e zero (x ∷ xs) = ap (λ y. y ∷ map g xs) (e x)
  map-modify f f' e (suc i) (x ∷ xs) = ap (λ l. g x ∷ l) (map-modify f f' e i xs)

  -- lists that look alike do so at each index
  pub get_elem?-map_eq :
      (i : ℕ) (xs ys : List A) {y : A}
      → map g xs ≡ map g ys
      → get_elem? ys i ≡ some y
      → (x : A) × (get_elem? xs i ≡ some x) × (g x ≡ g y)
  get_elem?-map_eq i xs [] h p = absurd (cc)
  get_elem?-map_eq i [] (y ∷ ys) h p = absurd (cc)
  get_elem?-map_eq zero (x ∷ xs) (y ∷ ys) h p = (x, refl, cc)
  get_elem?-map_eq (suc i) (x ∷ xs) (y ∷ ys) h p = get_elem?-map_eq i xs ys (cc) p
