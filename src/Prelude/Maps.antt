-- ===== src/Prelude/Maps.antt =====
-- Go's `map[string]V` as an association list. The list's order is the order in which a `range`
-- loop visits the map: a statement about every list is one about every order.
use Prim.Native.String.{String}
use mathlib.Core.Path.{◌≡◌, refl}
use mathlib.Core.List.{List, [], ◌∷◌}
use mathlib.Core.Option.{Option, none, some}
use native.Mathlib.Omega.{arith}
use text.Mathlib.Text.{◌==◌}
use text.Mathlib.TextEquality.{eq_iff}
use mathlib.Core.Bool.{Bool, true, false}
use mathlib.Core.Logic.{◌≢◌, ◌⊎◌, inl, inr}
use etronium_scdr.Prelude.Tests.{if◌then◌else◌, Bool-cases}

abbrev pub Dict {ℓ} : Type ℓ → Type ℓ
Dict V = List (String × V)

module _ {ℓ} {V : Type ℓ} where
  -- v, ok := d[k]
  unfoldable pub lookup : String → Dict V → Option V
  lookup k [] = none
  lookup k ((j, v) ∷ d) = if j == k then some v else lookup k d

  -- d[k] = v
  unfoldable pub insert : String → V → Dict V → Dict V
  insert k v [] = (k, v) ∷ []
  insert k v ((j, w) ∷ d) = if j == k then (k, v) ∷ d else (j, w) ∷ insert k v d

  -- delete(d, k)
  unfoldable pub delete : String → Dict V → Dict V
  delete k [] = []
  delete k ((j, w) ∷ d) = let rest = delete k d in if j == k then rest else (j, w) ∷ rest

  pub lookup-insert :
      (j k : String) (v : V) (d : Dict V)
      → lookup j (insert k v d) ≡ (if k == j then some v else lookup j d)
  unfolding lookup insert
  lookup-insert j k v [] = refl
  lookup-insert j k v ((i, w) ∷ d) =
      ground (arith, lookup-insert j k v d, eq_iff i k, eq_iff i j, eq_iff k j)

  pub lookup-insert_ne :
      (j k : String) (v : V) (d : Dict V) → j ≢ k → lookup j (insert k v d) ≡ lookup j d
  lookup-insert_ne j k v d ne = ground (arith, lookup-insert j k v d, eq_iff k j)

  pub lookup-delete :
      (j k : String) (d : Dict V) → lookup j (delete k d) ≡ (if k == j then none else lookup j d)
  unfolding lookup delete
  lookup-delete j k [] = ground arith
  lookup-delete j k ((i, w) ∷ d) =
      ground (arith, lookup-delete j k d, eq_iff i k, eq_iff i j, eq_iff k j)

-- a value that a map holds, under some key
abbrev pub Holds : {V : Type 0} → Dict V → V → Type 0
Holds [] a = ⊥
Holds ((k, v) ∷ d) a = (v ≡ a) ⊎ Holds d a

module _ {V : Type 0} where
  pub Holds-lookup : (k : String) (a : V) (d : Dict V) → lookup k d ≡ some a → Holds d a
  unfolding lookup
  Holds-lookup k a [] h = absurd (cc)
  Holds-lookup k a ((j, v) ∷ d) h = elim (Bool-cases (j == k)) [
    | inl e ↦ inl (ground arith)
    | inr ne ↦ inr (Holds-lookup k a d (ground arith))
  ]

  pub Holds-insert :
      (k : String) (v a : V) (d : Dict V) → Holds (insert k v d) a → (v ≡ a) ⊎ Holds d a
  unfolding insert
  Holds-insert k v a [] h = h
  Holds-insert k v a ((j, w) ∷ d) h = split (j == k) (Holds-insert k v a d) h
    where
      split :
          (b : Bool)
          → (Holds (insert k v d) a → (v ≡ a) ⊎ Holds d a)
          → Holds (if b then (k, v) ∷ d else (j, w) ∷ insert k v d) a
          → (v ≡ a) ⊎ Holds ((j, w) ∷ d) a
      split true rest (inl e) = inl e
      split true rest (inr h) = inr (inr h)
      split false rest (inl e) = inr (inl e)
      split false rest (inr h) = elim (rest h) [ inl e ↦ inl e | inr h ↦ inr (inr h) ]
