-- ===== src/Autoscale/Sorting.antt =====
-- A sort as `sort.Slice` sorts few elements, by insertion.
use etronium_scdr.Prelude.{
  ◌≡◌, refl, sym, ◌∙◌, true, false, [], ◌∷◌, Dict, String, if◌then◌else◌, Bool-cases, ◌⊎◌, inl, inr,
  Holds,
}
use etronium_scdr.Float.{Float}
use etronium_scdr.Autoscale.{LordScore}
use etronium_scdr.Autoscale.Targets.{IsOrdered, IsDistinct, IsKeyed, IsSort}

module _ (fl : Float) where
  open fl use {lt}

  unfoldable pub place : String → LordScore fl → Dict (LordScore fl) → Dict (LordScore fl)
  place k x [] = (k, x) ∷ []
  place k x ((j, y) ∷ d) =
      if lt x.combined y.combined then (k, x) ∷ (j, y) ∷ d else (j, y) ∷ place k x d

  unfoldable pub insertion_sort : Dict (LordScore fl) → Dict (LordScore fl)
  insertion_sort [] = []
  insertion_sort ((k, x) ∷ d) = place k x (insertion_sort d)

  place-Holds :
      (k : String) (x z : LordScore fl) (d : Dict (LordScore fl))
      → Holds (place k x d) z
      → (x ≡ z) ⊎ Holds d z
  unfolding place
  place-Holds k x z [] h = h
  place-Holds k x z ((j, y) ∷ d) h = elim (Bool-cases (lt x.combined y.combined)) [
    | inl less ↦ rw less at h
    | inr more ↦ elim (rw more at h) [
      | inl e ↦ inr (inl e)
      | inr later ↦ elim (place-Holds k x z d later) [ inl e ↦ inl e | inr old ↦ inr (inr old) ]
    ]
  ]

  lt_asym :
      (x y : LordScore fl) → lt x.combined y.combined ≡ true → lt y.combined x.combined ≡ false
  lt_asym x y less = elim (Bool-cases (lt y.combined x.combined)) [
    | inl more ↦ absurd (both (fl.lt_trans x.combined y.combined x.combined less more))
    | inr fine ↦ fine
  ]
    where
      both : lt x.combined x.combined ≡ true → ⊥
      both h = absurd (true_false (sym h ∙ fl.lt_irrefl x.combined))
        where
          true_false : true ≡ false → ⊥
          true_false e = cc

  lt_below :
      (x y z : LordScore fl)
      → lt x.combined y.combined ≡ true
      → lt z.combined y.combined ≡ false
      → lt z.combined x.combined ≡ false
  lt_below x y z less more = elim (Bool-cases (lt z.combined x.combined)) [
    | inl h ↦
        let through : lt z.combined y.combined ≡ true =
          fl.lt_trans z.combined x.combined y.combined h less in
        absurd (cc)
    | inr fine ↦ fine
  ]

  place-IsOrdered :
      (k : String) (x : LordScore fl) (d : Dict (LordScore fl))
      → IsOrdered fl d
      → IsOrdered fl (place k x d)
  unfolding place
  place-IsOrdered k x [] o = ((λ y h. absurd h), tt)
  place-IsOrdered k x ((j, y) ∷ d) o = elim (Bool-cases (lt x.combined y.combined)) [
    | inl less ↦ rw less (
      (λ z h. elim h [
        | inl e ↦ rw (← e) (lt_asym x y less)
        | inr later ↦ lt_below x y z less (o.0 z later)
      ]),
      o,
    )
    | inr more ↦ rw more (
      (λ z h. elim (place-Holds k x z d h) [ inl e ↦ rw (← e) more | inr old ↦ o.0 z old ]),
      place-IsOrdered k x d o.1,
    )
  ]

  place-IsDistinct :
      (k : String) (x : LordScore fl) (d : Dict (LordScore fl))
      → IsDistinct fl ((k, x) ∷ d)
      → IsDistinct fl (place k x d)
  unfolding place
  place-IsDistinct k x [] v = v
  place-IsDistinct k x ((j, y) ∷ d) v = elim (Bool-cases (lt x.combined y.combined)) [
    | inl less ↦ rw less v
    | inr more ↦ rw more (
      (λ z h. elim (place-Holds k x z d h) [
        | inl e ↦ rw (← e) (λ p. v.0 y (inl refl) (sym p))
        | inr old ↦ v.1.0 z old
      ]),
      place-IsDistinct k x d ((λ z h. v.0 z (inr h)), v.1.1),
    )
  ]

  place-IsKeyed :
      (k : String) (x : LordScore fl) (d : Dict (LordScore fl))
      → IsKeyed fl ((k, x) ∷ d)
      → IsKeyed fl (place k x d)
  unfolding place
  place-IsKeyed k x [] v = v
  place-IsKeyed k x ((j, y) ∷ d) v = elim (Bool-cases (lt x.combined y.combined)) [
    | inl less ↦ rw less v
    | inr more ↦ rw more (v.1.0, place-IsKeyed k x d (v.0, v.1.1))
  ]

  insertion_sort-Holds :
      (d : Dict (LordScore fl)) (x : LordScore fl) → Holds (insertion_sort d) x → Holds d x
  unfolding insertion_sort
  insertion_sort-Holds [] x h = h
  insertion_sort-Holds ((k, y) ∷ d) x h = elim (place-Holds k y x (insertion_sort d) h) [
    | inl e ↦ inl e
    | inr old ↦ inr (insertion_sort-Holds d x old)
  ]

  insertion_sort-IsDistinct :
      (d : Dict (LordScore fl)) → IsDistinct fl d → IsDistinct fl (insertion_sort d)
  unfolding insertion_sort
  insertion_sort-IsDistinct [] v = v
  insertion_sort-IsDistinct ((k, y) ∷ d) v =
      place-IsDistinct k y (insertion_sort d)
        ((λ z h. v.0 z (insertion_sort-Holds d z h)), insertion_sort-IsDistinct d v.1)

  insertion_sort-IsKeyed : (d : Dict (LordScore fl)) → IsKeyed fl d → IsKeyed fl (insertion_sort d)
  unfolding insertion_sort
  insertion_sort-IsKeyed [] v = v
  insertion_sort-IsKeyed ((k, y) ∷ d) v =
      place-IsKeyed k y (insertion_sort d) (v.0, insertion_sort-IsKeyed d v.1)

  insertion_sort-IsOrdered : (d : Dict (LordScore fl)) → IsOrdered fl (insertion_sort d)
  unfolding insertion_sort
  insertion_sort-IsOrdered [] = tt
  insertion_sort-IsOrdered ((k, y) ∷ d) =
      place-IsOrdered k y (insertion_sort d) (insertion_sort-IsOrdered d)

  -- what the rounds ask of the sort can be had
  pub insertion_sort-IsSort : IsSort fl insertion_sort
  insertion_sort-IsSort = record {
    members = insertion_sort-Holds;
    distinct = insertion_sort-IsDistinct;
    keyed = insertion_sort-IsKeyed;
    ordered = insertion_sort-IsOrdered;
  }
