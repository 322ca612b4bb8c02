-- ===== src/Autoscale/Targets.antt =====
-- What `sort.Slice` gives, and which lord `pickColdest` chooses.
use etronium_scdr.Prelude.{
  ℕ, String, ◌≡◌, ◌≢◌, refl, ◌==◌, eq_iff, true, false, [], ◌∷◌, Dict, arith, Bool-cases, ◌⊎◌, inl,
  inr, Holds,
}
use etronium_scdr.Float.{Float}
use etronium_scdr.Autoscale.{is_after, LordScore}
use etronium_scdr.Autoscale.Rounds.{pick_coldest}

module _ (fl : Float) where
  open fl use {lt}

  -- no score is below one that stands before it
  abbrev pub IsOrdered : Dict (LordScore fl) → Type 0
  IsOrdered [] = Unit
  IsOrdered ((k, x) ∷ d) =
      ((y : LordScore fl) → Holds d y → lt y.combined x.combined ≡ false) × IsOrdered d

  -- no two entries are of the same lord
  abbrev pub IsDistinct : Dict (LordScore fl) → Type 0
  IsDistinct [] = Unit
  IsDistinct ((k, x) ∷ d) = ((y : LordScore fl) → Holds d y → x.lord_id ≢ y.lord_id) × IsDistinct d

  -- every entry stands under the id of its lord
  abbrev pub IsKeyed : Dict (LordScore fl) → Type 0
  IsKeyed [] = Unit
  IsKeyed ((k, x) ∷ d) = (x.lord_id ≡ k) × IsKeyed d

  -- one entry for each lord, under its id
  abbrev pub IsKept : Dict (LordScore fl) → Type 0
  IsKept d = IsDistinct d × IsKeyed d

  -- `sort.Slice` by the score puts the entries in order and leaves them as they are
  pub record IsSort (sort : Dict (LordScore fl) → Dict (LordScore fl)) : Type 0 where
    pub members : (d : Dict (LordScore fl)) (x : LordScore fl) → Holds (sort d) x → Holds d x
    pub distinct : (d : Dict (LordScore fl)) → IsDistinct d → IsDistinct (sort d)
    pub keyed : (d : Dict (LordScore fl)) → IsKeyed d → IsKeyed (sort d)
    pub ordered : (d : Dict (LordScore fl)) → IsOrdered (sort d)

  pub IsDistinct-unique :
      (d : Dict (LordScore fl)) (x y : LordScore fl)
      → IsDistinct d
      → Holds d x
      → Holds d y
      → x.lord_id ≡ y.lord_id
      → x ≡ y
  IsDistinct-unique [] x y u h k e = elim h [ ]
  IsDistinct-unique ((j, z) ∷ d) x y u (inl p) (inl q) e = cc
  IsDistinct-unique ((j, z) ∷ d) x y u (inl p) (inr q) e = absurd (u.0 y q (cc))
  IsDistinct-unique ((j, z) ∷ d) x y u (inr p) (inl q) e = absurd (u.0 x p (cc))
  IsDistinct-unique ((j, z) ∷ d) x y u (inr p) (inr q) e = IsDistinct-unique d x y u.1 p q e

  -- what is said of the lord that `pickColdest` names
  pub record Coldest (d : Dict (LordScore fl)) (from_lord : String) (now : ℕ) (id : String)
      : Type 0 where
    pub score : LordScore fl
    pub held : Holds d score
    pub named : score.lord_id ≡ id
    pub differs : id ≢ from_lord
    pub open_to : is_after score.blacklist_until now ≡ false
    pub least :
        (y : LordScore fl)
        → Holds d y
        → y.lord_id ≢ from_lord
        → is_after y.blacklist_until now ≡ false
        → lt y.combined score.combined ≡ false

  -- an entry that is passed over
  Coldest-later :
      (k : String) (x : LordScore fl) (d : Dict (LordScore fl)) (from_lord : String) (now : ℕ)
      (id : String)
      → (x.lord_id ≡ from_lord) ⊎ (is_after x.blacklist_until now ≡ true)
      → Coldest d from_lord now id
      → Coldest ((k, x) ∷ d) from_lord now id
  Coldest-later k x d from_lord now id passed c = record {
    score = c.score;
    held = inr c.held;
    named = c.named;
    differs = c.differs;
    open_to = c.open_to;
    least = λ y h ne fine. elim h [
      | inl same ↦ absurd (elim passed [ inl p ↦ ne (cc) | inr p ↦ cc ])
      | inr later ↦ c.least y later ne fine
    ];
  }

  -- If `pickColdest` names a lord for the processes of another one, that lord is among the scores, is
  -- not the other one and not blacklisted, and no other such lord scores less, given that the scores
  -- are in order.
  pub pick_coldest_sound :
      (d : Dict (LordScore fl)) (from_lord : String) (now : ℕ)
      → IsOrdered d
      → pick_coldest fl d from_lord now ≢ ""
      → Coldest d from_lord now (pick_coldest fl d from_lord now)
  unfolding pick_coldest
  pick_coldest_sound [] from_lord now o h = absurd (h refl)
  pick_coldest_sound ((k, x) ∷ d) from_lord now o h = elim (Bool-cases (x.lord_id == from_lord)) [
    | inl same ↦ rw same (
        Coldest-later k x d from_lord now _ (inl ((eq_iff x.lord_id from_lord).0 same))
          (pick_coldest_sound d from_lord now o.1 (rw same at h)))
    | inr other ↦ elim (Bool-cases (is_after x.blacklist_until now)) [
      | inl listed ↦
          rw (other, listed)
            (Coldest-later k x d from_lord now _ (inr listed)
              (pick_coldest_sound d from_lord now o.1 (rw (other, listed) at h)))
      | inr free ↦
          rw (other, free)
            (record {
              score = x;
              held = inl refl;
              named = refl;
              differs = λ e. absurd (ground (arith, eq_iff x.lord_id from_lord));
              open_to = free;
              least = λ y held ne fine. elim held [
                | inl e ↦ rw (← e) (fl.lt_irrefl x.combined)
                | inr later ↦ o.0 y later
              ];
            })
    ]
  ]
