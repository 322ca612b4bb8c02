-- ===== src/Autoscale/Youngest.antt =====
-- Which process `pickColdestProcessOnLord` chooses.
use etronium_scdr.Prelude.{
  ℕ, ◌≤◌, String, ◌≡◌, ◌≢◌, refl, ap, ◌∙◌, eq_iff, Option, none, some, [], ◌∷◌, Dict, arith,
  Bool-cases, Option-cases, ◌⊎◌, inl, inr, In,
}
use etronium_scdr.Table.{Entry, Table, deref}
use etronium_scdr.Autoscale.Apply.{
  age, max_uint64, is_younger, younger, youngest_loop, pick_coldest_process,
}

module _ (now : ℕ) (lord_id : String) (t : Table) where
  -- the process with an id in the list is on the lord and has an age
  pub record OnLord (d : Dict ℕ) (id : String) (years : ℕ) : Type 0 where
    pub pointer : ℕ
    pub entry : Entry
    pub listed : In (id, pointer) d
    pub there : deref t pointer ≡ some entry
    pub on_lord : entry.info.ref.lord_id ≡ lord_id
    pub aged : age now entry.info.state_changed_at ≡ years

  -- no process of the list that is on the lord is younger
  abbrev pub IsLeast : Dict ℕ → ℕ → Type 0
  IsLeast d years =
      (id : String) (b : ℕ) (e : Entry)
      → In (id, b) d
      → deref t b ≡ some e
      → e.info.ref.lord_id ≡ lord_id
      → years ≤ age now e.info.state_changed_at

  OnLord-later :
      (k : String) (a : ℕ) (d : Dict ℕ) (id : String) (years : ℕ)
      → OnLord d id years
      → OnLord ((k, a) ∷ d) id years
  OnLord-later k a d id years o = record {
    pointer = o.pointer;
    entry = o.entry;
    listed = inr o.listed;
    there = o.there;
    on_lord = o.on_lord;
    aged = o.aged;
  }

  younger_le :
      (id : String) (x : Option Entry) (best : String × ℕ)
      → (younger now lord_id id x best).1 ≤ best.1
  younger_le id none best = ground arith
  younger_le id (some e) best = elim (Bool-cases (is_younger now lord_id best.1 e)) [
    | inl less ↦ rw less (ground arith)
    | inr more ↦ rw more (ground arith)
  ]

  younger_least :
      (id : String) (e : Entry) (best : String × ℕ)
      → e.info.ref.lord_id ≡ lord_id
      → (younger now lord_id id (some e) best).1 ≤ age now e.info.state_changed_at
  younger_least id e best on_lord = elim (Bool-cases (is_younger now lord_id best.1 e)) [
    | inl less ↦ rw less (ground arith)
    | inr more ↦ rw more (ground (arith, eq_iff e.info.ref.lord_id lord_id))
  ]

  younger-OnLord :
      (id : String) (a : ℕ) (d : Dict ℕ) (best : String × ℕ)
      → (younger now lord_id id (deref t a) best ≡ best)
        ⊎ OnLord
            ((id, a) ∷ d)
            (younger now lord_id id (deref t a) best).0
            (younger now lord_id id (deref t a) best).1
  younger-OnLord id a d best = elim (Option-cases (deref t a)) [
    | inl missing ↦ rw missing (inl refl)
    | inr (e, there) ↦ elim (Bool-cases (is_younger now lord_id best.1 e)) [
      | inl less ↦
          rw (there, less)
            (inr (record {
              pointer = a;
              entry = e;
              listed = inl refl;
              there = there;
              on_lord = ground (arith, eq_iff e.info.ref.lord_id lord_id);
              aged = refl;
            }))
      | inr more ↦ rw (there, more) (inl refl)
    ]
  ]

  youngest_loop_le :
      (d : Dict ℕ) (best : String × ℕ) → (youngest_loop now lord_id t d best).1 ≤ best.1
  unfolding youngest_loop
  youngest_loop_le [] best = ground arith
  youngest_loop_le ((id, a) ∷ d) best =
      let step : (younger now lord_id id (deref t a) best).1 ≤ best.1 =
        younger_le id (deref t a) best in
      let rest : (youngest_loop now lord_id t d (younger now lord_id id (deref t a) best)).1
          ≤ (younger now lord_id id (deref t a) best).1 =
        youngest_loop_le d (younger now lord_id id (deref t a) best) in
      omega arith

  youngest_loop-IsLeast :
      (d : Dict ℕ) (best : String × ℕ) → IsLeast d (youngest_loop now lord_id t d best).1
  unfolding youngest_loop
  youngest_loop-IsLeast [] best id b e h there on_lord = absurd h
  youngest_loop-IsLeast ((k, a) ∷ d) best id b e (inl same) there on_lord =
      let here : deref t a ≡ some e = ap (λ (p : String × ℕ). deref t p.1) same ∙ there in
      let step : (younger now lord_id k (some e) best).1 ≤ age now e.info.state_changed_at =
        younger_least k e best on_lord in
      let rest : (youngest_loop now lord_id t d (younger now lord_id k (some e) best)).1
          ≤ (younger now lord_id k (some e) best).1 =
        youngest_loop_le d (younger now lord_id k (some e) best) in
      rw (here, youngest_loop) (omega arith)
  youngest_loop-IsLeast ((k, a) ∷ d) best id b e (inr later) there on_lord =
      youngest_loop-IsLeast d (younger now lord_id k (deref t a) best) id b e later there on_lord

  youngest_loop-OnLord :
      (d : Dict ℕ) (best : String × ℕ)
      → (youngest_loop now lord_id t d best ≡ best)
        ⊎ OnLord d (youngest_loop now lord_id t d best).0 (youngest_loop now lord_id t d best).1
  unfolding youngest_loop
  youngest_loop-OnLord [] best = inl refl
  youngest_loop-OnLord ((k, a) ∷ d) best =
      elim (youngest_loop-OnLord d (younger now lord_id k (deref t a) best)) [
        | inl same ↦ elim (younger-OnLord k a d best) [
          | inl kept ↦ inl (same ∙ kept)
          | inr new ↦ inr (rw same new)
        ]
        | inr later ↦ inr (OnLord-later k a d _ _ later)
      ]

  -- If `pickColdestProcessOnLord` names a process, it is one of the table that is on the lord, and no
  -- process on that lord has changed its state more recently, counted in whole seconds.
  pub pick_coldest_process_sound :
      pick_coldest_process now lord_id t ≢ ""
      → (years : ℕ) × OnLord t.by_id (pick_coldest_process now lord_id t) years
        × IsLeast t.by_id years
  unfolding pick_coldest_process
  pick_coldest_process_sound found = elim (youngest_loop-OnLord t.by_id ("", max_uint64)) [
    | inl same ↦ absurd (found (ap (λ (p : String × ℕ). p.0) same))
    | inr o ↦ (_, o, youngest_loop-IsLeast t.by_id ("", max_uint64))
  ]
