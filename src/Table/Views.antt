-- ===== src/Table/Views.antt =====
-- What the table holds under an id, before and after a call through a pointer.
use etronium_scdr.Prelude.{
  ℕ, String, ◌≡◌, ◌≢◌, refl, sym, ◌∙◌, ◌==◌, eq_iff, false, none, some, if◌then◌else◌, arith,
  Bool-cases, Option-cases, ◌⊎◌, inl, inr,
}
use etronium_scdr.Table.{Entry, Table, get, deref}
use etronium_scdr.Table.Invariant.{IsValid}
use etronium_scdr.Table.Abstract.{Status, status, view_at, on_status, through}

-- what a valid table holds under an id
module _ {t : Table} (v : IsValid t) where
  pub view-cases :
      (k : String)
      → (get t k ≡ none)
        ⊎ ((a : ℕ) × (e : Entry) × (get t k ≡ some a)
            × (deref t a ≡ some e)
            × (e.info.ref.process_id ≡ k))
  view-cases k = elim (Option-cases (get t k)) [
    | inl absent ↦ inl absent
    | inr (a, known) ↦ let (e, there, same) = v.by_id_ok k a known in inr (a, e, known, there, same)
  ]

  -- different ids have different pointers
  pub pointers_differ :
      (j k : String) (a b : ℕ) → get t j ≡ some a → get t k ≡ some b → (j == k) ≡ false → a ≢ b
  pointers_differ j k a b p q ne same =
      let (x, there, named) = v.by_id_ok j a p in
      let (y, there', named') = v.by_id_ok k b q in absurd (ground (arith, eq_iff j k))

pub view-known :
    (t : Table) (k : String) (a : ℕ) (e : Entry)
    → get t k ≡ some a
    → deref t a ≡ some e
    → view_at t k ≡ some (status e)
view-known t k a e known there = rw (known, there) refl

pub view-unknown : (t : Table) (k : String) → get t k ≡ none → view_at t k ≡ none
view-unknown t k absent = rw absent refl

-- a method that rewrites the entry at its pointer, and what it does to the process there
pub record Rewrites (op : ℕ → Table → Table) (f : Entry → Entry) (g : Status → Status)
    : Type 0 where
  pub same_ids : (a : ℕ) (t : Table) (k : String) → get (op a t) k ≡ get t k
  pub here : (a : ℕ) (t : Table) {e : Entry} → deref t a ≡ some e → deref (op a t) a ≡ some (f e)
  pub elsewhere : (a : ℕ) (t : Table) (b : ℕ) → a ≢ b → deref (op a t) b ≡ deref t b
  pub agrees : (e : Entry) → status (f e) ≡ g (status e)

module _ {op : ℕ → Table → Table} {f : Entry → Entry} {g : Status → Status}
    (w : Rewrites op f g) where
  pub view-through :
      {t : Table} (id k : String)
      → IsValid t
      → view_at (through id op t) k ≡ (if id == k then on_status g (view_at t k) else view_at t k)
  view-through {t} id k v = elim (view-cases v id) [
    | inl absent ↦ rw (absent, through) (unchanged absent)
    | inr (a, e, known, there, named) ↦ rw (known, through) (changed a e known there)
  ]
    where
      unchanged :
          get t id ≡ none
          → view_at t k ≡ (if id == k then on_status g (view_at t k) else view_at t k)
      unchanged absent = elim (Bool-cases (id == k)) [
        | inl e ↦ rw (e, view-unknown t k (rw (← (eq_iff id k).0 e) absent)) refl
        | inr ne ↦ rw ne refl
      ]

      changed :
          (a : ℕ) (e : Entry)
          → get t id ≡ some a
          → deref t a ≡ some e
          → view_at (op a t) k ≡ (if id == k then on_status g (view_at t k) else view_at t k)
      changed a e known there = elim (Bool-cases (id == k)) [
        | inl same ↦
            let known' : get t k ≡ some a = rw (← (eq_iff id k).0 same) known in
            rw
              (
                same,
                view-known t k a e known' there,
                view-known (op a t) k a (f e) (w.same_ids a t k ∙ known') (w.here a t there),
                w.agrees e,
              )
              refl
        | inr ne ↦ rw ne (elim (view-cases v k) [
          | inl absent ↦
              view-unknown (op a t) k (w.same_ids a t k ∙ absent) ∙ sym (view-unknown t k absent)
          | inr (b, x, known', there', named) ↦
              view-known (op a t) k b x (w.same_ids a t k ∙ known')
                (w.elsewhere a t b (pointers_differ v id k a b known known' ne) ∙ there')
              ∙ sym (view-known t k b x known' there')
        ])
      ]
