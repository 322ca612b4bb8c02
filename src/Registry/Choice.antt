-- ===== src/Registry/Choice.antt =====
-- Which lord `LordRegistry.Pick` chooses.
use etronium_scdr.Prelude.{
  String, ◌≡◌, refl, sym, ap, ◌∙◌, Bool, true, false, ◌&&◌, Option, none, some, [], ◌∷◌, Dict,
  arith, Bool-cases, ◌⊎◌, inl, inr, Holds,
}
use mathlib.Core.Path.{subst}
use etronium_scdr.Proto.{Lord}
use etronium_scdr.Float.{Float}
use etronium_scdr.Registry.{LordEntry, score_lord, best_loop}

-- `l` is the lord of an entry that the map holds and the test accepts
pub record Chosen (keep : LordEntry → Bool) (d : Dict LordEntry) (l : Lord) : Type 0 where
  pub entry : LordEntry
  pub held : Holds d entry
  pub same : entry.info ≡ l
  pub kept : keep entry ≡ true

pub Chosen-later :
    {keep : LordEntry → Bool} {d : Dict LordEntry} {l : Lord} (kv : String × LordEntry)
    → Chosen keep d l
    → Chosen keep (kv ∷ d) l
Chosen-later kv c = record { entry = c.entry; held = inr c.held; same = c.same; kept = c.kept }

module _ (fl : Float) (keep : LordEntry → Bool) where
  open fl use {F, lt, neg_one, lt_irrefl, lt_trans}

  abbrev better : F → LordEntry → Bool
  better s e = keep e && lt s (score_lord fl e.info)

  best_loop-true :
      (best : Option Lord) (s : F) (id : String) (e : LordEntry) (d : Dict LordEntry)
      → better s e ≡ true
      → best_loop fl keep best s ((id, e) ∷ d)
        ≡ best_loop fl keep (some e.info) (score_lord fl e.info) d
  unfolding best_loop
  best_loop-true best s id e d h = rw h

  best_loop-false :
      (best : Option Lord) (s : F) (id : String) (e : LordEntry) (d : Dict LordEntry)
      → better s e ≡ false
      → best_loop fl keep best s ((id, e) ∷ d) ≡ best_loop fl keep best s d
  unfolding best_loop
  best_loop-false best s id e d h = rw h

  -- the loop returns what it began with, or an entry that passes
  pub best_loop-Chosen :
      (best : Option Lord) (s : F) (d : Dict LordEntry) (l : Lord)
      → best_loop fl keep best s d ≡ some l
      → (best ≡ some l) ⊎ Chosen keep d l
  best_loop-Chosen best s [] l h = inl (unfold best_loop in h)
  best_loop-Chosen best s ((id, e) ∷ d) l h = elim (Bool-cases (better s e)) [
    | inl yes_better ↦
        elim (best_loop-Chosen (some e.info) (score_lord fl e.info) d l
          (sym (best_loop-true best s id e d yes_better) ∙ h)) [
            | inl this ↦
                inr
                  (record { entry = e; held = inl refl; same = ground arith; kept = ground arith })
            | inr c ↦ inr (Chosen-later (id, e) c)
          ]
    | inr not_better ↦
        elim (best_loop-Chosen best s d l (sym (best_loop-false best s id e d not_better) ∙ h)) [
          | inl first ↦ inl first
          | inr c ↦ inr (Chosen-later (id, e) c)
        ]
  ]

  -- `bestScore` is the score of `best`
  abbrev Fits : Option Lord → F → Type 0
  Fits best s = (b : Lord) → best ≡ some b → s ≡ score_lord fl b

  best_loop_above :
      (best : Option Lord) (s : F) (d : Dict LordEntry) (l : Lord)
      → Fits best s
      → best_loop fl keep best s d ≡ some l
      → (s ≡ score_lord fl l) ⊎ (lt s (score_lord fl l) ≡ true)
  best_loop_above best s [] l fits h = inl (fits l (unfold best_loop in h))
  best_loop_above best s ((id, e) ∷ d) l fits h = elim (Bool-cases (better s e)) [
    | inl yes_better ↦
        elim (best_loop_above (some e.info) (score_lord fl e.info) d l (λ b q. cc)
          (sym (best_loop-true best s id e d yes_better) ∙ h)) [
            | inl same ↦ inr (rw (← same) (ground arith))
            | inr more ↦
                inr (lt_trans s (score_lord fl e.info) (score_lord fl l) (ground arith) more)
          ]
    | inr not_better ↦
        best_loop_above best s d l fits (sym (best_loop-false best s id e d not_better) ∙ h)
  ]

  -- once there is a choice there stays one
  best_loop-some :
      (b : Lord) (s : F) (d : Dict LordEntry)
      → (l : Lord) × (best_loop fl keep (some b) s d ≡ some l)
  best_loop-some b s [] = (b, unfold best_loop in refl)
  best_loop-some b s ((id, e) ∷ d) = elim (Bool-cases (better s e)) [
    | inl q ↦
        let (l, r) = best_loop-some e.info (score_lord fl e.info) d in
        (l, best_loop-true (some b) s id e d q ∙ r)
    | inr q ↦ let (l, r) = best_loop-some b s d in (l, best_loop-false (some b) s id e d q ∙ r)
  ]

  -- `a` is at least `s`, and `b` is not above `s`
  not_above : (s a b : F) → (s ≡ b) ⊎ (lt s b ≡ false) → (s ≡ a) ⊎ (lt s a ≡ true) → lt a b ≡ false
  not_above s a b (inl p) (inl q) = rw (← p, ← q) (lt_irrefl s)
  not_above s a b (inl p) (inr q) = ground (arith, lt_trans s a b, lt_irrefl s)
  not_above s a b (inr p) (inl q) = rw (← q) p
  not_above s a b (inr p) (inr q) = ground (arith, lt_trans s a b)

  not_above_head :
      (s : F) (e : LordEntry)
      → keep e ≡ true
      → better s e ≡ false
      → (s ≡ score_lord fl e.info) ⊎ (lt s (score_lord fl e.info) ≡ false)
  not_above_head s e kept h = inr (ground arith)

  -- no entry that passes scores more than the result
  pub best_loop_max :
      (best : Option Lord) (s : F) (d : Dict LordEntry) (l : Lord) (e : LordEntry)
      → Fits best s
      → best_loop fl keep best s d ≡ some l
      → Holds d e
      → keep e ≡ true
      → lt (score_lord fl l) (score_lord fl e.info) ≡ false
  best_loop_max best s [] l e fits h held kept = elim held [ ]
  best_loop_max best s ((id, e₀) ∷ d) l e fits h held kept = elim (Bool-cases (better s e₀)) [
    | inl yes_better ↦
        let h' : best_loop fl keep (some e₀.info) (score_lord fl e₀.info) d ≡ some l =
          sym (best_loop-true best s id e₀ d yes_better) ∙ h in
        elim held [
          | inl this ↦
              not_above (score_lord fl e₀.info) (score_lord fl l) (score_lord fl e.info)
                (inl (ap (λ (x : LordEntry). score_lord fl x.info) this))
                (best_loop_above (some e₀.info) (score_lord fl e₀.info) d l (λ b q. cc) h')
          | inr later ↦
              best_loop_max (some e₀.info) (score_lord fl e₀.info) d l e (λ b q. cc) h' later kept
        ]
    | inr not_better ↦
        let h' : best_loop fl keep best s d ≡ some l =
          sym (best_loop-false best s id e₀ d not_better) ∙ h in
        elim held [
          | inl this ↦
              not_above s (score_lord fl l) (score_lord fl e.info)
                (not_above_head s e kept (subst (λ x. better s x ≡ false) this not_better))
                (best_loop_above best s d l fits h')
          | inr later ↦ best_loop_max best s d l e fits h' later kept
        ]
  ]

  -- nothing is chosen only if nothing that passes scores more than the start
  pub best_loop-none :
      (s : F) (d : Dict LordEntry) (e : LordEntry)
      → best_loop fl keep none s d ≡ none
      → Holds d e
      → keep e ≡ true
      → lt s (score_lord fl e.info) ≡ false
  best_loop-none s [] e h held kept = elim held [ ]
  best_loop-none s ((id, e₀) ∷ d) e h held kept = elim (Bool-cases (better s e₀)) [
    | inl yes_better ↦
        let (l, q) = best_loop-some e₀.info (score_lord fl e₀.info) d in
        cc (best_loop-true none s id e₀ d yes_better)
    | inr not_better ↦ elim held [
      | inl this ↦
          subst (λ (x : LordEntry). lt s (score_lord fl x.info) ≡ false) this (ground arith)
      | inr later ↦
          best_loop-none s d e (sym (best_loop-false none s id e₀ d not_better) ∙ h) later kept
    ]
  ]
