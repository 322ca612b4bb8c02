-- ===== src/Ring/Follow.antt =====
-- `ringBuffer.SinceOffset` before the buffer wraps: a follower misses nothing and sees nothing twice.
use native.Mathlib.Nat.{mod-eq_of_lt}
use etronium_scdr.Prelude.{
  ℕ, ltb, if◌then◌else◌, sym, ◌+◌, ◌-◌, ◌≤◌, ◌<◌, ◌≡◌, refl, ap, ◌∙◌, List, [], ◌∷◌, ◌++◌,
  append-nil, append_assoc, false, arith, length, take, drop, length-append, length-take,
  length-drop, drop_all, take_all, drop-append_le,
}
use etronium_scdr.Ring.{Ring, write, writes, contents, since_offset}
use etronium_scdr.Ring.Bounds.{IsValid, write-IsValid, cap-write}
use etronium_scdr.Ring.Window.{contents-write}

-- a buffer that has not wrapped
pub record IsFilling (r : Ring) : Type 0 where
  pub valid : IsValid r
  pub open_end : r.full ≡ false

since_offset_filling :
    (r : Ring) (t : ℕ) → IsFilling r → t ≤ r.off → since_offset r t ≡ (drop t (contents r), r.off)
unfolding since_offset contents
since_offset_filling r t f h = ground (
  arith,
  mod-eq_of_lt {n = r.off} {m = r.cap},
  mod-eq_of_lt {n = t} {m = r.cap},
  drop_all t (take r.off r.bytes),
  length-take r.off r.bytes,
)

module _ (r : Ring) (p : List ℕ) (f : IsFilling r) (room : r.off + length p < r.cap) where
  off-write : (write r p).off ≡ r.off + length p
  unfolding write
  off-write = ground (arith, f.valid.storage)

  write-IsFilling : IsFilling (write r p)
  write-IsFilling = record { valid = write-IsValid p f.valid; open_end = still_open }
    where
      still_open : (write r p).full ≡ false
      still_open = unfold write in ground (arith, f.valid.storage, f.open_end)

  contents-write_filling : contents (write r p) ≡ contents r ++ p
  contents-write_filling = rw (contents-write p f.valid) (
      unfold contents in
      ground (
        arith,
        take_all (r.cap - r.off) p,
        length-append (take r.off r.bytes) p,
        length-take r.off r.bytes,
      ))

-- one tick of the loop of `StreamProcessIO`: what is sent, and the new `lastTotal`
unfoldable pub poll : Ring → ℕ → List ℕ × ℕ
poll r last_total =
    let (chunk, new_total) = since_offset r last_total in
    if ltb 0 (length chunk) then (chunk, new_total) else ([], last_total)

-- all that a follower sends: in each round some chunks are written, then it polls
unfoldable pub follow : Ring → ℕ → List (List (List ℕ)) → List ℕ
follow r last_total [] = []
follow r last_total (ps ∷ rounds) =
    let (chunk, new_total) = poll (writes r ps) last_total in
    chunk ++ follow (writes r ps) new_total rounds

unfoldable pub flat {ℓ} : {A : Type ℓ} → List (List A) → List A
flat [] = []
flat (p ∷ ps) = p ++ flat ps

pub record Grown (r : Ring) (p : List ℕ) (r' : Ring) : Type 0 where
  pub filling : IsFilling r'
  pub off : r'.off ≡ r.off + length p
  pub cap : r'.cap ≡ r.cap
  pub bytes : contents r' ≡ contents r ++ p

-- one more write in front
Grown-cons :
    (r : Ring) (p q : List ℕ) {r' : Ring}
    → IsFilling r
    → r.off + length p < r.cap
    → Grown (write r p) q r'
    → Grown r (p ++ q) r'
Grown-cons r p q f room rest = record {
  filling = rest.filling;
  off = omega (arith, rest.off, off-write r p f room, length-append p q);
  cap = rest.cap ∙ cap-write r p;
  bytes =
      rest.bytes
      ∙ ap (λ l. l ++ q) (contents-write_filling r p f room)
      ∙ append_assoc (contents r) p q;
}

pub writes-Grown :
    (r : Ring) (ps : List (List ℕ))
    → IsFilling r
    → r.off + length (flat ps) < r.cap
    → Grown r (flat ps) (writes r ps)
unfolding flat
writes-Grown r [] f room = record {
  filling = f;
  off = omega arith;
  cap = refl;
  bytes = sym (append-nil (contents r));
}
writes-Grown r (p ∷ ps) f room = Grown-cons r p (flat ps) f here (
    writes-Grown (write r p) ps (write-IsFilling r p f here)
      (omega (arith, off-write r p f here, cap-write r p, length-append p (flat ps))))
  where
    here : r.off + length p < r.cap
    here = omega (arith, length-append p (flat ps))

flat-append {ℓ} : {A : Type ℓ} (ps qs : List (List A)) → flat (ps ++ qs) ≡ flat ps ++ flat qs
unfolding flat
flat-append [] qs = refl
flat-append (p ∷ ps) qs = rw (flat-append ps qs) (sym (append_assoc p (flat ps) (flat qs)))

pub length-contents : (r : Ring) → IsFilling r → length (contents r) ≡ r.off
unfolding contents
length-contents r f = ground (arith, f.open_end, f.valid.storage, length-take r.off r.bytes)

eq_nil_of_length : (l : List ℕ) → length l ≡ 0 → l ≡ []
eq_nil_of_length [] h = refl
eq_nil_of_length (x ∷ l) h = absurd (omega arith)

pub poll_filling :
    (r : Ring) (t : ℕ) → IsFilling r → t ≤ r.off → poll r t ≡ (drop t (contents r), r.off)
unfolding poll
poll_filling r t f h = rw (since_offset_filling r t f h) (
    ground (
      arith,
      eq_nil_of_length (drop t (contents r)),
      length-drop t (contents r),
      length-contents r f,
    ))

-- one round: what is polled after the writes `ps`
module _ (r : Ring) (t : ℕ) (ps : List (List ℕ)) (f : IsFilling r) (h : t ≤ r.off) where
  follow-round :
      (rounds : List (List (List ℕ)))
      → r.off + length (flat ps) < r.cap
      → follow r t (ps ∷ rounds)
        ≡ (drop t (contents r) ++ flat ps) ++ follow (writes r ps) (writes r ps).off rounds
  unfolding follow
  follow-round rounds room =
      rw (poll_filling (writes r ps) t g.filling (omega (arith, g.off)), g.bytes)
        (ap (λ l. l ++ follow (writes r ps) (writes r ps).off rounds)
          (drop-append_le t (contents r) (flat ps) (omega (arith, length-contents r f))))
    where
      g : Grown r (flat ps) (writes r ps)
      g = writes-Grown r ps f room

pub flat-flat :
    (ps : List (List ℕ)) (rounds : List (List (List ℕ)))
    → flat (flat (ps ∷ rounds)) ≡ flat ps ++ flat (flat rounds)
flat-flat ps rounds = unfold flat in flat-append ps (flat rounds)

-- a follower that is up to date
follow_up_to_date :
    (r : Ring) (rounds : List (List (List ℕ)))
    → IsFilling r
    → r.off + length (flat (flat rounds)) < r.cap
    → follow r r.off rounds ≡ flat (flat rounds)
follow_up_to_date r [] f room = unfold follow flat in refl
follow_up_to_date r (ps ∷ rounds) f room =
    rw
      (
        follow-round r r.off ps f (omega arith) rounds here,
        drop_all r.off (contents r) (omega (arith, length-contents r f)),
        flat-flat ps rounds,
      )
      (ap (λ l. flat ps ++ l)
        (follow_up_to_date (writes r ps) rounds g.filling (omega (arith, g.off, g.cap, split))))
  where
    split : length (flat (flat (ps ∷ rounds))) ≡ length (flat ps) + length (flat (flat rounds))
    split = rw flat-flat (length-append (flat ps) (flat (flat rounds)))

    here : r.off + length (flat ps) < r.cap
    here = omega (arith, split)

    g : Grown r (flat ps) (writes r ps)
    g = writes-Grown r ps f here

-- A follower that has read up to some offset is sent, over any rounds of writes, exactly the bytes
-- after that offset in order, each of them once, as long as the buffer does not fill.
pub follow_complete :
    (r : Ring) (t : ℕ) (ps : List (List ℕ)) (rounds : List (List (List ℕ)))
    → IsFilling r
    → t ≤ r.off
    → r.off + length (flat (flat (ps ∷ rounds))) < r.cap
    → follow r t (ps ∷ rounds) ≡ drop t (contents r) ++ flat (flat (ps ∷ rounds))
follow_complete r t ps rounds f h room =
    rw (follow-round r t ps f h rounds here, flat-flat ps rounds)
      (ap (λ l. (drop t (contents r) ++ flat ps) ++ l)
          (follow_up_to_date (writes r ps) rounds g.filling (omega (arith, g.off, g.cap, split)))
        ∙ append_assoc (drop t (contents r)) (flat ps) (flat (flat rounds)))
  where
    split : length (flat (flat (ps ∷ rounds))) ≡ length (flat ps) + length (flat (flat rounds))
    split = rw flat-flat (length-append (flat ps) (flat (flat rounds)))

    here : r.off + length (flat ps) < r.cap
    here = omega (arith, split)

    g : Grown r (flat ps) (writes r ps)
    g = writes-Grown r ps f here
