-- ===== src/Requests/Reattach.antt =====
-- What a client that follows a process is sent, also over two streams.
use etronium_scdr.Prelude.{
  ℕ, ◌+◌, ◌-◌, ◌≤◌, ◌<◌, ◌≡◌, refl, sym, ap, ◌∙◌, true, false, List, [], ◌∷◌, ◌++◌, append-nil,
  append_assoc, ltb, length, drop, length-drop, drop-append_le, drop_all, length-append, arith,
  if◌then◌else◌, Bool-cases, inl, inr,
}
use etronium_scdr.Ring.{writes, contents}
use etronium_scdr.Ring.Follow.{
  IsFilling, poll, flat, Grown, writes-Grown, flat-flat, poll_filling, length-contents,
}
use etronium_scdr.Table.{Entry}
use etronium_scdr.Requests.Streaming.{stream_tick, follow_stream, stream_process_io}

-- an entry whose buffer has not wrapped and of which no more has been sent than there is
pub record IsSent (e : Entry) : Type 0 where
  pub filling : IsFilling e.io_buf
  pub sent : e.io_last_sent ≤ e.io_buf.off

abbrev printed_to : Entry → List (List ℕ) → Entry
printed_to e ps = record e { io_buf = writes e.io_buf ps }

abbrev all_sent : Entry → Entry
all_sent e = record e { io_last_sent = e.io_buf.off }

-- a tick sends what is new, and notes that all is sent
stream_tick_eq :
    (e : Entry)
    → IsSent e
    → stream_tick e e.io_last_sent
      ≡ (drop e.io_last_sent (contents e.io_buf), e.io_buf.off, all_sent e)
unfolding stream_tick
stream_tick_eq e v =
    let chunk : List ℕ = drop e.io_last_sent (contents e.io_buf) in
    let here : poll e.io_buf e.io_last_sent ≡ (chunk, e.io_buf.off) =
      poll_filling e.io_buf e.io_last_sent v.filling v.sent in
    rw (here, stream_tick) (noted chunk refl)
  where
    level_of :
        {n : ℕ}
        → ltb 0 n ≡ false
        → n ≡ e.io_buf.off - e.io_last_sent
        → e.io_last_sent ≡ e.io_buf.off
    level_of none_new size = let below : e.io_last_sent ≤ e.io_buf.off = v.sent in ground arith

    noted :
        (chunk : List ℕ)
        → chunk ≡ drop e.io_last_sent (contents e.io_buf)
        → ◌≡◌ {A = List ℕ × ℕ × Entry}
            (chunk, e.io_buf.off, if ltb 0 (length chunk) then all_sent e else e)
            (chunk, e.io_buf.off, all_sent e)
    noted chunk same = elim (Bool-cases (ltb 0 (length chunk))) [
      | inl more ↦ rw more refl
      | inr nothing ↦
          let size : length chunk ≡ e.io_buf.off - e.io_last_sent =
            ap length same
            ∙ length-drop e.io_last_sent (contents e.io_buf)
            ∙ ap (λ n. n - e.io_last_sent) (length-contents e.io_buf v.filling) in
          let level : e.io_last_sent ≡ e.io_buf.off = level_of nothing size in
          let with_last : ℕ → List ℕ × ℕ × Entry =
            λ k. (chunk, e.io_buf.off, record e { io_last_sent = k }) in
          rw nothing (ap with_last level)
    ]

-- an entry after its output has been followed: all of it is sent, and the buffer has what was printed
pub record Caught (e e' : Entry) (printed : List ℕ) : Type 0 where
  pub up_to_date : IsSent e'
  pub level : e'.io_last_sent ≡ e'.io_buf.off
  pub held : contents e'.io_buf ≡ contents e.io_buf ++ printed
  pub end : e'.io_buf.off ≡ e.io_buf.off + length printed
  pub cap : e'.io_buf.cap ≡ e.io_buf.cap

-- what the client gets, and the entry after that
abbrev pub Streamed : Entry → List (List (List ℕ)) → List ℕ × Entry → Type 0
Streamed e rounds out =
    (out.0 ≡ drop e.io_last_sent (contents e.io_buf) ++ flat (flat rounds))
    × Caught e out.1 (flat (flat rounds))

module _ (e : Entry) (ps : List (List ℕ)) (v : IsSent e)
    (room : e.io_buf.off + length (flat ps) < e.io_buf.cap) where
  grown : Grown e.io_buf (flat ps) (writes e.io_buf ps)
  grown = writes-Grown e.io_buf ps v.filling room

  printed-IsSent : IsSent (printed_to e ps)
  printed-IsSent = record {
    filling = grown.filling;
    sent = let before : e.io_last_sent ≤ e.io_buf.off = v.sent in omega (arith, grown.off);
  }

  abbrev next_entry : Entry
  next_entry = all_sent (printed_to e ps)

  next-Caught : Caught e next_entry (flat ps)
  next-Caught = record {
    up_to_date = record { filling = grown.filling; sent = omega arith };
    level = refl;
    held = grown.bytes;
    end = grown.off;
    cap = grown.cap;
  }

  round_sent :
      drop e.io_last_sent (contents (writes e.io_buf ps))
      ≡ drop e.io_last_sent (contents e.io_buf) ++ flat ps
  round_sent =
      ap (drop e.io_last_sent) grown.bytes
      ∙ drop-append_le e.io_last_sent (contents e.io_buf) (flat ps) (
          let before : e.io_last_sent ≤ e.io_buf.off = v.sent in
          omega (arith, length-contents e.io_buf v.filling))

  follow_stream_eq :
      (rounds : List (List (List ℕ)))
      → follow_stream e e.io_last_sent (ps ∷ rounds) ≡ (
        (drop e.io_last_sent (contents e.io_buf) ++ flat ps)
            ++ (follow_stream next_entry next_entry.io_last_sent rounds).0,
        (follow_stream next_entry next_entry.io_last_sent rounds).1,
      )
  unfolding follow_stream
  follow_stream_eq rounds =
      ap
        (λ (tick : List ℕ × ℕ × Entry). (
          tick.0 ++ (follow_stream tick.2 tick.1 rounds).0,
          (follow_stream tick.2 tick.1 rounds).1,
        ))
        (stream_tick_eq (printed_to e ps) printed-IsSent)
      ∙ ap
          (λ (l : List ℕ). (
            l ++ (follow_stream next_entry next_entry.io_last_sent rounds).0,
            (follow_stream next_entry next_entry.io_last_sent rounds).1,
          ))
          round_sent

Caught-trans :
    (e e₁ e₂ : Entry) (p q : List ℕ) → Caught e e₁ p → Caught e₁ e₂ q → Caught e e₂ (p ++ q)
Caught-trans e e₁ e₂ p q c d = record {
  up_to_date = d.up_to_date;
  level = d.level;
  held = d.held ∙ ap (λ l. l ++ q) c.held ∙ append_assoc (contents e.io_buf) p q;
  end = omega (arith, c.end, d.end, length-append p q);
  cap = d.cap ∙ c.cap;
}

Caught-eq : (e e' : Entry) (p q : List ℕ) → p ≡ q → Caught e e' p → Caught e e' q
Caught-eq e e' p q same c = rw (← same) c

-- where all is sent, nothing is left of the contents
nothing_left :
    (e : Entry)
    → IsSent e
    → e.io_last_sent ≡ e.io_buf.off
    → drop e.io_last_sent (contents e.io_buf) ≡ []
nothing_left e v level = drop_all e.io_last_sent (contents e.io_buf) (
    let size : length (contents e.io_buf) ≡ e.io_buf.off = length-contents e.io_buf v.filling in
    omega arith)

follow_stream_nil : (e : Entry) (last_total : ℕ) → follow_stream e last_total [] ≡ ([], e)
unfolding follow_stream
follow_stream_nil e last_total = refl

-- Over any rounds of output, which the buffer can hold without wrapping, a client that follows a process
-- is sent what was not sent before and all that is printed, in order, and all that is noted as sent.
pub follow_stream-Streamed :
    (e : Entry) (ps : List (List ℕ)) (rounds : List (List (List ℕ)))
    → IsSent e
    → e.io_buf.off + length (flat (flat (ps ∷ rounds))) < e.io_buf.cap
    → Streamed e (ps ∷ rounds) (follow_stream e e.io_last_sent (ps ∷ rounds))
unfolding flat
follow_stream-Streamed e ps [] v room =
    let all : flat (flat (ps ∷ [])) ≡ flat ps = flat-flat ps [] ∙ append-nil (flat ps) in
    let fits : e.io_buf.off + length (flat ps) < e.io_buf.cap = omega (arith, ap length all) in
    rw
      (
        follow_stream_eq e ps v fits [],
        follow_stream_nil (next_entry e ps v fits) (next_entry e ps v fits).io_last_sent,
      )
      (
        append-nil (drop e.io_last_sent (contents e.io_buf) ++ flat ps)
            ∙ ap (λ l. drop e.io_last_sent (contents e.io_buf) ++ l) (sym all),
        Caught-eq e (next_entry e ps v fits) (flat ps) (flat (flat (ps ∷ []))) (sym all)
            (next-Caught e ps v fits),
      )
follow_stream-Streamed e ps (qs ∷ rounds) v room =
    let later : List ℕ = flat (flat (qs ∷ rounds)) in
    let all : flat (flat (ps ∷ qs ∷ rounds)) ≡ flat ps ++ later = flat-flat ps (qs ∷ rounds) in
    let size : length (flat (flat (ps ∷ qs ∷ rounds))) ≡ length (flat ps) + length later =
      ap length all ∙ length-append (flat ps) later in
    let fits : e.io_buf.off + length (flat ps) < e.io_buf.cap = omega arith in
    let e₁ : Entry = next_entry e ps v fits in
    let first : Caught e e₁ (flat ps) = next-Caught e ps v fits in
    let rest : Streamed e₁ (qs ∷ rounds) (follow_stream e₁ e₁.io_last_sent (qs ∷ rounds)) =
      follow_stream-Streamed e₁ qs rounds first.up_to_date (omega (arith, first.end, first.cap)) in
    let before : List ℕ = drop e.io_last_sent (contents e.io_buf) in
    rw (follow_stream_eq e ps v fits (qs ∷ rounds)) (
      ap (λ l. (before ++ flat ps) ++ l)
            (rest.0 ∙ ap (λ l. l ++ later) (nothing_left e₁ first.up_to_date first.level))
          ∙ append_assoc before (flat ps) later
          ∙ ap (λ l. before ++ l) (sym all),
      Caught-eq e (follow_stream e₁ e₁.io_last_sent (qs ∷ rounds)).1 (flat ps ++ later) _ (sym all)
          (Caught-trans e e₁ _ (flat ps) later first rest.1),
    )

-- A client follows a process, is cut off and follows it again. What the two streams send is, one after
-- the other, what had not been sent before and then all that the process prints during both, each byte
-- once and in order, as long as the buffer can hold it without wrapping.
pub reattached_stream_continues :
    (e : Entry) (ps qs : List (List ℕ)) (rounds rounds' : List (List (List ℕ)))
    → IsSent e
    → e.io_buf.off + length (flat (flat (ps ∷ rounds)) ++ flat (flat (qs ∷ rounds'))) < e.io_buf.cap
    → (stream_process_io true (ps ∷ rounds) e).0
        ++ (stream_process_io true (qs ∷ rounds') (stream_process_io true (ps ∷ rounds) e).1).0
      ≡ drop e.io_last_sent (contents e.io_buf)
        ++ (flat (flat (ps ∷ rounds)) ++ flat (flat (qs ∷ rounds')))
unfolding stream_process_io
reattached_stream_continues e ps qs rounds rounds' v room =
    let p : List ℕ = flat (flat (ps ∷ rounds)) in
    let q : List ℕ = flat (flat (qs ∷ rounds')) in
    let size : length (p ++ q) ≡ length p + length q = length-append p q in
    let (sent, caught) = follow_stream-Streamed e ps rounds v (omega arith) in
    let e₁ : Entry = (follow_stream e e.io_last_sent (ps ∷ rounds)).1 in
    let (sent', caught') =
      follow_stream-Streamed e₁ qs rounds' caught.up_to_date
        (omega (arith, caught.end, caught.cap)) in
    let before : List ℕ = drop e.io_last_sent (contents e.io_buf) in
    ap (λ l. l ++ (follow_stream e₁ e₁.io_last_sent (qs ∷ rounds')).0) sent
    ∙ ap (λ l. (before ++ p) ++ l)
        (sent' ∙ ap (λ l. l ++ q) (nothing_left e₁ caught.up_to_date caught.level))
    ∙ append_assoc before p q
