-- ===== src/Wal/Replay.antt =====
-- A file that the scheduler wrote is replayed record by record.
use etronium_scdr.Prelude.{
  ℕ, ◌<◌, String, ◌≡◌, refl, ap, ◌∙◌, Bool, true, false, Option, none, some, List, [], ◌∷◌, map,
  All, ℤ, arith,
}
use etronium_scdr.Proto.{ProcessState}
use etronium_scdr.Table.{
  Table, Record, new_table, create, state, result, create_entry, get, update_state, update_result,
}
use etronium_scdr.Wal.{
  Codec, Event, Progress, ReplayResult, event_of, max_line, replay_event, replay_state,
  replay_result, replay_line, replay_loop, replay_wal, start, line_of,
}
use etronium_scdr.Wal.Names.{process_state_by_name-state_name}

-- what one record does to the table that is rebuilt
abbrev on_entry : Option ℕ → (ℕ → Table) → Table → Table
on_entry none f t = t
on_entry (some a) f t = f a

unfoldable pub apply_record : ℕ → Record → Table → Table
apply_record now (create info) t = (create_entry info t).1
apply_record now (state id st lord_id local_pid) t =
    on_entry (get t id) (λ a. update_state now st lord_id local_pid a t) t
apply_record now (result id code sig) t =
    on_entry (get t id) (λ a. update_result now code sig a t) t

unfoldable pub apply_records : ℕ → List Record → Table → Table
apply_records now [] t = t
apply_records now (r ∷ rs) t = apply_records now rs (apply_record now r t)

module _ (now : ℕ) (res : ReplayResult) (t : Table) where
  replay_state-on_entry :
      (o : Option ℕ) (st : ProcessState) (lord_id : String) (local_pid : ℤ)
      → (replay_state now o (some st) lord_id local_pid (res, t)).1
        ≡ on_entry o (λ a. update_state now st lord_id local_pid a t) t
  unfolding replay_event
  replay_state-on_entry none st lord_id local_pid = refl
  replay_state-on_entry (some a) st lord_id local_pid = refl

  replay_result-on_entry :
      (o : Option ℕ) (code sig : ℤ)
      → (replay_result now o code sig (res, t)).1
        ≡ on_entry o (λ a. update_result now code sig a t) t
  unfolding replay_event
  replay_result-on_entry none code sig = refl
  replay_result-on_entry (some a) code sig = refl

replay_event-event_of :
    (now : ℕ) (r : Record) (p : Progress)
    → (replay_event now (event_of r) p).1 ≡ apply_record now r p.1
unfolding replay_event event_of apply_record
replay_event-event_of now (create info) (res, t) = refl
replay_event-event_of now (state id st lord_id local_pid) (res, t) =
    rw process_state_by_name-state_name
      (replay_state-on_entry now res t (get t id) st lord_id local_pid)
replay_event-event_of now (result id code sig) (res, t) =
    replay_result-on_entry now res t (get t id) code sig

-- the events of a log in order, as the loop of `ReplayWAL` takes them
unfoldable pub replay_events : ℕ → List Event → Progress → Progress
replay_events now [] p = p
replay_events now (ev ∷ evs) p = replay_events now evs (replay_event now ev p)

abbrev no_results : ReplayResult
no_results = record { creates = 0; states = 0; results = 0 }

-- the new table after the replay of what the records of a log have been written as
abbrev pub replayed : ℕ → List Record → Table
replayed now log = (replay_events now (map event_of log) (no_results, new_table)).1

replay_events-event_of :
    (now : ℕ) (rs : List Record) (p : Progress)
    → (replay_events now (map event_of rs) p).1 ≡ apply_records now rs p.1
unfolding replay_events apply_records
replay_events-event_of now [] p = refl
replay_events-event_of now (r ∷ rs) p =
    replay_events-event_of now rs (replay_event now (event_of r) p)
    ∙ ap (apply_records now rs) (replay_event-event_of now r p)

pub replayed-apply_records :
    (now : ℕ) (log : List Record) → replayed now log ≡ apply_records now log new_table
replayed-apply_records now log = replay_events-event_of now log (no_results, new_table)

module _ (c : Codec) (now : ℕ) where
  open c use {
    size, marshal, header, is_header, unmarshal-marshal, is_header-marshal, is_header-header,
  }

  -- a line that the scanner's buffer holds
  abbrev pub Fits : ℕ × Record → Type 0
  Fits r = size (line_of c r) < max_line

  replay_line-line_of :
      (at : ℕ) (r : Record) (p : Progress)
      → (replay_line c now (line_of c (at, r)) p).1 ≡ apply_record now r p.1
  unfolding replay_line
  replay_line-line_of at r p =
      rw (unmarshal-marshal at (event_of r), replay_line) (replay_event-event_of now r p)

  replay_loop-cons :
      (first : Bool) (at : ℕ) (r : Record) (lines : List c.Line) (p : Progress)
      → Fits (at, r)
      → replay_loop c now first (line_of c (at, r) ∷ lines) p
        ≡ replay_loop c now false lines (replay_line c now (line_of c (at, r)) p)
  unfolding replay_loop
  replay_loop-cons first at r lines p fits = ground (arith, is_header-marshal at (event_of r))

  replay_loop-header :
      (lines : List c.Line) (p : Progress)
      → size header < max_line
      → replay_loop c now true (header ∷ lines) p ≡ replay_loop c now false lines p
  unfolding replay_loop
  replay_loop-header lines p fits = ground (arith, is_header-header)

  -- the two results of the loop that matter
  abbrev Replayed : List Record → Table → Bool × Progress → Type 0
  Replayed rs t out = (out.0 ≡ false) × (out.1.1 ≡ apply_records now rs t)

  replay_loop-lines :
      (first : Bool) (rs : List (ℕ × Record)) (p : Progress)
      → All Fits rs
      → Replayed (map (λ r. r.1) rs) p.1 (replay_loop c now first (map (line_of c) rs) p)
  replay_loop-lines first [] p fits = unfold replay_loop apply_records in (refl, refl)
  replay_loop-lines first ((at, r) ∷ rs) p fits =
      let ih = replay_loop-lines false rs (replay_line c now (line_of c (at, r)) p) fits.1 in
      rw (replay_loop-cons first at r (map (line_of c) rs) p fits.0) (
        ih.0,
        ih.1
            ∙ ap (apply_records now (map (λ r. r.1) rs)) (replay_line-line_of at r p)
            ∙ unfold apply_records in refl,
      )

  -- A file with the header and the lines of any records, each of which fits the scanner's buffer, is
  -- replayed without an error, and record by record.
  pub replay_wal-records :
      (rs : List (ℕ × Record)) (t : Table)
      → size header < max_line
      → All Fits rs
      → ((replay_wal c now (some (header ∷ map (line_of c) rs)) t).0 ≡ false)
        × ((replay_wal c now (some (header ∷ map (line_of c) rs)) t).1.1
            ≡ apply_records now (map (λ r. r.1) rs) t)
  unfolding replay_wal
  replay_wal-records rs t short fits =
      rw (replay_loop-header (map (line_of c) rs) (start c t) short)
        (replay_loop-lines false rs (start c t) fits)
