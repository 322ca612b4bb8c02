-- ===== src/Wal/Tests.antt =====
-- A log of three lines, with a concrete codec: a line is the event that it holds, `none` the header.
use etronium_scdr.Prelude.{
  ℕ, refl, Bool, true, false, Option, none, some, List, [], insert, ◌∷◌, map, pos, lookup,
}
use etronium_scdr.Proto.{running}
use etronium_scdr.Table.{
  Table, Record, create, state, result, new_table, attach_wal, create_entry, update_state,
  update_result,
}
use etronium_scdr.Table.Tests.{process}
use etronium_scdr.Wal.{Codec, Event}
use etronium_scdr.Wal.Durable.{Logged, begin, created, state_changed, finished}

abbrev is_none : Option Event → Bool
is_none none = true
is_none (some ev) = false

abbrev pub codec : Codec
codec = record {
  Line = Option Event;
  header = none;
  is_header = is_none;
  size = λ line. 100;
  marshal = λ at ev. some ev;
  unmarshal = λ line. line;
  unmarshal-marshal = λ at ev. refl;
  is_header-marshal = λ at ev. refl;
  is_header-header = refl;
}

abbrev pub log : List Record
log =
    create (process "p1" "a" "l1")
    ∷ state "p1" running "l1" (pos 77)
    ∷ result "p1" (pos 3) (pos 0)
    ∷ []

abbrev pub stamped : List (ℕ × Record)
stamped = map (λ r. (1, r)) log

abbrev after_create : Table
after_create = (create_entry (process "p1" "a" "l1") (attach_wal [] new_table)).1

abbrev after_state : Table
after_state = update_state 4 running "l1" (pos 77) 0 after_create

abbrev pub after_result : Table
after_result = update_result 5 (pos 3) (pos 0) 0 after_state

pub after_result-Logged : Logged after_result
unfolding create_entry attach_wal update_state lookup insert
after_result-Logged =
    finished 5 "p1" (pos 3) (pos 0) 0
      (state_changed 4 "p1" running "l1" (pos 77) 0
        (created (process "p1" "a" "l1") begin refl refl) refl)
      refl
