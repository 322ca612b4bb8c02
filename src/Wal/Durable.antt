-- ===== src/Wal/Durable.antt =====
-- Runs of the scheduler with its log, restarts included.
use mathlib.Core.Path.{subst}
use etronium_scdr.Prelude.{ℕ, String, ◌≡◌, refl, false, none, some, List, [], ◌∷◌, ◌++◌, ℤ}
use etronium_scdr.Proto.{ProcessState, ProcessInfo, is_final}
use etronium_scdr.Table.{
  Table, Record, create, state, result, new_table, attach_wal, create_entry, get, update_state,
  update_result, log_at,
}
use etronium_scdr.Table.Invariant.{IsValid, new_table-IsValid, wal-IsValid}
use etronium_scdr.Table.Create.{create-IsValid}
use etronium_scdr.Table.Steps.{update_state-IsValid, update_result-IsValid}
use etronium_scdr.Wal.Replay.{apply_record, apply_records, replayed, replayed-apply_records}
use etronium_scdr.Wal.Recovery.{
  SameView, SameView-trans, SameView-symm, SameView-create, SameView-update_state,
  SameView-update_result, SameView-IsValid,
}

-- The table of a scheduler that runs with a log: the calls that it logs, through pointers that `Get`
-- gave, and restarts that replay the log and go on with it.
pub data Logged : Table → Type 0 where
  begin : Logged (attach_wal [] new_table)
  created :
      {t : Table} (info : ProcessInfo)
      → Logged t
      → get t info.ref.process_id ≡ none
      → is_final info.state ≡ false
      → Logged (create_entry info t).1
  state_changed :
      {t : Table} (now : ℕ) (k : String) (st : ProcessState) (lord_id : String) (local_pid : ℤ)
      (a : ℕ)
      → Logged t
      → get t k ≡ some a
      → Logged (update_state now st lord_id local_pid a t)
  finished :
      {t : Table} (now : ℕ) (k : String) (code sig : ℤ) (a : ℕ)
      → Logged t
      → get t k ≡ some a
      → Logged (update_result now code sig a t)
  restarted :
      {t : Table} (now : ℕ) (log : List Record)
      → Logged t
      → t.wal ≡ some log
      → Logged (attach_wal log (replayed now log))

-- what such a table satisfies
record Durable (t : Table) : Type 0 where
  valid : IsValid t
  log : List Record
  logged : t.wal ≡ some log
  same : (now : ℕ) → SameView (apply_records now log new_table) t

apply_records-append :
    (now : ℕ) (rs : List Record) (r : Record) (t : Table)
    → apply_records now (rs ++ r ∷ []) t ≡ apply_record now r (apply_records now rs t)
unfolding apply_records
apply_records-append now [] r t = refl
apply_records-append now (q ∷ rs) r t = apply_records-append now rs r (apply_record now q t)

module _ {t : Table} (d : Durable t) where
  wal-create : (info : ProcessInfo) → (create_entry info t).1.wal ≡ some (d.log ++ create info ∷ [])
  unfolding create_entry
  wal-create info = rw (d.logged)

  -- the id that is logged is the one that leads to the pointer
  wal-update_state :
      (now : ℕ) (k : String) (st : ProcessState) (lord_id : String) (local_pid : ℤ) (a : ℕ)
      → get t k ≡ some a
      → (update_state now st lord_id local_pid a t).wal
        ≡ some (d.log ++ state k st lord_id local_pid ∷ [])
  unfolding update_state
  wal-update_state now k st lord_id local_pid a h =
      let (e, there, same) = d.valid.by_id_ok k a h in rw (there, log_at) (rw (d.logged, same))

  wal-update_result :
      (now : ℕ) (k : String) (code sig : ℤ) (a : ℕ)
      → get t k ≡ some a
      → (update_result now code sig a t).wal ≡ some (d.log ++ result k code sig ∷ [])
  unfolding update_result
  wal-update_result now k code sig a h =
      let (e, there, same) = d.valid.by_id_ok k a h in rw (there, log_at) (rw (d.logged, same))

  get_replayed :
      (now : ℕ) (k : String) (a : ℕ)
      → get t k ≡ some a
      → get (apply_records now d.log new_table) k ≡ some a
  get_replayed now k a h = rw (d.same now).by_id h

  Durable-create :
      (info : ProcessInfo)
      → get t info.ref.process_id ≡ none
      → is_final info.state ≡ false
      → Durable (create_entry info t).1
  Durable-create info fresh open_state = record {
    valid = create-IsValid info t d.valid fresh open_state;
    log = d.log ++ create info ∷ [];
    logged = wal-create info;
    same =
        λ now. rw apply_records-append (unfold apply_record in SameView-create info (d.same now));
  }

  Durable-update_state :
      (now : ℕ) (k : String) (st : ProcessState) (lord_id : String) (local_pid : ℤ) (a : ℕ)
      → get t k ≡ some a
      → Durable (update_state now st lord_id local_pid a t)
  Durable-update_state now k st lord_id local_pid a h = record {
    valid = update_state-IsValid now st lord_id local_pid a d.valid;
    log = d.log ++ state k st lord_id local_pid ∷ [];
    logged = wal-update_state now k st lord_id local_pid a h;
    same = λ now'. rw apply_records-append (
        unfold apply_record in
        rw (get_replayed now' k a h)
          (SameView-update_state now' now st lord_id local_pid a (d.same now')));
  }

  Durable-update_result :
      (now : ℕ) (k : String) (code sig : ℤ) (a : ℕ)
      → get t k ≡ some a
      → Durable (update_result now code sig a t)
  Durable-update_result now k code sig a h = record {
    valid = update_result-IsValid now code sig a d.valid;
    log = d.log ++ result k code sig ∷ [];
    logged = wal-update_result now k code sig a h;
    same = λ now'. rw apply_records-append (
        unfold apply_record in
        rw (get_replayed now' k a h) (SameView-update_result now' now code sig a (d.same now')));
  }

  Durable-restart : (now : ℕ) → Durable (attach_wal d.log (apply_records now d.log new_table))
  unfolding attach_wal
  Durable-restart now = record {
    valid = wal-IsValid (some d.log) (SameView-IsValid (d.same now) d.valid);
    log = d.log;
    logged = refl;
    same = λ now'.
        let s = SameView-trans (d.same now') (SameView-symm (d.same now)) in
        record { heap = s.heap; by_id = s.by_id; by_tenant = s.by_tenant };
  }

Durable-begin : Durable (attach_wal [] new_table)
unfolding attach_wal apply_records
Durable-begin = record {
  valid = wal-IsValid (some []) new_table-IsValid;
  log = [];
  logged = refl;
  same = λ now. record { heap = refl; by_id = refl; by_tenant = refl };
}

Logged-Durable : {t : Table} → Logged t → Durable t
Logged-Durable begin = Durable-begin
Logged-Durable (created info r fresh open_state) =
    Durable-create (Logged-Durable r) info fresh open_state
Logged-Durable (state_changed now k st lord_id local_pid a r h) =
    Durable-update_state (Logged-Durable r) now k st lord_id local_pid a h
Logged-Durable (finished now k code sig a r h) =
    Durable-update_result (Logged-Durable r) now k code sig a h
Logged-Durable (restarted {t = u} now log r h) = rw (replayed-apply_records now log) (
    subst (λ l. Durable (attach_wal l (apply_records now l new_table)))
      (cc (Logged-Durable r).logged) (Durable-restart (Logged-Durable r) now))

pub apply_records-SameView :
    {t : Table} (log : List Record) (now : ℕ)
    → Logged t
    → t.wal ≡ some log
    → SameView (apply_records now log new_table) t
apply_records-SameView {t} log now r h =
    subst (λ l. SameView (apply_records now l new_table) t) (cc (Logged-Durable r).logged)
      ((Logged-Durable r).same now)
