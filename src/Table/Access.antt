-- ===== src/Table/Access.antt =====
-- Reading an entry through its pointer after the methods have changed the table.
use etronium_scdr.Prelude.{ℕ, String, ◌≡◌, ◌≢◌, some, ℤ, get_elem?-modify_self, get_elem?-modify_ne}
use etronium_scdr.Proto.{ProcessState}
use etronium_scdr.Table.{
  Table, Entry, deref, update, update_state_entry, update_state, update_result_entry, update_result,
}

module _ (f : Entry → Entry) (a : ℕ) (t : Table) where
  pub deref-update : {e : Entry} → deref t a ≡ some e → deref (update f a t) a ≡ some (f e)
  deref-update {e} h = get_elem?-modify_self f a t.heap e h

  pub deref-update_other : (b : ℕ) → a ≢ b → deref (update f a t) b ≡ deref t b
  deref-update_other b ne = get_elem?-modify_ne f a b t.heap ne

module _ (now : ℕ) (st : ProcessState) (lord_id : String) (local_pid : ℤ) (a : ℕ) (t : Table) where
  pub deref-update_state :
      {e : Entry}
      → deref t a ≡ some e
      → deref (update_state now st lord_id local_pid a t) a
        ≡ some (update_state_entry now st lord_id local_pid e)
  unfolding update_state
  deref-update_state h = deref-update (update_state_entry now st lord_id local_pid) a t h

  pub deref-update_state_other :
      (b : ℕ) → a ≢ b → deref (update_state now st lord_id local_pid a t) b ≡ deref t b
  unfolding update_state
  deref-update_state_other b ne =
      deref-update_other (update_state_entry now st lord_id local_pid) a t b ne

module _ (now : ℕ) (code sig : ℤ) (a : ℕ) (t : Table) where
  pub deref-update_result :
      {e : Entry}
      → deref t a ≡ some e
      → deref (update_result now code sig a t) a ≡ some (update_result_entry now code sig e)
  unfolding update_result
  deref-update_result h = deref-update (update_result_entry now code sig) a t h

  pub deref-update_result_other :
      (b : ℕ) → a ≢ b → deref (update_result now code sig a t) b ≡ deref t b
  unfolding update_result
  deref-update_result_other b ne = deref-update_other (update_result_entry now code sig) a t b ne
