-- ===== src/Requests/Answers.antt =====
-- What `ListProcesses` and `Kill` answer.
use etronium_scdr.Prelude.{
  ℕ, ◌≤◌, String, ◌≡◌, ◌≢◌, refl, ◌==◌, eq_iff, Bool, true, false, not, ◌||◌, some, List, [], ◌∷◌,
  ℤ, pos, eqb_ℤ, ◌⊎◌, arith, length, take, length-take, All, In, inl, inr, Bool-cases, ltb, zero,
  suc,
}
use etronium_scdr.Proto.{ProcessInfo, KillRequest, is_running, kill}
use etronium_scdr.Table.{Table, Entry, get, deref, list_by_tenant}
use etronium_scdr.Table.Invariant.{IsValid}
use etronium_scdr.Table.Listing.{list_by_tenant_sound}
use etronium_scdr.Server.{Server, Result, ok, err, unavailable}
use etronium_scdr.Server.Sending.{Sent, Blocked, Push, sent, unsent, send_event-Push}
use etronium_scdr.Requests.{
  KillResponse, signal_of, killed, kill_process, snapshots, list_limit, cut, list_processes,
}

-- an info that the request asked for
abbrev pub Wanted : String → Bool → ProcessInfo → Type 0
Wanted tenant_id only_running info =
    (info.tenant_id ≡ tenant_id) × ((not only_running || is_running info.state) ≡ true)

All-take : (P : ProcessInfo → Type 0) (n : ℕ) (l : List ProcessInfo) → All P l → All P (take n l)
All-take P zero [] h = tt
All-take P (suc n) [] h = tt
All-take P zero (x ∷ l) h = tt
All-take P (suc n) (x ∷ l) h = (h.0, All-take P n l h.1)

All-cut : (P : ProcessInfo → Type 0) (n : ℕ) (l : List ProcessInfo) → All P l → All P (cut n l)
All-cut P n l h = elim (Bool-cases (ltb n (length l))) [
  | inl more ↦ rw more (All-take P n l h)
  | inr fits ↦ rw fits h
]

length-cut : (n : ℕ) (l : List ProcessInfo) → length (cut n l) ≤ n
length-cut n l = ground (arith, length-take n l)

list_limit_le : (limit : ℤ) → list_limit limit ≤ 500
list_limit_le limit = ground arith

module _ (t : Table) (tenant_id : String) (only_running : Bool) where
  -- a pointer that leads to an info that was asked for
  abbrev Leads : ℕ → Type 0
  Leads a =
      (e : Entry) × (deref t a ≡ some e)
      × (e.info.tenant_id ≡ tenant_id)
      × ((not only_running || is_running e.info.state) ≡ true)

  snapshots-Wanted :
      (as' : List ℕ)
      → ((a : ℕ) → In a as' → Leads a)
      → All (Wanted tenant_id only_running) (snapshots t as')
  snapshots-Wanted [] h = tt
  snapshots-Wanted (a ∷ as') h =
      let (e, there, own, runs) = h a (inl refl) in
      rw (there, snapshots) ((own, runs), snapshots-Wanted as' (λ b later. h b (inr later)))

-- In a server with a valid process table, `ListProcesses` of a tenant answers with at most 500
-- processes and at most the limit asked for, each of them that tenant's, and running or paused if only
-- such ones are asked for.
pub list_processes_sound :
    (s : Server) (tenant_id : String) (only_running : Bool) (limit : ℤ)
    → IsValid s.processes
    → tenant_id ≢ ""
    → (infos : List ProcessInfo) × (list_processes s tenant_id only_running limit ≡ ok infos)
      × (length infos ≤ list_limit limit)
      × (list_limit limit ≤ 500)
      × All (Wanted tenant_id only_running) infos
unfolding list_processes
list_processes_sound s tenant_id only_running limit v named =
    let listed = snapshots s.processes (list_by_tenant s.processes tenant_id only_running) in
    (
      cut (list_limit limit) listed,
      ground (arith, eq_iff tenant_id ""),
      length-cut (list_limit limit) listed,
      list_limit_le limit,
      All-cut (Wanted tenant_id only_running) (list_limit limit) listed (
          snapshots-Wanted s.processes tenant_id only_running
            (list_by_tenant s.processes tenant_id only_running)
            (λ a h. list_by_tenant_sound s.processes tenant_id only_running a v h)),
    )

-- what a request to kill asks for: SIGKILL if it is forced, else the signal that it names, or SIGTERM if it
-- names none
abbrev pub IsSignalOf : KillRequest → ℤ → Type 0
IsSignalOf req signal =
    (req.force ≡ true) × (signal ≡ pos 9)
    ⊎ ((req.force ≡ false) × (req.signal_number ≡ pos 0) × (signal ≡ pos 15)
        ⊎ (req.force ≡ false) × (req.signal_number ≢ pos 0) × (signal ≡ req.signal_number))

eqb_ℤ-ne : (i : ℤ) → eqb_ℤ i (pos 0) ≡ false → i ≢ pos 0
eqb_ℤ-ne i h e = absurd (ground arith)

pub signal_of-IsSignalOf : (req : KillRequest) → IsSignalOf req (signal_of req)
signal_of-IsSignalOf req = elim (Bool-cases req.force) [
  | inl forced ↦ inl (forced, rw forced refl)
  | inr free ↦ elim (Bool-cases (eqb_ℤ req.signal_number (pos 0))) [
    | inl zero_given ↦ inr (inl (free, ground arith, rw (free, zero_given) refl))
    | inr named ↦ inr (inr (free, eqb_ℤ-ne req.signal_number named, rw (free, named) refl))
  ]
]

module _ (req : KillRequest) (s : Server) (e : Entry) where
  -- the outcomes of `Kill` for a process on a lord
  pub data KillOutcome : Result KillResponse × Server → Type 0 where
    on_its_way :
        {s' : Server}
        → IsSignalOf req (signal_of req)
        → Sent e.info.ref.lord_id (kill (record req { signal_number = signal_of req })) s s'
        → KillOutcome (ok (record { acknowledged = true; current_state = e.info.state }), s')
    unreachable : Blocked e.info.ref.lord_id s → KillOutcome (err unavailable, s)

  killed-Push :
      {out : Result (Unit {0}) × Server}
      → Push e.info.ref.lord_id (kill (record req { signal_number = signal_of req })) s out
      → KillOutcome (killed e.info.state out)
  killed-Push (sent q) = on_its_way (signal_of-IsSignalOf req) q
  killed-Push (unsent why blocked) = unreachable blocked

  -- `Kill` of a process in the table that has a lord either queues the kill event, with SIGKILL if it is
  -- forced, the signal asked for or SIGTERM, as the last in that lord's outbox and acknowledges, or, if
  -- the lord has no session or no room, answers unavailable and changes nothing.
  pub kill_process-KillOutcome :
      (a : ℕ)
      → get s.processes req.process_id ≡ some a
      → deref s.processes a ≡ some e
      → e.info.ref.lord_id ≢ ""
      → KillOutcome (kill_process req s)
  unfolding kill_process
  kill_process-KillOutcome a known there placed =
      let off : (e.info.ref.lord_id == "") ≡ false = ground (arith, eq_iff e.info.ref.lord_id "") in
      rw (known, there, kill_process, off)
        (killed-Push (
          send_event-Push e.info.ref.lord_id (kill (record req { signal_number = signal_of req }))
            s))
