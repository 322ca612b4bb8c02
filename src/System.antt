-- ===== src/System.antt =====
-- The scheduler as a whole (internal/scheduler): any interleaving of requests, of what lords send, of
-- the rounds of a recovery and of timers, as steps on the state of the server.
mod Tests
use etronium_scdr.Prelude.{
  ℕ, String, ◌≡◌, refl, ◌∙◌, ◌==◌, Bool-cases, Option-cases, inl, inr, Option, none, some, List, [],
  ◌∷◌, Dict, insert, ℤ,
}
use etronium_scdr.Proto.{SpawnRequest, ProcessState, KillRequest, LordEvent, kill, set_drain}
use etronium_scdr.Float.{Float}
use etronium_scdr.Table.{Entry, new_table, get, deref, update}
use etronium_scdr.Table.Invariant.{new_table-IsValid, update-IsValid, Keeps}
use etronium_scdr.Registry.{LordEntry, Registry, new_registry, sweep_heartbeats}
use etronium_scdr.Bpf.{BpfMaps}
use etronium_scdr.Server.{Server, take_event, Result, ok, err, send_event, send_kill, offer_event}
use etronium_scdr.Server.Sending.{processes-take_event, processes-send_event, processes-offer_event}
use etronium_scdr.Spawn.{spawn_process}
use etronium_scdr.Spawn.Invariant.{spawn_process-IsValid}
use etronium_scdr.Recovery.{respawn, stop_one, ack_timeout, MigrateRequest, migrate}
use etronium_scdr.Recovery.Invariant.{
  IsSound, respawn-IsSound, stop_one-IsSound, ack_timeout-IsSound, migrate-IsSound,
}
use etronium_scdr.Autoscale.{Decision}
use etronium_scdr.Autoscale.Apply.{apply_decisions}
use etronium_scdr.Autoscale.Applied.{apply_decisions-IsSound}
use etronium_scdr.Spawn.{snapshot}
use etronium_scdr.Requests
use etronium_scdr.Requests.{kill_process, signal_of}
use etronium_scdr.Requests.Input.{
  register_write_stdin_waiter, unregister_write_stdin_waiter, request_drains,
}
use etronium_scdr.Requests.Streaming.{stream_tick}
use etronium_scdr.Connect.{RegisterRequest, LordCmd, handle, connect_lord, disconnect}
use etronium_scdr.Connect.Invariant.{handle-IsValid, connect_lord-IsValid}

-- `NewServer` without a log
unfoldable pub new_server : String → BpfMaps → Server
new_server algo maps = record {
  processes = new_table;
  lords = new_registry algo;
  sessions = [];
  last_recovery_at = [];
  write_stdin_waiters = [];
  bpf = maps;
}

-- the start of a recovery: its time is noted
abbrev pub note_recovery : ℕ → String → Server → Server
note_recovery now dead s = record s { last_recovery_at = insert dead now s.last_recovery_at }

-- the sweeper's tick
abbrev pub sweep : ℕ → ℕ → Server → Server
sweep now ttl s = record s { lords = (sweep_heartbeats now ttl s.lords).1 }

-- a tick of a stream notes in the entry what has been sent
abbrev pub note_sent : ℕ → Entry → Server → Server
note_sent a e s = record s {
  processes = update (λ x. record x { io_last_sent = e.io_last_sent }) a s.processes;
}

module _ (fl : Float) (lord_id_from_hostname : String → ℕ) (to_uint32 : ℤ → ℕ) where
  -- One step of one of the goroutines. `respawned` and `stopped` are the rounds of the loops of a
  -- recovery. A new process has a new id.
  pub data Step (s : Server) : Server → Type 0 where
    spawned :
        (now : ℕ) (id : String) (req : SpawnRequest)
        → get s.processes id ≡ none
        → Step s (spawn_process fl now id req s).1
    connected :
        (now : ℕ) (lord_id : String) (req : RegisterRequest) (visited : Dict LordEntry)
        → Step s (connect_lord lord_id_from_hostname to_uint32 now lord_id req visited s)
    received :
        (now : ℕ) (lord_id : String) (cmd : LordCmd)
        → Step s (handle lord_id_from_hostname to_uint32 now lord_id cmd s)
    delivered : (lord_id : String) → Step s (take_event lord_id s).1
    disconnected : (lord_id : String) → Step s (disconnect lord_id s)
    swept : (now ttl : ℕ) → Step s (sweep now ttl s)
    noted : (now : ℕ) (dead : String) → Step s (note_recovery now dead s)
    respawned : (now : ℕ) (new_lord : String) (a : ℕ) → Step s (respawn now new_lord a s).1
    stopped : (now a : ℕ) → Step s (stop_one now a s)
    timed_out : (now a : ℕ) → Step s (ack_timeout now a s)
    migrated : (now : ℕ) (req : MigrateRequest) → Step s (migrate fl now req s).1
    killed : (req : KillRequest) → Step s (kill_process req s).1
    input_asked :
        (id lord_id : String) (ev : LordEvent)
        → Step s (send_event lord_id ev (register_write_stdin_waiter id s)).1
    input_done : (id : String) → Step s (unregister_write_stdin_waiter id s)
    streamed :
        (a : ℕ) (e : Entry) (last_total : ℕ)
        → deref s.processes a ≡ some e
        → Step s (note_sent a (stream_tick e last_total).2 s)
    drains_asked : (grace : ℤ) (ids : List String) → Step s (request_drains grace ids s)
    autoscaled : (now : ℕ) (ds : List Decision) → Step s (apply_decisions fl now ds s)

  pub data Reach : Server → Type 0 where
    start : (algo : String) (maps : BpfMaps) → Reach (new_server algo maps)
    next : {s u : Server} → Reach s → Step s u → Reach u

  processes-killed :
      (st : ProcessState) (out : Result (Unit {0}) × Server)
      → (Requests.killed st out).1.processes ≡ out.1.processes
  processes-killed st (ok u, s) = refl
  processes-killed st (err e, s) = refl

  processes-kill_process :
      (req : KillRequest) (s : Server) → (kill_process req s).1.processes ≡ s.processes
  unfolding kill_process
  processes-kill_process req s = elim (Option-cases (get s.processes req.process_id)) [
    | inl missing ↦ rw (missing, kill_process) refl
    | inr (a, known) ↦ elim (Option-cases (snapshot s.processes a)) [
      | inl gone ↦ rw (known, kill_process, gone) refl
      | inr (info, shot) ↦ elim (Bool-cases (info.ref.lord_id == "")) [
        | inl nowhere ↦ rw (known, kill_process, shot, nowhere) refl
        | inr placed ↦
            rw (known, kill_process, shot, placed)
              (processes-killed info.state
                  (send_kill info.ref.lord_id (record req { signal_number = signal_of req }) s)
                ∙ processes-send_event info.ref.lord_id
                    (kill (record req { signal_number = signal_of req })) s)
      ]
    ]
  ]

  processes-request_drains :
      (grace : ℤ) (ids : List String) (s : Server)
      → (request_drains grace ids s).processes ≡ s.processes
  unfolding request_drains
  processes-request_drains grace [] s = refl
  processes-request_drains grace (id ∷ ids) s =
      processes-request_drains grace ids (offer_event id (set_drain grace) s)
      ∙ processes-offer_event id (set_drain grace) s

  note_sent-Keeps : (e : Entry) → Keeps (λ x. record x { io_last_sent = e.io_last_sent })
  note_sent-Keeps e = record { id = λ x. refl; tenant = λ x. refl; shut = λ x c h. c h }

  registered : (s : Server) (id : String) → IsSound s → IsSound (register_write_stdin_waiter id s)
  unfolding register_write_stdin_waiter
  registered s id v = v

  Step-IsSound : {s u : Server} → Step s u → IsSound s → IsSound u
  Step-IsSound {s} (spawned now id req fresh) v = spawn_process-IsValid fl now id req s v fresh
  Step-IsSound {s} (connected now lord_id req visited) v =
      connect_lord-IsValid lord_id_from_hostname to_uint32 now lord_id req visited s v
  Step-IsSound {s} (received now lord_id cmd) v =
      handle-IsValid lord_id_from_hostname to_uint32 now lord_id cmd s v
  Step-IsSound {s} (delivered lord_id) v = rw (processes-take_event lord_id s) v
  Step-IsSound (disconnected lord_id) v = unfold disconnect in v
  Step-IsSound (swept now ttl) v = v
  Step-IsSound (noted now dead) v = v
  Step-IsSound {s} (respawned now new_lord a) v = respawn-IsSound now new_lord a s v
  Step-IsSound {s} (stopped now a) v = stop_one-IsSound now a s v
  Step-IsSound {s} (timed_out now a) v = ack_timeout-IsSound now a s v
  Step-IsSound {s} (migrated now req) v = migrate-IsSound fl now req s v
  Step-IsSound {s} (killed req) v = rw (processes-kill_process req s) v
  Step-IsSound {s} (input_asked id lord_id ev) v =
      rw (processes-send_event lord_id ev (register_write_stdin_waiter id s)) (registered s id v)
  Step-IsSound {s} (input_done id) v = unfold unregister_write_stdin_waiter in v
  Step-IsSound {s} (streamed a e last_total there) v =
      update-IsValid (note_sent-Keeps (stream_tick e last_total).2) a v
  Step-IsSound {s} (drains_asked grace ids) v = rw (processes-request_drains grace ids s) v
  Step-IsSound {s} (autoscaled now ds) v = apply_decisions-IsSound fl now ds s v

  -- However requests, lords' messages, connections, recoveries, rounds of the autoscaler and timers interleave, the process
  -- table of a reachable server is valid: an id leads to the entry of its process, the tenants' maps
  -- and the map of ids lead to the same entries, and whoever waits for a process that is EXITED or
  -- STOPPED is woken, its `exited` channel being closed.
  pub Reach-IsSound : {s : Server} → Reach s → IsSound s
  unfolding new_server
  Reach-IsSound (start algo maps) = new_table-IsValid
  Reach-IsSound (next r st) = Step-IsSound st (Reach-IsSound r)
