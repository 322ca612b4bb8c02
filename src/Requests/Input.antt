-- ===== src/Requests/Input.antt =====
-- `WriteStdin`, `Wait` and `Shutdown` of internal/scheduler/server.go. What other goroutines do while a
-- call waits is a function on the server; `cancelled` says whether the client gives up before an answer
-- is there. Two calls of `WriteStdin` at a time for one process are not modelled.
use etronium_scdr.Prelude.{
  ℕ, String, ◌==◌, Bool, true, false, Option, none, some, List, [], ◌∷◌, lookup, insert, delete, ℤ,
  pos, ltb_ℤ, if◌then◌else◌,
}
use etronium_scdr.Proto.{ProcessInfo, WriteStdinRequest, WriteStdinAck, write_stdin, set_drain}
use etronium_scdr.Table.{Table, get, deref}
use etronium_scdr.Server.{
  Server, not_found, failed_precondition, context_done, Result, ok, err, send_event, offer_event,
}
use etronium_scdr.Recovery.{info_at}
use etronium_scdr.Spawn.{snapshot}

pub record WriteStdinResponse : Type 0 where
  pub bytes_written : ℤ
  pub closed : Bool

-- the answer where the lord cannot be reached or does not answer
abbrev pub closed_response : WriteStdinResponse
closed_response = record { bytes_written = pos 0; closed = true }

-- `registerWriteStdinWaiter`: a channel of one answer, empty
unfoldable pub register_write_stdin_waiter : String → Server → Server
register_write_stdin_waiter id s = record s {
  write_stdin_waiters = insert id [] s.write_stdin_waiters;
}

-- `unregisterWriteStdinWaiter`
unfoldable pub unregister_write_stdin_waiter : String → Server → Server
unregister_write_stdin_waiter id s = record s {
  write_stdin_waiters = delete id s.write_stdin_waiters;
}

-- the error of a call that its client has given up
abbrev pub cancelled_response : Result WriteStdinResponse
cancelled_response = err context_done

-- what the waiter reads in the end
abbrev pub read_answer : Bool → Option (List WriteStdinAck) → Result WriteStdinResponse
read_answer cancelled (some (ack ∷ acks)) =
    ok (record { bytes_written = ack.bytes_written; closed = ack.closed })
read_answer true _ = cancelled_response
read_answer false _ = ok closed_response

module _ (meanwhile : Server → Server) (cancelled : Bool) where
  -- what follows the push of the event
  unfoldable pub after_push :
      String → Result (Unit {0}) × Server → Result WriteStdinResponse × Server
  after_push id (ok u, s) =
      (read_answer cancelled (lookup id (meanwhile s).write_stdin_waiters), meanwhile s)
  after_push id (err e, s) = (ok closed_response, s)

  abbrev pub without_waiter :
      String → Result WriteStdinResponse × Server → Result WriteStdinResponse × Server
  without_waiter id (r, s) = (r, unregister_write_stdin_waiter id s)

  -- the call once the lord is known
  unfoldable pub write_to_lord :
      String → WriteStdinRequest → Server → Result WriteStdinResponse × Server
  unfolding after_push register_write_stdin_waiter
  write_to_lord lord_id req s = without_waiter req.process_id (
      after_push req.process_id (
        send_event lord_id (write_stdin (record req { lord_id = lord_id }))
          (register_write_stdin_waiter req.process_id s)))

  -- `WriteStdin`
  unfoldable pub write_stdin_process :
      WriteStdinRequest → Server → Result WriteStdinResponse × Server
  unfolding write_to_lord
  write_stdin_process req s = elim (get s.processes req.process_id) [
    | none ↦ (err not_found, s)
    | some a ↦ elim (info_at a s.processes) [
      | none ↦ (err not_found, s)
      | some info ↦
          if info.ref.lord_id == ""
          then (err failed_precondition, s)
          else write_to_lord info.ref.lord_id req s
    ]
  ]

-- a snapshot as an answer
abbrev pub snapshot_at : ℕ → Table → Result ProcessInfo
snapshot_at a t = elim (snapshot t a) [ none ↦ err not_found | some info ↦ ok info ]

-- the `exited` channel at a pointer is closed
abbrev pub has_exited : ℕ → Table → Bool
has_exited a t = elim (deref t a) [ none ↦ false | some e ↦ e.exited ]

-- `Wait`, with the server as it is when the call is woken, gives up or its time is over; `none` is a
-- call that goes on waiting
unfoldable pub wait_for :
    (Server → Server) → Bool → ℤ → String → Server → Option (Result ProcessInfo)
wait_for meanwhile cancelled timeout_sec id s = elim (get s.processes id) [
  | none ↦ some (err not_found)
  | some a ↦
      let s₁ = meanwhile s in
      if has_exited a s₁.processes
      then some (snapshot_at a s₁.processes)
      else if cancelled
      then some (err context_done)
      else if ltb_ℤ (pos 0) timeout_sec
      then some (snapshot_at a s₁.processes)
      else none
]

-- The requests of `Shutdown` to drain, to the sessions in the order in which a `range` visits them. A
-- full outbox is passed over.
unfoldable pub request_drains : ℤ → List String → Server → Server
request_drains grace [] s = s
request_drains grace (id ∷ ids) s = request_drains grace ids (offer_event id (set_drain grace) s)
