-- ===== src/Requests/Conversation.antt =====
-- `WriteStdin` from the client through the scheduler to the process on its lord, and back.
use etronium_scdr.Prelude.{
  ℕ, ◌<◌, String, ◌≡◌, ◌≢◌, refl, ap, ◌∙◌, ◌==◌, eq_iff, eq_refl, Bool, true, false, ◌||◌, none,
  some, [], ◌∷◌, ◌++◌, lookup, lookup-insert, lookup-delete, ℤ, pos, take, length, ltb, arith,
}
use etronium_scdr.Proto.{WriteStdinRequest, write_stdin}
use etronium_scdr.Table.{Entry, get, deref}
use etronium_scdr.Server.{Server, Session, Result, ok, outbox_size, send_event}
use etronium_scdr.Server.Sending.{queued}
use etronium_scdr.Connect.{LordCmd, write_stdin_ack, handle}
use etronium_scdr.Lord.{LocalProcess, Agent, Os}
use etronium_scdr.Lord.Handlers.{ack_of, write_pipe, written, handle_write_stdin}
use etronium_scdr.Lord.Reports.{ack-Answered}
use etronium_scdr.Requests.Input.{
  WriteStdinResponse, read_answer, register_write_stdin_waiter, unregister_write_stdin_waiter,
  after_push, without_waiter, write_to_lord, write_stdin_process,
}

module _ (lord_id_from_hostname : String → ℕ) (to_uint32 : ℤ → ℕ) (now : ℕ) (lord_id : String)
    (s : Server) (ag : Agent) (os : Os) (req : WriteStdinRequest) where
  -- the request as the lord gets it
  abbrev pub forwarded : WriteStdinRequest
  forwarded = record req { lord_id = lord_id }

  -- the scheduler handles a message of the lord
  abbrev pub on_message : LordCmd → Server → Server
  on_message cmd u = handle lord_id_from_hostname to_uint32 now lord_id cmd u

  abbrev pub bytes_taken : LocalProcess → ℕ
  bytes_taken p = (write_pipe os forwarded p).0

  abbrev pub answer_to : LocalProcess → LordCmd
  answer_to p =
      write_stdin_ack
        (ack_of ag req.process_id (pos (bytes_taken p)) ((write_pipe os forwarded p).1 || req.eof))

  -- the call with the answer of the lord
  abbrev pub answered_call : LocalProcess → Result WriteStdinResponse × Server
  answered_call p = write_stdin_process (on_message (answer_to p)) false req s

  abbrev waiting : Session → Server
  waiting sess =
      queued lord_id (write_stdin forwarded) sess (register_write_stdin_waiter req.process_id s)

  handle_write_stdin_outbox :
      (p : LocalProcess)
      → lookup req.process_id ag.procs ≡ some p
      → p.stdin_closed ≡ false
      → (handle_write_stdin os forwarded ag).1.outbox ≡ ag.outbox ++ answer_to p ∷ []
  unfolding handle_write_stdin
  handle_write_stdin_outbox p runs open_to = rw (runs, handle_write_stdin, open_to) refl

  push-ok :
      (sess : Session)
      → lookup lord_id s.sessions ≡ some sess
      → length sess.outbox < outbox_size
      → send_event lord_id (write_stdin forwarded) (register_write_stdin_waiter req.process_id s)
        ≡ (ok tt, waiting sess)
  unfolding send_event register_write_stdin_waiter
  push-ok sess live room =
      let fits : ltb (length sess.outbox) outbox_size ≡ true = ground arith in
      rw (live, send_event, fits) refl

  call_eq :
      (sess : Session) (a : ℕ) (e : Entry) (m : Server → Server)
      → get s.processes req.process_id ≡ some a
      → deref s.processes a ≡ some e
      → e.info.ref.lord_id ≡ lord_id
      → lord_id ≢ ""
      → lookup lord_id s.sessions ≡ some sess
      → length sess.outbox < outbox_size
      → write_stdin_process m false req s
        ≡ without_waiter m false req.process_id (
          read_answer false (lookup req.process_id (m (waiting sess)).write_stdin_waiters),
          m (waiting sess),
        )
  unfolding write_stdin_process write_to_lord after_push
  call_eq sess a e m known there on_lord named live room =
      let present : (lord_id == "") ≡ false = ground (arith, eq_iff lord_id "") in
      rw (known, write_stdin_process, there, on_lord, present)
        (rw (push-ok sess live room, write_to_lord) refl)

  -- what the client and the process have after the call
  pub record Delivered (p : LocalProcess) : Type 0 where
    pub closed_after : Bool
    pub response :
        (answered_call p).0
        ≡ ok (record { bytes_written = pos (bytes_taken p); closed = closed_after })
    pub forgotten : lookup req.process_id (answered_call p).1.write_stdin_waiters ≡ none
    pub queued_answer :
        (handle_write_stdin os forwarded ag).1.outbox ≡ ag.outbox ++ answer_to p ∷ []
    pub process : LocalProcess
    pub runs : lookup req.process_id (handle_write_stdin os forwarded ag).1.procs ≡ some process
    pub input : process.stdin ≡ p.stdin ++ take (bytes_taken p) req.bytes

  -- A client writes to a process of the table whose lord has a live session with room, while the lord
  -- runs the process with an open pipe. If the lord's answer to the forwarded request arrives while the
  -- call waits, the client is told how many bytes the pipe has taken, the input of the process has grown
  -- by just those bytes, the first ones of the request, and no waiter is left behind.
  pub write_stdin_process-Delivered :
      (sess : Session) (a : ℕ) (e : Entry) (p : LocalProcess)
      → get s.processes req.process_id ≡ some a
      → deref s.processes a ≡ some e
      → e.info.ref.lord_id ≡ lord_id
      → lord_id ≢ ""
      → lookup lord_id s.sessions ≡ some sess
      → length sess.outbox < outbox_size
      → lookup req.process_id ag.procs ≡ some p
      → p.stdin_closed ≡ false
      → Delivered p
  write_stdin_process-Delivered sess a e p known there on_lord named live room runs open_to =
      let u : Server = waiting sess in
      let waits : lookup req.process_id u.write_stdin_waiters ≡ some [] = registered in
      let called : answered_call p
          ≡ without_waiter (on_message (answer_to p)) false req.process_id (
            read_answer false
                (lookup req.process_id (on_message (answer_to p) u).write_stdin_waiters),
            on_message (answer_to p) u,
          ) =
        call_eq sess a e (on_message (answer_to p)) known there on_lord named live room in
      let has : lookup req.process_id (on_message (answer_to p) u).write_stdin_waiters
          ≡ some (
              ack_of ag req.process_id (pos (bytes_taken p))
                ((write_pipe os forwarded p).1 || req.eof)
              ∷ []) =
        ack-Answered lord_id_from_hostname to_uint32 now lord_id req.process_id u ag forwarded
          (bytes_taken p) ((write_pipe os forwarded p).1 || req.eof) waits in
      let after : WrittenTo p = grown p runs open_to in
      record {
        closed_after = (write_pipe os forwarded p).1 || req.eof;
        response = ap (λ out. out.0) called ∙ ap (read_answer false) has;
        forgotten =
            ap
              (λ (out : Result WriteStdinResponse × Server).
                lookup req.process_id out.1.write_stdin_waiters)
              called
            ∙ dropped (on_message (answer_to p) u);
        queued_answer = handle_write_stdin_outbox p runs open_to;
        process = after.0;
        runs = after.1;
        input = after.2;
      }
    where
      registered : lookup req.process_id (waiting sess).write_stdin_waiters ≡ some []
      registered =
          unfold register_write_stdin_waiter in
          ground (
            arith,
            lookup-insert req.process_id req.process_id [] s.write_stdin_waiters,
            eq_refl req.process_id,
          )

      WrittenTo : LocalProcess → Type 0
      WrittenTo q =
          (q' : LocalProcess) × (lookup req.process_id (handle_write_stdin os forwarded ag).1.procs
            ≡ some q')
          × (q'.stdin ≡ q.stdin ++ take (bytes_taken q) req.bytes)

      grown :
          (q : LocalProcess)
          → lookup req.process_id ag.procs ≡ some q
          → q.stdin_closed ≡ false
          → WrittenTo q
      grown q found free = (
        written forwarded (write_pipe os forwarded q) q,
        unfold handle_write_stdin in
            rw (found, handle_write_stdin, free)
              (ground (
                arith,
                lookup-insert req.process_id req.process_id
                    (written forwarded (write_pipe os forwarded q) q) ag.procs,
                eq_refl req.process_id,
              )),
        refl,
      )

      dropped :
          (v : Server)
          → lookup req.process_id
              (unregister_write_stdin_waiter req.process_id v).write_stdin_waiters
            ≡ none
      dropped v =
          unfold unregister_write_stdin_waiter in
          ground (
            arith,
            lookup-delete req.process_id req.process_id v.write_stdin_waiters,
            eq_refl req.process_id,
          )
