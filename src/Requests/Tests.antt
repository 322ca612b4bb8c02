-- ===== src/Requests/Tests.antt =====
-- Inputs on which the theorems about the requests apply.
use etronium_scdr.Prelude.{
  String, ◌≡◌, ◌≢◌, refl, true, false, [], ◌∷◌, ◌++◌, pos, pos_part, insert, lookup, drop, arith,
  eq_iff,
}
use etronium_scdr.Proto.{WriteStdinRequest, KillRequest}
use etronium_scdr.Table.{new_entry, create_entry}
use etronium_scdr.Table.Tests.{process, one}
use etronium_scdr.Server.{Server}
use etronium_scdr.Spawn.Tests.{server, session}
use etronium_scdr.Ring.{new_ring, contents}
use etronium_scdr.Ring.Follow.{flat}
use etronium_scdr.Connect.Tests.{id_of, entry, busy_server, p1-get, p1-deref}
use etronium_scdr.Lord.Tests.{linux, shell, agent, fresh-IsFilling}
use etronium_scdr.Requests.Conversation.{Delivered, write_stdin_process-Delivered}
use etronium_scdr.Requests.Streaming.{stream_process_io}
use etronium_scdr.Requests.Reattach.{IsSent, reattached_stream_continues}
use etronium_scdr.Requests.{kill_process}
use etronium_scdr.Requests.Answers.{KillOutcome, kill_process-KillOutcome}

abbrev with_one : Server
with_one = record server { processes = one }

abbrev kill_request : KillRequest
kill_request = record { process_id = "p1"; signal_number = pos 0; force = false }

kill_process-KillOutcome_example :
    KillOutcome kill_request with_one
      (new_entry (process "p1" "a" "l1"))
      (kill_process kill_request with_one)
unfolding create_entry insert lookup
kill_process-KillOutcome_example =
    kill_process-KillOutcome kill_request with_one (new_entry (process "p1" "a" "l1")) 0 refl refl
      (λ h. cc)

abbrev two_bytes : WriteStdinRequest
two_bytes = record { lord_id = ""; process_id = "p1"; bytes = 7 ∷ 8 ∷ 9 ∷ []; eof = false }

idle_named : ◌≢◌ {A = String} "idle" ""
idle_named e = ground (arith, eq_iff "idle" "")

write_stdin_process-Delivered_example :
    Delivered id_of pos_part 8 "idle" busy_server agent linux two_bytes shell
write_stdin_process-Delivered_example =
    write_stdin_process-Delivered id_of pos_part 8 "idle" busy_server agent linux two_bytes
      (session "idle") 0 entry shell p1-get p1-deref refl idle_named (unfold lookup in refl)
      (omega arith) (unfold lookup in refl) refl

entry-IsSent : IsSent entry
unfolding new_ring
entry-IsSent = record { filling = fresh-IsFilling; sent = omega arith }

reattached_stream_continues_example :
    (stream_process_io true (((1 ∷ 2 ∷ []) ∷ []) ∷ []) entry).0
      ++ (stream_process_io true
          (((3 ∷ []) ∷ []) ∷ [])
          (stream_process_io true (((1 ∷ 2 ∷ []) ∷ []) ∷ []) entry).1).0
    ≡ drop entry.io_last_sent (contents entry.io_buf)
      ++ (flat (flat (((1 ∷ 2 ∷ []) ∷ []) ∷ [])) ++ flat (flat (((3 ∷ []) ∷ []) ∷ [])))
reattached_stream_continues_example =
    reattached_stream_continues entry ((1 ∷ 2 ∷ []) ∷ []) ((3 ∷ []) ∷ []) [] [] entry-IsSent
      (unfold flat new_ring in omega arith)
