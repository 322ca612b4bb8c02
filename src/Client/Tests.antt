-- ===== src/Client/Tests.antt =====
-- A shell, its input and a run of the client.
use etronium_scdr.Prelude.{
  ℕ, ◌≡◌, refl, ◌↔◌, true, false, some, none, List, [], ◌∷◌, ◌++◌, All, map, pos, negsuc, lookup,
  insert, arith,
}
use etronium_scdr.Proto.{WriteStdinRequest}
use etronium_scdr.Float.Fixed.{fixed}
use etronium_scdr.Ring.Follow.{flat}
use etronium_scdr.Table.{create_entry}
use etronium_scdr.Registry.{pick, score_lord}
use etronium_scdr.Server.{Server, ok, send_event}
use etronium_scdr.Spawn.{spawn_process, new_info, start_on, after_send, validate_resources}
use etronium_scdr.Spawn.Tests.{server}
use etronium_scdr.Recovery.{exhausted}
use etronium_scdr.Client.{RunFlags, run_request, shell_request, relay_input}
use etronium_scdr.Client.Shell.{IsChunk, shell_restarted, input_relayed}
use etronium_scdr.Client.Flags.{IsAsked, run_request-accepted}

abbrev accepted : Server
accepted = (spawn_process fixed 7 "p1" (shell_request "a" "/bin/bash" "") server).1

shell_accepted :
    spawn_process fixed 7 "p1" (shell_request "a" "/bin/bash" "") server
    ≡ (ok (some (new_info 7 "p1" "idle" (shell_request "a" "/bin/bash" ""))), accepted)
unfolding spawn_process pick score_lord new_info validate_resources send_event lookup insert
    start_on after_send create_entry shell_request
shell_accepted = refl

shell_restarted_example :
    ((shell_request "a" "/bin/bash" "").max_restarts ≡ pos 0)
    × ((new_info 7 "p1" "idle" (shell_request "a" "/bin/bash" "")).max_restarts ≡ pos 10)
    × (exhausted (new_info 7 "p1" "idle" (shell_request "a" "/bin/bash" "")) ≡ false)
shell_restarted_example =
    shell_restarted fixed 7 "p1" "a" "/bin/bash" "" server accepted
      (new_info 7 "p1" "idle" (shell_request "a" "/bin/bash" "")) shell_accepted

abbrev typed : List (List ℕ)
typed = (108 ∷ 115 ∷ 10 ∷ []) ∷ [] ∷ (100 ∷ 10 ∷ []) ∷ []

input_relayed_example :
    (sent : List WriteStdinRequest) × (end_of_input : WriteStdinRequest) × (relay_input
        (λ r. true)
        "p1"
        typed
      ≡ sent ++ end_of_input ∷ [])
    × (flat (map (λ r. r.bytes) sent) ≡ flat typed)
    × All (IsChunk "p1") sent
    × (end_of_input.process_id ≡ "p1")
    × (end_of_input.eof ≡ true)
    × (end_of_input.bytes ≡ [])
input_relayed_example = input_relayed "p1" typed (omega arith, (omega arith, (omega arith, tt)))

abbrev flags : RunFlags
flags = record {
  cpu_shares = pos 100;
  mem_mb = negsuc 0;
  prefer_lord = "";
  max_restarts = pos 10;
  state_dump = "";
}

run_request-accepted_example :
    (validate_resources (run_request "a" flags "/bin/sleep" ("60" ∷ [])).resources ≡ none)
    ↔ IsAsked flags
run_request-accepted_example = run_request-accepted "a" flags "/bin/sleep" ("60" ∷ [])
