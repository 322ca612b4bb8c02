-- ===== src/Recovery/Tests.antt =====
-- A server whose only process was on a lord that is gone, and inputs on which the theorems about
-- recovery and migration apply.
use etronium_scdr.Prelude.{
  ◌≡◌, refl, true, false, some, [], pos, negsuc, ◌≤ℤ◌, arith, lookup, insert,
}
use etronium_scdr.Proto.{restarting}
use etronium_scdr.Float.Fixed.{fixed}
use etronium_scdr.Table.{
  Entry, new_table, new_entry, create_entry, deref, list_by_lord, update_state,
}
use etronium_scdr.Table.Tests.{process}
use etronium_scdr.Registry.{pick, score_lord}
use etronium_scdr.Registry.Tests.{lord_with}
use etronium_scdr.Server.{Server, ok, send_event}
use etronium_scdr.Spawn.Tests.{server}
use etronium_scdr.Recovery.{MigrateRequest, MigrateResponse, migrate, recover, respawn}
use etronium_scdr.Recovery.Respawn.{given_up, restarted}
use etronium_scdr.Recovery.Answered.{Answer, respawn_answered}
use etronium_scdr.Recovery.Retry.{respawn_within_limit, failed_respawn_is_final}
use etronium_scdr.Recovery.Undone.{undisturbed, recover_stops_respawned}
use etronium_scdr.Recovery.Moved.{migrate_tells_old_lord_nothing}

abbrev pub orphan : Entry
orphan = new_entry (process "p1" "a" "dead")

abbrev pub orphaned : Server
orphaned = record server { processes = (create_entry (process "p1" "a" "dead") new_table).1 }

abbrev no_lords : Server
no_lords = record orphaned { lords = record { by_id = []; algo = "weighted" } }

pub orphan-deref : deref orphaned.processes 0 ≡ some orphan
unfolding create_entry
orphan-deref = refl

respawn_answered_example : Answer "idle" 0 orphaned orphan (respawn 9 "idle" 0 orphaned)
respawn_answered_example = respawn_answered 9 "idle" 0 orphaned orphan orphan-deref

respawn_within_limit_example :
    (e' : Entry) × (deref (respawn 9 "idle" 0 orphaned).1.processes 0 ≡ some e')
    × (e'.info.max_restarts ≡ pos 10)
    × (e'.info.restart_count ≤ℤ e'.info.max_restarts)
respawn_within_limit_example =
    respawn_within_limit 9 "idle" 0 orphaned orphan orphan-deref (omega arith) (omega arith)

failed_respawn_is_final_example :
    respawn 20 "idle" 0 (respawn 9 "nobody" 0 orphaned).1
    ≡ (ok tt, (respawn 9 "nobody" 0 orphaned).1)
failed_respawn_is_final_example =
    failed_respawn_is_final 9 20 "nobody" "idle" 0 orphaned orphan orphan-deref
      (unfold create_entry respawn lookup update_state send_event in tt)

recover_stops_respawned_example :
    deref (recover fixed undisturbed 9 "dead" orphaned).processes 0
    ≡ some (given_up 9 "no lord available for respawn" (negsuc 4) (restarted 9 "idle" orphan))
recover_stops_respawned_example =
    recover_stops_respawned fixed 9 "dead" orphaned 0 orphan (lord_with "idle" (pos 5) (pos 0))
      (unfold lookup in refl) (unfold create_entry list_by_lord insert in refl) orphan-deref refl
      (unfold pick score_lord in refl)
      (unfold create_entry respawn lookup insert update_state send_event in refl)

abbrev request : MigrateRequest
request = record { process_id = "p1"; target_lord_id = "busy"; auto = false }

migrate_tells_old_lord_nothing_example :
    lookup "dead" (migrate fixed 9 request orphaned).1.sessions ≡ lookup "dead" orphaned.sessions
migrate_tells_old_lord_nothing_example =
    migrate_tells_old_lord_nothing fixed 9 request orphaned 0 orphan
      (unfold create_entry insert lookup in refl) orphan-deref

abbrev response : MigrateResponse
response = record {
  acknowledged = true;
  current_state = restarting;
  new_lord_id = "busy";
  new_local_pid = pos 0;
}
