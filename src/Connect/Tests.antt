-- ===== src/Connect/Tests.antt =====
-- Inputs on which the theorems about the stream of a lord apply.
use etronium_scdr.Prelude.{
  ℕ, String, ◌≡◌, refl, some, [], ◌∷◌, pos, insert, lookup, Dict, sym, pos_part, arith, eq_iff,
}
use etronium_scdr.Table.{Table, Entry, new_table, new_entry, create_entry, get, deref, set_lord}
use etronium_scdr.Table.Tests.{process}
use etronium_scdr.Registry.{LordEntry, find_by_hostname}
use etronium_scdr.Registry.Tests.{lord_entry}
use etronium_scdr.Server.{Server}
use etronium_scdr.Spawn.Tests.{server}
use etronium_scdr.Connect.{ProcessExit, RegisterRequest}
use etronium_scdr.Connect.Rebinding.{IsOrderOf, registered, table_after, rebind_by_order}

abbrev pub id_of : String → ℕ
id_of hostname = 7

abbrev pub entry : Entry
entry = new_entry (process "p1" "a" "idle")

abbrev pub table : Table
table = (create_entry (process "p1" "a" "idle") new_table).1

abbrev pub busy_server : Server
busy_server = record server { processes = table }

pub p1-get : get table "p1" ≡ some 0
unfolding create_entry insert lookup
p1-get = refl

pub p1-deref : deref table 0 ≡ some entry
unfolding create_entry
p1-deref = refl

abbrev killed : ProcessExit
killed = record {
  process_id = "p1";
  exit_code = pos 0;
  exit_signal = pos 9;
  cpu_usage_usec = pos 5;
  mem_peak_bytes = pos 6;
}

-- a lord that has been registered before, with the process
abbrev rejoining : Server
rejoining = record busy_server {
  lords = record { by_id = ("idle", lord_entry "host" (pos 0) (pos 0)) ∷ []; algo = "weighted" };
}

abbrev registration : RegisterRequest
registration = record {
  hostname = "host";
  cpu_cores_physical = pos 4;
  mem_total_bytes_physical = pos 1000;
  advertised_cpu_shares = pos 4;
  advertised_mem_bytes = pos 1000;
}

idle_found : find_by_hostname "host" rejoining.lords.by_id ≡ "idle"
unfolding find_by_hostname
idle_found = refl

rebind_by_order_example :
    (moving staying : Dict LordEntry) × IsOrderOf moving
      (registered id_of pos_part 8 "new" registration rejoining)
    × (deref (table_after id_of pos_part 8 "new" registration rejoining moving) 0
        ≡ some (set_lord "new" entry))
    × IsOrderOf staying (registered id_of pos_part 8 "new" registration rejoining)
    × (deref (table_after id_of pos_part 8 "new" registration rejoining staying) 0 ≡ some entry)
rebind_by_order_example =
    rebind_by_order id_of pos_part 8 "new" registration rejoining "p1" 0 entry
      (λ e. ground (arith, eq_iff "host" "")) (λ e. ground (arith, eq_iff "new" ""))
      (unfold lookup in refl) (λ e. ground (arith, eq_iff "idle" "", idle_found))
      (λ e. ground (arith, eq_iff "idle" "new", idle_found)) p1-get p1-deref (sym idle_found)
