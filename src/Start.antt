-- ===== src/Start.antt =====
-- cmd/scheduler/main.go: the start of the scheduler, from the file of the log to the server. What the
-- environment and the flags say is an argument, and so is whether the log can be opened; `log` are the
-- records that the file holds.
pub mod Restart
pub mod Tests
use etronium_scdr.Prelude.{ℕ, String, Bool, Option, List, ◌==◌, ℤ, if◌then◌else◌}
use etronium_scdr.Table.{Table, Record, new_table, attach_wal}
use etronium_scdr.Bpf.{BpfMaps}
use etronium_scdr.Server.{Server}
use etronium_scdr.Wal.{Codec, write_header, replay_wal}
use etronium_scdr.System.{new_server}

-- the address to listen on: the flag, unless it is ":50061"
abbrev pub listen_on : String → String → String
listen_on addr configured = if addr == ":50061" then configured else addr

module _ (c : Codec) where
  -- the table that the log gives
  unfoldable pub start_table : ℕ → Option (List c.Line) → Bool → List Record → Table
  start_table now file opens log =
      let t = (replay_wal c now (write_header c file) new_table).1.1 in
      if opens then attach_wal log t else t

  -- `main` up to the server
  unfoldable pub start_scheduler :
      ℕ → String → BpfMaps → Option (List c.Line) → Bool → List Record → Server
  unfolding start_table
  start_scheduler now algo maps file opens log = record (new_server algo maps) {
    processes = start_table now file opens log;
  }
