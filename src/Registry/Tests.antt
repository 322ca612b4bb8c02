-- ===== src/Registry/Tests.antt =====
-- A registry of three lords, and inputs on which the theorems about the placement apply.
use etronium_scdr.Prelude.{String, ◌≡◌, refl, true, false, some, [], ◌∷◌, ℤ, pos, inl}
use etronium_scdr.Proto.{Lord}
use etronium_scdr.Float.Fixed.{fixed}
use etronium_scdr.Registry.{
  LordEntry, Registry, pick, pick_different, preferred, score_lord, eligible, mark_down,
}
use etronium_scdr.Registry.Choice.{Chosen}
use etronium_scdr.Registry.Picked.{pick_sound, pick_best}

abbrev pub lord_with : String → ℤ → ℤ → Lord
lord_with id cpu procs = record {
  lord_id = id;
  hostname = id;
  cpu_cores_physical = pos 4;
  mem_total_bytes_physical = pos 1000;
  advertised_cpu_shares = pos 4;
  advertised_mem_bytes = pos 1000;
  cpu_used_pct = cpu;
  mem_used_bytes = pos 100;
  active_processes = procs;
  healthy = true;
}

abbrev pub lord_entry : String → ℤ → ℤ → LordEntry
lord_entry id cpu procs = record {
  info = lord_with id cpu procs;
  last_heartbeat = 10;
  healthy = true;
  drain_requested = false;
}

-- a busy lord, an idle one, and one that is down
abbrev pub lords : Registry
lords = record {
  by_id =
      ("busy", lord_entry "busy" (pos 90) (pos 5))
      ∷ ("idle", lord_entry "idle" (pos 5) (pos 0))
      ∷ ("dead", mark_down (lord_entry "dead" (pos 0) (pos 0)))
      ∷ [];
  algo = "weighted";
}

pick_idle : pick fixed "" lords ≡ some (lord_with "idle" (pos 5) (pos 0))
unfolding pick score_lord
pick_idle = refl

pick_sound_example : Chosen eligible lords.by_id (lord_with "idle" (pos 5) (pos 0))
pick_sound_example = pick_sound fixed "" lords (lord_with "idle" (pos 5) (pos 0)) pick_idle

pick_best_example :
    fixed.lt
      (score_lord fixed (lord_with "idle" (pos 5) (pos 0)))
      (score_lord fixed (lord_with "busy" (pos 90) (pos 5)))
    ≡ false
pick_best_example =
    pick_best fixed "" lords (lord_with "idle" (pos 5) (pos 0)) (lord_entry "busy" (pos 90) (pos 5))
      refl (unfold preferred in refl) pick_idle (inl refl) refl

pick_different_idle : pick_different fixed "busy" lords ≡ "idle"
unfolding pick_different score_lord
pick_different_idle = refl
