-- ===== src/Autoscale/Tests.antt =====
-- Two lords, of which one is overloaded, and inputs on which the theorems about the autoscaler apply.
use etronium_scdr.Prelude.{
  ℕ, zero, suc, ◌+◌, ◌*◌, ◌≤◌, String, ◌≡◌, ◌≢◌, refl, ◌==◌, eq_iff, if◌then◌else◌, true, false,
  Option, none, some, [], ◌∷◌, Dict, ltb, lookup, insert, arith, inl, inr, pos, length,
}
use etronium_scdr.Float.Fixed.{fixed}
use etronium_scdr.Proto.{exited}
use etronium_scdr.Table.{Entry, update_state, update_state_entry}
use etronium_scdr.Registry.{LordEntry}
use etronium_scdr.Registry.Tests.{lord_entry}
use etronium_scdr.Server.{Server, second}
use etronium_scdr.Recovery.Tests.{orphan, orphaned}
use etronium_scdr.Autoscale.{
  Decision, migrate, blacklist, rebalance, AutoscaleConfig, LordScore, AutoscaleState,
  default_config, new_autoscale_state,
}
use etronium_scdr.Autoscale.Usage.{usage_line, read_lord_cpu, read_lord_mem, read_lord_mem-le}
use etronium_scdr.Autoscale.Sampling.{sample, sample_loop, sample_one, reject_rates}
use etronium_scdr.Autoscale.Rounds.{
  pick_coldest, decide, blacklist_loop, overload_loop, rebalance_step,
}
use etronium_scdr.Autoscale.Changes.{Among}
use etronium_scdr.Autoscale.Twice.{moves_keep_cooldown}
use etronium_scdr.Autoscale.Limits.{AllRecent, decide_bounds}
use etronium_scdr.Autoscale.Silent.{Sampled, start, rounds_never_blacklist}
use etronium_scdr.Autoscale.Sorting.{place, insertion_sort, insertion_sort-IsSort}

-- the configuration of an empty environment
abbrev config : AutoscaleConfig fixed
config = default_config fixed (λ k. "") (λ s. none) (λ s. none) (λ s. none)

abbrev score_of : String → ℕ → ℕ → LordScore fixed
score_of id cpu combined = record {
  lord_id = id;
  hostname = id;
  cpu = fixed.lit cpu 2;
  mem = fixed.lit 0 0;
  task_count = fixed.lit 0 0;
  reject = fixed.lit 0 0;
  combined = fixed.lit combined 2;
  blacklist_until = none;
  last_migration = none;
}

abbrev scores : Dict (LordScore fixed)
scores = ("idle", score_of "idle" 10 20) ∷ ("hot", score_of "hot" 90 60) ∷ []

abbrev two_lords : AutoscaleState fixed
two_lords = record { lords = scores; migrations = []; migration_log = [] }

abbrev relief : Decision
relief = record { action = migrate; from_lord = "hot"; to_lord = "idle" }

abbrev cpu_of : String → fixed.F
cpu_of id = if id == "hot" then fixed.lit 90 2 else fixed.lit 10 2

abbrev no_use : String → fixed.F
no_use id = fixed.lit 0 0

abbrev both : Dict LordEntry
both = ("idle", lord_entry "idle" (pos 5) (pos 0)) ∷ ("hot", lord_entry "hot" (pos 5) (pos 0)) ∷ []

abbrev first : ℕ
first = 1000 * second

abbrev second_round : ℕ
second_round = 1100 * second

relief_decided : Among relief (decide fixed config first (insertion_sort fixed) two_lords).0
unfolding decide default_config blacklist_loop overload_loop pick_coldest rebalance_step
    insertion_sort place
relief_decided = inl refl

moves_keep_cooldown_example : ltb second_round (first + config.cooldown) ≡ false
moves_keep_cooldown_example =
    moves_keep_cooldown fixed config (insertion_sort fixed) cpu_of no_use [] both first second_round
      two_lords relief relief (insertion_sort-IsSort fixed)
      (
        (
          (λ y h. elim h [ inl e ↦ rw (← e) (λ p. cc) | inr none_left ↦ absurd none_left ]),
          ((λ y h. absurd h), tt),
        ),
        (refl, (refl, tt)),
      )
      (relief_decided) refl
      (unfold decide default_config blacklist_loop overload_loop pick_coldest rebalance_step
          insertion_sort place sample sample_loop sample_one insert lookup in
        inl refl)
      refl refl

decide_bounds_example :
    (length (decide fixed config first (insertion_sort fixed) two_lords).1.migration_log ≤ 64)
    × AllRecent first (decide fixed config first (insertion_sort fixed) two_lords).1.migrations
decide_bounds_example = decide_bounds fixed config first (insertion_sort fixed) two_lords

abbrev relaxed : AutoscaleConfig fixed
relaxed = record config { thresh = record config.thresh { overload_cpu = fixed.lit 95 2 } }

abbrev balancing : Decision
balancing = record { action = rebalance; from_lord = "hot"; to_lord = "idle" }

abbrev evacuation : Decision
evacuation = record { action = migrate; from_lord = "dead"; to_lord = "idle" }

-- the process has ended
abbrev over : Server
over = record orphaned { processes = update_state 5 exited "" (pos 0) 0 orphaned.processes }

abbrev ended : Entry
ended = update_state_entry 5 exited "" (pos 0) orphan

-- two keys of the kernel's map, as text of four bytes
abbrev id_of : ℕ → String
id_of zero = "0000"
id_of (suc key) = "1000"

apart : (s t : String) → (s == t) ≡ false → s ≢ t
apart s t h e = ground (arith, eq_iff s t)

id_of-apart :
    (s : String) → (s == "0000") ≡ false → (s == "1000") ≡ false → (key : ℕ) → s ≢ id_of key
id_of-apart s h h' zero = apart s "0000" h
id_of-apart s h h' (suc key) = apart s "1000" h'

abbrev many_rejects : Sampled fixed config (insertion_sort fixed) id_of
many_rejects = record {
  cpu_of = cpu_of;
  mem_of = no_use;
  counters = (1, record { enqueue = 2; reject = 9 }) ∷ [];
  by_id = both;
  named = (id_of-apart "idle" refl refl, (id_of-apart "hot" refl refl, tt));
}

rounds_never_blacklist_example : relief.action ≢ blacklist
rounds_never_blacklist_example =
    rounds_never_blacklist fixed config (insertion_sort fixed) id_of (new_autoscale_state fixed)
      many_rejects first relief (insertion_sort-IsSort fixed) (unfold default_config in refl) start
      (unfold decide default_config blacklist_loop overload_loop pick_coldest rebalance_step
          insertion_sort place sample sample_loop sample_one reject_rates insert lookup in
        inl refl)

-- a lord that has used five seconds of processor time since it started, and 3 of 4 units of memory
abbrev lord_files : String → String → Option String
lord_files lord_id name =
    if name == "cpu.stat"
    then some "usage_usec 5000000"
    else if name == "memory.current"
    then some "3"
    else if name == "memory.max"
    then some "4"
    else none

abbrev number : String → ℕ
number t = if t == "5000000" then 5000000 else if t == "3" then 3 else if t == "4" then 4 else 0

cpu_of_files :
    read_lord_cpu fixed lord_files number
      (λ t. t)
      (λ t. t ∷ [])
      (λ t u. true)
      (λ t. "usage_usec" ∷ "5000000" ∷ [])
      "a"
    ≡ fixed.lit 5 0
unfolding read_lord_cpu usage_line
cpu_of_files = refl

mem_of_lord : read_lord_mem fixed lord_files number (λ t. t) "a" ≡ fixed.lit 75 2
unfolding read_lord_mem
mem_of_lord = refl

mem_of_lord-le :
    fixed.lt (fixed.lit 1 0) (read_lord_mem fixed lord_files number (λ t. t) "a") ≡ false
mem_of_lord-le = read_lord_mem-le fixed lord_files number (λ t. t) refl refl "a"
