-- ===== src/Autoscale/Sampling.antt =====
-- `Sample` of internal/scheduler/autoscale.go.
use etronium_scdr.Prelude.{
  ℕ, String, Option, none, some, List, [], ◌∷◌, Dict, lookup, insert, ℤ, pos, ltb_ℤ, eqb,
  if◌then◌else◌,
}
use etronium_scdr.Float.{Float}
use etronium_scdr.Registry.{LordEntry}
use etronium_scdr.Autoscale.{Counters, AutoscaleConfig, LordScore, AutoscaleState}

module _ (fl : Float) where
  open fl use {F, of_int, lit, add, sub, mul, div, lt}

  -- `readBPFRejectRates`; `id_of` is `lordIDFromUint32`
  unfoldable pub reject_rates : (ℕ → String) → List (ℕ × Counters) → Dict F → Dict F
  reject_rates id_of [] out = out
  reject_rates id_of ((key, c) ∷ rest) out = reject_rates id_of rest (
      insert (id_of key)
        (div (of_int (pos c.reject)) (of_int (pos (if eqb c.enqueue 0 then 1 else c.enqueue)))) out)

  -- what a map of numbers has under a key: zero where there is none
  abbrev pub or_zero : Option F → F
  or_zero none = lit 0 0
  or_zero (some x) = x

  -- the reject rate smoothed with the previous sample
  abbrev pub smoothed : Option (LordScore fl) → F → F
  smoothed none rate = rate
  smoothed (some prev) rate =
      if lt (lit 0 0) prev.reject
      then add (mul (lit 7 1) rate) (mul (lit 3 1) prev.reject)
      else rate

  -- the blacklisting and the last migration of the previous sample
  abbrev pub previous : (LordScore fl → Option ℕ) → Option (LordScore fl) → Option ℕ
  previous f none = none
  previous f (some prev) = f prev

  -- the capacity that tasks are counted against
  abbrev pub capacity : LordEntry → ℤ
  capacity l =
      if ltb_ℤ (pos 0) l.info.advertised_cpu_shares
      then l.info.advertised_cpu_shares
      else if ltb_ℤ (pos 0) l.info.cpu_cores_physical
      then l.info.cpu_cores_physical
      else pos 1

  abbrev pub task_ratio : LordEntry → F
  task_ratio l =
      let r = div (of_int l.info.active_processes) (of_int (capacity l)) in
      if lt (lit 1 0) r then lit 1 0 else r

  -- the score of one lord
  unfoldable pub sample_one :
      AutoscaleConfig fl
      → (String → F)
      → (String → F)
      → Dict F
      → Dict (LordScore fl)
      → LordEntry
      → LordScore fl
  sample_one cfg cpu_of mem_of rates old l =
      let id = l.info.lord_id in
      let prev = lookup id old in
      let rate = smoothed prev (or_zero (lookup id rates)) in
      record {
        lord_id = id;
        hostname = l.info.hostname;
        cpu = cpu_of id;
        mem = mem_of id;
        task_count = task_ratio l;
        reject = rate;
        combined =
            add
              (add (add (mul cfg.score.cpu (cpu_of id)) (mul cfg.score.mem (mem_of id)))
                (mul cfg.score.task_count (task_ratio l)))
              (mul cfg.score.reject rate);
        blacklist_until = previous (λ p. p.blacklist_until) prev;
        last_migration = previous (λ p. p.last_migration) prev;
      }

  unfoldable pub sample_loop :
      AutoscaleConfig fl
      → (String → F)
      → (String → F)
      → Dict F
      → Dict (LordScore fl)
      → Dict LordEntry
      → Dict (LordScore fl)
      → Dict (LordScore fl)
  unfolding sample_one
  sample_loop cfg cpu_of mem_of rates old [] live = live
  sample_loop cfg cpu_of mem_of rates old ((k, l) ∷ ls) live =
      sample_loop cfg cpu_of mem_of rates old ls
        (insert l.info.lord_id (sample_one cfg cpu_of mem_of rates old l) live)

  -- `Sample`; `rates` is empty where the kernel's map cannot be read
  unfoldable pub sample :
      AutoscaleConfig fl
      → (String → F)
      → (String → F)
      → Dict F
      → Dict LordEntry
      → AutoscaleState fl
      → AutoscaleState fl
  unfolding sample_loop
  sample cfg cpu_of mem_of rates by_id st = record st {
    lords = sample_loop cfg cpu_of mem_of rates st.lords by_id [];
  }
