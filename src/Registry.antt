-- ===== src/Registry.antt =====
-- internal/scheduler/placement.go: `LordRegistry` and the choice of a lord for a process. The lock
-- makes each method one step; the time of a call is an argument. Every `range` over the map is a loop
-- over the list in its order.
pub mod Health
pub mod Choice
pub mod Picked
pub mod Different
pub mod Tests
use etronium_scdr.Prelude.{
  ℕ, ◌+◌, String, ◌==◌, Bool, true, false, ◌&&◌, not, Option, none, some, List, [], ◌∷◌, Dict,
  lookup, insert, ℤ, pos, ltb, ltb_ℤ, leb_ℤ, if◌then◌else◌,
}
use etronium_scdr.Proto.{Lord, incr32}
use etronium_scdr.Float.{Float}

pub record LordEntry : Type 0 where
  pub info : Lord
  pub last_heartbeat : ℕ
  pub healthy : Bool
  pub drain_requested : Bool

pub record Registry : Type 0 where
  pub by_id : Dict LordEntry
  pub algo : String

unfoldable pub new_registry : String → Registry
new_registry algo = record { by_id = []; algo = if algo == "weighted" then algo else "trivial" }

unfoldable pub register : ℕ → Lord → Registry → Registry
register now info r = record r {
  by_id =
      insert info.lord_id
        (record { info = info; last_heartbeat = now; healthy = true; drain_requested = false })
        r.by_id;
}

abbrev pub set_stats : ℕ → ℤ → ℤ → ℤ → LordEntry → LordEntry
set_stats now cpu_used_pct mem_used_bytes active_procs e = record e {
  last_heartbeat = now;
  healthy = true;
  info = record e.info {
    cpu_used_pct = cpu_used_pct;
    mem_used_bytes = mem_used_bytes;
    active_processes = active_procs;
  };
}

-- a change of the entry under a key, if there is one
abbrev pub change : String → (LordEntry → LordEntry) → Registry → Registry
change id f r = elim (lookup id r.by_id) [
  | none ↦ r
  | some e ↦ record r { by_id = insert id (f e) r.by_id }
]

unfoldable pub update_stats : ℕ → String → ℤ → ℤ → ℤ → Registry → Bool × Registry
update_stats now id cpu_used_pct mem_used_bytes active_procs r = elim (lookup id r.by_id) [
  | none ↦ (false, r)
  | some e ↦ (
    true,
    record r {
      by_id = insert id (set_stats now cpu_used_pct mem_used_bytes active_procs e) r.by_id;
    },
  )
]

unfoldable pub get_lord : Registry → String → Option Lord
get_lord r id = elim (lookup id r.by_id) [ none ↦ none | some e ↦ some e.info ]

-- both flags go down: the entry's, and that of `Info`, which is never nil
abbrev pub mark_down : LordEntry → LordEntry
mark_down e = record e { healthy = false; info = record e.info { healthy = false } }

unfoldable pub mark_unhealthy : String → Registry → Registry
mark_unhealthy id r = change id mark_down r

unfoldable pub set_drain : String → Registry → Registry
set_drain id r = change id (λ e. record e { drain_requested = true }) r

abbrev pub hostname_loop : String → Dict LordEntry → String
hostname_loop hostname [] = ""
hostname_loop hostname ((id, e) ∷ d) =
    if e.info.hostname == hostname then id else hostname_loop hostname d

unfoldable pub find_by_hostname : String → Dict LordEntry → String
find_by_hostname hostname d = if hostname == "" then "" else hostname_loop hostname d

abbrev pub list_loop : Bool → Dict LordEntry → List Lord
list_loop only_healthy [] = []
list_loop only_healthy ((id, e) ∷ d) =
    if only_healthy && not e.healthy
    then list_loop only_healthy d
    else e.info ∷ list_loop only_healthy d

unfoldable pub list_all : Registry → Bool → List Lord
list_all r only_healthy = list_loop only_healthy r.by_id

-- `e.Healthy && !e.DrainRequested`
abbrev pub eligible : LordEntry → Bool
eligible e = e.healthy && not e.drain_requested

unfoldable pub has_capacity : Lord → Bool
has_capacity l =
    if leb_ℤ (pos 100) l.cpu_used_pct
    then false
    else if ltb_ℤ (pos 0) l.advertised_mem_bytes && leb_ℤ l.advertised_mem_bytes l.mem_used_bytes
    then false
    else true

unfoldable pub first_eligible : Dict LordEntry → Option Lord
first_eligible [] = none
first_eligible ((id, e) ∷ d) = if eligible e then some e.info else first_eligible d

-- the soft affinity of `Pick`
unfoldable pub preferred : String → Registry → Option Lord
preferred prefer_lord_id r =
    if prefer_lord_id == "" then none else (elim (lookup prefer_lord_id r.by_id) [
      | none ↦ none
      | some e ↦ if eligible e && has_capacity e.info then some e.info else none
    ])

module _ (fl : Float) where
  open fl use {F, of_int, lit, neg_one, add, sub, mul, div, lt}

  abbrev pub clamp : F → F
  clamp x = let y = if lt x (lit 0 0) then lit 0 0 else x in if lt (lit 1 0) y then lit 1 0 else y

  abbrev pub mem_free : Lord → F
  mem_free l =
      if ltb_ℤ (pos 0) l.advertised_mem_bytes
      then sub (lit 1 0) (div (of_int l.mem_used_bytes) (of_int l.advertised_mem_bytes))
      else if ltb_ℤ (pos 0) l.mem_total_bytes_physical
      then sub (lit 1 0) (div (of_int l.mem_used_bytes) (of_int l.mem_total_bytes_physical))
      else lit 1 0

  unfoldable pub score_lord : Lord → F
  score_lord l =
      let cpu_free = clamp (sub (lit 1 0) (div (of_int l.cpu_used_pct) (lit 100 0))) in
      let inv_load = div (lit 1 0) (of_int (incr32 l.active_processes)) in
      add (add (mul (lit 5 1) cpu_free) (mul (lit 4 1) (clamp (mem_free l))))
        (mul (lit 1 1) inv_load)

  -- the loop over `best` and `bestScore` of `Pick` and of `PickDifferent`
  unfoldable pub best_loop : (LordEntry → Bool) → Option Lord → F → Dict LordEntry → Option Lord
  best_loop keep best best_score [] = best
  best_loop keep best best_score ((id, e) ∷ d) =
      let better = keep e && lt best_score (score_lord e.info) in
      best_loop keep (if better then some e.info else best)
        (if better then score_lord e.info else best_score) d

  unfoldable pub pick : String → Registry → Option Lord
  unfolding preferred best_loop first_eligible
  pick prefer_lord_id r = elim (preferred prefer_lord_id r) [
    | some l ↦ some l
    | none ↦
        if r.algo == "weighted"
        then best_loop eligible none neg_one r.by_id
        else first_eligible r.by_id
  ]

  unfoldable pub pick_different : String → Registry → String
  unfolding best_loop
  pick_different exclude_lord_id r =
      elim (best_loop (λ e. eligible e && not (e.info.lord_id == exclude_lord_id)) none neg_one
        r.by_id) [ none ↦ "" | some l ↦ l.lord_id ]

-- `time.Since(e.LastHeartbeat) > ttl && e.Healthy`
abbrev pub is_lost : ℕ → ℕ → LordEntry → Bool
is_lost now ttl e = ltb (e.last_heartbeat + ttl) now && e.healthy

unfoldable pub sweep_loop : ℕ → ℕ → Dict LordEntry → List String × Dict LordEntry
sweep_loop now ttl [] = ([], [])
sweep_loop now ttl ((id, e) ∷ d) =
    let (lost, d') = sweep_loop now ttl d in
    let hit = is_lost now ttl e in
    ((if hit then id ∷ lost else lost), (id, (if hit then mark_down e else e)) ∷ d')

unfoldable pub sweep_heartbeats : ℕ → ℕ → Registry → List String × Registry
unfolding sweep_loop
sweep_heartbeats now ttl r =
    let (lost, d) = sweep_loop now ttl r.by_id in (lost, record r { by_id = d })
