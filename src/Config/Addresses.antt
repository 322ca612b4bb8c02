-- ===== src/Config/Addresses.antt =====
-- Which listen addresses the configuration of the scheduler accepts.
use etronium_scdr.Prelude.{
  ℕ, ◌≡◌, ◌≢◌, refl, true, false, none, some, [], ◌∷◌, eqb, arith, Bool-cases, Option-cases, ◌⊎◌,
  inl, inr,
}
use etronium_scdr.Config.{
  Text, Environment, or_default, get_env, Loaded, loaded, bad_value, SchedulerConfig, is_number,
  colon, default_addr, check_addr, read_ttl, scheduler_config, load_scheduler_config,
}

-- an address that begins with a colon, or that has a number after its first byte
abbrev pub IsAccepted : Environment → Text → Type 0
IsAccepted env [] = ⊥
IsAccepted env (first ∷ rest) = (first ≡ colon) ⊎ (is_number env rest ≡ true)

-- what loading comes to
pub data Loading (env : Environment) (addr : Text) : Loaded SchedulerConfig → Type 0 where
  accepted :
      (ttl : ℕ)
      → read_ttl env (env.variable "SCHEDULER_HEARTBEAT_TTL") ≡ some ttl
      → IsAccepted env addr
      → Loading env addr (loaded (scheduler_config env ttl))
  bad_ttl :
      read_ttl env (env.variable "SCHEDULER_HEARTBEAT_TTL") ≡ none
      → Loading env addr (bad_value "SCHEDULER_HEARTBEAT_TTL")
  bad_addr : (IsAccepted env addr → ⊥) → Loading env addr (bad_value "SCHEDULER_LISTEN")

or_default_filled : (c : ℕ) (cs t : Text) → or_default (c ∷ cs) t ≢ []
or_default_filled c cs [] e = absurd (cc)
or_default_filled c cs (x ∷ xs) e = absurd (cc)

check_addr-Loading :
    (env : Environment) (addr : Text) (ttl : ℕ)
    → addr ≢ []
    → read_ttl env (env.variable "SCHEDULER_HEARTBEAT_TTL") ≡ some ttl
    → Loading env addr (check_addr env addr (loaded (scheduler_config env ttl)))
check_addr-Loading env [] ttl filled known = absurd (filled refl)
check_addr-Loading env (first ∷ rest) ttl filled known = elim (Bool-cases (is_number env rest)) [
  | inl number ↦ rw number (accepted ttl known (inr number))
  | inr text ↦ elim (Bool-cases (eqb first colon)) [
    | inl same ↦ rw (text, same) (accepted ttl known (inl (ground arith)))
    | inr other ↦ rw (text, other) (bad_addr (refused text other))
  ]
]
  where
    refused :
        is_number env rest ≡ false → eqb first colon ≡ false → IsAccepted env (first ∷ rest) → ⊥
    refused text other (inl same) = absurd (ground arith)
    refused text other (inr number) = absurd (cc)

-- Loading the scheduler's configuration never panics. It fails if the time to live cannot be read or the
-- address is not accepted; else it gives the configuration. An address is accepted already if it
-- begins with a colon, whatever follows, or if a number follows its first byte, whatever that is.
pub load_scheduler_config-Loading :
    (env : Environment)
    → Loading env (get_env env "SCHEDULER_LISTEN" default_addr) (load_scheduler_config env)
unfolding load_scheduler_config
load_scheduler_config-Loading env =
    elim (Option-cases (read_ttl env (env.variable "SCHEDULER_HEARTBEAT_TTL"))) [
      | inl bad ↦ rw (bad, load_scheduler_config) (bad_ttl bad)
      | inr (ttl, known) ↦
          rw (known, load_scheduler_config)
            (check_addr-Loading env (get_env env "SCHEDULER_LISTEN" default_addr) ttl
              (or_default_filled 58 (53 ∷ 49 ∷ 48 ∷ 54 ∷ 49 ∷ []) (env.variable "SCHEDULER_LISTEN"))
              known)
    ]
