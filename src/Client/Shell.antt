-- ===== src/Client/Shell.antt =====
-- What `shell` promises: its process, and its input.
use etronium_scdr.Prelude.{
  ℕ, ◌≤◌, ◌<◌, String, ◌≡◌, refl, ap, ◌∙◌, true, false, Option, some, List, [], ◌∷◌, ◌++◌, All, map,
  ltb, length, pos, arith, Bool-cases, inl, inr,
}
use etronium_scdr.Proto.{ProcessInfo, WriteStdinRequest}
use etronium_scdr.Float.{Float}
use etronium_scdr.Ring.Follow.{flat}
use etronium_scdr.Server.{Server, ok}
use etronium_scdr.Spawn.{spawn_process, new_info}
use etronium_scdr.Spawn.Outcome.{Started, spawn_process-Outcome, spawn_process-Started}
use etronium_scdr.Recovery.{exhausted}
use etronium_scdr.Client.{shell_request, relay_input, input_request, end_request}

max_restarts-shell :
    (now : ℕ) (id lord_id tenant shell_path prefer_lord : String)
    → ((new_info now id lord_id (shell_request tenant shell_path prefer_lord)).max_restarts
        ≡ pos 10)
      × (exhausted (new_info now id lord_id (shell_request tenant shell_path prefer_lord)) ≡ false)
unfolding new_info shell_request
max_restarts-shell now id lord_id tenant shell_path prefer_lord = (refl, refl)

-- The shell of a client asks for no restart, and gets ten: once the scheduler has accepted it, its
-- process is one that may be restarted ten times, and a recovery does not find it exhausted.
pub shell_restarted :
    (fl : Float) (now : ℕ) (id tenant shell_path prefer_lord : String) (s u : Server)
    (info : ProcessInfo)
    → spawn_process fl now id (shell_request tenant shell_path prefer_lord) s ≡ (ok (some info), u)
    → ((shell_request tenant shell_path prefer_lord).max_restarts ≡ pos 0)
      × (info.max_restarts ≡ pos 10)
      × (exhausted info ≡ false)
unfolding shell_request
shell_restarted fl now id tenant shell_path prefer_lord s u info accepted =
    let st : Started fl now id (shell_request tenant shell_path prefer_lord) s u (some info) =
      spawn_process-Started fl now id (shell_request tenant shell_path prefer_lord) s u info
        (spawn_process-Outcome fl now id (shell_request tenant shell_path prefer_lord) s)
        accepted in
    let same : info
        ≡ new_info now id st.lord.lord_id (shell_request tenant shell_path prefer_lord) =
      some_injective st.answer in
    let (ten, fresh) = max_restarts-shell now id st.lord.lord_id tenant shell_path prefer_lord in
    (
      refl,
      ap (λ (x : ProcessInfo). x.max_restarts) same ∙ ten,
      ap (λ (x : ProcessInfo). exhausted x) same ∙ fresh,
    )
  where
    some_injective : {x y : ProcessInfo} → ◌≡◌ {A = Option ProcessInfo} (some x) (some y) → x ≡ y
    some_injective e = cc

-- no read gives more than the buffer
abbrev pub AllShort : List (List ℕ) → Type 0
AllShort = All (λ bytes. length bytes ≤ 4096)

-- a request that carries some input of a process, and does not close it
pub record IsChunk (id : String) (r : WriteStdinRequest) : Type 0 where
  pub named : r.process_id ≡ id
  pub goes_on : r.eof ≡ false
  pub some_bytes : 0 < length r.bytes
  pub short : length r.bytes ≤ 4096

-- Whatever a shell reads from its standard input, in pieces of at most 4096 bytes, goes to the scheduler
-- while the calls succeed: the requests before the last name the process, leave its input open, and
-- hold from 1 to 4096 bytes each, all together what has been read, in order. The last one names the
-- process, holds no bytes and closes its input.
pub input_relayed :
    (id : String) (reads : List (List ℕ))
    → AllShort reads
    → (sent : List WriteStdinRequest) × (end_of_input : WriteStdinRequest) × (relay_input
          (λ r. true)
          id
          reads
        ≡ sent ++ end_of_input ∷ [])
      × (flat (map (λ r. r.bytes) sent) ≡ flat reads)
      × All (IsChunk id) sent
      × (end_of_input.process_id ≡ id)
      × (end_of_input.eof ≡ true)
      × (end_of_input.bytes ≡ [])
unfolding relay_input flat
input_relayed id [] short = ([], end_request id, refl, refl, tt, refl, refl, refl)
input_relayed id (bytes ∷ reads) short =
    let (sent, closing, requests, same, inputs, named, closes, empty) =
      input_relayed id reads short.1 in
    elim (Bool-cases (ltb 0 (length bytes))) [
      | inl some_bytes ↦ (
        input_request id bytes ∷ sent,
        closing,
        rw (some_bytes, relay_input) (ap (λ l. input_request id bytes ∷ l) requests),
        ap (λ l. bytes ++ l) same,
        (
          record { named = refl; goes_on = refl; some_bytes = ground arith; short = short.0 },
          inputs,
        ),
        named,
        closes,
        empty,
      )
      | inr no_bytes ↦
          let nothing : bytes ≡ [] = ground arith in
          (
            sent,
            closing,
            rw (no_bytes, relay_input) requests,
            same ∙ rw nothing refl,
            inputs,
            named,
            closes,
            empty,
          )
    ]
