-- ===== src/Lord/Output.antt =====
-- What a process prints, from the pipe of the lord to the buffer of the scheduler; and the waits of
-- `Run` between reconnects.
use etronium_scdr.Prelude.{
  ℕ, zero, suc, ◌+◌, ◌*◌, ◌^◌, ◌≤◌, ◌<◌, min, String, ◌≡◌, refl, sym, ap, ◌∙◌, false, some, List,
  [], ◌∷◌, ◌++◌, ℤ, ltb, length, map, arith, Bool-cases, inl, inr,
}
use etronium_scdr.Ring.{write, writes, contents}
use etronium_scdr.Ring.Follow.{IsFilling, flat, Grown, writes-Grown}
use etronium_scdr.Table.{Table, Entry, get, deref, update}
use etronium_scdr.Table.Access.{deref-update}
use etronium_scdr.Server.{Server}
use etronium_scdr.Connect.{LordCmd, handle, handle_io, at_id}
use etronium_scdr.Lord.{IoChunk, pump_stream, to_cmd, max_backoff, backoff_after}

-- each chunk begins where the one before it ends, and none is empty or longer than a read
abbrev pub IsContiguous : ℕ → List IoChunk → Type 0
IsContiguous offset [] = Unit
IsContiguous offset (c ∷ cs) =
    (c.offset ≡ offset)
    × (0 < length c.bytes)
    × (length c.bytes ≤ 4096)
    × IsContiguous (offset + length c.bytes) cs

-- no read gives more than the buffer of 4096 bytes
abbrev pub AllShort : List (List ℕ) → Type 0
AllShort [] = Unit
AllShort (bytes ∷ reads) = (length bytes ≤ 4096) × AllShort reads

IsContiguous-eq : (o o' : ℕ) (cs : List IoChunk) → o ≡ o' → IsContiguous o cs → IsContiguous o' cs
IsContiguous-eq o o' cs e v = rw (← e) v

pump_stream-IsContiguous :
    (offset : ℕ) (reads : List (List ℕ))
    → AllShort reads
    → IsContiguous offset (pump_stream offset reads)
unfolding pump_stream
pump_stream-IsContiguous offset [] short = tt
pump_stream-IsContiguous offset (bytes ∷ reads) short = elim (Bool-cases (ltb 0 (length bytes))) [
  | inl some_bytes ↦
      rw (some_bytes, pump_stream)
        (
          refl,
          ground arith,
          short.0,
          pump_stream-IsContiguous (offset + length bytes) reads short.1,
        )
  | inr no_bytes ↦
      let same : offset + length bytes ≡ offset = ground arith in
      rw (no_bytes, pump_stream)
        (IsContiguous-eq (offset + length bytes) offset (pump_stream (offset + length bytes) reads)
          same (pump_stream-IsContiguous (offset + length bytes) reads short.1))
]

empty_of_length : (l : List ℕ) → ltb 0 (length l) ≡ false → l ≡ []
empty_of_length [] h = refl
empty_of_length (x ∷ l) h = absurd (ground arith)

flat-pump_stream :
    (offset : ℕ) (reads : List (List ℕ))
    → flat (map (λ c. c.bytes) (pump_stream offset reads)) ≡ flat reads
unfolding pump_stream flat
flat-pump_stream offset [] = refl
flat-pump_stream offset (bytes ∷ reads) = elim (Bool-cases (ltb 0 (length bytes))) [
  | inl some_bytes ↦
      rw (some_bytes, pump_stream)
        (ap (λ l. bytes ++ l) (flat-pump_stream (offset + length bytes) reads))
  | inr no_bytes ↦
      let empty : bytes ≡ [] = empty_of_length bytes no_bytes in
      rw (no_bytes, pump_stream)
        (flat-pump_stream (offset + length bytes) reads
          ∙ ap (λ (l : List ℕ). l ++ flat reads) (sym empty))
]

module _ (lord_id_from_hostname : String → ℕ) (to_uint32 : ℤ → ℕ) (now : ℕ) (lord_id : String) where
  -- the scheduler handles messages in order
  unfoldable pub handle_all : List LordCmd → Server → Server
  handle_all [] s = s
  handle_all (cmd ∷ cmds) s =
      handle_all cmds (handle lord_id_from_hostname to_uint32 now lord_id cmd s)

  abbrev after_chunk : String → IoChunk → Server → Server
  after_chunk id c s = handle lord_id_from_hostname to_uint32 now lord_id (to_cmd id c) s

  processes-after_chunk :
      (id : String) (a : ℕ) (c : IoChunk) (s : Server)
      → get s.processes id ≡ some a
      → (after_chunk id c s).processes
        ≡ update (λ x. record x { io_buf = write x.io_buf c.bytes }) a s.processes
  unfolding handle handle_io
  processes-after_chunk id a c s known = rw (known, at_id) refl

  handle_all-io :
      (id : String) (a : ℕ) (cs : List IoChunk) (s : Server) (e : Entry)
      → get s.processes id ≡ some a
      → deref s.processes a ≡ some e
      → deref (handle_all (map (to_cmd id) cs) s).processes a
        ≡ some (record e { io_buf = writes e.io_buf (map (λ c. c.bytes) cs) })
  unfolding handle_all
  handle_all-io id a [] s e known there = there
  handle_all-io id a (c ∷ cs) s e known there =
      let wrote : (after_chunk id c s).processes
          ≡ update (λ x. record x { io_buf = write x.io_buf c.bytes }) a s.processes =
        processes-after_chunk id a c s known in
      handle_all-io id a cs (after_chunk id c s) (record e { io_buf = write e.io_buf c.bytes })
        (ap (λ (t : Table). get t id) wrote ∙ known)
        (ap (λ (t : Table). deref t a) wrote
          ∙ deref-update (λ x. record x { io_buf = write x.io_buf c.bytes }) a s.processes there)

  -- A process of the table prints, and its lord reads that in pieces of at most 4096 bytes. The chunks
  -- that the lord sends follow each other without a gap. If what is printed fits into the rest of the
  -- process's buffer, which has not wrapped, then once the scheduler has handled the chunks in order
  -- the buffer holds what it held and after that all that was printed, and the process's info is as it was.
  pub output_arrives :
      (id : String) (a : ℕ) (reads : List (List ℕ)) (s : Server) (e : Entry)
      → get s.processes id ≡ some a
      → deref s.processes a ≡ some e
      → AllShort reads
      → IsFilling e.io_buf
      → e.io_buf.off + length (flat reads) < e.io_buf.cap
      → IsContiguous 0 (pump_stream 0 reads)
        × (e' : Entry) × (deref (handle_all (map (to_cmd id) (pump_stream 0 reads)) s).processes a
            ≡ some e')
        × (contents e'.io_buf ≡ contents e.io_buf ++ flat reads)
        × (e'.info ≡ e.info)
  output_arrives id a reads s e known there short filling room =
      let chunks : List (List ℕ) = map (λ c. c.bytes) (pump_stream 0 reads) in
      let printed : flat chunks ≡ flat reads = flat-pump_stream 0 reads in
      let grown : Grown e.io_buf (flat chunks) (writes e.io_buf chunks) =
        writes-Grown e.io_buf chunks filling (rw printed room) in
      (
        pump_stream-IsContiguous 0 reads short,
        record e { io_buf = writes e.io_buf chunks },
        handle_all-io id a (pump_stream 0 reads) s e known there,
        rw printed at grown.bytes,
        refl,
      )

-- The wait before a reconnect is 500 ms, doubled with each attempt that failed, and never more than 30 s.
pub backoff_after_eq : (n : ℕ) → backoff_after n ≡ min (500000000 * 2 ^ n) max_backoff
unfolding backoff_after
backoff_after_eq zero = refl
backoff_after_eq (suc n) =
    let doubled : 2 ^ suc n ≡ 2 * 2 ^ n = omega arith in
    rw (backoff_after_eq n) (ground (arith, doubled))
