-- ===== src/Requests/Streaming.antt =====
-- `StreamProcessIO` of internal/scheduler/server.go: what a client is sent of a process's output.
use etronium_scdr.Prelude.{ℕ, Bool, List, [], ◌∷◌, ◌++◌, ltb, length, if◌then◌else◌}
use etronium_scdr.Ring.{writes, contents}
use etronium_scdr.Ring.Follow.{poll}
use etronium_scdr.Table.{Entry}

-- One tick of the follow loop: what is sent, the new `lastTotal`, and the entry, which notes it where
-- something was sent. The flush at the end of the process does the same.
unfoldable pub stream_tick : Entry → ℕ → List ℕ × ℕ × Entry
unfolding poll
stream_tick e last_total =
    let (chunk, new_total) = poll e.io_buf last_total in
    (chunk, new_total, if ltb 0 (length chunk) then record e { io_last_sent = new_total } else e)

-- The follow loop: in each round the process prints some chunks, then a tick. The last tick is the
-- flush.
unfoldable pub follow_stream : Entry → ℕ → List (List (List ℕ)) → List ℕ × Entry
unfolding stream_tick
follow_stream e last_total [] = ([], e)
follow_stream e last_total (ps ∷ rounds) =
    let (chunk, new_total, e₁) =
      stream_tick (record e { io_buf = writes e.io_buf ps }) last_total in
    let (rest, e₂) = follow_stream e₁ new_total rounds in (chunk ++ rest, e₂)

-- `StreamProcessIO` for an entry; without `follow` the buffer is sent as it is
unfoldable pub stream_process_io : Bool → List (List (List ℕ)) → Entry → List ℕ × Entry
unfolding follow_stream
stream_process_io is_follow rounds e =
    if is_follow then follow_stream e e.io_last_sent rounds else (contents e.io_buf, e)
