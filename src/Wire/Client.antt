-- ===== src/Wire/Client.antt =====
-- pglite-REL_17_4_WASM/repl.html, `send_to_pglite`: how the host sends a request to the exported
-- functions of interactive_one.c, in the CMA buffer or by the file PGS_IN, and where it looks for the
-- reply. The number of blocks that one call may run is a parameter.
pub mod Delivers
pub mod Prompts
pub mod Answers
mod Files
pub mod Settled
pub mod Sessions
mod Tests
use pglite_build.Prelude.{ℕ, ◌+◌, Option, none, some, List, [], ◌∷◌, ◌++◌, Bytes, pos, length, drop}
use pglite_build.Wire.World.{Backend, World}
use pglite_build.Wire.Action.{Action, pure, ◌>>=◌, ◌>>◌, gets, modify}
use pglite_build.Wire.Session.{interactive_write, interactive_read}
use pglite_build.Wire.Loop.{interactive_one}

-- The addresses of the reply in memory.
pub record Window : Type 0 where
  pub msg_start : ℕ
  pub msg_end : ℕ

-- `Module.HEAPU8.set(encoded, port)`, the port being address 1, where `io` begins.
abbrev pub put_bytes : Bytes → Bytes → Bytes
put_bytes encoded io = encoded ++ drop (length encoded) io

-- `Module._interactive_write(count)` and the request in the buffer.
unfoldable pub put_request : {S : Type 0} → Bytes → World S → World S
unfolding interactive_write
put_request encoded w =
    let ready = interactive_write (pos (length encoded)) w in
    record ready { io = put_bytes encoded ready.io }

-- `count` bytes were sent.
unfoldable pub reply_window : {S : Type 0} → ℕ → World S → Window
unfolding interactive_read
reply_window count w = record { msg_start = count + 2; msg_end = count + 2 + interactive_read w }

module _ (b : Backend) (fuel : ℕ) where
  unfoldable pub send_to_pglite : Bytes → Action b.State Window
  unfolding put_request reply_window ◌>>=◌ modify
  send_to_pglite encoded = do
    modify (put_request encoded)
    interactive_one b fuel
    gets (reply_window (length encoded))

  -- The same by files, where the reply is a file, or absent.
  unfoldable pub send_file_to_pglite : Bytes → Action b.State (Option Bytes)
  unfolding interactive_write ◌>>=◌ modify
  send_file_to_pglite encoded = do
    modify (interactive_write (pos 0))
    modify λ w. record w { pgs_in = some encoded }
    interactive_one b fuel
    reply ← gets λ w. w.pgs_out
    modify λ w. record w { pgs_out = none }
    pure reply

  -- Requests one after the other.
  unfoldable pub session : List Bytes → Action b.State (List Window)
  unfolding ◌>>=◌
  session [] = pure []
  session (encoded ∷ requests) = do
    window ← send_to_pglite encoded
    windows ← session requests
    pure (window ∷ windows)
