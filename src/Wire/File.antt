-- ===== src/Wire/File.antt =====
-- pglite-REL_17_4_WASM/pgl_mains.c, `interactive_file`: the commands of the file that feeds the
-- single-user start-up, with pg_proto.c included outside the wire loop. FIXME is 1, as in the
-- WebAssembly builds; the line counter is only printed.
pub mod Commands
pub mod Ends
mod Tests
use pglite_build.Prelude.{
  ℕ, zero, suc, Bool, true, false, ◌&&◌, ◌||◌, Option, none, some, [], ◌∷◌, ◌++◌, Bytes, codes,
  ◌==◌, length, pos, if◌then◌else◌,
}
use pglite_build.Tools.{startswith, c_string}
use pglite_build.Wire.World.{Backend, World, Outcome, ok, fault, diverged, memory_context_switch}
use pglite_build.Wire.Action.{Action, ◌>>=◌, ◌>>◌, modify, modify_shared, gets, pure, call}
use pglite_build.Wire.Proto.{switch}

-- What one round of the reading loop leaves: the text, whether `c` is EOF, and the unread bytes.
pub record Command : Type 0 where
  pub text : Bytes
  pub at_eof : Bool
  pub unread : Bytes

abbrev pub reverse_onto : Bytes → Bytes → Bytes
reverse_onto [] ys = ys
reverse_onto (x ∷ xs) ys = reverse_onto xs (x ∷ ys)

-- The buffer, its last byte first, ends in a semicolon and a newline.
abbrev pub ends_command : Bytes → Bool
ends_command (x ∷ y ∷ buf) = (x == 10) && (y == b';')
ends_command _ = false

-- The inner loop. `buf` is the buffer, its last byte first; `semi_newline` is
-- UseSemiNewlineNewline, the -j mode.
unfoldable pub read_command : Bool → Bytes → Bytes → Command
read_command semi_newline buf [] = record { text = reverse_onto buf []; at_eof = true; unread = [] }
read_command true buf (c ∷ cs) =
    let regular = read_command true (c ∷ buf) cs in
    if (c == 10) && ends_command buf
    then record { text = reverse_onto buf []; at_eof = false; unread = cs }
    else regular
read_command false [] (c ∷ cs) =
    let regular = read_command false (c ∷ []) cs in
    if c == 10 then record { text = 10 ∷ []; at_eof = false; unread = cs } else regular
read_command false (x ∷ buf) (c ∷ cs) =
    let regular = read_command false (c ∷ x ∷ buf) cs in
    let continued = read_command false buf cs in
    if c == 10
    then (if x == b'\\'
        then continued
        else record { text = reverse_onto (10 ∷ x ∷ buf) []; at_eof = false; unread = cs })
    else regular

-- The two commands of initdb that are not run, as C strings.
unfoldable pub is_skipped : Bytes → Bool
is_skipped text =
    startswith (c_string text) (codes "REVOKE ALL ON pg_largeobject FROM PUBLIC;")
    || startswith (c_string text)
        (codes "REVOKE CREATE,TEMPORARY ON DATABASE template1 FROM public;")

module _ (b : Backend) where
  -- What follows the reading of a text: `firstchar` is 'Q'.
  unfoldable pub handle_text : Bytes → Action b.State (Unit {0})
  handle_text text = do
    modify_shared λ s. record s { input_message = text ++ 0 ∷ [] }
    ignoring ← gets λ w. w.shared.ignore_till_sync
    if is_skipped text || ignoring then pure tt else (do switch b false (pos b'Q'); pure tt)

  -- The inner loop on the feed; `getc` of NULL is a fault.
  unfoldable pub take_command : Bool → Option Bytes → Action b.State Command
  take_command semi_newline none w = (fault, w)
  take_command semi_newline (some stream) w =
      let command = read_command semi_newline [] stream in
      (ok command, record w { single_mode_feed = some command.unread })

  -- What `while (c != EOF)` does with a command, `later` being its next rounds.
  unfoldable pub run_command : Command → Action b.State (Unit {0}) → Action b.State (Unit {0})
  unfolding handle_text
  run_command command later =
      if command.at_eof && length command.text == 0
      then pure tt
      else (do handle_text command.text; if command.at_eof then pure tt else later)

  -- `while (c != EOF)`
  unfoldable pub read_commands : Bool → ℕ → Action b.State (Unit {0})
  unfolding take_command run_command
  read_commands semi_newline zero = λ w. (diverged, w)
  read_commands semi_newline (suc fuel) = do
    let later = read_commands semi_newline fuel
    feed ← gets λ w. w.single_mode_feed
    command ← take_command semi_newline feed
    run_command command later

  unfoldable pub interactive_file : Bool → ℕ → Action b.State (Unit {0})
  unfolding read_commands
  interactive_file semi_newline fuel = do
    modify_shared λ s. record s { doing_extended_query_message = false }
    call b memory_context_switch
    modify λ w. record w { doing_command_read = true }
    read_commands semi_newline fuel
