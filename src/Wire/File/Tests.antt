-- ===== src/Wire/File/Tests.antt =====
-- The theorems on the command reader at a file of two commands.
use pglite_build.Prelude.{◌≡◌, ◌≢◌, Bytes, true, false, [], ◌∷◌, ◌++◌, codes}
use pglite_build.Wire.File.{read_command}
use pglite_build.Wire.File.Commands.{NoBreak, read_command_semi}

-- A command of two lines.
abbrev two_lines : Bytes
two_lines = b'a' ∷ 10 ∷ b'b' ∷ []

two_lines-NoBreak : NoBreak (two_lines ++ b';' ∷ 10 ∷ [])
two_lines-NoBreak [] back = λ e. cc
two_lines-NoBreak (x ∷ []) back = λ e. cc
two_lines-NoBreak (x ∷ y ∷ []) back = λ e. cc
two_lines-NoBreak (x ∷ y ∷ z ∷ front) back = λ e. past front back (cc)
  where
    past : (front back : Bytes) → b';' ∷ 10 ∷ [] ≢ front ++ b';' ∷ 10 ∷ 10 ∷ back
    past [] back = λ e. cc
    past (x ∷ []) back = λ e. cc
    past (x ∷ y ∷ []) back = λ e. cc
    past (x ∷ y ∷ z ∷ front) back = λ e. cc

read_command_semi_example :
    read_command true [] (two_lines ++ b';' ∷ 10 ∷ 10 ∷ codes "cd")
    ≡ record { text = two_lines ++ b';' ∷ 10 ∷ []; at_eof = false; unread = codes "cd" }
read_command_semi_example = read_command_semi two_lines (codes "cd") two_lines-NoBreak
