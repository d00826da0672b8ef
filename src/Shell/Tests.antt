-- ===== src/Shell/Tests.antt =====
-- The theorems on quoting at short arguments.
use pglite_build.Prelude.{◌≡◌, refl, some, ◌++◌, Bytes, codes}
use pglite_build.Shell.{append_shell_string}
use pglite_build.Shell.Word.{read_word, bare, append_shell_string-read_word}

append_shell_string-read_word_example :
    (word : Bytes) × (append_shell_string (codes "cp ") (codes "it's $5")
      ≡ some (codes "cp " ++ word))
    × (read_word bare word ≡ some (codes "it's $5"))
append_shell_string-read_word_example =
    append_shell_string-read_word (codes "cp ") (codes "it's $5") refl
