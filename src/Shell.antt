-- ===== src/Shell.antt =====
-- pglite-REL_17_4_WASM/pgl_stubs.h: `appendShellStringNoError` and `appendShellString`, which quote
-- an argument of a shell command. A PQExpBuffer is its bytes.
pub mod Word
mod Tests
use pglite_build.Prelude.{
  ℕ, Bool, true, false, not, ◌&&◌, ◌||◌, Option, none, some, [], ◌∷◌, ◌++◌, Bytes, leb, ◌==◌,
  if◌then◌else◌,
}

-- The bytes that `strspn` accepts.
unfoldable pub is_plain : ℕ → Bool
is_plain c =
    (leb b'a' c && leb c b'z')
    || (leb b'A' c && leb c b'Z')
    || (leb b'0' c && leb c b'9')
    || c == b'-'
    || c == b'_'
    || c == b'.'
    || c == b'/'
    || c == b':'

-- `strspn(str, "...") == strlen(str)`
unfoldable pub all_plain : Bytes → Bool
all_plain [] = true
all_plain (c ∷ str) = is_plain c && all_plain str

abbrev pub is_empty : Bytes → Bool
is_empty [] = true
is_empty (c ∷ str) = false

abbrev pub is_newline : ℕ → Bool
is_newline c = c == 10 || c == 13

-- `'"'"'`: the quote is closed, a quoted quote follows, and the quote is opened again.
abbrev pub quoted_quote : Bytes
quoted_quote = b'\'' ∷ b'"' ∷ b'\'' ∷ b'"' ∷ b'\'' ∷ []

-- The loop, with `ok`.
unfoldable pub quote_from : Bytes → Bool → Bytes → Bytes × Bool
quote_from buf good [] = (buf, good)
quote_from buf good (c ∷ str) =
    let skipped = quote_from buf false str in
    let kept = quote_from (if c == b'\'' then buf ++ quoted_quote else buf ++ c ∷ []) good str in
    if is_newline c then skipped else kept

unfoldable pub append_shell_string_no_error : Bytes → Bytes → Bytes × Bool
unfolding all_plain quote_from
append_shell_string_no_error buf str =
    let (quoted, good) = quote_from (buf ++ b'\'' ∷ []) true str in
    if not (is_empty str) && all_plain str then (buf ++ str, true) else (quoted ++ b'\'' ∷ [], good)

-- `none` is an exit with an error message.
unfoldable pub append_shell_string : Bytes → Bytes → Option Bytes
unfolding append_shell_string_no_error
append_shell_string buf str =
    let (out, good) = append_shell_string_no_error buf str in if good then some out else none
