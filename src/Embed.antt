-- ===== src/Embed.antt =====
-- pglite-REL_17_4_WASM/pglite-modpython.c: `copy_argv`, which copies the arguments into one block.
pub mod Block
pub mod Host
mod Tests
use pglite_build.Prelude.{
  ℕ, zero, suc, ◌+◌, ◌*◌, Option, none, some, List, [], ◌∷◌, ◌++◌, Bytes, length,
}
use pglite_build.Tools.{◌>>=◌, copy_to}

-- `sizeof(char*)` of the host is a parameter, `pointer_size`. The block that `malloc` returns is the
-- array of pointers and the bytes after it; a pointer into the block is an offset, and `none` is
-- NULL.
pub record Argv : Type 0 where
  pub pointers : List (Option ℕ)
  pub bytes : List ℕ

-- The first loop.
unfoldable pub strings_length : List Bytes → ℕ
strings_length [] = 0
strings_length (s ∷ argv) = length s + 1 + strings_length argv

-- The second loop, at byte `at` of the strings, with the pointers from there on: `strcpy` copies a
-- string and its NUL, and `none` is a store past the end of the block.
unfoldable pub copy_strings : ℕ → List ℕ → ℕ → List Bytes → Option Argv
copy_strings base bytes at [] = some (record { pointers = none ∷ []; bytes = bytes })
copy_strings base bytes at (s ∷ argv) = do
  copied ← copy_to bytes at (s ++ 0 ∷ [])
  rest ← copy_strings base copied (at + (length s + 1)) argv
  some (record rest { pointers = some (base + at) ∷ rest.pointers })

-- `uninit` is what the block holds before.
unfoldable pub copy_argv : ℕ → (ℕ → List ℕ) → List Bytes → Option Argv
unfolding strings_length copy_strings
copy_argv pointer_size uninit argv =
    let ptr_args = length argv + 1 in
    copy_strings (ptr_args * pointer_size) (uninit (strings_length argv)) 0 argv
