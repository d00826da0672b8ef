-- ===== src/Sdk/Shm.antt =====
-- wasm-build/sdk_port-wasi/sdk_port-wasi.c: `shm_open` and `shm_unlink` over files. `fopen` is taken
-- to succeed, the descriptor is the path of the file that is open, and what is printed is left out.
pub mod Paths
pub mod Static
pub mod Builds
use pglite_build.Prelude.{
  ℕ, ◌+◌, Bool, true, false, Option, none, some, [], ◌∷◌, ◌++◌, Bytes, codes, ℤ, pos, minus_one,
  str_eq, take, if◌then◌else◌,
}

-- The contents of the files by their paths.
abbrev pub Files : Type 0
Files = Bytes → Option Bytes

abbrev pub put_file : Files → Bytes → Option Bytes → Files
put_file files path content = λ q. if str_eq path q then content else files q

-- The variable SHM of the environment, the counter `shm_index`, and the files.
pub record Shm : Type 0 where
  pub shm : Option Bytes
  pub shm_index : ℕ
  pub files : Files

-- What `snprintf` stores in 128 bytes, before the NUL.
abbrev pub tmpnam_size : ℕ
tmpnam_size = 127

abbrev pub name_path : Bytes → Bytes
name_path name = take tmpnam_size (codes "/tmp" ++ name)

-- `remove` answers 0 or -1.
abbrev pub removed : Option Bytes → ℤ
removed none = minus_one
removed (some content) = pos 0

-- `decimal` is what `%d` prints.
module _ (decimal : ℕ → Bytes) where
  abbrev pub counted_path : Bytes → ℕ → Bytes
  counted_path shm n = take tmpnam_size (shm ++ b'.' ∷ decimal n)

  abbrev pub path_for : Option Bytes → Bytes → Shm → Bytes × Shm
  path_for none name s = (name_path name, s)
  path_for (some shm) name s =
      (counted_path shm s.shm_index, record s { shm_index = s.shm_index + 1 })

  unfoldable pub get_shm_path : Bytes → Shm → Bytes × Shm
  get_shm_path name s = path_for s.shm name s

  -- `fopen(tmpnam, "w+")` makes the file, or empties it.
  unfoldable pub shm_open : Bytes → Shm → Bytes × Shm
  unfolding get_shm_path
  shm_open name s =
      let (path, s') = get_shm_path name s in
      (path, record s' { files = put_file s'.files path (some []) })

  abbrev pub unlink_for : Option Bytes → Bytes → Shm → ℤ × Shm
  unlink_for (some shm) name s = (pos 0, s)
  unlink_for none name s =
      let (path, s') = get_shm_path name s in
      (removed (s'.files path), record s' { files = put_file s'.files path none })

  unfoldable pub shm_unlink : Bytes → Shm → ℤ × Shm
  unfolding get_shm_path
  shm_unlink name s = unlink_for s.shm name s
