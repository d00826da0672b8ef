-- ===== src/Sdk/Shm/Static.antt =====
-- wasm-build/sdk_port.h: the `shm_open` and `shm_unlink` of a build without PYDK, over the same files.
use pglite_build.Prelude.{none, some, [], Bytes, ℤ}
use pglite_build.Sdk.Shm.{Files, name_path, put_file, removed}

unfoldable pub shm_open : Bytes → Files → Bytes × Files
shm_open name files = (name_path name, put_file files (name_path name) (some []))

unfoldable pub shm_unlink : Bytes → Files → ℤ × Files
shm_unlink name files = (removed (files (name_path name)), put_file files (name_path name) none)
