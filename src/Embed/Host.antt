-- ===== src/Embed/Host.antt =====
-- pglite-REL_17_4_WASM/pglite-modpython.c: `pre_main` and `main`, which start PostgreSQL inside
-- another program, and `Begin` and `End`, which do the same for Python. What is printed is left out.
pub mod Env
pub mod Module
use pglite_build.Prelude.{
  ℕ, ◌-◌, ◌/◌, Bool, true, false, Option, none, some, List, [], ◌∷◌, ◌++◌, Bytes, codes, ◌==◌,
  if◌then◌else◌,
}
use pglite_build.Tools.{◌>>=◌}
use pglite_build.Start.Env.{Environment}
use pglite_build.Start.Main.{Rule, apply_rules}
use pglite_build.Embed.{Argv, copy_argv}

-- The runtime that wasm2c generates: whether it starts on its arguments, and whether it takes the
-- root folder.
pub record Runtime : Type 0 where
  pub wasi_init : ℕ → Argv → Environment → Bool
  pub wasi_file_descriptor_add : Bool
  pub pointer_size : ℕ
  -- what `malloc` returns holds
  pub uninit : ℕ → List ℕ

abbrev pub wasm_prefix : Bytes
wasm_prefix = codes "/tmp/pglite"

abbrev pub wasm_username : Bytes
wasm_username = codes "postgres"

-- The `setenv` calls of `pre_main`.
abbrev pub embed_rules : List Rule
embed_rules =
    (codes "EMBED", codes "wasi", true)
    ∷ (codes "REPL", codes "N", true)
    ∷ (codes "PGSYSCONFDIR", wasm_prefix, true)
    ∷ (codes "PGCLIENTENCODING", codes "UTF8", true)
    ∷ (codes "TZ", codes "UTC", true)
    ∷ (codes "PGTZ", codes "UTC", true)
    ∷ (codes "PGUSER", wasm_username, true)
    ∷ (codes "PGDATA", wasm_prefix ++ codes "/base", true)
    ∷ (codes "PGDATABASE", codes "template1", true)
    ∷ (codes "PG_COLOR", codes "always", false)
    ∷ []

-- The environment and the globals; `instantiated` and `started` say whether the instance was made
-- and whether its start function was called.
pub record Embedded : Type 0 where
  pub env : Environment
  pub g_argv : Option Argv
  pub g_argc : ℕ
  pub skip_main : Bool
  pub instantiated : Bool
  pub started : Bool

abbrev pub do_main : Embedded → Embedded
do_main s = record s { started = true }

abbrev pub free_instance : Embedded → Embedded
free_instance s = record s { instantiated = false }

-- `End` of the Python module.
abbrev pub end_module : Embedded → Embedded
end_module s = free_instance (do_main s)

module _ (r : Runtime) where
  -- The status and the state: `none` is a store past the end of the copied arguments.
  unfoldable pub pre_main : List Bytes → Embedded → Option (ℕ × Embedded)
  unfolding copy_argv apply_rules
  pre_main argv s = do
    copied ← copy_argv r.pointer_size r.uninit argv
    let ready = record s {
      env = apply_rules embed_rules s.env;
      g_argv = some copied;
      g_argc = r.pointer_size / r.pointer_size - 1;
    }
    if r.wasi_init ready.g_argc copied ready.env
        then (if r.wasi_file_descriptor_add
            then some (0, record ready { instantiated = true })
            else some (1, ready))
        else some (1, ready)

  abbrev pub start_args : List Bytes
  start_args = codes "/tmp/pglite/bin/postgres" ∷ codes "--single" ∷ codes "template1" ∷ []

  -- The exit status, which is `skip_main`, and the state. The instance is freed after its run.
  unfoldable pub embed_main : Embedded → Option (ℕ × Embedded)
  unfolding pre_main
  embed_main s = if s.skip_main then some (1, s) else (do
    (status, s') ← pre_main start_args s
    if status == 0
        then some (0, free_instance (do_main s'))
        else some (1, record s' { skip_main = true }))

  -- `Begin` of the Python module.
  unfoldable pub begin_module : Embedded → Option Embedded
  unfolding pre_main
  begin_module s = do (status, s') ← pre_main start_args s; some s'
