-- ===== src/Start.antt =====
-- pglite-REL_17_4_WASM/pg_main.c, `main_pre`: how the arguments become environment variables.
pub mod Env
pub mod Settings
pub mod Main
pub mod Initdb
pub mod Pipes
mod Tests
use Env.{Setting, Environment, has_equals, setenv}
use pglite_build.Prelude.{
  ℕ, suc, ◌+◌, Bool, true, false, ◌||◌, List, [], ◌∷◌, ◌++◌, Bytes, ltb, ◌==◌, if◌then◌else◌,
}

-- The first loop: the arguments from the first one with an equals sign on.
unfoldable pub extra_env : List Bytes → List Bytes
extra_env [] = []
extra_env (kv ∷ argv) = let rest = extra_env argv in if has_equals kv then kv ∷ argv else rest

-- The loop over the bytes of an argument, at byte `sk`, with the bytes before it in `front`.
unfoldable pub settings_from : Bytes → ℕ → Bytes → List Setting
settings_from front sk [] = []
settings_from front sk (c ∷ cs) =
    let rest = settings_from (front ++ c ∷ []) (sk + 1) cs in
    if ltb 255 sk
    then rest
    else if c == b'='
    then record { key = front; value = cs } ∷ rest
    else rest

-- The second loop.
unfoldable pub set_all : List Bytes → List Setting
unfolding settings_from
set_all [] = []
set_all (kv ∷ argv) = settings_from [] 0 kv ++ set_all argv

-- `setenv(key, value, 1)` for each.
unfoldable pub setenv_all : List Setting → Environment → Environment
unfolding setenv
setenv_all [] env = env
setenv_all (s ∷ settings) env = setenv_all settings (setenv env (s.key) (s.value) true)

-- The environment after both loops.
unfoldable pub arg_env : List Bytes → Environment → Environment
unfolding set_all extra_env setenv_all
arg_env argv env = setenv_all (set_all (extra_env argv)) env
