-- ===== src/Start/Env.antt =====
-- The environment of the process, as libc's `getenv`, `setenv` and `unsetenv` keep it, and `setdefault` of
-- pglite-REL_17_4_WASM/pgl_tools.h.
pub mod Lookup
use pglite_build.Prelude.{
  Bool, true, false, not, ◌&&◌, ◌||◌, Option, none, some, List, [], ◌∷◌, Bytes, str_eq, ◌==◌,
  if◌then◌else◌,
}
use pglite_build.Tools.{◌>>=◌}

pub record Setting : Type 0 where
  pub key : Bytes
  pub value : Bytes

abbrev pub Environment : Type 0
Environment = List Setting

unfoldable pub has_equals : Bytes → Bool
has_equals [] = false
has_equals (c ∷ kv) = (c == b'=') || has_equals kv

-- `setenv` refuses any other name.
abbrev pub is_name : Bytes → Bool
is_name [] = false
is_name (c ∷ key) = not (has_equals (c ∷ key))

unfoldable pub getenv : Environment → Bytes → Option Bytes
getenv [] key = none
getenv (s ∷ env) key = if str_eq (s.key) key then some (s.value) else getenv env key

unfoldable pub put_env : Environment → Bytes → Bytes → Environment
put_env [] key value = record { key = key; value = value } ∷ []
put_env (s ∷ env) key value =
    if str_eq (s.key) key then record s { value = value } ∷ env else s ∷ put_env env key value

unfoldable pub unsetenv : Environment → Bytes → Environment
unsetenv [] key = []
unsetenv (s ∷ env) key =
    let rest = unsetenv env key in if str_eq (s.key) key then rest else s ∷ rest

abbrev pub is_set : Option Bytes → Bool
is_set none = false
is_set (some v) = true

unfoldable pub setenv : Environment → Bytes → Bytes → Bool → Environment
unfolding getenv put_env has_equals
setenv env key value overwrite =
    if is_name key && (overwrite || not (is_set (getenv env key)))
    then put_env env key value
    else env

-- The value and the environment; `strdup` of a missing value is a fault.
unfoldable pub setdefault : Environment → Bytes → Bytes → Option (Bytes × Environment)
setdefault env key value = do
  let env' = setenv env key value false
  found ← getenv env' key
  some (found, env')
