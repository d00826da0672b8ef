-- ===== src/Start/Main.antt =====
-- pglite-REL_17_4_WASM/pg_main.c: the rest of `main_pre`, and `main`. The JavaScript of the EM_ASM
-- blocks, `chdir`, and the calls of PostgreSQL that only set the program name are left out; `none` is a
-- fault.
pub mod Variables
pub mod Ends
use pglite_build.Prelude.{
  ℕ, Bool, true, false, not, ◌&&◌, Option, none, some, List, [], ◌∷◌, Bytes, codes, ◌==◌, ◌++◌,
  if◌then◌else◌,
}
use pglite_build.Tools.{mkdirp, ◌>>=◌, strconcat, strcat_alloc, c_string}
use pglite_build.Start.Env.{Environment, getenv, setenv, setdefault}
use pglite_build.Start.{arg_env}

-- What the build and the host fix: WASM_PREFIX, WASM_USERNAME and `is_node`; and what the automatic
-- buffer of `strcat_alloc` holds before.
pub record Build : Type 0 where
  pub wasm_prefix : Bytes
  pub wasm_username : Bytes
  pub is_node : Bool
  pub uninit : List ℕ

-- The environment, the globals of pg_main.c, `tmpstr`, and the directories given to `mkdirp`.
pub record Startup : Type 0 where
  pub env : Environment
  pub argv : List Bytes
  pub prefix : Bytes
  pub pgdata : Bytes
  pub pguser : Bytes
  pub tmpstr : List ℕ
  pub is_repl : Bool
  pub is_embed : Bool
  pub made : List Bytes

abbrev pub replace_first : List Bytes → Bytes → List Bytes
replace_first [] arg = []
replace_first (a ∷ argv) arg = arg ∷ argv

-- One `setenv`: the setting, and whether it replaces the value of a variable that is set.
abbrev pub Rule : Type 0
Rule = Bytes × Bytes × Bool

unfoldable pub apply_rules : List Rule → Environment → Environment
unfolding setenv
apply_rules [] env = env
apply_rules ((key, value, overwrite) ∷ rules) env =
    apply_rules rules (setenv env key value overwrite)

-- Everything that `main_pre` sets between PREFIX and PGUSER.
abbrev pub host_env : Bool → Bytes → List Rule
host_env is_node prefix =
    (codes "ENVIRONMENT", (if is_node then codes "node" else codes "web"), true)
    ∷ (codes "PGSYSCONFDIR", prefix, true)
    ∷ (codes "PGCLIENTENCODING", codes "UTF8", true)
    ∷ (codes "REPL", codes "N", false)
    ∷ (codes "LC_CTYPE", codes "en_US.UTF-8", true)
    ∷ (codes "TZ", codes "UTC", false)
    ∷ (codes "PGTZ", codes "UTC", false)
    ∷ (codes "PGDATABASE", codes "template1", false)
    ∷ (codes "PG_COLOR", codes "always", false)
    ∷ []

unfoldable pub main_pre : Build → Startup → Option Startup
unfolding arg_env setdefault strcat_alloc strconcat c_string apply_rules
main_pre b s = do
  (prefix, e₁) ← setdefault (arg_env s.argv s.env) (codes "PREFIX") b.wasm_prefix
  program ← strcat_alloc b.uninit prefix (codes "/bin/postgres")
  let e₂ = apply_rules (host_env b.is_node prefix) e₁
  (pguser, e₃) ← setdefault e₂ (codes "PGUSER") b.wasm_username
  let e₄ = setenv e₃ (codes "PGUSER") b.wasm_username true
  tmpstr ← strconcat s.tmpstr prefix (codes "/base")
  (pgdata, e₅) ← setdefault e₄ (codes "PGDATA") (c_string tmpstr)
  some (record s {
    env = e₅;
    argv = replace_first s.argv program;
    prefix = prefix;
    pgdata = pgdata;
    pguser = pguser;
    tmpstr = tmpstr;
    is_repl = if b.is_node then s.is_repl else true;
    made = mkdirp prefix (mkdirp (codes "/tmp") s.made);
  })

-- `strlen(value) && value[0] != 'N'`
abbrev pub wants_repl : Bytes → Bool
wants_repl [] = false
wants_repl (c ∷ value) = not (c == b'N')

-- How `main` ends: with the runtime alive, or by `emscripten_force_exit`.
pub data MainEnd : Type 0 where
  stays_alive forced_exit : MainEnd

unfoldable pub main : Build → Startup → Option (MainEnd × Startup)
unfolding main_pre getenv
main b s = do
  s' ← main_pre b s
  repl ← getenv s'.env (codes "REPL")
  some (
    (if wants_repl repl then forced_exit else stays_alive),
    record s' { is_repl = wants_repl repl; is_embed = true },
  )
