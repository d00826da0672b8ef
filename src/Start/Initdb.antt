-- ===== src/Start/Initdb.antt =====
-- pglite-REL_17_4_WASM/pg_main.c: `pgl_initdb`, `main_post` and `pgl_backend`, which create or find
-- the database and start the backend on it. What is printed, `chdir`, the descriptor of the saved
-- stdin and the test of `nextOid`, which has no effect, are left out.
pub mod Status
pub mod Starts
pub mod Boots
mod Tests
use pglite_build.Prelude.{
  ℕ, Bool, true, false, ◌&&◌, Option, none, some, List, [], ◌∷◌, ◌++◌, Bytes, codes, ℤ, pos,
  gt_zero, bit_and, bit_or, if◌then◌else◌,
}
use pglite_build.Tools.{◌>>=◌}
use pglite_build.Start.Env.{Environment, getenv, setenv, unsetenv}
use pglite_build.Start.Main.{Startup}

-- Every call that leaves pg_main.c. An argument list ends before its last NULL, and PG_TEXTDOMAIN
-- stands for its argument.
pub data Step : Type 0 where
  pgl_initdb_main save_stdin feed_boot_file : Step
  set_pglocale_pgservice : Option Bytes → Bytes → Step
  bootstrap_mode_main : List (Option Bytes) → Step
  close_stdin remove_boot_file restore_stdin : Step
  pg_proc_exit : ℕ → Step
  memory_context_init : Step
  pg_perm_setlocale : Bytes → Bytes → Step
  re_postgres_single_user_main async_postgres_single_user_main : List (Option Bytes) → Bytes → Step

-- The rest of the process: whether `chdir` finds a folder and `access` a file PG_VERSION in it,
-- after the calls made so far; whether `pg_perm_setlocale` then takes a locale for a category; and
-- what a call leaves in the environment and in `optind`, or `none`
-- if it does not return.
pub record Host : Type 0 where
  pub has_folder : List Step → Bytes → Bool
  pub has_version : List Step → Bytes → Bool
  pub adopts : List Step → Bytes → Bytes → Bool
  pub after : List Step → Step → Environment → ℤ → Option (Environment × ℤ)
  -- WASM_PREFIX and WASM_PGOPTS
  pub wasm_prefix : Bytes
  pub wasm_pgopts : List (Option Bytes)

-- The globals that `main` leaves, and those of the two functions; the calls are newest first.
pub record Instance : Type 0 where
  pub startup : Startup
  pub pgl_idb_status : ℕ
  pub async_restart : Bool
  pub optind : ℤ
  pub is_postmaster_environment : Bool
  pub steps : List Step

abbrev pub idb_ok : ℕ
idb_ok = 254

abbrev pub idb_failed : ℕ
idb_failed = 1

abbrev pub idb_called : ℕ
idb_called = 2

abbrev pub idb_hasdb : ℕ
idb_hasdb = 4

abbrev pub idb_hasuser : ℕ
idb_hasuser = 8

abbrev pub set_optind : ℤ → Instance → Instance
set_optind n i = record i { optind = n }

abbrev pub add_status : ℕ → Instance → Instance
add_status bit i = record i { pgl_idb_status = bit_or i.pgl_idb_status bit }

abbrev pub set_env : Environment → Instance → Instance
set_env env i = record i { startup = record (i.startup) { env = env } }

abbrev pub first_arg : List Bytes → Option Bytes
first_arg [] = none
first_arg (a ∷ argv) = some a

-- `g_argv[0]`
abbrev pub program : Instance → Option Bytes
program i = first_arg i.startup.argv

module _ (h : Host) where
  unfoldable pub perform : Step → Instance → Option Instance
  perform c i = do
    (env, optind) ← h.after i.steps c i.startup.env i.optind
    some (record (set_env env i) { optind = optind; steps = c ∷ i.steps })

  abbrev pub boot_argv : Instance → List (Option Bytes)
  boot_argv i =
      (program i
        ∷ some (codes "--boot")
        ∷ some (codes "-D")
        ∷ some i.startup.pgdata
        ∷ some (codes "-d")
        ∷ some (codes "3")
        ∷ h.wasm_pgopts)
      ++ some (codes "-X") ∷ some (codes "1048576") ∷ []

  -- `PGDATA` is given, and the database comes last.
  abbrev pub single_argv : Option Bytes → Bytes → Option Bytes → List (Option Bytes)
  single_argv postgres pgdata database =
      (postgres
        ∷ some (codes "--single")
        ∷ some (codes "-d")
        ∷ some (codes "1")
        ∷ some (codes "-B")
        ∷ some (codes "16")
        ∷ some (codes "-S")
        ∷ some (codes "512")
        ∷ some (codes "-f")
        ∷ some (codes "siobtnmh")
        ∷ some (codes "-D")
        ∷ some pgdata
        ∷ some (codes "-F")
        ∷ some (codes "-O")
        ∷ some (codes "-j")
        ∷ h.wasm_pgopts)
      ++ database ∷ []

  -- initdb writes its two files, and the bootstrap mode runs on the first.
  unfoldable pub create_database : Instance → Option Instance
  unfolding perform
  create_database i = do
    i₁ ← perform pgl_initdb_main i
    i₂ ← perform save_stdin i₁
    i₃ ← perform feed_boot_file i₂
    i₄ ← perform (set_pglocale_pgservice (program i₃) (codes "initdb")) i₃
    i₅ ← perform (bootstrap_mode_main (boot_argv i₄)) (set_optind (pos 1) i₄)
    i₆ ← perform close_stdin i₅
    i₇ ← perform remove_boot_file i₆
    i₈ ← perform restore_stdin i₇
    i₉ ← perform (pg_proc_exit 66) i₈
    some (record i₉ { async_restart = true })

  unfoldable pub find_or_create : Instance → Option Instance
  unfolding create_database
  find_or_create i =
      if h.has_folder i.steps i.startup.pgdata && h.has_version i.steps i.startup.pgdata
      then some (record (add_status idb_hasuser (add_status idb_hasdb i)) { async_restart = false })
      else create_database i

  -- `initdb_done`
  unfoldable pub initdb_done : Instance → Instance
  initdb_done i =
      let called = add_status idb_called i in
      if gt_zero called.optind
      then record (set_optind (pos 1) called) {
        pgl_idb_status = bit_and called.pgl_idb_status idb_ok;
      }
      else called

  unfoldable pub pgl_initdb : Instance → Option (ℕ × Instance)
  unfolding find_or_create initdb_done
  pgl_initdb i = do
    ready ← find_or_create (add_status idb_failed (set_optind (pos 1) i))
    some ((initdb_done ready).pgl_idb_status, initdb_done ready)

  -- `init_locale` of pgl_stubs.h: the locale, or "C", or a fatal error.
  unfoldable pub init_locale : Bytes → Bytes → Instance → Option Instance
  unfolding perform
  init_locale category locale i = do
    i₁ ← perform (pg_perm_setlocale category locale) i
    if h.adopts i.steps category locale then some i₁ else (do
      i₂ ← perform (pg_perm_setlocale category (codes "C")) i₁
      if h.adopts i₁.steps category (codes "C") then some i₂ else none)

  unfoldable pub main_post : Instance → Option Instance
  unfolding perform init_locale unsetenv
  main_post i = do
    i₁ ← perform memory_context_init i
    i₂ ← perform (set_pglocale_pgservice (program i₁) (codes "postgres")) i₁
    i₃ ← init_locale (codes "LC_COLLATE") [] i₂
    i₄ ← init_locale (codes "LC_CTYPE") [] i₃
    i₅ ← init_locale (codes "LC_MESSAGES") [] i₄
    i₆ ← init_locale (codes "LC_MONETARY") (codes "C") i₅
    i₇ ← init_locale (codes "LC_NUMERIC") (codes "C") i₆
    i₈ ← init_locale (codes "LC_TIME") (codes "C") i₇
    some (set_env (unsetenv i₈.startup.env (codes "LC_ALL")) i₈)

  -- `setenv("PGUSER", PGUSER, 1)`
  abbrev pub set_pguser : Instance → Instance
  set_pguser i =
      set_env (setenv i.startup.env (codes "PGUSER") i.startup.pguser true) (set_optind (pos 1) i)

  -- After initdb: the single mode on template1.
  unfoldable pub restart : Instance → Option Instance
  unfolding perform setenv
  restart i =
      let argv =
        single_argv (some (h.wasm_prefix ++ codes "/bin/postgres")) i.startup.pgdata
          (some (codes "template1")) in
      perform (re_postgres_single_user_main argv i.startup.pguser) (set_pguser i)

  -- On a database that was there: the one that PGDATABASE names.
  unfoldable pub resume : Instance → Option Instance
  unfolding perform main_post setenv getenv
  resume i = do
    i₁ ← main_post i
    let database = getenv i₁.startup.env (codes "PGDATABASE")
    let argv = single_argv (program i₁) i₁.startup.pgdata database
    perform (async_postgres_single_user_main argv i₁.startup.pguser) (set_pguser i₁)

  unfoldable pub pgl_backend : Instance → Option Instance
  unfolding restart resume
  pgl_backend i = do
    started ← if i.async_restart then restart i else resume i
    some (record started { is_postmaster_environment = true })
