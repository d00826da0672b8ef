-- ===== src/Start/Initdb/Tests.antt =====
-- The theorems on the start of the backend, on a host where every call returns.
use pglite_build.Prelude.{
  ◌≡◌, refl, sym, ap, Bool, true, false, some, [], ◌∷◌, codes, inl, zeros, str_eq, arith,
}
use pglite_build.Tools.{strops_buf}
use pglite_build.Start.{arg_env}
use pglite_build.Start.Env.{getenv}
use pglite_build.Start.Main.{Build, Startup, main, stays_alive}
use pglite_build.Start.Main.Ends.{no_nul-NulFree}
use pglite_build.Start.Initdb.{Host, Instance, pgl_initdb, pgl_backend}
use pglite_build.Start.Initdb.Status.{Returning, IsDone, creation, pgl_initdb_lem}
use pglite_build.Start.Initdb.Starts.{Keeping, Portable, single_start, pgl_backend_lem}
use pglite_build.Start.Initdb.Boots.{fresh, newest, expected_start, main-pgl_backend}

-- There is a folder, with a database in it or not, and no call changes anything;
-- only the "C" locale is there.
abbrev host : Bool → Host
host has_version = record {
  has_folder = λ steps path. true;
  has_version = λ steps path. has_version;
  adopts = λ steps category locale. str_eq locale (codes "C");
  after = λ steps c env optind. some (env, optind);
  wasm_prefix = codes "/tmp/pglite";
  wasm_pgopts = [];
}

host-Returning : (has_version : Bool) → Returning (host has_version)
host-Returning has_version steps c env optind = (env, optind, refl)

host-Keeping : (has_version : Bool) → Keeping (host has_version)
host-Keeping has_version steps c env env' optind optind' is e =
    let same : env ≡ env' = cc in ap (λ x. getenv x (codes "PGDATABASE")) (sym same)

host-Portable : (has_version : Bool) → Portable (host has_version)
host-Portable has_version steps category = refl

abbrev build : Build
build = record {
  wasm_prefix = codes "/tmp/pglite";
  wasm_username = codes "postgres";
  is_node = true;
  uninit = zeros strops_buf;
}

-- `postgres PGDATABASE=shop`
abbrev shop_start : Startup
shop_start = record {
  env = [];
  argv = codes "postgres" ∷ codes "PGDATABASE=shop" ∷ [];
  prefix = [];
  pgdata = codes "/tmp/pglite/base";
  pguser = codes "postgres";
  tmpstr = zeros strops_buf;
  is_repl = true;
  is_embed = false;
  made = [];
}

pgl_initdb_lem_example :
    (i' : Instance) × (pgl_initdb (host false) (fresh shop_start) ≡ some (i'.pgl_idb_status, i'))
    × IsDone false i'
    × (i'.async_restart ≡ true)
    × (i'.steps ≡ creation (host false) (fresh shop_start))
    × (i'.startup ≡ record shop_start { env = i'.startup.env })
pgl_initdb_lem_example =
    pgl_initdb_lem (host false) (host-Returning false) (fresh shop_start) (inl refl)

pgl_backend_lem_example :
    (i' : Instance) × (pgl_backend (host false) (fresh shop_start) ≡ some i')
    × (i'.is_postmaster_environment ≡ true)
    × (i'.steps ≡ single_start (host false) (fresh shop_start) ∷ [])
pgl_backend_lem_example =
    pgl_backend_lem (host false) (host-Returning false) (host-Keeping false) (host-Portable false)
      (fresh shop_start)

main-pgl_backend_example :
    (s' : Startup) × (i i' : Instance) × (main build shop_start ≡ some (stays_alive, s'))
    × (pgl_initdb (host true) (fresh s') ≡ some (i.pgl_idb_status, i))
    × (pgl_backend (host true) i ≡ some i')
    × (newest i'.steps ≡ some (expected_start build (host true) shop_start (codes "/tmp/pglite")))
unfolding arg_env
main-pgl_backend_example =
    main-pgl_backend build (host true) shop_start (codes "/tmp/pglite") refl refl refl
      (no_nul-NulFree (codes "/tmp/pglite") refl) (omega arith) (host-Returning true)
      (host-Keeping true) (host-Portable true) refl
