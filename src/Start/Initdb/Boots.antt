-- ===== src/Start/Initdb/Boots.antt =====
-- `main`, `pgl_initdb` and `pgl_backend` together: which database is started, and for which user.
use pglite_build.Prelude.{
  ◌+◌, ◌<◌, ◌≡◌, refl, sym, ap, ◌∙◌, Bool, true, false, not, ◌&&◌, Option, none, some, List, [],
  ◌∷◌, ◌++◌, Bytes, codes, pos, if◌then◌else◌, length, inl,
}
use pglite_build.Tools.{strops_buf}
use pglite_build.Tools.Concat.{NulFree}
use pglite_build.Start.Env.{getenv}
use pglite_build.Start.Main.{Build, Startup, main, stays_alive, replace_first}
use pglite_build.Start.Main.Variables.{some-or_default}
use pglite_build.Start.Main.Ends.{main_lem, IsConfigured, given, chosen, keeps_alive}
use pglite_build.Start.Initdb.{
  Host, Instance, Step, re_postgres_single_user_main, async_postgres_single_user_main, first_arg,
  pgl_initdb, pgl_backend,
}
use pglite_build.Start.Initdb.Status.{Returning, found_database, pgl_initdb_lem}
use pglite_build.Start.Initdb.Starts.{
  Keeping, Portable, backend_args, single_start, start_on, preparation, pgl_backend_lem,
}

-- The initial values of the globals of pg_main.c, after `main`.
abbrev pub fresh : Startup → Instance
fresh s = record {
  startup = s;
  pgl_idb_status = 0;
  async_restart = true;
  optind = pos 1;
  is_postmaster_environment = false;
  steps = [];
}

abbrev pub newest : List Step → Option Step
newest [] = none
newest (c ∷ steps) = some c

module _ (b : Build) (h : Host) (s : Startup) (prefix : Bytes) where
  -- PGUSER and PGDATA, and whether the database is there.
  abbrev pub user : Bytes
  user = chosen s (codes "PGUSER") b.wasm_username

  abbrev pub folder : Bytes
  folder = chosen s (codes "PGDATA") (prefix ++ codes "/base")

  abbrev pub is_there : Bool
  is_there = h.has_folder [] folder && h.has_version [] folder

  -- The single mode on template1 if the database was made, else the start on what PGDATABASE names.
  abbrev pub expected_start : Step
  expected_start =
      if is_there
      then async_postgres_single_user_main
          (first_arg (replace_first s.argv (prefix ++ codes "/bin/postgres"))
            ∷ backend_args h folder (some (chosen s (codes "PGDATABASE") (codes "template1"))))
          user
      else re_postgres_single_user_main
          (some (h.wasm_prefix ++ codes "/bin/postgres")
            ∷ backend_args h folder (some (codes "template1")))
          user

  last_start :
      (s' : Startup) (i : Instance)
      → IsConfigured b s prefix s'
      → (found : Bool) → is_there ≡ found
      → i.async_restart ≡ not found
      → i.startup ≡ (if found then s' else record s' { env = i.startup.env })
      → newest (
          if i.async_restart
          then single_start h i ∷ i.steps
          else start_on h (getenv i.startup.env (codes "PGDATABASE")) i ∷ preparation h i)
        ≡ some expected_start
  last_start s' i (vars, prefix_is, user_is, folder_is, argv_is) true there restarts startup_is =
      let named =
        vars (codes "PGDATABASE")
        ∙ sym (some-or_default (given s (codes "PGDATABASE")) (codes "template1")) in
      rw (there, restarts, startup_is, named, user_is, folder_is, argv_is) refl
  last_start s' i (vars, prefix_is, user_is, folder_is, argv_is) false there restarts startup_is =
      rw
        (
          there,
          restarts,
          ap (λ x. x.pguser) startup_is,
          ap (λ x. x.pgdata) startup_is,
          user_is,
          folder_is,
        )
        refl

  -- If REPL keeps the runtime alive, that is, it is empty or begins with an N, as by default, if
  -- PREFIX has no NUL and fits a buffer with 13 bytes more, if every call returns, and if the
  -- locale's calls leave PGDATABASE alone and can always set the "C" locale, then `main` keeps the
  -- runtime, `pgl_initdb` and `pgl_backend` return one after the other, and the last call of all is
  -- the start of the backend: on the database that PGDATABASE names ("template1" by default) if
  -- PGDATA has one, and in single mode on template1 if it had to be made, for the user that PGUSER
  -- names or the build's.
  pub main-pgl_backend :
      length b.uninit ≡ strops_buf
      → length s.tmpstr ≡ strops_buf
      → prefix ≡ chosen s (codes "PREFIX") b.wasm_prefix
      → NulFree prefix
      → length prefix + 13 < strops_buf
      → Returning h
      → Keeping h
      → Portable h
      → keeps_alive (chosen s (codes "REPL") (codes "N")) ≡ true
      → (s' : Startup) × (i i' : Instance) × (main b s ≡ some (stays_alive, s'))
        × (pgl_initdb h (fresh s') ≡ some (i.pgl_idb_status, i))
        × (pgl_backend h i ≡ some i')
        × (newest i'.steps ≡ some expected_start)
  main-pgl_backend hu ht is free fits r keep portable alive =
      let (s', ends, configured, _, _) = main_lem b s prefix hu ht is free fits in
      let (i, initialised, done, restarts, steps_are, startup_is) =
        pgl_initdb_lem h r (fresh s') (inl refl) in
      let (i', started, _, calls) = pgl_backend_lem h r keep portable i in
      let there : found_database h (fresh s') ≡ is_there = rw (configured.3) refl in
      (
        s',
        i,
        i',
        ends ∙ rw alive refl,
        initialised,
        started,
        ap newest calls
            ∙ last_start s' i configured is_there refl (restarts ∙ ap not there)
                (rw there at startup_is),
      )
