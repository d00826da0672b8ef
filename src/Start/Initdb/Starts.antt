-- ===== src/Start/Initdb/Starts.antt =====
-- Which single-user main `pgl_backend` starts, on which database and for which user.
use pglite_build.Prelude.{
  ◌≡◌, inl, inr, refl, ◌∙◌, true, Option, some, List, [], ◌∷◌, ◌++◌, Bytes, codes, ℤ, pos,
  if◌then◌else◌, Bool-cases,
}
use pglite_build.Tools.{◌>>=◌}
use pglite_build.Start.Env.{Environment, getenv, unsetenv}
use pglite_build.Start.Env.Lookup.{getenv-unsetenv}
use pglite_build.Start.Initdb.{
  Host, Instance, Step, memory_context_init, set_pglocale_pgservice, pg_perm_setlocale, init_locale,
  re_postgres_single_user_main, async_postgres_single_user_main, perform, program, set_pguser,
  main_post, restart, resume, pgl_backend,
}
use pglite_build.Start.Initdb.Status.{Returning, moved}

-- No call of `main_post` changes PGDATABASE.
abbrev pub IsLocale : Step → Type 0
IsLocale memory_context_init = Unit {0}
IsLocale (set_pglocale_pgservice program domain) = Unit {0}
IsLocale (pg_perm_setlocale category locale) = Unit {0}
IsLocale _ = ⊥

abbrev pub Keeping : Host → Type 0
Keeping h =
    (steps : List Step) (c : Step) (env env' : Environment) (optind optind' : ℤ)
    → IsLocale c
    → h.after steps c env optind ≡ some (env', optind')
    → getenv env' (codes "PGDATABASE") ≡ getenv env (codes "PGDATABASE")

-- The "C" locale can always be set.
abbrev pub Portable : Host → Type 0
Portable h = (steps : List Step) (category : Bytes) → h.adopts steps category (codes "C") ≡ true

-- The calls for one category: "C" is asked for if the locale is not taken.
abbrev pub locale_calls : Host → Bytes → Bytes → List Step → List Step
locale_calls h category locale steps =
    if h.adopts steps category locale
    then pg_perm_setlocale category locale ∷ steps
    else pg_perm_setlocale category (codes "C") ∷ pg_perm_setlocale category locale ∷ steps

-- The calls of `main_post`, newest first.
abbrev pub preparation : Host → Instance → List Step
preparation h i = locale_calls h (codes "LC_TIME") (codes "C") (
    locale_calls h (codes "LC_NUMERIC") (codes "C") (
      locale_calls h (codes "LC_MONETARY") (codes "C") (
        locale_calls h (codes "LC_MESSAGES") [] (
          locale_calls h (codes "LC_CTYPE") [] (
            locale_calls h (codes "LC_COLLATE") [] (
              set_pglocale_pgservice (program i) (codes "postgres")
              ∷ memory_context_init
              ∷ i.steps))))))

module _ (h : Host) where
  -- The arguments after the program: the options, PGDATA, WASM_PGOPTS and the database.
  abbrev pub backend_args : Bytes → Option Bytes → List (Option Bytes)
  backend_args pgdata database =
      some (codes "--single")
      ∷ some (codes "-d")
      ∷ some (codes "1")
      ∷ some (codes "-B")
      ∷ some (codes "16")
      ∷ some (codes "-S")
      ∷ some (codes "512")
      ∷ some (codes "-f")
      ∷ some (codes "siobtnmh")
      ∷ some (codes "-D")
      ∷ some pgdata
      ∷ some (codes "-F")
      ∷ some (codes "-O")
      ∷ some (codes "-j")
      ∷ (h.wasm_pgopts ++ database ∷ [])

  -- The single mode on template1.
  abbrev pub single_start : Instance → Step
  single_start i =
      re_postgres_single_user_main
        (some (h.wasm_prefix ++ codes "/bin/postgres")
          ∷ backend_args i.startup.pgdata (some (codes "template1")))
        i.startup.pguser

  -- The start on a database, or on what the options say if there is none.
  abbrev pub start_on : Option Bytes → Instance → Step
  start_on database i =
      async_postgres_single_user_main (program i ∷ backend_args i.startup.pgdata database)
        i.startup.pguser

module _ (h : Host) (r : Returning h) (keep : Keeping h) (portable : Portable h) where
  -- The instance is `final` of an environment with the same PGDATABASE.
  abbrev MakesFrom : Environment → (Environment → ℤ → Instance) → Option Instance → Type 0
  MakesFrom start final result =
      (env : Environment) × (optind : ℤ) × (getenv env (codes "PGDATABASE")
        ≡ getenv start (codes "PGDATABASE"))
      × (result ≡ some (final env optind))

  locale-then :
      (start : Environment) (final : Environment → ℤ → Instance) (c : Step) (i : Instance)
      (k : Instance → Option Instance)
      → IsLocale c
      → getenv i.startup.env (codes "PGDATABASE") ≡ getenv start (codes "PGDATABASE")
      → ((env : Environment) (optind : ℤ)
          → getenv env (codes "PGDATABASE") ≡ getenv start (codes "PGDATABASE")
          → MakesFrom start final (k (moved i (c ∷ i.steps) env optind)))
      → MakesFrom start final (perform h c i >>= k)
  unfolding perform
  locale-then start final c i k is same m =
      let (env, optind, e) = r i.steps c i.startup.env i.optind in
      let now = keep i.steps c i.startup.env env i.optind optind is e ∙ same in
      let (env', optind', same', e') = m env optind now in (env', optind', same', rw e e')

  init_locale-moved :
      (category locale : Bytes) (i : Instance)
      → MakesFrom i.startup.env
          (moved i (locale_calls h category locale i.steps))
          (init_locale h category locale i)
  unfolding init_locale perform
  init_locale-moved category locale i =
      let c = pg_perm_setlocale category locale in
      let (env, optind, e) = r i.steps c i.startup.env i.optind in
      let now = keep i.steps c i.startup.env env i.optind optind tt e in
      let c' = pg_perm_setlocale category (codes "C") in
      let (env', optind', e') = r (c ∷ i.steps) c' env optind in
      let now' = keep (c ∷ i.steps) c' env env' optind optind' tt e' in
      elim (Bool-cases (h.adopts i.steps category locale)) [
        | inl taken ↦ (env, optind, now, rw (e, taken) refl)
        | inr refused ↦
            (env', optind', now' ∙ now, rw (e, refused, e', portable (c ∷ i.steps) category) refl)
      ]

  adopt-then :
      (start : Environment) (final : Environment → ℤ → Instance) (category locale : Bytes)
      (i : Instance) (k : Instance → Option Instance)
      → getenv i.startup.env (codes "PGDATABASE") ≡ getenv start (codes "PGDATABASE")
      → ((env : Environment) (optind : ℤ)
          → getenv env (codes "PGDATABASE") ≡ getenv start (codes "PGDATABASE")
          → MakesFrom start final (k (moved i (locale_calls h category locale i.steps) env optind)))
      → MakesFrom start final (init_locale h category locale i >>= k)
  adopt-then start final category locale i k same m =
      let (env, optind, kept, e) = init_locale-moved category locale i in
      let (env', optind', same', e') = m env optind (kept ∙ same) in (env', optind', same', rw e e')

  main_post-moved :
      (i : Instance)
      → MakesFrom i.startup.env (λ env optind. moved i (preparation h i) env optind) (main_post h i)
  unfolding main_post
  main_post-moved i = locale-then i.startup.env final _ _ _ tt refl λ e₁ o₁ k₁.
      locale-then i.startup.env final _ _ _ tt k₁ λ e₂ o₂ k₂.
        adopt-then i.startup.env final _ _ _ _ k₂ λ e₃ o₃ k₃.
          adopt-then i.startup.env final _ _ _ _ k₃ λ e₄ o₄ k₄.
            adopt-then i.startup.env final _ _ _ _ k₄ λ e₅ o₅ k₅.
              adopt-then i.startup.env final _ _ _ _ k₅ λ e₆ o₆ k₆.
                adopt-then i.startup.env final _ _ _ _ k₆ λ e₇ o₇ k₇.
                  adopt-then i.startup.env final _ _ _ _ k₇ λ e₈ o₈ k₈. (
                    unsetenv e₈ (codes "LC_ALL"),
                    o₈,
                    getenv-unsetenv e₈ (codes "LC_ALL") (codes "PGDATABASE") ∙ k₈,
                    refl,
                  )
    where
      final : Environment → ℤ → Instance
      final env optind = moved i (preparation h i) env optind

  -- If what it calls returns and the "C" locale can always be set, `pgl_backend` returns, in the
  -- postmaster's environment. After a restart it has run the single mode on template1; otherwise it has
  -- prepared the locale and started on the database that PGDATABASE names, if the locale's calls do
  -- not change that. The user is PGUSER's value in both cases.
  pub pgl_backend_lem :
      (i : Instance)
      → (i' : Instance) × (pgl_backend h i ≡ some i')
        × (i'.is_postmaster_environment ≡ true)
        × (i'.steps ≡ (
            if i.async_restart
            then single_start h i ∷ i.steps
            else start_on h (getenv i.startup.env (codes "PGDATABASE")) i ∷ preparation h i))
  unfolding pgl_backend restart resume
  pgl_backend_lem i = elim (Bool-cases i.async_restart) [
    | inl again ↦
        let (env, optind, e) = r i.steps (single_start h i) (set_pguser h i).startup.env (pos 1) in
        (
          record (moved (set_pguser h i) (single_start h i ∷ i.steps) env optind) {
            is_postmaster_environment = true;
          },
          rw (again, e) refl,
          refl,
          rw again refl,
        )
    | inr first ↦
        let (env, optind, same, e) = main_post-moved i in
        let ready = moved i (preparation h i) env optind in
        let start = start_on h (getenv env (codes "PGDATABASE")) i in
        let (env', optind', e') =
          r (preparation h i) start (set_pguser h ready).startup.env (pos 1) in
        (
          record (moved (set_pguser h ready) (start ∷ preparation h i) env' optind') {
            is_postmaster_environment = true;
          },
          rw (e, e', first) refl,
          refl,
          rw (same, first) refl,
        )
  ]
