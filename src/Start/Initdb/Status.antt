-- ===== src/Start/Initdb/Status.antt =====
-- What `pgl_initdb` returns.
use pglite_build.Prelude.{
  ℕ, ◌≡◌, ◌⊎◌, inl, inr, refl, Bool, true, false, not, ◌&&◌, ◌||◌, Option, some, List, ◌∷◌, codes,
  ℤ, pos, gt_zero, bit_and, bit_or, if◌then◌else◌, ◌==◌, Bool-cases,
}
use mathlib.Core.Path.{subst}
use pglite_build.Tools.{◌>>=◌}
use pglite_build.Start.Env.{Environment}
use pglite_build.Start.Initdb.{
  Host, Instance, Step, pgl_initdb_main, save_stdin, feed_boot_file, set_pglocale_pgservice,
  bootstrap_mode_main, close_stdin, remove_boot_file, restore_stdin, pg_proc_exit, perform,
  boot_argv, program, set_env, create_database, initdb_done, pgl_initdb, set_optind, add_status,
  idb_failed, idb_called, idb_hasdb, idb_hasuser, idb_ok,
}

-- The values of the status before and between calls of `pgl_initdb`.
abbrev pub IsStatus : ℕ → Type 0
IsStatus n = (n ≡ 0) ⊎ (n ≡ 2) ⊎ (n ≡ 3) ⊎ (n ≡ 14) ⊎ (n ≡ 15)

abbrev pub has_bit : ℕ → ℕ → Bool
has_bit n bit = bit_and n bit == bit

-- The database is there.
abbrev pub found_database : Host → Instance → Bool
found_database h i = h.has_folder i.steps i.startup.pgdata && h.has_version i.steps i.startup.pgdata

-- The values of the status while `pgl_initdb` runs.
abbrev pub IsOpen : ℕ → Type 0
IsOpen n = (n ≡ 1) ⊎ (n ≡ 3) ⊎ (n ≡ 13) ⊎ (n ≡ 15)

-- The status of an instance when `pgl_initdb` ends, `had` telling whether a database was known.
abbrev pub IsDone : Bool → Instance → Type 0
IsDone had i =
    IsStatus i.pgl_idb_status
    × (has_bit i.pgl_idb_status idb_called ≡ true)
    × (has_bit i.pgl_idb_status idb_failed ≡ not (gt_zero i.optind))
    × (has_bit i.pgl_idb_status idb_hasdb ≡ had)

IsOpen-start : (n : ℕ) → IsStatus n → IsOpen (bit_or n idb_failed)
IsOpen-start n (inl e) = rw e (inl refl)
IsOpen-start n (inr (inl e)) = rw e (inr (inl refl))
IsOpen-start n (inr (inr (inl e))) = rw e (inr (inl refl))
IsOpen-start n (inr (inr (inr (inl e)))) = rw e (inr (inr (inr refl)))
IsOpen-start n (inr (inr (inr (inr e)))) = rw e (inr (inr (inr refl)))

IsOpen-found : (n : ℕ) → IsOpen n → IsOpen (bit_or (bit_or n idb_hasdb) idb_hasuser)
IsOpen-found n (inl e) = rw e (inr (inr (inl refl)))
IsOpen-found n (inr (inl e)) = rw e (inr (inr (inr refl)))
IsOpen-found n (inr (inr (inl e))) = rw e (inr (inr (inl refl)))
IsOpen-found n (inr (inr (inr e))) = rw e (inr (inr (inr refl)))

start_hasdb : (n : ℕ) → IsStatus n → has_bit (bit_or n idb_failed) idb_hasdb ≡ has_bit n idb_hasdb
start_hasdb n (inl e) = rw e refl
start_hasdb n (inr (inl e)) = rw e refl
start_hasdb n (inr (inr (inl e))) = rw e refl
start_hasdb n (inr (inr (inr (inl e)))) = rw e refl
start_hasdb n (inr (inr (inr (inr e)))) = rw e refl

found_hasdb :
    (n : ℕ) → IsOpen n → has_bit (bit_or (bit_or n idb_hasdb) idb_hasuser) idb_hasdb ≡ true
found_hasdb n (inl e) = rw e refl
found_hasdb n (inr (inl e)) = rw e refl
found_hasdb n (inr (inr (inl e))) = rw e refl
found_hasdb n (inr (inr (inr e))) = rw e refl

-- The facts of `IsDone`, with the failed bit `failed`.
abbrev DoneAs : Bool → Bool → ℕ → Type 0
DoneAs had failed n =
    IsStatus n
    × (has_bit n idb_called ≡ true)
    × (has_bit n idb_failed ≡ failed)
    × (has_bit n idb_hasdb ≡ had)

cleared :
    (n : ℕ) → IsOpen n → DoneAs (has_bit n idb_hasdb) false (bit_and (bit_or n idb_called) idb_ok)
cleared n (inl e) = rw e (inr (inl refl), refl, refl, refl)
cleared n (inr (inl e)) = rw e (inr (inl refl), refl, refl, refl)
cleared n (inr (inr (inl e))) = rw e (inr (inr (inr (inl refl))), refl, refl, refl)
cleared n (inr (inr (inr e))) = rw e (inr (inr (inr (inl refl))), refl, refl, refl)

kept : (n : ℕ) → IsOpen n → DoneAs (has_bit n idb_hasdb) true (bit_or n idb_called)
kept n (inl e) = rw e (inr (inr (inl refl)), refl, refl, refl)
kept n (inr (inl e)) = rw e (inr (inr (inl refl)), refl, refl, refl)
kept n (inr (inr (inl e))) = rw e (inr (inr (inr (inr refl))), refl, refl, refl)
kept n (inr (inr (inr e))) = rw e (inr (inr (inr (inr refl))), refl, refl, refl)

initdb_done-IsDone :
    (h : Host) (i : Instance)
    → IsOpen i.pgl_idb_status
    → IsDone (has_bit i.pgl_idb_status idb_hasdb) (initdb_done h i)
unfolding initdb_done
initdb_done-IsDone h i k = elim (Bool-cases (gt_zero i.optind)) [
  | inl done ↦ rw done (cleared i.pgl_idb_status k)
  | inr failed ↦ rw (failed, failed) (kept i.pgl_idb_status k)
]

initdb_done_keeps :
    (h : Host) (i : Instance)
    → ((initdb_done h i).async_restart ≡ i.async_restart)
      × ((initdb_done h i).steps ≡ i.steps)
      × ((initdb_done h i).startup ≡ i.startup)
unfolding initdb_done
initdb_done_keeps h i = elim (Bool-cases (gt_zero i.optind)) [
  | inl done ↦ rw done (refl, refl, refl)
  | inr failed ↦ rw failed (refl, refl, refl)
]

-- Every call returns.
abbrev pub Returning : Host → Type 0
Returning h =
    (steps : List Step) (c : Step) (env : Environment) (optind : ℤ)
    → (env' : Environment) × (optind' : ℤ) × (h.after steps c env optind ≡ some (env', optind'))

-- An instance after calls, which leave an environment and `optind`.
abbrev pub moved : Instance → List Step → Environment → ℤ → Instance
moved i steps env optind = record (set_env env i) { optind = optind; steps = steps }

module _ (h : Host) where
  -- The calls that create the database, newest first.
  abbrev pub creation : Instance → List Step
  creation i =
      pg_proc_exit 66
      ∷ restore_stdin
      ∷ remove_boot_file
      ∷ close_stdin
      ∷ bootstrap_mode_main (boot_argv h i)
      ∷ set_pglocale_pgservice (program i) (codes "initdb")
      ∷ feed_boot_file
      ∷ save_stdin
      ∷ pgl_initdb_main
      ∷ i.steps

  abbrev created : Instance → Environment → ℤ → Instance
  created i env optind = record (moved i (creation i) env optind) { async_restart = true }

module _ (h : Host) (r : Returning h) where
  pub perform-moved :
      (c : Step) (i : Instance)
      → (env : Environment) × (optind : ℤ) × (perform h c i
          ≡ some (moved i (c ∷ i.steps) env optind))
  unfolding perform
  perform-moved c i =
      let (env, optind, e) = r i.steps c i.startup.env i.optind in (env, optind, rw e refl)

  -- The instance is `final` of some environment and `optind`.
  abbrev pub Makes : (Environment → ℤ → Instance) → Option Instance → Type 0
  Makes final result = (env : Environment) × (optind : ℤ) × (result ≡ some (final env optind))

  pub perform-then :
      (final : Environment → ℤ → Instance) (c : Step) (i : Instance)
      (k : Instance → Option Instance)
      → ((env : Environment) (optind : ℤ) → Makes final (k (moved i (c ∷ i.steps) env optind)))
      → Makes final (perform h c i >>= k)
  perform-then final c i k m =
      let (env, optind, e) = perform-moved c i in
      let (env', optind', e') = m env optind in (env', optind', rw e e')

  create_database-moved : (i : Instance) → Makes (created h i) (create_database h i)
  unfolding create_database
  create_database-moved i = perform-then (created h i) _ _ _ λ e₁ o₁.
      perform-then (created h i) _ _ _ λ e₂ o₂. perform-then (created h i) _ _ _ λ e₃ o₃.
        perform-then (created h i) _ _ _ λ e₄ o₄. perform-then (created h i) _ _ _ λ e₅ o₅.
          perform-then (created h i) _ _ _ λ e₆ o₆. perform-then (created h i) _ _ _ λ e₇ o₇.
            perform-then (created h i) _ _ _
              λ e₈ o₈. perform-then (created h i) _ _ _ λ e₉ o₉. (e₉, o₉, refl)

  -- From a status that is zero or that it left, `pgl_initdb` returns the status, if what it calls returns.
  -- The status has the CALLED bit, the FAILED bit exactly when `optind` is not positive, and the HASDB
  -- bit if the database was found now or before. A database that is found is left alone, and
  -- `pgl_backend` will resume it; otherwise initdb and then the bootstrap mode run, and `pgl_backend`
  -- will restart.
  pub pgl_initdb_lem :
      (i : Instance)
      → IsStatus i.pgl_idb_status
      → (i' : Instance) × (pgl_initdb h i ≡ some (i'.pgl_idb_status, i'))
        × IsDone (found_database h i || has_bit i.pgl_idb_status idb_hasdb) i'
        × (i'.async_restart ≡ not (found_database h i))
        × (i'.steps ≡ (if found_database h i then i.steps else creation h i))
        × (i'.startup ≡ (
            if found_database h i then i.startup else record (i.startup) { env = i'.startup.env }))
  unfolding pgl_initdb initdb_done
  pgl_initdb_lem i k = elim (Bool-cases (found_database h i)) [
    | inl found ↦
        let resumed = record (add_status idb_hasuser (add_status idb_hasdb begun)) {
          async_restart = false;
        } in
        (
          initdb_done h resumed,
          rw found refl,
          rw found (
              subst (λ had. IsDone had (initdb_done h resumed)) (found_hasdb _ opened)
                (initdb_done-IsDone h resumed (IsOpen-found _ opened))),
          rw found refl,
          rw found refl,
          rw found refl,
        )
    | inr absent ↦
        let (env, optind, runs) = create_database-moved begun in
        let made = created h begun env optind in
        let (same_restart, same_steps, same_startup) = initdb_done_keeps h made in
        (
          initdb_done h made,
          rw (absent, runs) refl,
          rw absent (
              subst (λ had. IsDone had (initdb_done h made)) (start_hasdb _ k)
                (initdb_done-IsDone h made opened)),
          rw absent same_restart,
          rw absent same_steps,
          rw absent (rw same_startup refl),
        )
  ]
    where
      begun : Instance
      begun = add_status idb_failed (set_optind (pos 1) i)

      opened : IsOpen (bit_or i.pgl_idb_status idb_failed)
      opened = IsOpen-start i.pgl_idb_status k
