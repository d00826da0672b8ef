-- ===== src/Embed/Host/Env.antt =====
-- What `pre_main` leaves in the environment and in the globals.
use native.Mathlib.Nat.{div_self}
use pglite_build.Prelude.{
  ℕ, ◌<◌, ◌-◌, ◌/◌, ◌+◌, ◌*◌, ◌≡◌, refl, sym, ap, ◌∙◌, true, Option, none, some, List, ◌++◌, Bytes,
  codes, str_eq, length, if◌then◌else◌, arith, inl, inr, Bool-cases,
}
use pglite_build.Start.Env.{has_equals, getenv}
use pglite_build.Start.Main.{apply_rules}
use pglite_build.Start.Main.Variables.{
  or_else, settle, by_name, settle_others, or_else-none, apply_rules_lem,
}
use pglite_build.Embed.{Argv}
use pglite_build.Embed.Block.{AllNulFree, read_argv, copy_argv-read_argv}
use pglite_build.Embed.Host.{Runtime, Embedded, embed_rules, wasm_prefix, wasm_username, pre_main}

-- The variables that are set whatever they were.
abbrev pub pinned : Bytes → Option Bytes
pinned key =
    if str_eq (codes "EMBED") key
    then some (codes "wasi")
    else if str_eq (codes "REPL") key
    then some (codes "N")
    else if str_eq (codes "PGSYSCONFDIR") key
    then some wasm_prefix
    else if str_eq (codes "PGCLIENTENCODING") key
    then some (codes "UTF8")
    else if str_eq (codes "TZ") key
    then some (codes "UTC")
    else if str_eq (codes "PGTZ") key
    then some (codes "UTC")
    else if str_eq (codes "PGUSER") key
    then some wasm_username
    else if str_eq (codes "PGDATA") key
    then some (wasm_prefix ++ codes "/base")
    else if str_eq (codes "PGDATABASE") key
    then some (codes "template1")
    else none

abbrev pub unset_default : Bytes → Option Bytes
unset_default key = if str_eq (codes "PG_COLOR") key then some (codes "always") else none

embed_table :
    (key : Bytes) (found : Option Bytes)
    → settle embed_rules key found ≡ or_else (pinned key) (or_else found (unset_default key))
embed_table key found =
    by_name (codes "EMBED") key (λ e. rw (← e) refl)
      (λ o₁.
        by_name (codes "REPL") key (λ e. rw (← e) refl)
          (λ o₂.
            by_name (codes "PGSYSCONFDIR") key (λ e. rw (← e) refl)
              (λ o₃.
                by_name (codes "PGCLIENTENCODING") key (λ e. rw (← e) refl)
                  (λ o₄.
                    by_name (codes "TZ") key (λ e. rw (← e) refl)
                      (λ o₅.
                        by_name (codes "PGTZ") key (λ e. rw (← e) refl)
                          (λ o₆.
                            by_name (codes "PGUSER") key (λ e. rw (← e) refl)
                              (λ o₇.
                                by_name (codes "PGDATA") key (λ e. rw (← e) refl)
                                  (λ o₈.
                                    by_name (codes "PGDATABASE") key (λ e. rw (← e) refl)
                                      (λ o₉.
                                        by_name (codes "PG_COLOR") key (λ e. rw (← e) refl)
                                          (λ o₁₀.
                                            settle_others embed_rules key found (
                                              o₁,
                                              (
                                                o₂,
                                                (o₃, (o₄, (o₅, (o₆, (o₇, (o₈, (o₉, (o₁₀, tt)))))))),
                                              ),
                                            )
                                            ∙ rw (o₁, o₂, o₃, o₄, o₅, o₆, o₇, o₈, o₉, o₁₀)
                                                (sym (or_else-none found))))))))))))

-- The arguments are copied, the environment is pinned, and no argument is counted.
abbrev pub IsPrepared : Runtime → List Bytes → Embedded → Embedded → Type 0
IsPrepared r argv s s' =
    ((key : Bytes)
      → getenv s'.env key ≡ or_else (pinned key) (or_else (getenv s.env key) (unset_default key)))
    × (s'.g_argc ≡ 0)
    × ((a : Argv) × (s'.g_argv ≡ some a)
        × (read_argv ((length argv + 1) * r.pointer_size) a.pointers a.bytes ≡ argv))

-- If a pointer has a size and `malloc` gives what it is asked for, `pre_main` copies its arguments,
-- sets all but one of its variables whatever they were and PG_COLOR if it was not set, and leaves
-- `g_argc` at zero, however many arguments there are.
pub pre_main-IsPrepared :
    (r : Runtime) (argv : List Bytes) (s : Embedded)
    → 0 < r.pointer_size
    → ((n : ℕ) → length (r.uninit n) ≡ n)
    → AllNulFree argv
    → (status : ℕ) × (s' : Embedded) × (pre_main r argv s ≡ some (status, s'))
      × IsPrepared r argv s s'
unfolding pre_main has_equals
pre_main-IsPrepared r argv s wide sized free =
    let (a, copied, reads, _) = copy_argv-read_argv r.pointer_size r.uninit argv sized free in
    let env = apply_rules embed_rules s.env in
    let count = r.pointer_size / r.pointer_size - 1 in
    let ready = record s { env = env; g_argv = some a; g_argc = count } in
    let variables : (key : Bytes)
        → getenv env key ≡ or_else (pinned key) (or_else (getenv s.env key) (unset_default key)) =
      λ key.
        (apply_rules_lem embed_rules s.env key (ground arith)
          ∙ embed_table key (getenv s.env key)) in
    let none_counted : count ≡ 0 = ap (λ n. n - 1) (div_self wide) in
    elim (Bool-cases (r.wasi_init count a env)) [
      | inl up ↦ elim (Bool-cases r.wasi_file_descriptor_add) [
        | inl rooted ↦ (
          0,
          record ready { instantiated = true },
          rw (copied, up, rooted) refl,
          (variables, none_counted, (a, refl, reads)),
        )
        | inr bare ↦
            (1, ready, rw (copied, up, bare) refl, (variables, none_counted, (a, refl, reads)))
      ]
      | inr down ↦ (1, ready, rw (copied, down) refl, (variables, none_counted, (a, refl, reads)))
    ]
