-- ===== src/Start/Main/Ends.antt =====
-- What `main_pre` leaves in the environment and in the globals, and how `main` ends.
use pglite_build.Prelude.{
  ◌+◌, ◌<◌, ◌≡◌, refl, ◌∙◌, Bool, true, false, not, ◌&&◌, Option, none, some, List, ◌++◌, Bytes,
  codes, ◌==◌, if◌then◌else◌, length, arith, lt→ltb, ℕ, take, [], ◌∷◌,
}
use pglite_build.Tools.{◌>>=◌, strconcat, strcat_alloc, c_string, strops_buf}
use pglite_build.Tools.Concat.{NulFree, strcat_alloc_lem}
use pglite_build.Start.{arg_env}
use pglite_build.Start.Env.{Environment, has_equals, getenv, setenv}
use pglite_build.Start.Env.Lookup.{or_default, setdefault_lem}
use pglite_build.Start.Main.{
  Build, Startup, apply_rules, host_env, main_pre, main, wants_repl, stays_alive, forced_exit,
  replace_first,
}
use pglite_build.Start.Main.Variables.{
  or_else, some-or_default, main_pre_rules, forced, defaulted, apply_rules_lem, settle_table,
}

-- The buffer that `strconcat` fills holds the string that `strcat_alloc` copies.
strconcat_reads :
    (buf : List ℕ) (head tail : Bytes)
    → length buf ≡ strops_buf
    → NulFree head
    → NulFree tail
    → length head + length tail < strops_buf
    → (filled : List ℕ) × (strconcat buf head tail ≡ some filled) × (c_string filled ≡ head ++ tail)
strconcat_reads buf head tail size hh ht fits =
    go (strconcat buf head tail) refl
      (unfold strcat_alloc in strcat_alloc_lem buf head tail size hh ht ∙ rw (lt→ltb _ _ fits) refl)
  where
    go :
        (made : Option (List ℕ))
        → strconcat buf head tail ≡ made
        → (do filled ← made; some (c_string filled)) ≡ some (head ++ tail)
        → (filled : List ℕ) × (strconcat buf head tail ≡ some filled)
          × (c_string filled ≡ head ++ tail)
    go none e h = cc
    go (some filled) e h = (filled, e, cc)

-- The environment that the arguments leave, and the value of a variable in it or a default.
abbrev pub given : Startup → Bytes → Option Bytes
given s key = getenv (arg_env s.argv s.env) key

abbrev pub chosen : Startup → Bytes → Bytes → Bytes
chosen s key value = or_default (given s key) value

abbrev pub no_nul : Bytes → Bool
no_nul [] = true
no_nul (c ∷ s) = not (c == 0) && no_nul s

pub no_nul-NulFree : (s : Bytes) → no_nul s ≡ true → NulFree s
no_nul-NulFree [] h = tt
no_nul-NulFree (c ∷ s) h = ground (arith, no_nul-NulFree s)

-- The state at the end, if PREFIX is `prefix` and `tmpstr` holds `base`.
module _ (b : Build) (s : Startup) (prefix : Bytes) (base : List ℕ) where
  abbrev end_env : Environment
  end_env = apply_rules (main_pre_rules b prefix) (arg_env s.argv s.env)

  abbrev at_end : Startup
  at_end = record s {
    env = end_env;
    argv = replace_first s.argv (prefix ++ codes "/bin/postgres");
    prefix = prefix;
    pgdata = chosen s (codes "PGDATA") (prefix ++ codes "/base");
    pguser = chosen s (codes "PGUSER") b.wasm_username;
    tmpstr = base;
    is_repl = if b.is_node then s.is_repl else true;
    made = prefix ∷ codes "/tmp" ∷ s.made;
  }

  main_pre_runs :
      length b.uninit ≡ strops_buf
      → prefix ≡ chosen s (codes "PREFIX") b.wasm_prefix
      → NulFree prefix
      → length prefix + 13 < strops_buf
      → strconcat s.tmpstr prefix (codes "/base") ≡ some base
      → c_string base ≡ prefix ++ codes "/base"
      → main_pre b s ≡ some at_end
  unfolding main_pre apply_rules strcat_alloc
  main_pre_runs hu is free fits base_is base_reads =
      let e₀ = arg_env s.argv s.env in
      let e₁ = setenv e₀ (codes "PREFIX") b.wasm_prefix false in
      let e₂ = apply_rules (host_env b.is_node prefix) e₁ in
      let e₃ = setenv e₂ (codes "PGUSER") b.wasm_username false in
      let e₄ = setenv e₃ (codes "PGUSER") b.wasm_username true in
      let first = setdefault_lem e₀ (codes "PREFIX") b.wasm_prefix refl in
      let user = setdefault_lem e₂ (codes "PGUSER") b.wasm_username refl in
      let folder = setdefault_lem e₄ (codes "PGDATA") (prefix ++ codes "/base") refl in
      let (program, program_is, reads) =
        strconcat_reads b.uninit prefix (codes "/bin/postgres") hu free
          (no_nul-NulFree (codes "/bin/postgres") refl) (omega (arith, fits)) in
      let user_is : getenv e₂ (codes "PGUSER") ≡ getenv e₀ (codes "PGUSER") =
        apply_rules_lem (take 10 (main_pre_rules b prefix)) e₀ (codes "PGUSER") (ground arith) in
      let folder_is : getenv e₄ (codes "PGDATA") ≡ getenv e₀ (codes "PGDATA") =
        apply_rules_lem (take 12 (main_pre_rules b prefix)) e₀ (codes "PGDATA") (ground arith) in
      rw (first, ← is, program_is, reads, user, base_is, base_reads, folder, folder_is, user_is)
        refl

-- Every variable is what it is forced to be, or else what the arguments and the environment made
-- it, or else its default; PREFIX, PGDATA and PGUSER are the user's values or the defaults, and
-- argv[0] is the program.
abbrev pub IsConfigured : Build → Startup → Bytes → Startup → Type 0
IsConfigured b s prefix s' =
    ((key : Bytes)
      → getenv s'.env key
        ≡ or_else (forced b prefix key) (or_else (given s key) (defaulted b prefix key)))
    × (s'.prefix ≡ prefix)
    × (s'.pguser ≡ chosen s (codes "PGUSER") b.wasm_username)
    × (s'.pgdata ≡ chosen s (codes "PGDATA") (prefix ++ codes "/base"))
    × (s'.argv ≡ replace_first s.argv (prefix ++ codes "/bin/postgres"))

main_pre_lem :
    (b : Build) (s : Startup) (prefix : Bytes)
    → length b.uninit ≡ strops_buf
    → length s.tmpstr ≡ strops_buf
    → prefix ≡ chosen s (codes "PREFIX") b.wasm_prefix
    → NulFree prefix
    → length prefix + 13 < strops_buf
    → (s' : Startup) × (main_pre b s ≡ some s') × IsConfigured b s prefix s'
unfolding has_equals
main_pre_lem b s prefix hu ht is free fits =
    let (base, base_is, base_reads) =
      strconcat_reads s.tmpstr prefix (codes "/base") ht free (no_nul-NulFree (codes "/base") refl)
        (omega (arith, fits)) in
    (
      at_end b s prefix base,
      main_pre_runs b s prefix base hu is free fits base_is base_reads,
      (
        λ key.
            (apply_rules_lem (main_pre_rules b prefix) (arg_env s.argv s.env) key (ground arith)
              ∙ settle_table b prefix key (given s key)),
        refl,
        refl,
        refl,
        refl,
      ),
    )

-- The first byte, if there is one, is an N.
abbrev pub keeps_alive : Bytes → Bool
keeps_alive [] = true
keeps_alive (c ∷ value) = c == 78

wants_repl-keeps_alive : (value : Bytes) → wants_repl value ≡ not (keeps_alive value)
wants_repl-keeps_alive [] = refl
wants_repl-keeps_alive (c ∷ value) = refl

ends_by :
    (alive : Bool)
    → (if not alive then forced_exit else stays_alive)
      ≡ (if alive then stays_alive else forced_exit)
ends_by true = refl
ends_by false = refl

-- `main` ends without a fault if PREFIX has no NUL and fits a buffer with 13 bytes more, and it keeps
-- the runtime alive exactly when REPL, from the arguments or the environment and "N" if it is in
-- neither, is empty or begins with an N. Every variable is what it is forced to be, or else what the
-- arguments and the environment made it, or else its default; PREFIX, PGDATA and PGUSER are the user's
-- values or the defaults, although the variable PGUSER is the build's user; argv[0] is the program,
-- `is_repl` says that the runtime is not kept, and `is_embed` is set.
pub main_lem :
    (b : Build) (s : Startup) (prefix : Bytes)
    → length b.uninit ≡ strops_buf
    → length s.tmpstr ≡ strops_buf
    → prefix ≡ chosen s (codes "PREFIX") b.wasm_prefix
    → NulFree prefix
    → length prefix + 13 < strops_buf
    → (s' : Startup) × (main b s
        ≡ some (
          (if keeps_alive (chosen s (codes "REPL") (codes "N")) then stays_alive else forced_exit),
          s',
        ))
      × IsConfigured b s prefix s'
      × (s'.is_repl ≡ not (keeps_alive (chosen s (codes "REPL") (codes "N"))))
      × (s'.is_embed ≡ true)
unfolding main
main_lem b s prefix hu ht is free fits =
    let (s', runs, configured) = main_pre_lem b s prefix hu ht is free fits in
    let repl = chosen s (codes "REPL") (codes "N") in
    (
      record s' { is_repl = not (keeps_alive repl); is_embed = true },
      rw
          (
            runs,
            configured.0 (codes "REPL"),
            ← some-or_default (given s (codes "REPL")) (codes "N"),
            wants_repl-keeps_alive repl,
            ends_by (keeps_alive repl),
          )
          refl,
      configured,
      refl,
      refl,
    )
