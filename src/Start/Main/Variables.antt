-- ===== src/Start/Main/Variables.antt =====
-- What a list of `setenv` makes of one variable, and the table of those that `main_pre` makes.
use pglite_build.Prelude.{
  ◌≡◌, refl, sym, ap, ◌∙◌, Bool, true, false, Option, none, some, List, [], ◌∷◌, ◌++◌, Bytes, codes,
  str_eq, str_eq_self, str_eq_sound, if◌then◌else◌, inl, inr, Bool-cases,
}
use pglite_build.Start.Env.{Environment, getenv, setenv, is_name}
use pglite_build.Start.Env.Lookup.{or_default, getenv-setenv, getenv-setenv_default}
use pglite_build.Start.Main.{Build, Rule, apply_rules, host_env}

abbrev pub or_else : Option Bytes → Option Bytes → Option Bytes
or_else none other = other
or_else (some v) other = some v

-- The value of one variable under rules, from the one it has.
abbrev pub settle : List Rule → Bytes → Option Bytes → Option Bytes
settle [] key found = found
settle ((name, value, overwrite) ∷ rules) key found = settle rules key (
    if str_eq name key
    then (if overwrite then some value else or_else found (some value))
    else found)

abbrev pub AreNamed : List Rule → Type 0
AreNamed [] = Unit {0}
AreNamed ((name, value, overwrite) ∷ rules) = (is_name name ≡ true) × AreNamed rules

pub some-or_default :
    (found : Option Bytes) (v : Bytes) → some (or_default found v) ≡ or_else found (some v)
some-or_default none v = refl
some-or_default (some w) v = refl

one_rule :
    (env : Environment) (name value key : Bytes) (overwrite : Bool)
    → is_name name ≡ true
    → getenv (setenv env name value overwrite) key ≡ (
        if str_eq name key
        then (if overwrite then some value else or_else (getenv env key) (some value))
        else getenv env key)
one_rule env name value key true h = getenv-setenv env name key value h
one_rule env name value key false h = getenv-setenv_default env name key value h ∙ here
  where
    here :
        (if str_eq name key then some (or_default (getenv env name) value) else getenv env key)
        ≡ (if str_eq name key then or_else (getenv env key) (some value) else getenv env key)
    here = elim (Bool-cases (str_eq name key)) [
      | inl same ↦
          rw (← str_eq_sound name key same)
            (rw (str_eq_self name) (some-or_default (getenv env name) value))
      | inr other ↦ rw other refl
    ]

pub apply_rules_lem :
    (rules : List Rule) (env : Environment) (key : Bytes)
    → AreNamed rules
    → getenv (apply_rules rules env) key ≡ settle rules key (getenv env key)
unfolding apply_rules
apply_rules_lem [] env key h = refl
apply_rules_lem ((name, value, overwrite) ∷ rules) env key h =
    apply_rules_lem rules (setenv env name value overwrite) key h.1
    ∙ ap (settle rules key) (one_rule env name value key overwrite h.0)

-- What `main_pre` sets after the arguments' variables.
abbrev pub main_pre_rules : Build → Bytes → List Rule
main_pre_rules b prefix =
    (codes "PREFIX", b.wasm_prefix, false) ∷ host_env b.is_node prefix
    ++ (codes "PGUSER", b.wasm_username, false)
      ∷ (codes "PGUSER", b.wasm_username, true)
      ∷ (codes "PGDATA", prefix ++ codes "/base", false)
      ∷ []

-- The variables that are set whatever the user says.
abbrev pub forced : Build → Bytes → Bytes → Option Bytes
forced b prefix key =
    if str_eq (codes "ENVIRONMENT") key
    then some (if b.is_node then codes "node" else codes "web")
    else if str_eq (codes "PGSYSCONFDIR") key
    then some prefix
    else if str_eq (codes "PGCLIENTENCODING") key
    then some (codes "UTF8")
    else if str_eq (codes "LC_CTYPE") key
    then some (codes "en_US.UTF-8")
    else if str_eq (codes "PGUSER") key
    then some b.wasm_username
    else none

-- Those that the user may set.
abbrev pub defaulted : Build → Bytes → Bytes → Option Bytes
defaulted b prefix key =
    if str_eq (codes "PREFIX") key
    then some b.wasm_prefix
    else if str_eq (codes "REPL") key
    then some (codes "N")
    else if str_eq (codes "TZ") key
    then some (codes "UTC")
    else if str_eq (codes "PGTZ") key
    then some (codes "UTC")
    else if str_eq (codes "PGDATABASE") key
    then some (codes "template1")
    else if str_eq (codes "PG_COLOR") key
    then some (codes "always")
    else if str_eq (codes "PGDATA") key
    then some (prefix ++ codes "/base")
    else none

pub by_name : {P : Type 0} (name key : Bytes) → (name ≡ key → P) → (str_eq name key ≡ false → P) → P
by_name name key same other = elim (Bool-cases (str_eq name key)) [
  | inl e ↦ same (str_eq_sound name key e)
  | inr e ↦ other e
]

abbrev pub AreOthers : List Rule → Bytes → Type 0
AreOthers [] key = Unit {0}
AreOthers ((name, value, overwrite) ∷ rules) key = (str_eq name key ≡ false) × AreOthers rules key

pub settle_others :
    (rules : List Rule) (key : Bytes) (found : Option Bytes)
    → AreOthers rules key
    → settle rules key found ≡ found
settle_others [] key found h = refl
settle_others ((name, value, overwrite) ∷ rules) key found (other, h) =
    rw other (settle_others rules key found h)

pub or_else-none : (found : Option Bytes) → or_else found none ≡ found
or_else-none none = refl
or_else-none (some v) = refl

pub settle_table :
    (b : Build) (prefix key : Bytes) (found : Option Bytes)
    → settle (main_pre_rules b prefix) key found
      ≡ or_else (forced b prefix key) (or_else found (defaulted b prefix key))
settle_table b prefix key found =
    by_name (codes "ENVIRONMENT") key (λ e. rw (← e) refl)
      (λ o₁.
        by_name (codes "PGSYSCONFDIR") key (λ e. rw (← e) refl)
          (λ o₂.
            by_name (codes "PGCLIENTENCODING") key (λ e. rw (← e) refl)
              (λ o₃.
                by_name (codes "LC_CTYPE") key (λ e. rw (← e) refl)
                  (λ o₄.
                    by_name (codes "PGUSER") key (λ e. rw (← e) refl)
                      (λ o₅.
                        by_name (codes "PREFIX") key (λ e. rw (← e) refl)
                          (λ o₆.
                            by_name (codes "REPL") key (λ e. rw (← e) refl)
                              (λ o₇.
                                by_name (codes "TZ") key (λ e. rw (← e) refl)
                                  (λ o₈.
                                    by_name (codes "PGTZ") key (λ e. rw (← e) refl)
                                      (λ o₉.
                                        by_name (codes "PGDATABASE") key (λ e. rw (← e) refl)
                                          (λ o₁₀.
                                            by_name (codes "PG_COLOR") key (λ e. rw (← e) refl)
                                              (λ o₁₁.
                                                by_name (codes "PGDATA") key (λ e. rw (← e) refl)
                                                  (λ o₁₂.
                                                    others
                                                      (
                                                        o₆,
                                                        (
                                                          o₁,
                                                          (
                                                            o₂,
                                                            (
                                                            o₃,
                                                            (
                                                            o₇,
                                                            (
                                                            o₄,
                                                            (
                                                            o₈,
                                                            (
                                                            o₉,
                                                            (o₁₀, (o₁₁, (o₅, (o₅, (o₁₂, (tt)))))),
                                                            ),
                                                            ),
                                                            ),
                                                            ),
                                                            ),
                                                          ),
                                                        ),
                                                      )
                                                      (rw (o₁, o₂, o₃, o₄, o₅) refl)
                                                      (rw (o₆, o₇, o₈, o₉, o₁₀, o₁₁, o₁₂)
                                                        refl)))))))))))))
  where
    others :
        AreOthers (main_pre_rules b prefix) key
        → forced b prefix key ≡ none
        → defaulted b prefix key ≡ none
        → settle (main_pre_rules b prefix) key found
          ≡ or_else (forced b prefix key) (or_else found (defaulted b prefix key))
    others h no_force no_default =
        settle_others (main_pre_rules b prefix) key found h
        ∙ rw (no_force, no_default) (sym (or_else-none found))
