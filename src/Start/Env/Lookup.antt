-- ===== src/Start/Env/Lookup.antt =====
-- What a variable holds after `setenv` and `setdefault`.
use pglite_build.Prelude.{
  ◌≡◌, refl, Bool, true, false, not, ◌&&◌, ◌||◌, Option, none, some, [], ◌∷◌, Bytes, str_eq,
  str_eq_self, str_eq_sound, if◌then◌else◌, inl, inr, Bool-cases,
}
use pglite_build.Start.Env.{
  Environment, is_name, getenv, put_env, unsetenv, is_set, setenv, setdefault,
}

-- The value, or a default.
abbrev pub or_default : Option Bytes → Bytes → Bytes
or_default none value = value
or_default (some v) value = v

pub getenv-put_env :
    (env : Environment) (key key' value : Bytes)
    → getenv (put_env env key value) key'
      ≡ (if str_eq key key' then some value else getenv env key')
unfolding getenv put_env
getenv-put_env [] key key' value = refl
getenv-put_env (s ∷ env) key key' value = elim (Bool-cases (str_eq (s.key) key)) [
  | inl same ↦ rw same (rw (str_eq_sound (s.key) key same) (merged (str_eq key key')))
  | inr differ ↦ rw differ (rw (getenv-put_env env key key' value) (ordered differ))
]
  where
    merged :
        (b : Bool)
        → (if b then some value else getenv env key')
          ≡ (if b then some value else (if b then some (s.value) else getenv env key'))
    merged true = refl
    merged false = refl

    ordered :
        str_eq (s.key) key ≡ false
        → (if str_eq (s.key) key'
            then some (s.value)
            else (if str_eq key key' then some value else getenv env key'))
          ≡ (if str_eq key key'
              then some value
              else (if str_eq (s.key) key' then some (s.value) else getenv env key'))
    ordered differ = elim (Bool-cases (str_eq key key')) [
      | inl same ↦ rw (← str_eq_sound key key' same) (rw (str_eq_self key, differ) refl)
      | inr other ↦ rw other refl
    ]

-- An overwriting `setenv` of a valid name.
pub getenv-setenv :
    (env : Environment) (key key' value : Bytes)
    → is_name key ≡ true
    → getenv (setenv env key value true) key'
      ≡ (if str_eq key key' then some value else getenv env key')
unfolding setenv
getenv-setenv env key key' value h = rw h (getenv-put_env env key key' value)

-- One that keeps what is set.
pub getenv-setenv_default :
    (env : Environment) (key key' value : Bytes)
    → is_name key ≡ true
    → getenv (setenv env key value false) key'
      ≡ (if str_eq key key' then some (or_default (getenv env key) value) else getenv env key')
unfolding setenv
getenv-setenv_default env key key' value h = rw h (go (getenv env key) refl)
  where
    go :
        (found : Option Bytes)
        → getenv env key ≡ found
        → getenv (if true && (false || not (is_set found)) then put_env env key value else env) key'
          ≡ (if str_eq key key' then some (or_default found value) else getenv env key')
    go none e = getenv-put_env env key key' value
    go (some v) e = elim (Bool-cases (str_eq key key')) [
      | inl same ↦ rw same (rw (← str_eq_sound key key' same) e)
      | inr other ↦ rw other refl
    ]

-- `setdefault` answers what is set, or the default.
pub setdefault_lem :
    (env : Environment) (key value : Bytes)
    → is_name key ≡ true
    → setdefault env key value
      ≡ some (or_default (getenv env key) value, setenv env key value false)
unfolding setdefault
setdefault_lem env key value h =
    rw (getenv-setenv_default env key key value h, str_eq_self key) refl

pub getenv-unsetenv :
    (env : Environment) (key key' : Bytes)
    → getenv (unsetenv env key) key' ≡ (if str_eq key key' then none else getenv env key')
unfolding getenv unsetenv
getenv-unsetenv [] key key' = elim (Bool-cases (str_eq key key')) [
  | inl same ↦ rw same refl
  | inr other ↦ rw other refl
]
getenv-unsetenv (s ∷ env) key key' = elim (Bool-cases (str_eq (s.key) key)) [
  | inl same ↦ rw same (rw (getenv-unsetenv env key key') (skipped same))
  | inr other ↦ rw other (rw (getenv-unsetenv env key key') (ordered other))
]
  where
    skipped :
        str_eq (s.key) key ≡ true
        → (if str_eq key key' then none else getenv env key') ≡ (
            if str_eq key key'
            then none
            else (if str_eq (s.key) key' then some (s.value) else getenv env key'))
    skipped same = rw (str_eq_sound (s.key) key same) (twice (str_eq key key'))
      where
        twice :
            (b : Bool)
            → (if b then none else getenv env key')
              ≡ (if b then none else (if b then some (s.value) else getenv env key'))
        twice true = refl
        twice false = refl

    ordered :
        str_eq (s.key) key ≡ false
        → (if str_eq (s.key) key'
            then some (s.value)
            else (if str_eq key key' then none else getenv env key'))
          ≡ (if str_eq key key'
              then none
              else (if str_eq (s.key) key' then some (s.value) else getenv env key'))
    ordered other = elim (Bool-cases (str_eq key key')) [
      | inl same ↦ rw (← str_eq_sound key key' same) (rw (str_eq_self key, other) refl)
      | inr differ ↦ rw differ refl
    ]
