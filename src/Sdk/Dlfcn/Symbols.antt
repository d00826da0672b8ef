-- ===== src/Sdk/Dlfcn/Symbols.antt =====
-- What `dlsym` and `ends_with` of sdk_port-wasi-dlfcn.c decide.
use pglite_build.Prelude.{
  drop-append, ◌-◌, ◌≤◌, ◌≡◌, refl, sym, ◌↔◌, Bool, true, false, Option, none, some, [], ◌∷◌, ◌++◌,
  Bytes, codes, str_eq, str_eq_sound, length, take, drop, length-append, length-drop,
  take-append-drop, append-nil, if◌then◌else◌, arith, ◌∙◌, ap,
}
use pglite_build.Tools.Prefix.{strncmp_eq-append, strncmp_eq-split}
use pglite_build.Sdk.Dlfcn.{
  ends_with, Symbol, stub_pg_magic_func, stub_pg_init, dsnowball_init, pg_finfo_dsnowball_init,
  pg_finfo_dsnowball_lexize, pg_finfo_plpgsql_call_handler, pg_finfo_plpgsql_inline_handler,
  pg_finfo_plpgsql_validator, plpgsql_call_handler, plpgsql_inline_handler, plpgsql_validator,
  dlsym,
}

-- The name under which a function is found.
abbrev name_of : Symbol → Bytes
name_of stub_pg_magic_func = codes "Pg_magic_func"
name_of stub_pg_init = codes "_PG_init"
name_of dsnowball_init = codes "dsnowball_init"
name_of pg_finfo_dsnowball_init = codes "pg_finfo_dsnowball_init"
name_of pg_finfo_dsnowball_lexize = codes "pg_finfo_dsnowball_lexize"
name_of pg_finfo_plpgsql_call_handler = codes "pg_finfo_plpgsql_call_handler"
name_of pg_finfo_plpgsql_inline_handler = codes "pg_finfo_plpgsql_inline_handler"
name_of pg_finfo_plpgsql_validator = codes "pg_finfo_plpgsql_validator"
name_of plpgsql_call_handler = codes "plpgsql_call_handler"
name_of plpgsql_inline_handler = codes "plpgsql_inline_handler"
name_of plpgsql_validator = codes "plpgsql_validator"

named :
    (symbol : Bytes) (s x : Symbol) (rest : Option Symbol)
    → (rest ≡ some s → symbol ≡ name_of s)
    → (if str_eq symbol (name_of x) then some x else rest) ≡ some s
    → symbol ≡ name_of s
named symbol s x rest later e = go (str_eq symbol (name_of x)) refl e
  where
    go :
        (b : Bool)
        → str_eq symbol (name_of x) ≡ b
        → (if b then some x else rest) ≡ some s
        → symbol ≡ name_of s
    go true same e = let is : x ≡ s = cc in rw (← is) (str_eq_sound symbol (name_of x) same)
    go false differ e = later e

-- `dlsym` finds a function exactly under its own name.
dlsym_iff : (symbol : Bytes) (s : Symbol) → (dlsym symbol ≡ some s) ↔ (symbol ≡ name_of s)
unfolding dlsym
dlsym_iff symbol s = (forth, λ e. rw e (own s))
  where
    forth : dlsym symbol ≡ some s → symbol ≡ name_of s
    forth = named symbol s stub_pg_magic_func _ (
        named symbol s stub_pg_init _ (
          named symbol s dsnowball_init _ (
            named symbol s pg_finfo_dsnowball_init _ (
              named symbol s pg_finfo_dsnowball_lexize _ (
                named symbol s pg_finfo_plpgsql_call_handler _ (
                  named symbol s pg_finfo_plpgsql_inline_handler _ (
                    named symbol s pg_finfo_plpgsql_validator _ (
                      named symbol s plpgsql_call_handler _ (
                        named symbol s plpgsql_inline_handler _
                          (named symbol s plpgsql_validator none (λ e. cc)))))))))))

    own : (s : Symbol) → dlsym (name_of s) ≡ some s
    own stub_pg_magic_func = refl
    own stub_pg_init = refl
    own dsnowball_init = refl
    own pg_finfo_dsnowball_init = refl
    own pg_finfo_dsnowball_lexize = refl
    own pg_finfo_plpgsql_call_handler = refl
    own pg_finfo_plpgsql_inline_handler = refl
    own pg_finfo_plpgsql_validator = refl
    own plpgsql_call_handler = refl
    own plpgsql_inline_handler = refl
    own plpgsql_validator = refl

-- On two strings, `ends_with` answers true exactly when the first is some bytes followed by the
-- second.
ends_with_iff :
    (str suffix : Bytes)
    → (ends_with (some str) (some suffix) ≡ true) ↔ ((front : Bytes) × (str ≡ front ++ suffix))
unfolding ends_with
ends_with_iff str suffix = (forth, back)
  where
    empty : (xs : Bytes) → length xs ≡ 0 → xs ≡ []
    empty [] h = refl
    empty (x ∷ xs) h = absurd (omega arith)

    forth : ends_with (some str) (some suffix) ≡ true → (front : Bytes) × (str ≡ front ++ suffix)
    forth e =
        let start = length str - length suffix in
        let fits : length suffix ≤ length str = ground arith in
        let left : length (drop start str) ≡ length suffix = omega (arith, length-drop start str) in
        let (rest, found) = strncmp_eq-split (drop start str) suffix (omega arith) (ground arith) in
        let none_left : rest ≡ [] =
          empty rest (omega (arith, ap length found, length-append suffix rest)) in
        let tail_is : drop start str ≡ suffix =
          found ∙ ap (λ t. suffix ++ t) none_left ∙ append-nil suffix in
        (take start str, sym (take-append-drop start str) ∙ ap (λ t. take start str ++ t) tail_is)

    back : (front : Bytes) × (str ≡ front ++ suffix) → ends_with (some str) (some suffix) ≡ true
    back (front, e) = rw e (
        ground (
          arith,
          length-append front suffix,
          drop-append front suffix,
          strncmp_eq-append suffix [],
          append-nil suffix,
        ))
