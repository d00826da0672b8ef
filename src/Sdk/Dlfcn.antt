-- ===== src/Sdk/Dlfcn.antt =====
-- wasm-build/sdk_port-wasi/sdk_port-wasi-dlfcn.c: `dlopen` and `dlsym` over the names that are
-- linked in. `_PG_init` is counted; what is printed is left out.
pub mod Symbols
pub mod Loads
use pglite_build.Prelude.{
  ℕ, zero, suc, ◌+◌, ◌-◌, Bool, false, Option, none, some, List, [], ◌∷◌, Bytes, codes, str_eq, ℤ,
  pos, gt_zero, ltb, length, set, drop, if◌then◌else◌, get_elem?,
}
use pglite_build.Tools.{strncmp_eq}
use pglite_build.Sdk.Dict.{Dict, dict_new, dict_add, dict_find_index}

unfoldable pub ends_with : Option Bytes → Option Bytes → Bool
ends_with none suffix = false
ends_with (some str) none = false
ends_with (some str) (some suffix) =
    if ltb (length str) (length suffix)
    then false
    else strncmp_eq (drop (length str - length suffix) str) suffix (length suffix)

-- `dltab` with its null pointers, as long as the array is, `dltab_index`, and the calls of
-- `_PG_init`.
pub record Linker : Type 0 where
  pub dltab : List (Option Dict)
  pub dltab_index : ℕ
  pub pg_inits : ℕ

-- What a call comes to: its answer, an access past the end of `dltab` or of a table's entries, or
-- a null table that is read.
pub data Access (A : Type 0) : Type 0 where
  done : A → Access A
  past_end null_read : Access A

unfoldable pub then_access : {A B : Type 0} → Access A → (A → Access B) → Access B
then_access (done x) f = f x
then_access past_end f = past_end
then_access null_read f = null_read

-- The operations on a table have no other fault.
unfoldable pub in_table : {A : Type 0} → Option A → Access A
in_table none = past_end
in_table (some x) = done x

-- The first search of `dlopen`, from table `i` on: `done none` when no table answers.
unfoldable pub known_from : List (Option Dict) → Bytes → ℕ → ℕ → Access (Option ℕ)
known_from tabs filename zero i = done none
known_from [] filename (suc n) i = past_end
known_from (none ∷ tabs) filename (suc n) i = null_read
known_from (some d ∷ tabs) filename (suc n) i =
    let rest = known_from tabs filename n (suc i) in
    then_access (in_table (dict_find_index d filename))
      (λ idx. if gt_zero idx then done (some i) else rest)

-- The handle of a new library, which is the counter after the call.
unfoldable pub load : Linker → Bytes → Access (ℕ × Linker)
load l filename =
    let next = l.dltab_index + 1 in
    let inits = if ends_with (some filename) (some (codes "/plpgsql.so")) then 1 else 0 in
    then_access (in_table (dict_add dict_new filename (pos (l.dltab_index)))) (λ tab.
      if ltb next (length l.dltab)
      then done (
        next,
        record {
          dltab = set l.dltab next (some tab);
          dltab_index = next;
          pg_inits = l.pg_inits + inits;
        },
      )
      else past_end)

unfoldable pub known_or_load : Linker → Bytes → Option ℕ → Access (ℕ × Linker)
known_or_load l filename (some i) = done (i, l)
known_or_load l filename none = load l filename

unfoldable pub dlopen : Linker → Bytes → Access (ℕ × Linker)
unfolding known_or_load load known_from
dlopen l filename =
    then_access (known_from l.dltab filename l.dltab_index 0) (known_or_load l filename)

-- The functions that `dlsym` knows.
pub data Symbol : Type 0 where
  stub_pg_magic_func stub_pg_init dsnowball_init pg_finfo_dsnowball_init : Symbol
  pg_finfo_dsnowball_lexize pg_finfo_plpgsql_call_handler : Symbol
  pg_finfo_plpgsql_inline_handler pg_finfo_plpgsql_validator : Symbol
  plpgsql_call_handler plpgsql_inline_handler plpgsql_validator : Symbol

-- `none` is a null pointer.
unfoldable pub dlsym : Bytes → Option Symbol
dlsym symbol =
    if str_eq symbol (codes "Pg_magic_func")
    then some stub_pg_magic_func
    else if str_eq symbol (codes "_PG_init")
    then some stub_pg_init
    else if str_eq symbol (codes "dsnowball_init")
    then some dsnowball_init
    else if str_eq symbol (codes "pg_finfo_dsnowball_init")
    then some pg_finfo_dsnowball_init
    else if str_eq symbol (codes "pg_finfo_dsnowball_lexize")
    then some pg_finfo_dsnowball_lexize
    else if str_eq symbol (codes "pg_finfo_plpgsql_call_handler")
    then some pg_finfo_plpgsql_call_handler
    else if str_eq symbol (codes "pg_finfo_plpgsql_inline_handler")
    then some pg_finfo_plpgsql_inline_handler
    else if str_eq symbol (codes "pg_finfo_plpgsql_validator")
    then some pg_finfo_plpgsql_validator
    else if str_eq symbol (codes "plpgsql_call_handler")
    then some plpgsql_call_handler
    else if str_eq symbol (codes "plpgsql_inline_handler")
    then some plpgsql_inline_handler
    else if str_eq symbol (codes "plpgsql_validator")
    then some plpgsql_validator
    else none
